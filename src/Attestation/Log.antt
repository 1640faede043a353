-- ===== src/Attestation/Log.antt =====
-- `AttestationLog` and `load_record_from_file` of attestation.py. A log file is the list of its
-- lines, each as `line.strip()` leaves it: blank, or a text. A file that does not exist is `none`.
-- Attestation/Log/Characters has the same file as its characters.
pub mod Written
pub mod Refined
pub mod Characters
use halt_proof.Base.{
  String, ◌==◌, Bool, true, false, ◌||◌, Option, none, some, List, [], ◌∷◌, ◌++◌, if◌then◌else◌,
}
use halt_proof.Base.Int.{ℤ, pos, next}
use halt_proof.Base.Decimal.{str_ℤ}
use halt_proof.Base.Results.{Result, ok, err, ◌>>=◌}
use halt_proof.Errors.{
  Exn, attestation_error, empty_file, type_error, attribute_error, key_error, json_decode_error,
  file_not_found,
}
use halt_proof.Json.{Json, null, bool, num, str, arr, obj, Fields, get, truthy}
use halt_proof.Platform.{Platform}
use halt_proof.Attestation.{AttestationRecord, to_dict, from_dict, dict_content_hash}

-- `value + 1`: a Boolean is an integer too.
plus_one : Json → Result Exn ℤ
unfolding next
plus_one (num n) = ok (next n)
plus_one (bool true) = ok (pos 2)
plus_one (bool false) = ok (pos 1)
plus_one _ = err type_error

-- `last["seq"] + 1` of a dict.
unfoldable pub seq_after : Fields → Result Exn ℤ
unfolding plus_one get
seq_after m = elim (get "seq" m) [ none ↦ err key_error | some v ↦ plus_one v ]

module _ (p : Platform) where
  abbrev pub Line : Type 0
  Line = Option p.Text

  abbrev pub LogFile : Type 0
  LogFile = Option (List Line)

  -- The loop of `_last_record`, from the line kept so far.
  unfoldable pub last_line : Option p.Text → List Line → Option p.Text
  last_line kept [] = kept
  last_line kept (none ∷ lines) = last_line kept lines
  last_line kept (some t ∷ lines) = last_line (some t) lines

  -- `json.loads(line)`; the value `null` is `None`.
  unfoldable pub load_value : p.Text → Result Exn (Option Json)
  load_value t = elim (p.loads t) [
    | none ↦ err json_decode_error
    | some null ↦ ok none
    | some v ↦ ok (some v)
  ]

  -- `_last_record`
  unfoldable pub last_record : LogFile → Result Exn (Option Json)
  last_record none = ok none
  last_record (some lines) = elim (last_line none lines) [ none ↦ ok none | some t ↦ load_value t ]

  -- `next_seq`
  unfoldable pub next_seq : LogFile → Result Exn ℤ
  unfolding truthy
  next_seq f = do
    last ← last_record f
    elim last [
      | none ↦ ok (pos 1)
      | some (obj m) ↦ if truthy (obj m) then seq_after m else ok (pos 1)
      | some v ↦ if truthy v then err type_error else ok (pos 1)
    ]

  -- `chain_state`
  unfoldable pub chain_state : LogFile → Result Exn (ℤ × String)
  chain_state f = do
    last ← last_record f
    elim last [
      | none ↦ ok (pos 1, "")
      | some (obj m) ↦ do seq ← seq_after m; ok (seq, dict_content_hash p m)
      | some v ↦ err type_error
    ]

  -- `append`: the parent directory and the file are made if they are not there.
  unfoldable pub append : LogFile → AttestationRecord → LogFile
  append none r = some (some (p.dumps (obj (to_dict r))) ∷ [])
  append (some lines) r = some (lines ++ some (p.dumps (obj (to_dict r))) ∷ [])

  -- `AttestationRecord.from_dict(json.loads(line))`
  unfoldable pub read_line : p.Text → Result Exn AttestationRecord
  read_line t = elim (p.loads t) [
    | none ↦ err json_decode_error
    | some (obj m) ↦ from_dict m
    | some v ↦ err attribute_error
  ]

  unfoldable pub read_lines : List Line → Result Exn (List AttestationRecord)
  unfolding read_line
  read_lines [] = ok []
  read_lines (none ∷ lines) = read_lines lines
  read_lines (some t ∷ lines) = do r ← read_line t; rs ← read_lines lines; ok (r ∷ rs)

  -- `read_all`
  unfoldable pub read_all : LogFile → Result Exn (List AttestationRecord)
  unfolding read_lines
  read_all none = ok []
  read_all (some lines) = read_lines lines

  -- `load_record_from_file`: the last line of the file that is not blank.
  unfoldable pub load_record_from_file : LogFile → Result Exn AttestationRecord
  load_record_from_file none = err file_not_found
  load_record_from_file (some lines) = elim (last_line none lines) [
    | none ↦ err (attestation_error empty_file)
    | some t ↦ read_line t
  ]

-- `record.id == attestation_id or str(record.seq) == attestation_id`
unfoldable pub matches : String → AttestationRecord → Bool
unfolding str_ℤ
matches ref r = r.id == ref || str_ℤ r.seq == ref

-- The loop of `find`.
unfoldable pub first_match : String → List AttestationRecord → Option AttestationRecord
unfolding matches
first_match ref [] = none
first_match ref (r ∷ rs) = if matches ref r then some r else first_match ref rs

-- `find`
unfoldable pub find : (p : Platform) → LogFile p → String → Result Exn (Option AttestationRecord)
unfolding read_all first_match
find p f ref = do rs ← read_all p f; ok (first_match ref rs)
