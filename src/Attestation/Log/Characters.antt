-- ===== src/Attestation/Log/Characters.antt =====
-- `AttestationLog` and `load_record_from_file` of attestation.py, on the characters of the file:
-- how lines are cut and stripped, and what `append` writes. Attestation/Log has the same on the
-- lines.
pub mod Legible
pub mod Refined
pub mod Loaded
pub mod Torn
use halt_proof.Base.{
  String, ◌<>◌, ◌==◌, Bool, true, false, Option, none, some, List, [], ◌∷◌, map, if◌then◌else◌,
}
use halt_proof.Base.Text.{strip}
use halt_proof.Base.Lines.{split_lines, is_newline, is_boundary}
use halt_proof.Base.Results.{Result, ok, err}
use halt_proof.Errors.{Exn, attestation_error, empty_file, file_not_found, other_error}
use halt_proof.Json.{obj}
use halt_proof.Platform.{Platform}
use halt_proof.Attestation.{AttestationRecord, to_dict}
use halt_proof.Attestation.Log.{Line, LogFile, read_line}

-- The characters of a JSON text, and the text that `json.loads` gets.
pub record Script (p : Platform) : Type 0 where
  pub show : p.Text → String
  pub text : String → p.Text

module _ (p : Platform) (c : Script p) where
  -- `line.strip()`, where it is not empty.
  unfoldable pub line_of : String → Line p
  line_of s = if strip s == "" then none else some (c.text (strip s))

  -- What `for line in fh` finds.
  unfoldable pub lines_of : Option String → LogFile p
  unfolding line_of split_lines is_newline
  lines_of none = none
  lines_of (some s) = some (map line_of (split_lines is_newline false s))

  -- `line + "\n"`
  unfoldable pub written_line : AttestationRecord → String
  written_line r = c.show (p.dumps (obj (to_dict r))) <> "\n"

  -- `append`: the line goes behind what the file holds, whatever that ends with.
  unfoldable pub append_line : Option String → AttestationRecord → Option String
  unfolding written_line
  append_line none r = some (written_line r)
  append_line (some s) r = some (s <> written_line r)

  -- The last of the lines that are not blank.
  unfoldable pub last_full : Option String → List String → Option String
  last_full kept [] = kept
  last_full kept (s ∷ ss) = last_full (if strip s == "" then kept else some s) ss

  -- `load_record_from_file`
  unfoldable pub load_characters : Option String → Result Exn AttestationRecord
  unfolding last_full split_lines is_boundary read_line
  load_characters none = err file_not_found
  load_characters (some s) =
      if strip s == ""
      then err (attestation_error empty_file)
      else elim (last_full none (split_lines is_boundary false (strip s))) [
        | none ↦ err (other_error "IndexError")
        | some line ↦ read_line p (c.text line)
      ]
