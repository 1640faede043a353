-- ===== src/Attestation/Chain.antt =====
-- `verify_chain` of attestation.py.
pub mod Order
pub mod Intact
pub mod Steps
pub mod Deletion
pub mod Reordering
pub mod Race
pub mod Duplicate
pub mod Overlap
pub mod Binding
pub mod Extended
use halt_proof.Base.{
  String, ◌==◌, Bool, true, false, Option, none, some, List, [], ◌∷◌, if◌then◌else◌, not,
}
use halt_proof.Base.Int.{ℤ, next, leb_ℤ, eqb_ℤ}
use halt_proof.Base.Results.{Result, ok, err, ◌>>=◌}
use halt_proof.Errors.{Exn}
use halt_proof.Platform.{Platform}
use halt_proof.Attestation.{AttestationRecord, record_content_hash, verify_record}
use halt_proof.Attestation.Log.{LogFile, read_all}

-- The reason in a failed result, with the values that its message quotes.
pub data Break : Type 0 where
  signature_invalid : ℤ → Exn → Break
  first_not_empty : ℤ → String → Break
  sequence_gap : ℤ → ℤ → Break
  hash_mismatch : ℤ → ℤ → Break

-- `sorted(records, key=lambda r: r.seq)`, which keeps records of one number in their order.
unfoldable pub insert_by_seq : AttestationRecord → List AttestationRecord → List AttestationRecord
insert_by_seq r [] = r ∷ []
insert_by_seq r (s ∷ rs) = if leb_ℤ r.seq s.seq then r ∷ s ∷ rs else s ∷ insert_by_seq r rs

unfoldable pub sorted_by_seq : List AttestationRecord → List AttestationRecord
unfolding insert_by_seq
sorted_by_seq [] = []
sorted_by_seq (r ∷ rs) = insert_by_seq r (sorted_by_seq rs)

-- `ordered[0].prev_hash != ""`
unfoldable pub first_break : List AttestationRecord → Option Break
first_break [] = none
first_break (r ∷ rs) = if r.prev_hash == "" then none else some (first_not_empty r.seq r.prev_hash)

-- The first of two checks that failed.
abbrev pub or_then : Option Break → Option Break → Option Break
or_then none next = next
or_then (some b) next = some b

module _ (p : Platform) where
  -- The loop over `verify_record`. Both of its exceptions are caught; the code raises no other.
  unfoldable pub signature_break : List AttestationRecord → Option Break
  signature_break [] = none
  signature_break (r ∷ rs) =
      let rest = signature_break rs in
      elim (verify_record p r none) [ ok _ ↦ rest | err e ↦ some (signature_invalid r.seq e) ]

  -- The body of the loop over pairs of neighbours.
  unfoldable pub pair_break : AttestationRecord → AttestationRecord → Option Break
  pair_break previous current =
      if eqb_ℤ current.seq (next previous.seq)
      then if current.prev_hash == record_content_hash p previous
        then none
        else some (hash_mismatch current.seq previous.seq)
      else some (sequence_gap previous.seq current.seq)

  -- The loop over `zip(ordered, ordered[1:])`.
  unfoldable pub link_break : List AttestationRecord → Option Break
  link_break [] = none
  link_break (r ∷ []) = none
  link_break (r ∷ s ∷ rs) = or_then (pair_break r s) (link_break (s ∷ rs))

  unfoldable pub chain_break : List AttestationRecord → Option Break
  chain_break ordered =
      or_then (signature_break ordered) (or_then (first_break ordered) (link_break ordered))

  -- `(True, None)`, or `(False, reason)`.
  unfoldable pub verdict : Option Break → Bool × Option Break
  verdict none = (true, none)
  verdict (some b) = (false, some b)

  -- The module's `verify_chain`.
  unfoldable pub verify_chain : List AttestationRecord → Bool × Option Break
  verify_chain [] = (true, none)
  verify_chain (r ∷ rs) = verdict (chain_break (sorted_by_seq (r ∷ rs)))

  -- `AttestationLog.verify_chain`
  unfoldable pub verify_log : LogFile p → Result Exn (Bool × Option Break)
  verify_log f = do rs ← read_all p f; ok (verify_chain rs)
