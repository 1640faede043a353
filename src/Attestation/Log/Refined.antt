-- ===== src/Attestation/Log/Refined.antt =====
-- The contract of `AttestationLog`, a list of records that only grows, and sequences of calls.
use halt_proof.Base.{String, ◌≡◌, refl, ap₂, Bool, Option, List, [], ◌∷◌, ◌++◌, map}
use halt_proof.Base.Int.{ℤ}
use halt_proof.Base.Results
use halt_proof.Base.Results.{Result, ok, err}
use halt_proof.Errors.{Exn}
use halt_proof.Platform.{Platform, IsLawful}
use halt_proof.Attestation.{AttestationRecord}
use halt_proof.Attestation.Codec.{normalise}
use halt_proof.Attestation.Log.{LogFile, append, read_all, chain_state, next_seq, find, first_match}
use halt_proof.Attestation.Log.Written.{
  FileHolds, state_after, append-FileHolds, read_all-FileHolds, chain_state-FileHolds,
  next_seq-FileHolds,
}
use halt_proof.Attestation.Chain.{Break, verify_chain, verify_log}

-- The methods.
pub data Operation : Type 0 where
  append_record : AttestationRecord → Operation
  read_records next_number state_of_chain check : Operation
  find_record : String → Operation

-- What they return.
pub data Answer : Type 0 where
  appended : Answer
  records : List AttestationRecord → Answer
  number : ℤ → Answer
  state : ℤ × String → Answer
  match : Option AttestationRecord → Answer
  verdict : Bool × Option Break → Answer

-- The contract: the answer, with the keys inside the records sorted, and the records afterwards.
unfoldable pub promised :
    Platform → Operation → List AttestationRecord → Answer × List AttestationRecord
promised p (append_record r) rs = (appended, rs ++ r ∷ [])
promised p read_records rs = (records (map normalise rs), rs)
promised p next_number rs = (number (state_after p rs).0, rs)
promised p state_of_chain rs = (state (state_after p rs), rs)
promised p check rs = (verdict (verify_chain p (map normalise rs)), rs)
promised p (find_record ref) rs = (match (first_match ref (map normalise rs)), rs)

unfoldable pub promised_all :
    Platform → List Operation → List AttestationRecord → List Answer × List AttestationRecord
promised_all p [] rs = ([], rs)
promised_all p (o ∷ os) rs =
    let step = promised p o rs in let rest = promised_all p os step.1 in (step.0 ∷ rest.0, rest.1)

-- An answer to a result.
abbrev answer : {A : Type 0} → (A → Answer) → Result Exn A → Result Exn Answer
answer f r = Results.◌>>=◌ r (λ a. ok (f a))

-- The method of the class on the file.
unfoldable pub call : (p : Platform) → Operation → LogFile p → Result Exn Answer × LogFile p
call p (append_record r) f = (ok appended, append p f r)
call p read_records f = (answer records (read_all p f), f)
call p next_number f = (answer number (next_seq p f), f)
call p state_of_chain f = (answer state (chain_state p f), f)
call p check f = (answer verdict (verify_log p f), f)
call p (find_record ref) f = (answer match (find p f ref), f)

-- One call after the other.
unfoldable pub call_all :
    (p : Platform) → List Operation → LogFile p → List (Result Exn Answer) × LogFile p
call_all p [] f = ([], f)
call_all p (o ∷ os) f =
    let step = call p o f in let rest = call_all p os step.1 in (step.0 ∷ rest.0, rest.1)

module _ (p : Platform) (L : IsLawful p) where
  call-answers :
      (o : Operation) (f : LogFile p) (rs : List AttestationRecord)
      → FileHolds p f rs
      → (call p o f).0 ≡ ok (promised p o rs).0
  unfolding call promised verify_log find
  call-answers (append_record r) f rs h = refl
  call-answers read_records f rs h = rw (read_all-FileHolds p L f rs h) refl
  call-answers next_number f rs h = rw (next_seq-FileHolds p L f rs h) refl
  call-answers state_of_chain f rs h = rw (chain_state-FileHolds p L f rs h) refl
  call-answers check f rs h = rw (read_all-FileHolds p L f rs h) refl
  call-answers (find_record ref) f rs h = rw (read_all-FileHolds p L f rs h) refl

  call-FileHolds :
      (o : Operation) (f : LogFile p) (rs : List AttestationRecord)
      → FileHolds p f rs
      → FileHolds p (call p o f).1 (promised p o rs).1
  unfolding call promised
  call-FileHolds (append_record r) f rs h = append-FileHolds p f rs r h
  call-FileHolds read_records f rs h = h
  call-FileHolds next_number f rs h = h
  call-FileHolds state_of_chain f rs h = h
  call-FileHolds check f rs h = h
  call-FileHolds (find_record ref) f rs h = h

  -- Let a file hold these records, or let there be neither. After any sequence of calls of
  -- `append`, `read_all`, `next_seq`, `chain_state`, `find` and `verify_chain`, each has returned
  -- what the contract says of the list, none has raised, and the file holds the list that the
  -- contract says.
  pub call_all-promised_all :
      (os : List Operation) (f : LogFile p) (rs : List AttestationRecord)
      → FileHolds p f rs
      → ((call_all p os f).0 ≡ map ok (promised_all p os rs).0)
        × FileHolds p (call_all p os f).1 (promised_all p os rs).1
  unfolding call_all promised_all
  call_all-promised_all [] f rs h = (refl, h)
  call_all-promised_all (o ∷ os) f rs h =
      let (answers, held) =
        call_all-promised_all os (call p o f).1 (promised p o rs).1 (call-FileHolds o f rs h) in
      (ap₂ ◌∷◌ (call-answers o f rs h) answers, held)
