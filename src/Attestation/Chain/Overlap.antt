-- ===== src/Attestation/Chain/Overlap.antt =====
-- Halts that overlap on one log. Each calls `chain_state`, and later `append` with the number and
-- the hash that it got; between the two calls others may do the same.
pub mod Tickets
pub mod Serial
use halt_proof.Base.{String, ◌≡◌, ◌≢◌, List, [], ◌∷◌, ◌++◌, All, none}
use halt_proof.Base.Int.{ℤ}
use halt_proof.Base.Results.{ok}
use halt_proof.Platform.{Platform}
use halt_proof.Attestation.{AttestationRecord, sign_record}
use halt_proof.Attestation.Log.{LogFile, chain_state, append}

-- The log, the answers of `chain_state` that halts hold who have not appended yet, and what was
-- appended.
pub record Site (p : Platform) : Type 0 where
  pub file : LogFile p
  pub tickets : List (ℤ × String)
  pub written : List AttestationRecord

module _ (p : Platform) where
  abbrev pub empty : Site p
  empty = record { file = none; tickets = []; written = [] }

  -- One of the halts goes on: it asks for its number and hash, or appends its signed record, whose
  -- id no record before it has.
  pub data Step : Site p → Site p → Type 0 where
    take :
        (s v : Site p) (t : ℤ × String)
        → chain_state p s.file ≡ ok t
        → v ≡ record s { tickets = t ∷ s.tickets }
        → Step s v
    write :
        (s v : Site p) (before after : List (ℤ × String)) (t : ℤ × String) (r : AttestationRecord)
        (k : p.PrivateKey)
        → s.tickets ≡ before ++ t ∷ after
        → r.seq ≡ t.0
        → r.prev_hash ≡ t.1
        → All (λ (q : AttestationRecord). q.id ≢ r.id) s.written
        → v ≡ record {
          file = append p s.file (sign_record p r k);
          tickets = before ++ after;
          written = s.written ++ sign_record p r k ∷ [];
        }
        → Step s v

  -- What halts on a log that did not exist can come to.
  pub data Run : Site p → Type 0 where
    start : Run empty
    next : {s v : Site p} → Run s → Step s v → Run v

  -- At each write, `chain_state` would still answer what the halt was told.
  abbrev pub IsCurrent : {s v : Site p} → Step s v → Type 0
  IsCurrent (take s v t e same) = Unit
  IsCurrent (write s v before after t r k held es eh fresh same) = chain_state p s.file ≡ ok t

  abbrev pub IsSerial : {s : Site p} → Run s → Type 0
  IsSerial start = Unit
  IsSerial (next run step) = IsSerial run × IsCurrent step
