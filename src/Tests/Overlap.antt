-- ===== src/Tests/Overlap.antt =====
-- Two halts that overlap on a new log.
use halt_proof.Base.{◌==◌, ◌≡◌, ◌≢◌, ◌↔◌, refl, ap, true, false≢true, none, [], ◌∷◌}
use halt_proof.Base.Int.{pos}
use halt_proof.Base.Results.{ok}
use halt_proof.Platform.Sample.{sample, sample-IsLawful, key}
use halt_proof.Attestation.{AttestationRecord, sign_record, build_record}
use halt_proof.Attestation.Log.{chain_state, append, last_record}
use halt_proof.Attestation.Chain.{verify_log}
use halt_proof.Attestation.Chain.Overlap.{Site, Run, empty, start, next, take, write, IsSerial}
use halt_proof.Attestation.Chain.Overlap.Serial.{verify_log-iff-IsSerial}
use halt_proof.Tests.{r₁}

-- The second halt makes a record of its own.
abbrev other : AttestationRecord
other = record r₁ { id = "other" }

-- Both were told to take the number 1.
abbrev both_told : Site sample
both_told = record { file = none; tickets = (pos 1, "") ∷ (pos 1, "") ∷ []; written = [] }

abbrev one_written : Site sample
one_written = record {
  file = append sample none (sign_record sample r₁ key);
  tickets = (pos 1, "") ∷ [];
  written = sign_record sample r₁ key ∷ [];
}

abbrev both_written : Site sample
both_written = record {
  file = append sample one_written.file (sign_record sample other key);
  tickets = [];
  written = sign_record sample r₁ key ∷ sign_record sample other key ∷ [];
}

chain_state-empty : chain_state sample none ≡ ok (pos 1, "")
unfolding chain_state last_record
chain_state-empty = refl

r₁-seq : r₁.seq ≡ pos 1
unfolding sign_record build_record
r₁-seq = refl

r₁-prev_hash : r₁.prev_hash ≡ ""
unfolding sign_record build_record
r₁-prev_hash = refl

other-IsFresh : (sign_record sample r₁ key).id ≢ "other"
unfolding sign_record build_record
other-IsFresh e = false≢true (ap (λ s. s == "other") e)

overlapping : Run sample both_written
overlapping =
    next
      (next
        (next
          (next start (
            take (empty sample) (record { file = none; tickets = (pos 1, "") ∷ []; written = [] })
              (pos 1, "") chain_state-empty refl))
          (take (record { file = none; tickets = (pos 1, "") ∷ []; written = [] }) both_told
            (pos 1, "") chain_state-empty refl))
        (write both_told one_written [] ((pos 1, "") ∷ []) (pos 1, "") r₁ key refl r₁-seq
          r₁-prev_hash tt refl))
      (write one_written both_written [] [] (pos 1, "") other key refl r₁-seq r₁-prev_hash
        (other-IsFresh, tt) refl)

verify_log-iff-IsSerial_example :
    (verify_log sample both_written.file ≡ ok (true, none)) ↔ IsSerial sample overlapping
verify_log-iff-IsSerial_example = verify_log-iff-IsSerial sample sample-IsLawful overlapping
