-- ===== src/Tests/Chain.antt =====
-- The theorems on records, logs and chains, on a log of three records.
use halt_proof.Base.{◌≡◌, refl, true, false, none, some, List, [], ◌∷◌, ◌++◌, map}
use halt_proof.Base.Results.{ok, err}
use halt_proof.Platform.Sample.{sample, key, sample-IsLawful}
use halt_proof.Attestation.{AttestationRecord, build_record, sign_record, verify_record}
use halt_proof.Attestation.Signing.{
  IsSigned, verify_record-iff-IsSigned, verify_record-sign_record, verify_record_tampered, Forgery,
  signer_verdict,
}
use halt_proof.Attestation.Codec.{normalise}
use halt_proof.Attestation.Log.{LogFile}
use halt_proof.Attestation.Log.Written.{text_of, FileHolds}
use halt_proof.Attestation.Chain.{verify_chain, sequence_gap, first_not_empty, sorted_by_seq}
use halt_proof.Attestation.Chain.Intact.{
  IsVerified, IsIntact, IsIntact-append, verify_chain-iff-IsIntact,
}
use mathlib.Core.List.{Perm, Permᴰ}
use halt_proof.Base.{◌≢◌, ◌⊎◌, ◌↔◌, ap, eq_iff, false≢true}
use halt_proof.Errors.{signature_error, contents_changed}
use halt_proof.Platform.{Collision}
use halt_proof.Attestation.Chain.Binding.{content_hash_binds}
use halt_proof.Attestation.Chain.Deletion.{
  verify_chain_deleted, verify_chain_headless, verify_chain_truncated,
}
use halt_proof.Attestation.Chain.Reordering.{verify_chain_reordered}
use halt_proof.Tests.{r₁, r₂, r₃, follow}

follow-IsVerified : (rs : List AttestationRecord) → IsVerified sample (follow rs)
follow-IsVerified rs =
    (verify_record-sign_record sample sample-IsLawful _ key (sample.public_key key)).0

pub empty-IsIntact : IsIntact sample []
empty-IsIntact = record { signed = tt; starts = tt; linked = tt }

follow-IsIntact :
    (rs : List AttestationRecord) → IsIntact sample rs → IsIntact sample (rs ++ follow rs ∷ [])
unfolding sign_record build_record
follow-IsIntact rs c = IsIntact-append sample rs (follow rs) c (follow-IsVerified rs) refl refl

two-IsIntact : IsIntact sample (r₁ ∷ r₂ ∷ [])
two-IsIntact = follow-IsIntact (r₁ ∷ []) (follow-IsIntact [] empty-IsIntact)

three-IsIntact : IsIntact sample (r₁ ∷ r₂ ∷ r₃ ∷ [])
three-IsIntact = follow-IsIntact (r₁ ∷ r₂ ∷ []) two-IsIntact

verify_record-iff-IsSigned_example :
    ((verify_record sample r₁ none ≡ ok true) ↔ IsSigned sample r₁ none)
    × (verify_record sample r₁ none ≢ ok false)
verify_record-iff-IsSigned_example = verify_record-iff-IsSigned sample r₁ none

verify_record-sign_record_example :
    (verify_record sample (sign_record sample r₁ key) none ≡ ok true)
    × (verify_record sample (sign_record sample r₁ key) (some (sample.public_key key))
        ≡ signer_verdict sample sample-IsLawful (
            sample.Bytes_discrete
              (sample.public_bytes (sample.public_key key))
              (sample.public_bytes (sample.public_key key))))
verify_record-sign_record_example =
    verify_record-sign_record sample sample-IsLawful r₁ key (sample.public_key key)

-- The first record with another host's name.
abbrev tampered : AttestationRecord
tampered = record r₁ { hostname = "login2" }

tampered-normalise : normalise tampered ≢ normalise r₁
unfolding build_record sign_record
tampered-normalise e =
    false≢true ((eq_iff "login2" "login1").1 (ap (λ (r : AttestationRecord). r.hostname) e))

verify_record_tampered_example :
    (verify_record sample tampered none ≡ err (signature_error contents_changed)) ⊎ Forgery sample
verify_record_tampered_example =
    verify_record_tampered sample sample-IsLawful r₁ tampered (follow-IsVerified []) refl refl
      tampered-normalise

-- A file of two records, with a blank line.
abbrev two_lines : LogFile sample
two_lines = some (some (text_of sample r₁) ∷ none ∷ some (text_of sample r₂) ∷ [])

two_lines-FileHolds : FileHolds sample two_lines (r₁ ∷ r₂ ∷ [])
two_lines-FileHolds = (refl, (refl, tt))

verify_chain-iff-IsIntact_example :
    ((verify_chain sample (r₂ ∷ r₁ ∷ []) ≡ (true, none))
      ↔ IsIntact sample (sorted_by_seq (r₂ ∷ r₁ ∷ [])))
    × (((verify_chain sample (r₂ ∷ r₁ ∷ [])).0 ≡ false)
        ↔ (¬ IsIntact sample (sorted_by_seq (r₂ ∷ r₁ ∷ []))))
    × (((verify_chain sample (r₂ ∷ r₁ ∷ [])).0 ≡ false)
        ↔ ((verify_chain sample (r₂ ∷ r₁ ∷ [])).1 ≢ none))
verify_chain-iff-IsIntact_example = verify_chain-iff-IsIntact sample (r₂ ∷ r₁ ∷ [])

content_hash_binds_example :
    (map normalise (r₁ ∷ r₂ ∷ []) ≡ map normalise (r₁ ∷ r₂ ∷ [])) ⊎ Collision sample
content_hash_binds_example =
    content_hash_binds sample sample-IsLawful (r₁ ∷ []) (r₁ ∷ []) r₂ r₂ two-IsIntact two-IsIntact
      refl

verify_chain_deleted_example :
    verify_chain sample (r₁ ∷ r₃ ∷ []) ≡ (false, some (sequence_gap r₁.seq r₃.seq))
verify_chain_deleted_example = verify_chain_deleted sample [] r₁ r₂ [] r₃ [] three-IsIntact

verify_chain_headless_example :
    verify_chain sample (r₂ ∷ r₃ ∷ []) ≡ (false, some (first_not_empty r₂.seq r₂.prev_hash))
verify_chain_headless_example =
    verify_chain_headless sample sample-IsLawful r₁ [] r₂ (r₃ ∷ []) three-IsIntact

verify_chain_truncated_example : verify_chain sample (r₁ ∷ r₂ ∷ []) ≡ (true, none)
verify_chain_truncated_example =
    verify_chain_truncated sample (r₁ ∷ r₂ ∷ []) (r₃ ∷ []) three-IsIntact

swapped : Perm (r₁ ∷ r₂ ∷ []) (r₂ ∷ r₁ ∷ [])
swapped = ∣ Permᴰ.swap refl refl ∣₁

verify_chain_reordered_example : verify_chain sample (r₂ ∷ r₁ ∷ []) ≡ (true, none)
verify_chain_reordered_example =
    verify_chain_reordered sample (r₁ ∷ r₂ ∷ []) (r₂ ∷ r₁ ∷ []) two-IsIntact swapped

-- Another record that follows the first, of another operator.
abbrev rival : AttestationRecord
rival = sign_record sample (record r₂ { operator = "other" }) key
