-- ===== src/Cli/Record.antt =====
-- The exit code of `haltproof verify` of one record.
use halt_proof.Base.{
  ℕ, String, ◌≡◌, ◌↔◌, refl, ap, ◌∙◌, Bool, true, false, Option, none, some, arith,
}
use halt_proof.Base.Results.{Result, ok, err}
use halt_proof.Errors.{Exn, attestation_error, signature_error}
use halt_proof.Platform.{Platform}
use halt_proof.Exec.{pure, reads, ◌>>=◌, Returns}
use halt_proof.Host.{Host}
use halt_proof.World.{World}
use halt_proof.Guarded.{guarded, caught}
use halt_proof.Attestation.{AttestationRecord, verify_record}
use halt_proof.Attestation.Signing.{IsSigned, verify_record-iff-IsSigned}
use halt_proof.Attestation.Refusal.{IsAnswer, verify_record-IsAnswer}
use halt_proof.Core.{Verified, verified, referenced, trusted_key, run_verify, non_empty}
use halt_proof.Core.Halt.{Setup}
use halt_proof.Cli.{
  exits, one_record, resolve_format, exit_code, finish, is_refused, VerifyOptions, verify,
  check_record,
}
use halt_proof.Cli.Exit.{verify_single}

-- The code for a result of `run_verify`.
abbrev code_of : Verified → ℕ
code_of v = exit_code (is_refused (one_record v))

abbrev Accepted : Result Exn Bool → Type 0
Accepted res = (b : Bool) × (res ≡ ok b)

-- The exceptions of `verify_record` make the result of `run_verify`, and the code 1.
verified-answers :
    (r : AttestationRecord) (res : Result Exn Bool)
    → IsAnswer res
    → (v : Verified) × (verified r res ≡ ok v) × (v.found ≡ r) × ((code_of v ≡ 0) ↔ Accepted res)
unfolding verified exit_code is_refused
verified-answers r (ok b) h =
    (record { valid = true; error = none; found = r }, refl, refl, (λ e. (b, refl), λ e. refl))
verified-answers r (err (attestation_error f)) h = (
  record { valid = false; error = some (attestation_error f); found = r },
  refl,
  refl,
  (λ e. absurd (omega (arith, e)), λ e. cc),
)
verified-answers r (err (signature_error f)) h = (
  record { valid = false; error = some (signature_error f); found = r },
  refl,
  refl,
  (λ e. absurd (omega (arith, e)), λ e. cc),
)
verified-answers r (err _) h = absurd h

module _ (p : Platform) (h : Host) (u : Setup) where
  Accepted-iff-IsSigned :
      (r : AttestationRecord) (trusted : Option p.PublicKey)
      → Accepted (verify_record p r trusted) ↔ IsSigned p r trusted
  Accepted-iff-IsSigned r trusted =
      let (iff, never) = verify_record-iff-IsSigned p r trusted in
      (λ (b, e). only b e, λ s. (true, iff.1 s))
    where
      only : (b : Bool) → verify_record p r trusted ≡ ok b → IsSigned p r trusted
      only true e = (verify_record-iff-IsSigned p r trusted).0.0 e
      only false e = absurd ((verify_record-iff-IsSigned p r trusted).1 e)

  run_verify-returned :
      (o : VerifyOptions) (ref : String) (w : World p) (r : AttestationRecord)
      (trusted : Option p.PublicKey) (v : Verified)
      → referenced p u.default_log w ref o.attestation_log_path ≡ ok r
      → trusted_key p u.default_log w o.trusted_key_path ≡ ok trusted
      → verified r (verify_record p r trusted) ≡ ok v
      → run_verify p u.default_log w ref o.attestation_log_path o.trusted_key_path ≡ ok v
  unfolding run_verify
  run_verify-returned o ref w r trusted v found loaded e = rw (found, run_verify) (rw (loaded) e)

  pub check_record-Returns :
      (o : VerifyOptions) (ref : String) (w : World p) (v : Verified)
      → run_verify p u.default_log w ref o.attestation_log_path o.trusted_key_path ≡ ok v
      → Returns
          (check_record p h u o ref)
          w
          (exits (code_of v) (resolve_format o.format) (one_record v))
          w
  unfolding check_record finish guarded caught ◌>>=◌ reads pure
  check_record-Returns o ref w v e = rw e refl

  -- Let the reference name a record, and let the trusted key be loaded if there is one. Then
  -- `haltproof verify` ends with an exit code and prints the result for this record, and the code
  -- is 0 exactly if the record holds a signature of its canonical bytes under its embedded key,
  -- that key being the trusted one where one is given.
  pub verify_record_exit_code :
      (o : VerifyOptions) (ref : String) (w : World p) (r : AttestationRecord)
      (trusted : Option p.PublicKey)
      → o.chain_mode ≡ false
      → non_empty o.attestation_ref ≡ some ref
      → referenced p u.default_log w ref o.attestation_log_path ≡ ok r
      → trusted_key p u.default_log w o.trusted_key_path ≡ ok trusted
      → (code : ℕ) × (v : Verified) × Returns
          (verify p h u o)
          w
          (exits code (resolve_format o.format) (one_record v))
          w
        × (v.found ≡ r)
        × ((code ≡ 0) ↔ IsSigned p r trusted)
  verify_record_exit_code o ref w r trusted single named found loaded =
      let (v, e, same, coded) =
        verified-answers r (verify_record p r trusted) (verify_record-IsAnswer p r trusted) in
      let signed = Accepted-iff-IsSigned r trusted in
      (
        code_of v,
        v,
        ap (λ m. m w) (verify_single p h u o ref single named)
            ∙ check_record-Returns o ref w v
                (run_verify-returned o ref w r trusted v found loaded e),
        same,
        (λ z. signed.0 (coded.0 z), λ s. coded.1 (signed.1 s)),
      )
