-- ===== src/Core/Halt/Verified.antt =====
-- `run_verify_chain` after `run_halt`.
use halt_proof.Base.{
  suc, String, ◌≡◌, refl, ◌∙◌, ap, ap₂, true, false, Option, none, List, [], ◌∷◌, ◌++◌, map, length,
  length-append, arith,
}
use halt_proof.Base.Results.{ok}
use halt_proof.Platform.{Platform, IsLawful}
use halt_proof.Exec.{Returns}
use halt_proof.Host.{Host}
use halt_proof.World.{World, log_at}
use halt_proof.Attestation.{AttestationRecord}
use halt_proof.Attestation.Codec.{normalise}
use halt_proof.Attestation.Log.{LogFile}
use halt_proof.Attestation.Log.Written.{read_all-FileHolds}
use halt_proof.Attestation.Chain.Extended.{IsIntactLog, verify_log-IsIntactLog}
use halt_proof.Core.{chosen, run_verify_chain}
use halt_proof.Core.Halt.{Request, Setup, HaltResult, run_halt}
use halt_proof.Core.Halt.Chained.{run_halt_chained}

pub length-map {ℓ κ} :
    {A : Type ℓ} {B : Type κ} (f : A → B) (xs : List A) → length (map f xs) ≡ length xs
length-map f [] = refl
length-map f (x ∷ xs) = ap suc (length-map f xs)

module _ (p : Platform) (L : IsLawful p) where
  -- `run_verify_chain` of an intact log counts its records and finds nothing wrong.
  pub run_verify_chain-IsIntactLog :
      (default_log : String) (path : Option String) (w : World p) (f : LogFile p)
      (rs : List AttestationRecord)
      → log_at p (chosen path none default_log) w ≡ ok f
      → IsIntactLog p f rs
      → run_verify_chain p default_log w path
        ≡ ok (record {
          valid = true;
          error = none;
          record_count = length rs;
          attestation_log_path = chosen path none default_log;
        })
  unfolding run_verify_chain
  run_verify_chain-IsIntactLog default_log path w f rs ef c =
      rw (ef, read_all-FileHolds p L f rs c.holds, verify_log-IsIntactLog p L f rs c)
        (ap
          (λ n. ok (record {
            valid = true;
            error = none;
            record_count = n;
            attestation_log_path = chosen path none default_log;
          }))
          (length-map normalise rs))

  -- Let `run_halt`, asked to sign, return, and let the log that it names have held an intact chain
  -- of records before, or not have existed. If `run_verify_chain` is then asked for the same log,
  -- it reports a valid chain of one record more.
  pub run_halt_verified :
      (h : Host) (u : Setup) (q : Request) (w v : World p) (res : HaltResult) (f : LogFile p)
      (rs : List AttestationRecord) (path : Option String)
      → Returns (run_halt p h u q) w res v
      → q.no_sign ≡ false
      → log_at p res.attestation_log_path w ≡ ok f
      → IsIntactLog p f rs
      → chosen path none u.default_log ≡ res.attestation_log_path
      → run_verify_chain p u.default_log v path
        ≡ ok (record {
          valid = true;
          error = none;
          record_count = suc (length rs);
          attestation_log_path = res.attestation_log_path;
        })
  run_halt_verified h u q w v res f rs path e signing ef c same =
      let (g, eg, d, _) = run_halt_chained p L h u q w v res f rs e signing ef c in
      run_verify_chain-IsIntactLog u.default_log path v g (rs ++ res.made ∷ [])
        (ap (λ x. log_at p x v) same ∙ eg) d
      ∙ ap₂
          (λ n x.
            ok (record { valid = true; error = none; record_count = n; attestation_log_path = x }))
          (length-append rs (res.made ∷ []) ∙ omega arith) same
