-- ===== src/Attestation/Chain/Extended.antt =====
-- A log that grows by signed records: `append` and `verify_chain` together.
use halt_proof.Base.{◌≡◌, ap, true, none, List, [], ◌∷◌, ◌++◌, map}
use halt_proof.Base.Results.{ok}
use halt_proof.Platform.{Platform, IsLawful}
use halt_proof.Attestation.{AttestationRecord, sign_record}
use halt_proof.Attestation.Codec.{normalise}
use halt_proof.Attestation.Signing.{verify_record-sign_record}
use halt_proof.Attestation.Log.{LogFile, append}
use halt_proof.Attestation.Log.Written.{
  FileHolds, state_after, append-FileHolds, read_all-FileHolds,
}
use halt_proof.Attestation.Chain.{verify_log}
use halt_proof.Attestation.Chain.Intact.{
  IsIntact, IsIntact-append, IsIntact-normalise, verify_chain-IsIntact,
}

module _ (p : Platform) where
  -- A log file that holds these records, which make an intact chain.
  pub record IsIntactLog (f : LogFile p) (rs : List AttestationRecord) : Type 0 where
    pub holds : FileHolds p f rs
    pub intact : IsIntact p rs

module _ (p : Platform) (L : IsLawful p) where
  -- `AttestationLog.verify_chain` accepts it.
  pub verify_log-IsIntactLog :
      (f : LogFile p) (rs : List AttestationRecord)
      → IsIntactLog p f rs
      → verify_log p f ≡ ok (true, none)
  unfolding verify_log
  verify_log-IsIntactLog f rs c =
      rw (read_all-FileHolds p L f rs c.holds)
        (ap ok (verify_chain-IsIntact p (map normalise rs) (IsIntact-normalise p L rs c.intact)))

  -- If a log holds an intact chain of records, and a record has the number and the hash that
  -- follow, then appending that record, signed, leaves a log that holds the longer chain, which is
  -- intact.
  pub append-IsIntactLog :
      (f : LogFile p) (rs : List AttestationRecord) (r : AttestationRecord) (k : p.PrivateKey)
      → IsIntactLog p f rs
      → r.seq ≡ (state_after p rs).0
      → r.prev_hash ≡ (state_after p rs).1
      → IsIntactLog p (append p f (sign_record p r k)) (rs ++ sign_record p r k ∷ [])
  unfolding sign_record
  append-IsIntactLog f rs r k c es eh = record {
    holds = append-FileHolds p f rs (sign_record p r k) c.holds;
    intact =
        IsIntact-append p rs (sign_record p r k) c.intact
          (verify_record-sign_record p L r k (p.public_key k)).0 es eh;
  }
