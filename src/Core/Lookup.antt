-- ===== src/Core/Lookup.antt =====
-- `run_verify` of a record that is looked up in the log, by its id or its number.
use halt_proof.Base.{
  String, eq_refl, ◌≡◌, refl, ap, ◌∙◌, true, false, Option, none, some, List, [], ◌∷◌, ◌++◌, map,
  All,
}
use halt_proof.Base.Results.{ok, err}
use halt_proof.Errors.{haltproof_error, no_attestation}
use halt_proof.Platform.{Platform, IsLawful}
use halt_proof.Exec.{Returns}
use halt_proof.Host.{Host}
use halt_proof.World.{World, log_at}
use halt_proof.Attestation.{AttestationRecord}
use halt_proof.Attestation.Codec.{normalise}
use halt_proof.Attestation.Signing.{verify_record-normalise}
use halt_proof.Attestation.Log.{LogFile, find, first_match, matches}
use halt_proof.Attestation.Log.Written.{read_all-FileHolds}
use halt_proof.Attestation.Chain.Intact.{IsVerified}
use halt_proof.Attestation.Chain.Extended.{IsIntactLog}
use halt_proof.Core.{chosen, referenced, trusted_key, verified, run_verify}
use halt_proof.Core.Halt.{Request, Setup, HaltResult, run_halt}
use halt_proof.Core.Halt.Chained.{run_halt_chained}

-- None of the records has this id, or this number in decimal.
abbrev pub Unmatched : String → List AttestationRecord → Type 0
Unmatched ref rs = All (λ r. matches ref r ≡ false) rs

first_match-none :
    (ref : String) (rs : List AttestationRecord)
    → Unmatched ref rs
    → first_match ref (map normalise rs) ≡ none
unfolding first_match matches
first_match-none ref [] h = refl
first_match-none ref (r ∷ rs) h = rw (h.0, first_match-none ref rs h.1) refl

first_match-found :
    (ref : String) (rs : List AttestationRecord) (r : AttestationRecord)
    (later : List AttestationRecord)
    → Unmatched ref rs
    → matches ref r ≡ true
    → first_match ref (map normalise (rs ++ r ∷ later)) ≡ some (normalise r)
unfolding first_match matches
first_match-found ref [] r later h e = rw e refl
first_match-found ref (s ∷ rs) r later h e = rw (h.0, first_match-found ref rs r later h.1 e) refl

matches-id : (r : AttestationRecord) → matches r.id r ≡ true
unfolding matches
matches-id r = rw (eq_refl r.id) refl

All_at :
    {A : Type 0} (P : A → Type 0) (xs : List A) (x : A) (ys : List A) → All P (xs ++ x ∷ ys) → P x
All_at P [] x ys h = h.0
All_at P (y ∷ xs) x ys h = All_at P xs x ys h.1

module _ (p : Platform) (L : IsLawful p) (default_log : String) where
  find-FileHolds :
      (f : LogFile p) (rs : List AttestationRecord) (ref : String)
      → IsIntactLog p f rs
      → find p f ref ≡ ok (first_match ref (map normalise rs))
  unfolding find
  find-FileHolds f rs ref c = rw (read_all-FileHolds p L f rs c.holds) refl

  referenced-log :
      (w : World p) (ref : String) (log_path : Option String) (f : LogFile p)
      (o : Option AttestationRecord)
      → w.files ref ≡ none
      → log_at p (chosen log_path none default_log) w ≡ ok f
      → find p f ref ≡ ok o
      → referenced p default_log w ref log_path
        ≡ elim o [ none ↦ err (haltproof_error (no_attestation ref)) | some r ↦ ok r ]
  unfolding referenced
  referenced-log w ref log_path f o absent found e = rw (absent, referenced) (rw (found, e) refl)

  run_verify-unmatched :
      (w : World p) (ref : String) (log_path key : Option String)
      → referenced p default_log w ref log_path ≡ err (haltproof_error (no_attestation ref))
      → run_verify p default_log w ref log_path key ≡ err (haltproof_error (no_attestation ref))
  unfolding run_verify
  run_verify-unmatched w ref log_path key e = rw (e, run_verify) refl

  run_verify-matched :
      (w : World p) (ref : String) (log_path : Option String) (r : AttestationRecord)
      → referenced p default_log w ref log_path ≡ ok r
      → IsVerified p r
      → run_verify p default_log w ref log_path none
        ≡ ok (record { valid = true; error = none; found = r })
  unfolding run_verify trusted_key verified
  run_verify-matched w ref log_path r e v = rw (e, run_verify) (rw v refl)

  -- Let a log hold an intact chain, and let no file have the reference for its path. If a record
  -- has the reference for its id or its number, and none before it has, then `run_verify` with no
  -- trusted key returns that record as valid, with the keys of its steps and its summary sorted.
  pub run_verify-found :
      (w : World p) (ref : String) (log_path : Option String) (f : LogFile p)
      (rs : List AttestationRecord) (r : AttestationRecord) (later : List AttestationRecord)
      → w.files ref ≡ none
      → log_at p (chosen log_path none default_log) w ≡ ok f
      → IsIntactLog p f (rs ++ r ∷ later)
      → Unmatched ref rs
      → matches ref r ≡ true
      → run_verify p default_log w ref log_path none
        ≡ ok (record { valid = true; error = none; found = normalise r })
  run_verify-found w ref log_path f rs r later absent found c before e =
      run_verify-matched w ref log_path (normalise r)
        (referenced-log w ref log_path f (some (normalise r)) absent found (
          find-FileHolds f (rs ++ r ∷ later) ref c
          ∙ ap ok (first_match-found ref rs r later before e)))
        (verify_record-normalise p L r none (All_at (IsVerified p) rs r later c.intact.signed))

  -- If a log holds an intact chain, no file has the reference for its path and no record has it for
  -- its id or its number, then `run_verify` raises the `HaltProofError` that names the reference.
  pub run_verify-unknown :
      (w : World p) (ref : String) (log_path key : Option String) (f : LogFile p)
      (rs : List AttestationRecord)
      → w.files ref ≡ none
      → log_at p (chosen log_path none default_log) w ≡ ok f
      → IsIntactLog p f rs
      → Unmatched ref rs
      → run_verify p default_log w ref log_path key ≡ err (haltproof_error (no_attestation ref))
  run_verify-unknown w ref log_path key f rs absent found c unmatched =
      run_verify-unmatched w ref log_path key (
        referenced-log w ref log_path f none absent found
          (find-FileHolds f rs ref c ∙ ap ok (first_match-none ref rs unmatched)))

module _ (p : Platform) (L : IsLawful p) where
  -- Let `run_halt`, asked to sign, return, and let the log that it names have held an intact chain
  -- of records before, or not have existed. If no earlier record has the id of the new one, and no
  -- file has it for its path, then `run_verify` of the id in the same log, with no trusted key,
  -- returns the record that `run_halt` returned, as valid, with the keys of its steps and its
  -- summary sorted.
  pub run_halt_looked_up :
      (h : Host) (u : Setup) (q : Request) (w v : World p) (res : HaltResult) (f : LogFile p)
      (rs : List AttestationRecord) (path : Option String)
      → Returns (run_halt p h u q) w res v
      → q.no_sign ≡ false
      → log_at p res.attestation_log_path w ≡ ok f
      → IsIntactLog p f rs
      → chosen path none u.default_log ≡ res.attestation_log_path
      → v.files res.made.id ≡ none
      → Unmatched res.made.id rs
      → run_verify p u.default_log v res.made.id path none
        ≡ ok (record { valid = true; error = none; found = normalise res.made })
  run_halt_looked_up h u q w v res f rs path e signing ef c same absent fresh =
      let (g, eg, d, _) = run_halt_chained p L h u q w v res f rs e signing ef c in
      run_verify-found p L u.default_log v res.made.id path g rs res.made [] absent
        (ap (λ x. log_at p x v) same ∙ eg) d fresh (matches-id res.made)
