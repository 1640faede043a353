-- ===== src/Attestation/Chain/Deletion.antt =====
-- What `verify_chain` finds when records are missing from an intact log.
use halt_proof.Base.{◌≡◌, true, false, none, some, List, [], ◌∷◌, ◌++◌, All-append, arith, eq_iff}
use halt_proof.Base.Int.{next, leb_ℤ-next, leb_ℤ_trans}
use halt_proof.Platform.{Platform, IsLawful}
use halt_proof.Attestation.{AttestationRecord}
use halt_proof.Attestation.Chain.{sequence_gap, first_not_empty, first_break, verdict, verify_chain}
use halt_proof.Attestation.Chain.Intact.{
  Starts, IsVerified, Linked, IsIntact, verify_chain-IsIntact,
}
use halt_proof.Attestation.Chain.Steps.{
  All-front, All-back, Linked-front, Linked-back, Linked-upto, Linked-le, next_not_skipped,
  prev_hash_nonempty, Starts-same_front, Ascending-join, Linked-Ascending, verify_chain-Ascending,
  verify_chain_broken_at, pair_break_gap,
}

Starts-front : (xs ys : List AttestationRecord) → Starts (xs ++ ys) → Starts xs
Starts-front [] ys h = tt
Starts-front (x ∷ xs) ys h = h

module _ (p : Platform) where
  -- An intact log from which one or more records are deleted between `q` and `s` is refused, with
  -- the gap between their numbers for the reason.
  pub verify_chain_deleted :
      (xs : List AttestationRecord) (q r : AttestationRecord) (ds : List AttestationRecord)
      (s : AttestationRecord) (ys : List AttestationRecord)
      → IsIntact p (xs ++ (q ∷ r ∷ (ds ++ (s ∷ ys))))
      → verify_chain p (xs ++ (q ∷ s ∷ ys)) ≡ (false, some (sequence_gap q.seq s.seq))
  verify_chain_deleted xs q r ds s ys c =
      let back : Linked p (q ∷ r ∷ (ds ++ (s ∷ ys))) = Linked-back p xs _ c.linked in
      let rest : Linked p (s ∷ ys) = Linked-back p (q ∷ r ∷ ds) (s ∷ ys) back in
      let v = All-back (IsVerified p) xs _ c.signed in
      let front = Linked-upto p xs q _ c.linked in
      verify_chain_broken_at p xs q s ys (sequence_gap q.seq s.seq)
        (Ascending-join xs q s ys (Linked-Ascending p (xs ++ q ∷ []) front)
          (leb_ℤ_trans q.seq (next q.seq) s.seq (leb_ℤ-next q.seq)
            (Linked-le p q (r ∷ ds) s ys back))
          (Linked-Ascending p (s ∷ ys) rest))
        (All-append (IsVerified p) xs (q ∷ s ∷ ys) (All-front (IsVerified p) xs _ c.signed)
          (v.0, All-back (IsVerified p) (r ∷ ds) (s ∷ ys) v.1))
        (Starts-same_front xs q _ _ c.starts) front
        (pair_break_gap p q s (next_not_skipped p q r ds s ys back))

  -- Deleting records from the end is not noticed: any front of an intact log is accepted.
  pub verify_chain_truncated :
      (xs ys : List AttestationRecord) → IsIntact p (xs ++ ys) → verify_chain p xs ≡ (true, none)
  verify_chain_truncated xs ys c = verify_chain-IsIntact p xs (record {
    signed = All-front (IsVerified p) xs ys c.signed;
    starts = Starts-front xs ys c.starts;
    linked = Linked-front p xs ys c.linked;
  })

module _ (p : Platform) (L : IsLawful p) where
  -- An intact log from which one or more records are deleted at the start is refused, since its new
  -- first record links to one that is gone.
  pub verify_chain_headless :
      (r : AttestationRecord) (ds : List AttestationRecord) (s : AttestationRecord)
      (ys : List AttestationRecord)
      → IsIntact p (r ∷ (ds ++ (s ∷ ys)))
      → verify_chain p (s ∷ ys) ≡ (false, some (first_not_empty s.seq s.prev_hash))
  unfolding verdict first_break
  verify_chain_headless r ds s ys c =
      rw
        (verify_chain-Ascending p (s ∷ ys)
          (Linked-Ascending p (s ∷ ys) (Linked-back p (r ∷ ds) (s ∷ ys) c.linked))
          (All-back (IsVerified p) (r ∷ ds) (s ∷ ys) c.signed))
        (ground (arith, eq_iff s.prev_hash "", prev_hash_nonempty p L r ds s ys c.linked))
