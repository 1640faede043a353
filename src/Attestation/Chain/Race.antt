-- ===== src/Attestation/Chain/Race.antt =====
-- Two halts on one log: `chain_state` and `append` are separate calls, and only the write is
-- locked.
use halt_proof.Base.{
  ◌≡◌, ◌≢◌, ◌∙◌, sym, ap, false, some, List, [], ◌∷◌, ◌++◌, All-append, false≢true,
}
use halt_proof.Base.Int.{next, leb_ℤ, leb_ℤ-next_not, leb_ℤ_refl}
use halt_proof.Platform.{Platform}
use halt_proof.Attestation.{AttestationRecord}
use halt_proof.Attestation.Log.Written.{state_after}
use halt_proof.Attestation.Chain.{sequence_gap, verify_chain}
use halt_proof.Attestation.Chain.Intact.{IsVerified, IsIntact, IsIntact-append}
use halt_proof.Attestation.Chain.Steps.{
  Linked-Ascending, Ascending-join, Starts-same_front, verify_chain_broken_at, pair_break_gap,
}

module _ (p : Platform) where
  not_next_of_eq : (r s : AttestationRecord) → r.seq ≡ s.seq → s.seq ≢ next r.seq
  not_next_of_eq r s e h =
      false≢true
        (sym (leb_ℤ-next_not r.seq) ∙ ap (λ z. leb_ℤ z r.seq) (sym h ∙ sym e) ∙ leb_ℤ_refl r.seq)

  -- Two signed records that both took their number and hash from the same intact log, and are both
  -- appended to it, leave a log that is refused: the second one's number is no successor.
  pub verify_chain_raced :
      (rs : List AttestationRecord) (r s : AttestationRecord)
      → IsIntact p rs
      → IsVerified p r
      → IsVerified p s
      → r.seq ≡ (state_after p rs).0
      → r.prev_hash ≡ (state_after p rs).1
      → s.seq ≡ (state_after p rs).0
      → verify_chain p (rs ++ r ∷ s ∷ []) ≡ (false, some (sequence_gap r.seq s.seq))
  verify_chain_raced rs r s c vr vs er hr es =
      let one = IsIntact-append p rs r c vr er hr in
      let same : r.seq ≡ s.seq = er ∙ sym es in
      verify_chain_broken_at p rs r s [] (sequence_gap r.seq s.seq)
        (Ascending-join rs r s [] (Linked-Ascending p (rs ++ r ∷ []) one.linked)
          (rw (← same) (leb_ℤ_refl r.seq)) tt)
        (All-append (IsVerified p) rs (r ∷ s ∷ []) c.signed (vr, (vs, tt)))
        (Starts-same_front rs r [] (s ∷ []) one.starts) one.linked
        (pair_break_gap p r s (not_next_of_eq r s same))
