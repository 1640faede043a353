-- ===== src/Attestation/Chain/Reordering.antt =====
-- Logs whose lines were put into another order, and the numbers in an intact chain.
use mathlib.Core.List.{Mem, mem-cons, not-mem-nil, Perm}
use mathlib.Core.Logic.Or
use halt_proof.Base.{◌≡◌, ◌≢◌, ◌∙◌, sym, ap, Bool, true, none, List, [], ◌∷◌, false≢true}
use halt_proof.Base.Int.{next, leb_ℤ, leb_ℤ-next, leb_ℤ-next_not, leb_ℤ_refl, leb_ℤ_trans}
use halt_proof.Platform.{Platform}
use halt_proof.Attestation.{AttestationRecord}
use halt_proof.Attestation.Chain.{verify_chain}
use halt_proof.Attestation.Chain.Order.{OneEach, record_set, sorted_by_seq-perm}
use halt_proof.Attestation.Chain.Intact.{
  Linked, IsIntact, verify_chain-iff-IsIntact, sorted_by_seq-Linked,
}
use halt_proof.Attestation.Chain.Steps.{Linked-tail}

Bool_set : IsSet Bool
Bool_set = hlevel

module _ (p : Platform) where
  -- Every record after `q` has a number beyond that of `q`.
  beyond :
      (q : AttestationRecord) (rs : List AttestationRecord) (s : AttestationRecord)
      → Linked p (q ∷ rs)
      → Mem s rs
      → leb_ℤ (next q.seq) s.seq ≡ true
  beyond q [] s l m = absurd (not-mem-nil m)
  beyond q (r ∷ rs) s l m =
      Or.elim (Bool_set _ _) (mem-cons.0 m) (λ e. rw e (rw l.0 (leb_ℤ_refl (next q.seq))))
        (λ t.
          leb_ℤ_trans (next q.seq) (next r.seq) s.seq (rw l.0 (leb_ℤ-next (next q.seq)))
            (beyond r rs s l.2 t))

  not_beyond : (q s : AttestationRecord) → q.seq ≡ s.seq → leb_ℤ (next q.seq) s.seq ≢ true
  not_beyond q s e h = false≢true (sym (leb_ℤ-next_not q.seq) ∙ ap (leb_ℤ (next q.seq)) e ∙ h)

  -- In an intact chain no two records have one number.
  pub Linked-OneEach : (rs : List AttestationRecord) → Linked p rs → OneEach rs
  Linked-OneEach [] l r s mr ms e = absurd (not-mem-nil mr)
  Linked-OneEach (q ∷ rs) l r s mr ms e =
      Or.elim (record_set r s) (mem-cons.0 mr)
        (λ er.
          Or.elim (record_set r s) (mem-cons.0 ms) (λ es. er ∙ sym es)
            (λ ts. absurd (
              not_beyond q s (ap (λ (x : AttestationRecord). x.seq) (sym er) ∙ e)
                (beyond q rs s l ts))))
        (λ tr.
          Or.elim (record_set r s) (mem-cons.0 ms)
            (λ es. absurd (
              not_beyond q r (ap (λ (x : AttestationRecord). x.seq) (sym es) ∙ sym e)
                (beyond q rs r l tr)))
            (λ ts. Linked-OneEach rs (Linked-tail p q rs l) r s tr ts e))

  -- Reordering the records of an intact log is not noticed: the records are sorted before they are
  -- checked, and every order of them is accepted.
  pub verify_chain_reordered :
      (rs ss : List AttestationRecord)
      → IsIntact p rs
      → Perm rs ss
      → verify_chain p ss ≡ (true, none)
  verify_chain_reordered rs ss c perm = (verify_chain-iff-IsIntact p ss).0.1 (
      rw (← sorted_by_seq-perm perm (Linked-OneEach rs c.linked))
        (rw (sorted_by_seq-Linked p rs c.linked) c))
