-- ===== src/Attestation/Chain/Steps.antt =====
-- Parts of an intact chain, and how far its numbers lie apart.
use halt_proof.Base.{
  ◌≡◌, refl, ◌≢◌, ◌∙◌, true, false, some, List, [], ◌∷◌, ◌++◌, All, arith, sym, ap, ap₂, false≢true,
}
use halt_proof.Base.Int.{
  next, eqb_ℤ_iff, leb_ℤ, leb_ℤ-next, leb_ℤ-next_not, leb_ℤ_trans, leb_ℤ_refl,
}
use halt_proof.Platform.{Platform, IsLawful}
use halt_proof.Attestation.{AttestationRecord, record_content_hash, dict_content_hash}
use halt_proof.Attestation.Chain.{
  Break, sequence_gap, or_then, link_break, pair_break, first_break, chain_break, verdict,
  verify_chain,
}
use halt_proof.Attestation.Chain.Order.{Ascending, Consecutive-Ascending, sorted_by_seq-Ascending}
use halt_proof.Attestation.Chain.Intact.{
  Starts, Linked, IsVerified, pair_break_iff, first_break_iff, signature_break_iff,
  Linked-Consecutive, verify_chain-eq-verdict,
}

pub All-front {ℓ κ} : {A : Type ℓ} (P : A → Type κ) (xs ys : List A) → All P (xs ++ ys) → All P xs
All-front P [] ys h = tt
All-front P (x ∷ xs) ys h = (h.0, All-front P xs ys h.1)

pub All-back {ℓ κ} : {A : Type ℓ} (P : A → Type κ) (xs ys : List A) → All P (xs ++ ys) → All P ys
All-back P [] ys h = h
All-back P (x ∷ xs) ys h = All-back P xs ys h.1

module _ (p : Platform) where
  pub Linked-tail :
      (r : AttestationRecord) (rs : List AttestationRecord) → Linked p (r ∷ rs) → Linked p rs
  Linked-tail r [] l = tt
  Linked-tail r (s ∷ rs) l = l.2

  pub Linked-front : (xs ys : List AttestationRecord) → Linked p (xs ++ ys) → Linked p xs
  Linked-front [] ys l = tt
  Linked-front (x ∷ []) ys l = tt
  Linked-front (x ∷ y ∷ xs) ys l = (l.0, l.1, Linked-front (y ∷ xs) ys l.2)

  pub Linked-back : (xs ys : List AttestationRecord) → Linked p (xs ++ ys) → Linked p ys
  Linked-back [] ys l = l
  Linked-back (x ∷ xs) ys l = Linked-back xs ys (Linked-tail x (xs ++ ys) l)

  pub Linked-upto :
      (xs : List AttestationRecord) (q : AttestationRecord) (zs : List AttestationRecord)
      → Linked p (xs ++ q ∷ zs)
      → Linked p (xs ++ q ∷ [])
  Linked-upto [] q zs l = tt
  Linked-upto (x ∷ []) q zs l = (l.0, l.1, tt)
  Linked-upto (x ∷ y ∷ xs) q zs l = (l.0, l.1, Linked-upto (y ∷ xs) q zs l.2)

  -- A later record has a number beyond that of an earlier one.
  pub Linked-le :
      (q : AttestationRecord) (ds : List AttestationRecord) (s : AttestationRecord)
      (ys : List AttestationRecord)
      → Linked p (q ∷ ds ++ s ∷ ys)
      → leb_ℤ (next q.seq) s.seq ≡ true
  Linked-le q [] s ys l = rw l.0 (leb_ℤ_refl (next q.seq))
  Linked-le q (r ∷ ds) s ys l =
      leb_ℤ_trans (next q.seq) (next r.seq) s.seq (rw l.0 (leb_ℤ-next (next q.seq)))
        (Linked-le r ds s ys l.2)

  pub next_not_skipped :
      (q r : AttestationRecord) (ds : List AttestationRecord) (s : AttestationRecord)
      (ys : List AttestationRecord)
      → Linked p (q ∷ r ∷ ds ++ s ∷ ys)
      → s.seq ≢ next q.seq
  next_not_skipped q r ds s ys l e =
      let far : leb_ℤ (next (next q.seq)) (next q.seq) ≡ true =
        ap₂ leb_ℤ (ap next (sym l.0)) (sym e) ∙ Linked-le r ds s ys l.2 in
      false≢true (sym (leb_ℤ-next_not (next q.seq)) ∙ far)

  -- The loop passes over a front that is linked.
  pub link_break-append :
      (xs : List AttestationRecord) (q : AttestationRecord) (ys : List AttestationRecord)
      → Linked p (xs ++ q ∷ [])
      → link_break p (xs ++ q ∷ ys) ≡ link_break p (q ∷ ys)
  unfolding link_break
  link_break-append [] q ys l = refl
  link_break-append (x ∷ []) q ys l = rw ((pair_break_iff p x q).1 (l.0, l.1)) refl
  link_break-append (x ∷ y ∷ xs) q ys l =
      rw ((pair_break_iff p x y).1 (l.0, l.1)) (link_break-append (y ∷ xs) q ys l.2)

module _ (p : Platform) (L : IsLawful p) where
  -- Only the first record of a chain has an empty `prev_hash`.
  pub prev_hash_nonempty :
      (q : AttestationRecord) (ds : List AttestationRecord) (s : AttestationRecord)
      (ys : List AttestationRecord)
      → Linked p (q ∷ ds ++ s ∷ ys)
      → s.prev_hash ≢ ""
  unfolding record_content_hash dict_content_hash
  prev_hash_nonempty q [] s ys l e = L.sha256_nonempty _ (sym l.1 ∙ e)
  prev_hash_nonempty q (r ∷ ds) s ys l e = prev_hash_nonempty r ds s ys l.2 e

pub Starts-same_front :
    (xs : List AttestationRecord) (q : AttestationRecord) (ys zs : List AttestationRecord)
    → Starts (xs ++ q ∷ ys)
    → Starts (xs ++ q ∷ zs)
Starts-same_front [] q ys zs h = h
Starts-same_front (x ∷ xs) q ys zs h = h

pub Ascending-join :
    (xs : List AttestationRecord) (q s : AttestationRecord) (ys : List AttestationRecord)
    → Ascending (xs ++ q ∷ [])
    → leb_ℤ q.seq s.seq ≡ true
    → Ascending (s ∷ ys)
    → Ascending (xs ++ q ∷ s ∷ ys)
Ascending-join [] q s ys a le b = (le, b)
Ascending-join (x ∷ []) q s ys a le b = (a.0, (le, b))
Ascending-join (x ∷ y ∷ xs) q s ys a le b = (a.0, Ascending-join (y ∷ xs) q s ys a.1 le b)

module _ (p : Platform) where
  pub Linked-Ascending : (rs : List AttestationRecord) → Linked p rs → Ascending rs
  Linked-Ascending rs l = Consecutive-Ascending rs (Linked-Consecutive p rs l)

  -- The verdict on records that verify one by one and stand in order.
  pub verify_chain-Ascending :
      (rs : List AttestationRecord)
      → Ascending rs
      → All (IsVerified p) rs
      → verify_chain p rs ≡ verdict p (or_then (first_break rs) (link_break p rs))
  unfolding chain_break
  verify_chain-Ascending rs a v =
      rw (verify_chain-eq-verdict, sorted_by_seq-Ascending rs a, (signature_break_iff p rs).1 v)

  -- The verdict when the chain is linked up to `q` and the pair of `q` and `s` breaks it.
  pub verify_chain_broken_at :
      (xs : List AttestationRecord) (q s : AttestationRecord) (ys : List AttestationRecord)
      (b : Break)
      → Ascending (xs ++ q ∷ s ∷ ys)
      → All (IsVerified p) (xs ++ q ∷ s ∷ ys)
      → Starts (xs ++ q ∷ s ∷ ys)
      → Linked p (xs ++ q ∷ [])
      → pair_break p q s ≡ some b
      → verify_chain p (xs ++ q ∷ s ∷ ys) ≡ (false, some b)
  unfolding verdict
  verify_chain_broken_at xs q s ys b a v st l e =
      rw
        (verify_chain-Ascending (xs ++ q ∷ s ∷ ys) a v, (first_break_iff p (xs ++ q ∷ s ∷ ys)).1 st)
        (rw (link_break-append p xs q (s ∷ ys) l) (unfold link_break in rw e))

  pub pair_break_gap :
      (q s : AttestationRecord)
      → s.seq ≢ next q.seq
      → pair_break p q s ≡ some (sequence_gap q.seq s.seq)
  unfolding pair_break
  pair_break_gap q s h = ground (arith, eqb_ℤ_iff s.seq (next q.seq))
