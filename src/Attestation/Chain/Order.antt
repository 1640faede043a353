-- ===== src/Attestation/Chain/Order.antt =====
-- The sort by sequence number.
use mathlib.Core.List.{Mem, mem-cons, Perm, Permᴰ}
use mathlib.Core.List.Permᴰ
use mathlib.Core.Logic.Or
use mathlib.Core.Logic.{∥∥₁_elim}
use halt_proof.Base.TextOrder.{String_set}
use halt_proof.Base.{◌≡◌, refl, ◌∙◌, ap, ap₂, true, List, [], ◌∷◌, arith}
use halt_proof.Base.Int.{next, leb_ℤ, leb_ℤ-next, leb_ℤ_total, leb_ℤ_trans, leb_ℤ_antisymm}
use halt_proof.Attestation.{AttestationRecord}
use halt_proof.Attestation.Chain.{insert_by_seq, sorted_by_seq}

-- Each number is the one before plus 1.
abbrev pub Consecutive : List AttestationRecord → Type 0
Consecutive [] = Unit
Consecutive (r ∷ []) = Unit
Consecutive (r ∷ s ∷ rs) = (s.seq ≡ next r.seq) × Consecutive (s ∷ rs)

insert_by_seq_le :
    (r s : AttestationRecord) (rs : List AttestationRecord)
    → leb_ℤ r.seq s.seq ≡ true
    → insert_by_seq r (s ∷ rs) ≡ r ∷ s ∷ rs
unfolding insert_by_seq
insert_by_seq_le r s rs h = rw h

-- No number is smaller than the one before.
abbrev pub Ascending : List AttestationRecord → Type 0
Ascending [] = Unit
Ascending (r ∷ []) = Unit
Ascending (r ∷ s ∷ rs) = (leb_ℤ r.seq s.seq ≡ true) × Ascending (s ∷ rs)

-- Records in ascending order are sorted already.
pub sorted_by_seq-Ascending : (rs : List AttestationRecord) → Ascending rs → sorted_by_seq rs ≡ rs
unfolding sorted_by_seq
sorted_by_seq-Ascending [] c = refl
sorted_by_seq-Ascending (r ∷ []) c = refl
sorted_by_seq-Ascending (r ∷ s ∷ rs) c =
    ap (insert_by_seq r) (sorted_by_seq-Ascending (s ∷ rs) c.1) ∙ insert_by_seq_le r s rs c.0

pub Consecutive-Ascending : (rs : List AttestationRecord) → Consecutive rs → Ascending rs
Consecutive-Ascending [] c = tt
Consecutive-Ascending (r ∷ []) c = tt
Consecutive-Ascending (r ∷ s ∷ rs) c =
    (rw c.0 (leb_ℤ-next r.seq), Consecutive-Ascending (s ∷ rs) c.1)

-- Two records that are one if they have one number can be inserted in either order.
insert_by_seq_comm :
    (r s : AttestationRecord) (rs : List AttestationRecord)
    → (r.seq ≡ s.seq → r ≡ s)
    → insert_by_seq r (insert_by_seq s rs) ≡ insert_by_seq s (insert_by_seq r rs)
unfolding insert_by_seq
insert_by_seq_comm r s [] h = ground (arith, leb_ℤ_total r.seq s.seq, leb_ℤ_antisymm r.seq s.seq)
insert_by_seq_comm r s (t ∷ rs) h = ground (
  arith,
  leb_ℤ_total r.seq s.seq,
  leb_ℤ_antisymm r.seq s.seq,
  leb_ℤ_trans r.seq s.seq t.seq,
  leb_ℤ_trans s.seq r.seq t.seq,
  insert_by_seq_comm r s rs h,
)

-- No two records have one number.
abbrev pub OneEach : List AttestationRecord → Type 0
OneEach rs = (r s : AttestationRecord) → Mem r rs → Mem s rs → r.seq ≡ s.seq → r ≡ s

OneEach-tail : (r : AttestationRecord) (rs : List AttestationRecord) → OneEach (r ∷ rs) → OneEach rs
OneEach-tail r rs one s t ms mt = one s t (mem-cons.1 (Or.inr ms)) (mem-cons.1 (Or.inr mt))

sorted_by_seq-permᴰ :
    {xs ys : List AttestationRecord}
    → Permᴰ xs ys
    → OneEach xs
    → sorted_by_seq xs ≡ sorted_by_seq ys
unfolding sorted_by_seq
sorted_by_seq-permᴰ Permᴰ.nil one = refl
sorted_by_seq-permᴰ (Permᴰ.cons {a} {l₁} e h) one =
    ap₂ insert_by_seq e (sorted_by_seq-permᴰ h (OneEach-tail a l₁ one))
sorted_by_seq-permᴰ (Permᴰ.swap {a} {b} {l} e f) one =
    insert_by_seq_comm a b (sorted_by_seq l)
      (one a b (mem-cons.1 (Or.inl refl)) (mem-cons.1 (Or.inr (mem-cons.1 (Or.inl refl)))))
    ∙ ap₂ (λ x y. insert_by_seq x (insert_by_seq y (sorted_by_seq l))) f e
sorted_by_seq-permᴰ (Permᴰ.trans h k) one =
    sorted_by_seq-permᴰ h one
    ∙ sorted_by_seq-permᴰ k
        (λ r s mr ms. one r s (Permᴰ.mem (Permᴰ.symm h) mr) (Permᴰ.mem (Permᴰ.symm h) ms))

pub record_set : IsSet AttestationRecord
record_set = hlevel String_set

records_set : IsSet (List AttestationRecord)
records_set = hlevel String_set

-- Two lists of the same records, no two of which have one number, are sorted to the same list.
pub sorted_by_seq-perm :
    {xs ys : List AttestationRecord} → Perm xs ys → OneEach xs → sorted_by_seq xs ≡ sorted_by_seq ys
sorted_by_seq-perm h one = ∥∥₁_elim h (records_set _ _) (λ d. sorted_by_seq-permᴰ d one)
