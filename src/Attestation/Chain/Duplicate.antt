-- ===== src/Attestation/Chain/Duplicate.antt =====
-- Logs in which a number is used twice, as halts that overlap leave them.
use mathlib.Core.List.{Mem, Permᴰ}
use mathlib.Core.List.Permᴰ
use halt_proof.Base.{◌≡◌, ◌≢◌, refl, Bool, true, false, List, [], ◌∷◌, if◌then◌else◌}
use halt_proof.Base.Int.{leb_ℤ}
use halt_proof.Platform.{Platform}
use halt_proof.Attestation.{AttestationRecord}
use halt_proof.Attestation.Chain.{insert_by_seq, sorted_by_seq, verify_chain}
use halt_proof.Attestation.Chain.Intact.{verify_chain-iff-IsIntact}
use halt_proof.Attestation.Chain.Reordering.{Linked-OneEach}

placed :
    (b : Bool) (r s : AttestationRecord) (rs ss : List AttestationRecord)
    → Permᴰ (r ∷ rs) ss
    → Permᴰ (r ∷ s ∷ rs) (if b then r ∷ s ∷ rs else s ∷ ss)
placed true r s rs ss d = Permᴰ.refl (r ∷ s ∷ rs)
placed false r s rs ss d = Permᴰ.trans (Permᴰ.swap refl refl) (Permᴰ.cons refl d)

insert_by_seq-permᴰ :
    (r : AttestationRecord) (rs : List AttestationRecord) → Permᴰ (r ∷ rs) (insert_by_seq r rs)
unfolding insert_by_seq
insert_by_seq-permᴰ r [] = Permᴰ.refl (r ∷ [])
insert_by_seq-permᴰ r (s ∷ rs) =
    placed (leb_ℤ r.seq s.seq) r s rs (insert_by_seq r rs) (insert_by_seq-permᴰ r rs)

-- Sorting keeps the records.
pub sorted_by_seq-permᴰ : (rs : List AttestationRecord) → Permᴰ rs (sorted_by_seq rs)
unfolding sorted_by_seq
sorted_by_seq-permᴰ [] = Permᴰ.nil
sorted_by_seq-permᴰ (r ∷ rs) =
    Permᴰ.trans (Permᴰ.cons refl (sorted_by_seq-permᴰ rs))
      (insert_by_seq-permᴰ r (sorted_by_seq rs))

module _ (p : Platform) where
  -- If two records of a log have one number and are not the same, `verify_chain` refuses it,
  -- whatever else is in it: once two halts took one number, no record that is appended later
  -- repairs the log.
  pub verify_chain_duplicate :
      (rs : List AttestationRecord) (r s : AttestationRecord)
      → Mem r rs
      → Mem s rs
      → r.seq ≡ s.seq
      → r ≢ s
      → (verify_chain p rs).0 ≡ false
  verify_chain_duplicate rs r s mr ms same other = (verify_chain-iff-IsIntact p rs).1.1 λ c. other (
      Linked-OneEach p (sorted_by_seq rs) c.linked r s (Permᴰ.mem (sorted_by_seq-permᴰ rs) mr)
        (Permᴰ.mem (sorted_by_seq-permᴰ rs) ms) same)
