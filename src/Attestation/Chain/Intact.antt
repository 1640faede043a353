-- ===== src/Attestation/Chain/Intact.antt =====
-- What `verify_chain` accepts: a chain of signed records, each linked to the one before.
use halt_proof.Base.{
  ◌≡◌, refl, ◌≢◌, ◌∙◌, sym, ap, ◌↔◌, eq_iff, true, false, Option, none, List, [], ◌∷◌, ◌++◌, map,
  last, All, All-append, arith,
}
use halt_proof.Base.Int.{next, eqb_ℤ_iff}
use halt_proof.Base.Results.{ok}
use halt_proof.Platform.{Platform, IsLawful}
use halt_proof.Attestation.{AttestationRecord, verify_record, record_content_hash}
use halt_proof.Attestation.Codec.{normalise, record_content_hash-normalise}
use halt_proof.Attestation.Signing.{verify_record-iff-IsSigned, verify_record-normalise}
use halt_proof.Attestation.Log.Written.{after, state_after}
use halt_proof.Attestation.Chain.{
  first_break, signature_break, pair_break, link_break, chain_break, verdict, verify_chain,
  sorted_by_seq,
}
use halt_proof.Attestation.Chain.Order.{Consecutive, Consecutive-Ascending, sorted_by_seq-Ascending}

-- The first record links to nothing.
abbrev pub Starts : List AttestationRecord → Type 0
Starts [] = Unit
Starts (r ∷ rs) = r.prev_hash ≡ ""

module _ (p : Platform) where
  abbrev pub IsVerified : AttestationRecord → Type 0
  IsVerified r = verify_record p r none ≡ ok true

  -- Each record has the number after that of the record before it, and that record's hash.
  abbrev pub Linked : List AttestationRecord → Type 0
  Linked [] = Unit
  Linked (r ∷ []) = Unit
  Linked (r ∷ s ∷ rs) =
      (s.seq ≡ next r.seq) × (s.prev_hash ≡ record_content_hash p r) × Linked (s ∷ rs)

  pub record IsIntact (rs : List AttestationRecord) : Type 0 where
    pub signed : All IsVerified rs
    pub starts : Starts rs
    pub linked : Linked rs

  pub signature_break_iff :
      (rs : List AttestationRecord) → (signature_break p rs ≡ none) ↔ All IsVerified rs
  unfolding signature_break
  signature_break_iff [] = ground arith
  signature_break_iff (r ∷ rs) =
      ground (arith, (verify_record-iff-IsSigned p r none).1, signature_break_iff rs)

  pub first_break_iff : (rs : List AttestationRecord) → (first_break rs ≡ none) ↔ Starts rs
  unfolding first_break
  first_break_iff [] = ground arith
  first_break_iff (r ∷ rs) = ground (arith, eq_iff r.prev_hash "")

  pub pair_break_iff :
      (r s : AttestationRecord)
      → (pair_break p r s ≡ none) ↔ ((s.seq ≡ next r.seq) × (s.prev_hash ≡ record_content_hash p r))
  unfolding pair_break
  pair_break_iff r s =
      ground (arith, eqb_ℤ_iff s.seq (next r.seq), eq_iff s.prev_hash (record_content_hash p r))

  pub link_break_iff : (rs : List AttestationRecord) → (link_break p rs ≡ none) ↔ Linked rs
  unfolding link_break
  link_break_iff [] = ground arith
  link_break_iff (r ∷ []) = ground arith
  link_break_iff (r ∷ s ∷ rs) = ground (arith, pair_break_iff r s, link_break_iff (s ∷ rs))

  chain_break_iff : (rs : List AttestationRecord) → (chain_break p rs ≡ none) ↔ IsIntact rs
  unfolding chain_break
  chain_break_iff rs = ground (arith, signature_break_iff rs, first_break_iff rs, link_break_iff rs)

  -- The empty log is no special case.
  pub verify_chain-eq-verdict :
      (rs : List AttestationRecord)
      → verify_chain p rs ≡ verdict p (chain_break p (sorted_by_seq rs))
  unfolding verify_chain verdict chain_break sorted_by_seq signature_break first_break link_break
  verify_chain-eq-verdict [] = refl
  verify_chain-eq-verdict (r ∷ rs) = refl

  -- `verify_chain` returns `(True, None)` exactly if the records, put in the order of their
  -- numbers, all verify, the first has an empty `prev_hash`, and each later one has the number and
  -- the hash that follow from the record before it. It returns `False` in all other cases, and with
  -- a reason in exactly these.
  pub verify_chain-iff-IsIntact :
      (rs : List AttestationRecord)
      → ((verify_chain p rs ≡ (true, none)) ↔ IsIntact (sorted_by_seq rs))
        × (((verify_chain p rs).0 ≡ false) ↔ (¬ IsIntact (sorted_by_seq rs)))
        × (((verify_chain p rs).0 ≡ false) ↔ ((verify_chain p rs).1 ≢ none))
  unfolding verdict
  verify_chain-iff-IsIntact rs =
      rw verify_chain-eq-verdict (ground (arith, chain_break_iff (sorted_by_seq rs)))

  pub Linked-Consecutive : (rs : List AttestationRecord) → Linked rs → Consecutive rs
  Linked-Consecutive [] l = tt
  Linked-Consecutive (r ∷ []) l = tt
  Linked-Consecutive (r ∷ s ∷ rs) l = (l.0, Linked-Consecutive (s ∷ rs) l.2)

  pub sorted_by_seq-Linked : (rs : List AttestationRecord) → Linked rs → sorted_by_seq rs ≡ rs
  sorted_by_seq-Linked rs l =
      sorted_by_seq-Ascending rs (Consecutive-Ascending rs (Linked-Consecutive rs l))

  -- An intact chain is accepted as it stands.
  pub verify_chain-IsIntact :
      (rs : List AttestationRecord) → IsIntact rs → verify_chain p rs ≡ (true, none)
  verify_chain-IsIntact rs c =
      (verify_chain-iff-IsIntact rs).0.1 (rw (sorted_by_seq-Linked rs c.linked) c)

  last-cons-cons :
      (q r : AttestationRecord) (rs : List AttestationRecord) → last (q ∷ r ∷ rs) ≡ last (r ∷ rs)
  last-cons-cons q r rs = ground arith

  Starts-append :
      (rs : List AttestationRecord) (r : AttestationRecord)
      → Starts rs
      → r.prev_hash ≡ (state_after p rs).1
      → Starts (rs ++ r ∷ [])
  Starts-append [] r s e = e
  Starts-append (q ∷ rs) r s e = s

  Linked-append :
      (rs : List AttestationRecord) (r : AttestationRecord)
      → Linked rs
      → r.seq ≡ (state_after p rs).0
      → r.prev_hash ≡ (state_after p rs).1
      → Linked (rs ++ r ∷ [])
  Linked-append [] r l es eh = tt
  Linked-append (q ∷ []) r l es eh = (es, eh, tt)
  Linked-append (q ∷ s ∷ rs) r l es eh =
      let same : state_after p (q ∷ s ∷ rs) ≡ state_after p (s ∷ rs) =
        ap (λ (o : Option AttestationRecord). after p o) (last-cons-cons q s rs) in
      (l.0, l.1, Linked-append (s ∷ rs) r l.2 (es ∙ ap (λ x. x.0) same) (eh ∙ ap (λ x. x.1) same))

  -- A signed record with the number and the hash that `chain_state` gives extends an intact chain.
  pub IsIntact-append :
      (rs : List AttestationRecord) (r : AttestationRecord)
      → IsIntact rs
      → IsVerified r
      → r.seq ≡ (state_after p rs).0
      → r.prev_hash ≡ (state_after p rs).1
      → IsIntact (rs ++ r ∷ [])
  IsIntact-append rs r c v es eh = record {
    signed = All-append IsVerified rs (r ∷ []) c.signed (v, tt);
    starts = Starts-append rs r c.starts eh;
    linked = Linked-append rs r c.linked es eh;
  }

module _ (p : Platform) (L : IsLawful p) where
  Linked-normalise : (rs : List AttestationRecord) → Linked p rs → Linked p (map normalise rs)
  Linked-normalise [] l = tt
  Linked-normalise (r ∷ []) l = tt
  Linked-normalise (r ∷ s ∷ rs) l =
      (l.0, l.1 ∙ sym (record_content_hash-normalise p L r), Linked-normalise (s ∷ rs) l.2)

  signed-normalise :
      (rs : List AttestationRecord) → All (IsVerified p) rs → All (IsVerified p) (map normalise rs)
  signed-normalise [] h = tt
  signed-normalise (r ∷ rs) h = (verify_record-normalise p L r none h.0, signed-normalise rs h.1)

  Starts-normalise : (rs : List AttestationRecord) → Starts rs → Starts (map normalise rs)
  Starts-normalise [] h = tt
  Starts-normalise (r ∷ rs) h = h

  -- An intact chain stays intact when it is written and read back.
  pub IsIntact-normalise :
      (rs : List AttestationRecord) → IsIntact p rs → IsIntact p (map normalise rs)
  IsIntact-normalise rs c = record {
    signed = signed-normalise rs c.signed;
    starts = Starts-normalise rs c.starts;
    linked = Linked-normalise rs c.linked;
  }
