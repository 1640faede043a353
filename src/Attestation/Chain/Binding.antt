-- ===== src/Attestation/Chain/Binding.antt =====
-- What the content hash of the last record says of the whole log.
use mathlib.Core.List.{reverse, reverse_aux, reverse_aux-append, reverse-append, reverse-reverse}
use halt_proof.Base.{
  ◌≡◌, ◌≢◌, ◌∙◌, sym, ap, ap₂, subst, refl, ◌⊎◌, inl, inr, List, [], ◌∷◌, ◌++◌, map,
}
use halt_proof.Json.{obj}
use halt_proof.Platform.{Platform, IsLawful, Collision}
use halt_proof.Attestation.{AttestationRecord, to_dict, record_content_hash, dict_content_hash}
use halt_proof.Attestation.Codec.{normalise, normalise_of_dumps}
use halt_proof.Attestation.Chain.Intact.{Linked, IsIntact}

module _ (p : Platform) where
  -- An intact chain from its last record back to its first.
  data Chained : List AttestationRecord → Type 0 where
    first : (r : AttestationRecord) → r.prev_hash ≡ "" → Chained (r ∷ [])
    link :
        (r q : AttestationRecord) (rs : List AttestationRecord)
        → r.prev_hash ≡ record_content_hash p q
        → Chained (q ∷ rs)
        → Chained (r ∷ q ∷ rs)

  extend :
      (rs : List AttestationRecord) (q : AttestationRecord) (zs : List AttestationRecord)
      → Linked p (q ∷ rs)
      → Chained (q ∷ zs)
      → Chained (reverse_aux rs (q ∷ zs))
  extend [] q zs l c = c
  extend (r ∷ rs) q zs l c = extend rs r (q ∷ zs) l.2 (link r q zs l.1 c)

  Chained_of_intact :
      (xs : List AttestationRecord) (r : AttestationRecord)
      → IsIntact p (xs ++ r ∷ [])
      → Chained (r ∷ reverse xs)
  Chained_of_intact [] r c = first r c.starts
  Chained_of_intact (q ∷ xs) r c =
      subst Chained (reverse_aux-append xs (r ∷ []) (q ∷ []))
        (extend (xs ++ r ∷ []) q [] c.linked (first q c.starts))

map-reverse_aux {ℓ κ} :
    {A : Type ℓ} {B : Type κ} (f : A → B) (l acc : List A)
    → map f (reverse_aux l acc) ≡ reverse_aux (map f l) (map f acc)
map-reverse_aux f [] acc = refl
map-reverse_aux f (x ∷ l) acc = map-reverse_aux f l (x ∷ acc)

map-reverse {ℓ κ} :
    {A : Type ℓ} {B : Type κ} (f : A → B) (l : List A) → map f (reverse l) ≡ reverse (map f l)
map-reverse f l = map-reverse_aux f l []

map_of_backwards {ℓ κ} :
    {A : Type ℓ} {B : Type κ} (f : A → B) (l m : List A)
    → map f (reverse l) ≡ map f (reverse m)
    → map f l ≡ map f m
map_of_backwards f l m e =
    sym (reverse-reverse (map f l))
    ∙ ap reverse (sym (map-reverse f l) ∙ e ∙ map-reverse f m)
    ∙ reverse-reverse (map f m)

module _ (p : Platform) (L : IsLawful p) where
  -- Records with one hash are the same, or their texts collide.
  same_content :
      (r s : AttestationRecord)
      → record_content_hash p r ≡ record_content_hash p s
      → (normalise r ≡ normalise s) ⊎ Collision p
  unfolding record_content_hash dict_content_hash
  same_content r s e =
      elim (p.Text_discrete (p.dumps (obj (to_dict r))) (p.dumps (obj (to_dict s)))) [
        | yes same ↦ inl (normalise_of_dumps p L r s same)
        | no other ↦ inr (_, _, other, e)
      ]

  hash_nonempty : (r : AttestationRecord) → record_content_hash p r ≢ ""
  unfolding record_content_hash dict_content_hash
  hash_nonempty r = L.sha256_nonempty _

  prev_hash_of_same :
      (r s : AttestationRecord) → normalise r ≡ normalise s → r.prev_hash ≡ s.prev_hash
  prev_hash_of_same r s e = ap (λ (t : AttestationRecord). t.prev_hash) e

  fronts :
      (xs ys : List AttestationRecord) (r s : AttestationRecord)
      → Chained p (r ∷ xs)
      → Chained p (s ∷ ys)
      → normalise r ≡ normalise s
      → (map normalise (r ∷ xs) ≡ map normalise (s ∷ ys)) ⊎ Collision p
  fronts [] [] r s c d same = inl (ap (λ t. t ∷ []) same)
  fronts [] (q ∷ ys) r s (first _ ec) (link _ _ _ ed d) same =
      absurd (hash_nonempty q (sym ed ∙ sym (prev_hash_of_same r s same) ∙ ec))
  fronts (q ∷ xs) [] r s (link _ _ _ ec c) (first _ ed) same =
      absurd (hash_nonempty q (sym ec ∙ prev_hash_of_same r s same ∙ ed))
  fronts (q ∷ xs) (t ∷ ys) r s (link _ _ _ ec c) (link _ _ _ ed d) same =
      elim (same_content q t (sym ec ∙ prev_hash_of_same r s same ∙ ed)) [
        | inr collision ↦ inr collision
        | inl earlier ↦ elim (fronts xs ys q t c d earlier) [
          | inr collision ↦ inr collision
          | inl rest ↦ inl (ap₂ ◌∷◌ same rest)
        ]
      ]

  Chained-binds :
      (xs ys : List AttestationRecord) (r s : AttestationRecord)
      → Chained p (r ∷ xs)
      → Chained p (s ∷ ys)
      → record_content_hash p r ≡ record_content_hash p s
      → (map normalise (r ∷ xs) ≡ map normalise (s ∷ ys)) ⊎ Collision p
  Chained-binds xs ys r s c d e = elim (same_content r s e) [
    | inr collision ↦ inr collision
    | inl same ↦ fronts xs ys r s c d same
  ]

  -- Two intact logs whose last records have one content hash hold the same records from the first
  -- on, up to the order of nested keys, or two texts collide under sha256.
  pub content_hash_binds :
      (xs ys : List AttestationRecord) (r s : AttestationRecord)
      → IsIntact p (xs ++ r ∷ [])
      → IsIntact p (ys ++ s ∷ [])
      → record_content_hash p r ≡ record_content_hash p s
      → (map normalise (xs ++ r ∷ []) ≡ map normalise (ys ++ s ∷ [])) ⊎ Collision p
  content_hash_binds xs ys r s c d e =
      elim (Chained-binds (reverse xs) (reverse ys) r s (Chained_of_intact p xs r c)
        (Chained_of_intact p ys s d) e) [
          | inr collision ↦ inr collision
          | inl backwards ↦ inl (
              map_of_backwards normalise (xs ++ r ∷ []) (ys ++ s ∷ []) (
                ap (map normalise) (reverse-append xs (r ∷ []))
                ∙ backwards
                ∙ ap (map normalise) (sym (reverse-append ys (s ∷ [])))))
        ]
