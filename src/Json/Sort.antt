-- ===== src/Json/Sort.antt =====
-- Sorting the keys of a dict keeps what each key holds, and a second sort changes nothing.
use mathlib.Core.Option
use halt_proof.Base.{
  String, ◌≡◌, refl, ap, ap₂, ◌==◌, eq_iff, true, some, arith, leb_text, leb_text_total,
  if◌then◌else◌, inl, inr, Bool-cases, List, [], ◌∷◌,
}
use halt_proof.Json.{
  Json, null, bool, num, str, arr, obj, Items, nil, cons, Fields, end, field, get, insert,
  sort_keys, sort_items, sort_fields, strings,
}

get-insert :
    (k j : String) (v : Json) (m : Fields)
    → get k (insert j v m) ≡ (if j == k then some v else get k m)
unfolding get insert
get-insert k j v end = refl
get-insert k j v (field i w m) = ground (arith, get-insert k j v m, eq_iff j k, eq_iff i k)

-- A key of a sorted dict holds what it held, sorted in its turn.
pub get-sort_fields :
    (k : String) (m : Fields) → get k (sort_fields m) ≡ Option.map sort_keys (get k m)
unfolding get sort_keys
get-sort_fields k end = refl
get-sort_fields k (field j v m) =
    ground (arith, get-insert k j (sort_keys v) (sort_fields m), get-sort_fields k m)

-- The first key of a dict is no smaller.
abbrev Below : String → Fields → Type 0
Below k end = Unit
Below k (field j v m) = leb_text k j ≡ true

-- The keys stand in ascending order, at every depth.
mutual
  IsCanonical : Json → Type 0
  IsCanonical null = Unit
  IsCanonical (bool b) = Unit
  IsCanonical (num n) = Unit
  IsCanonical (str s) = Unit
  IsCanonical (arr vs) = AreCanonical vs
  IsCanonical (obj m) = IsCanonicalDict m

  AreCanonical : Items → Type 0
  AreCanonical nil = Unit
  AreCanonical (cons v vs) = IsCanonical v × AreCanonical vs

  IsCanonicalDict : Fields → Type 0
  IsCanonicalDict end = Unit
  IsCanonicalDict (field k v m) = Below k m × IsCanonical v × IsCanonicalDict m

Below-insert :
    (i k : String) (v : Json) (m : Fields)
    → leb_text i k ≡ true
    → Below i m
    → Below i (insert k v m)
unfolding insert
Below-insert i k v end h b = h
Below-insert i k v (field j w m) h b = ground arith

insert-IsCanonicalDict :
    (k : String) (v : Json) (m : Fields)
    → IsCanonical v
    → IsCanonicalDict m
    → IsCanonicalDict (insert k v m)
unfolding insert IsCanonical
insert-IsCanonicalDict k v end cv s = (tt, cv, tt)
insert-IsCanonicalDict k v (field j w m) cv s = elim (Bool-cases (leb_text k j)) [
  | inl le ↦ rw le (le, cv, s)
  | inr gt ↦
      rw gt
        (Below-insert j k v m (leb_text_total k j gt) s.0, s.1, insert-IsCanonicalDict k v m cv s.2)
]

mutual
  unfolding sort_keys IsCanonical

  sort_keys-IsCanonical : (v : Json) → IsCanonical (sort_keys v)
  sort_keys-IsCanonical null = tt
  sort_keys-IsCanonical (bool b) = tt
  sort_keys-IsCanonical (num n) = tt
  sort_keys-IsCanonical (str s) = tt
  sort_keys-IsCanonical (arr vs) = sort_items-AreCanonical vs
  sort_keys-IsCanonical (obj m) = sort_fields-IsCanonicalDict m

  sort_items-AreCanonical : (vs : Items) → AreCanonical (sort_items vs)
  sort_items-AreCanonical nil = tt
  sort_items-AreCanonical (cons v vs) = (sort_keys-IsCanonical v, sort_items-AreCanonical vs)

  sort_fields-IsCanonicalDict : (m : Fields) → IsCanonicalDict (sort_fields m)
  sort_fields-IsCanonicalDict end = tt
  sort_fields-IsCanonicalDict (field k v m) =
      insert-IsCanonicalDict k (sort_keys v) (sort_fields m) (sort_keys-IsCanonical v)
        (sort_fields-IsCanonicalDict m)

insert-Below : (k : String) (v : Json) (m : Fields) → Below k m → insert k v m ≡ field k v m
unfolding insert
insert-Below k v end b = refl
insert-Below k v (field j w m) b = rw b

mutual
  unfolding sort_keys IsCanonical

  sort_keys_fixed : (v : Json) → IsCanonical v → sort_keys v ≡ v
  sort_keys_fixed null c = refl
  sort_keys_fixed (bool b) c = refl
  sort_keys_fixed (num n) c = refl
  sort_keys_fixed (str s) c = refl
  sort_keys_fixed (arr vs) c = ap arr (sort_items_fixed vs c)
  sort_keys_fixed (obj m) c = ap obj (sort_fields_fixed m c)

  sort_items_fixed : (vs : Items) → AreCanonical vs → sort_items vs ≡ vs
  sort_items_fixed nil c = refl
  sort_items_fixed (cons v vs) c = ap₂ cons (sort_keys_fixed v c.0) (sort_items_fixed vs c.1)

  sort_fields_fixed : (m : Fields) → IsCanonicalDict m → sort_fields m ≡ m
  sort_fields_fixed end c = refl
  sort_fields_fixed (field k v m) c =
      rw (sort_keys_fixed v c.1, sort_fields_fixed m c.2) (insert-Below k v m c.0)

-- A second sort changes nothing.
pub sort_keys_idem : (v : Json) → sort_keys (sort_keys v) ≡ sort_keys v
sort_keys_idem v = sort_keys_fixed (sort_keys v) (sort_keys-IsCanonical v)

pub sort_items_idem : (vs : Items) → sort_items (sort_items vs) ≡ sort_items vs
sort_items_idem vs = sort_items_fixed (sort_items vs) (sort_items-AreCanonical vs)

pub sort_fields_idem : (m : Fields) → sort_fields (sort_fields m) ≡ sort_fields m
sort_fields_idem m = sort_fields_fixed (sort_fields m) (sort_fields-IsCanonicalDict m)

-- A list of texts has no keys to sort.
pub sort_items-strings : (ss : List String) → sort_items (strings ss) ≡ strings ss
unfolding sort_keys strings
sort_items-strings [] = refl
sort_items-strings (s ∷ ss) = ap (cons (str s)) (sort_items-strings ss)
