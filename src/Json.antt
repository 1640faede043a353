-- ===== src/Json.antt =====
-- The values of `json`: what `AttestationRecord.to_dict` builds, `json.dumps` writes and
-- `json.loads` reads. A dict is its entries in insertion order. Floats are not modelled: no record
-- holds one.
pub mod Sort
use halt_proof.Base.{
  ℕ, zero, String, ◌==◌, Bool, true, false, not, Option, none, some, List, [], ◌∷◌, eqb, leb_text,
  if◌then◌else◌,
}
use halt_proof.Base.Int.{ℤ, pos, negsuc}

mutual
  pub data Json : Type 0 where
    null : Json
    bool : Bool → Json
    num : ℤ → Json
    str : String → Json
    arr : Items → Json
    obj : Fields → Json

  pub data Items : Type 0 where
    nil : Items
    cons : Json → Items → Items

  pub data Fields : Type 0 where
    end : Fields
    field : String → Json → Fields → Fields

-- `d.get(k)`
unfoldable pub get : String → Fields → Option Json
get k end = none
get k (field j v m) = if j == k then some v else get k m

-- `{k: v for k, v in d.items() if k != key}`
unfoldable pub without : String → Fields → Fields
without key end = end
without key (field j v m) = if j == key then without key m else field j v (without key m)

-- A list of texts as a JSON array.
unfoldable pub strings : List String → Items
strings [] = nil
strings (s ∷ ss) = cons (str s) (strings ss)

-- `if value:`
unfoldable pub truthy : Json → Bool
truthy null = false
truthy (bool b) = b
truthy (num (pos n)) = not (eqb n 0)
truthy (num (negsuc n)) = true
truthy (str s) = not (s == "")
truthy (arr nil) = false
truthy (arr (cons v vs)) = true
truthy (obj end) = false
truthy (obj (field k v m)) = true

-- Sorting the keys, as `sort_keys=True` does: each entry stands before the first larger key.
unfoldable pub insert : String → Json → Fields → Fields
insert k v end = field k v end
insert k v (field j w m) =
    if leb_text k j then field k v (field j w m) else field j w (insert k v m)

-- `sort_keys=True`, at every depth.
unfoldable mutual
  unfolding insert

  pub sort_keys : Json → Json
  sort_keys null = null
  sort_keys (bool b) = bool b
  sort_keys (num n) = num n
  sort_keys (str s) = str s
  sort_keys (arr vs) = arr (sort_items vs)
  sort_keys (obj m) = obj (sort_fields m)

  pub sort_items : Items → Items
  sort_items nil = nil
  sort_items (cons v vs) = cons (sort_keys v) (sort_items vs)

  pub sort_fields : Fields → Fields
  sort_fields end = end
  sort_fields (field k v m) = insert k (sort_keys v) (sort_fields m)
