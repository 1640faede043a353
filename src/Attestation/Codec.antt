-- ===== src/Attestation/Codec.antt =====
-- A record and its dict, written and read back.
use halt_proof.Platform.{Platform, IsLawful}
use halt_proof.Base.{sym, ◌∙◌, ap₂, String, ◌≡◌, refl, List, [], ◌∷◌, some, ap}
use halt_proof.Base.Results.{Result, ok}
use halt_proof.Errors.{Exn}
use halt_proof.Json.{Fields, obj, without, strings, sort_keys, sort_items, sort_fields}
use halt_proof.Json.Sort.{sort_items-strings, sort_items_idem, sort_fields_idem}
use halt_proof.Attestation.{
  dict_content_hash, AttestationRecord, to_dict, from_dict, as_strings, canonical_bytes,
  record_content_hash,
}

as_strings-strings : (k : String) (ss : List String) → as_strings k (strings ss) ≡ ok ss
unfolding as_strings strings
as_strings-strings k [] = refl
as_strings-strings k (s ∷ ss) = rw (as_strings-strings k ss)

-- The record with the keys of its nested dicts in the order that a written line has.
abbrev pub normalise : AttestationRecord → AttestationRecord
normalise r = record r { steps = sort_items r.steps; summary = sort_fields r.summary }

-- A dict made of a record gives the record back.
pub from_dict-to_dict : (r : AttestationRecord) → from_dict (to_dict r) ≡ ok r
unfolding from_dict to_dict
from_dict-to_dict r = rw (as_strings-strings "nodes" r.nodes)

-- The dict of a record with its keys sorted, as a written line has them, gives the record back,
-- with the keys of its steps and its summary sorted.
pub from_dict-sort_fields :
    (r : AttestationRecord) → from_dict (sort_fields (to_dict r)) ≡ ok (normalise r)
unfolding from_dict to_dict sort_keys
from_dict-sort_fields r =
    rw (sort_items-strings r.nodes) (rw (as_strings-strings "nodes" r.nodes) refl)

sort_fields-normalise :
    (r : AttestationRecord) → sort_fields (to_dict (normalise r)) ≡ sort_fields (to_dict r)
unfolding to_dict sort_keys
sort_fields-normalise r = rw (sort_items_idem, sort_fields_idem)

sort_fields-without-normalise :
    (r : AttestationRecord)
    → sort_fields (without "signature" (to_dict (normalise r)))
      ≡ sort_fields (without "signature" (to_dict r))
unfolding to_dict sort_keys without
sort_fields-without-normalise r = rw (sort_items_idem, sort_fields_idem)

abbrev unsigned : AttestationRecord → AttestationRecord
unsigned r = record (normalise r) { signature = "" }

from_dict-without :
    (r : AttestationRecord)
    → from_dict (sort_fields (without "signature" (to_dict r))) ≡ ok (unsigned r)
unfolding from_dict to_dict sort_keys without
from_dict-without r = rw (sort_items-strings r.nodes) (rw (as_strings-strings "nodes" r.nodes) refl)

module _ (p : Platform) (L : IsLawful p) where
  -- Dicts that agree once their keys are sorted are written alike.
  pub dumps_of_sorted :
      (m n : Fields) → sort_fields m ≡ sort_fields n → p.dumps (obj m) ≡ p.dumps (obj n)
  unfolding sort_keys
  dumps_of_sorted m n e =
      sym (L.dumps-sort_keys (obj m)) ∙ ap (λ v. p.dumps (obj v)) e ∙ L.dumps-sort_keys (obj n)

  -- Dicts that are written alike agree once their keys are sorted.
  pub sorted_of_dumps :
      (m n : Fields) → p.dumps (obj m) ≡ p.dumps (obj n) → sort_fields m ≡ sort_fields n
  unfolding sort_keys
  sorted_of_dumps m n e =
      let same : some (sort_keys (obj m)) ≡ some (sort_keys (obj n)) =
        sym (L.loads-dumps (obj m)) ∙ ap p.loads e ∙ L.loads-dumps (obj n) in
      cc

  pub dumps-normalise :
      (r : AttestationRecord) → p.dumps (obj (to_dict (normalise r))) ≡ p.dumps (obj (to_dict r))
  dumps-normalise r = dumps_of_sorted (to_dict (normalise r)) (to_dict r) (sort_fields-normalise r)

  pub canonical_bytes-normalise :
      (r : AttestationRecord)
      → canonical_bytes p (to_dict (normalise r)) ≡ canonical_bytes p (to_dict r)
  unfolding canonical_bytes
  canonical_bytes-normalise r = dumps_of_sorted _ _ (sort_fields-without-normalise r)

  pub record_content_hash-normalise :
      (r : AttestationRecord) → record_content_hash p (normalise r) ≡ record_content_hash p r
  unfolding record_content_hash dict_content_hash
  record_content_hash-normalise r = ap p.sha256 (dumps-normalise r)

  -- Two records that are written alike differ at most in the order of nested keys.
  pub normalise_of_dumps :
      (r s : AttestationRecord)
      → p.dumps (obj (to_dict r)) ≡ p.dumps (obj (to_dict s))
      → normalise r ≡ normalise s
  normalise_of_dumps r s e =
      let same : Path (Result Exn AttestationRecord) (ok (normalise r)) (ok (normalise s)) =
        sym (from_dict-sort_fields r)
        ∙ ap from_dict (sorted_of_dumps (to_dict r) (to_dict s) e)
        ∙ from_dict-sort_fields s in
      cc

  -- Records with one signature and the same canonical bytes differ at most in the order of nested
  -- keys.
  pub normalise_of_canonical_bytes :
      (r s : AttestationRecord)
      → canonical_bytes p (to_dict r) ≡ canonical_bytes p (to_dict s)
      → r.signature ≡ s.signature
      → normalise r ≡ normalise s
  unfolding canonical_bytes
  normalise_of_canonical_bytes r s e es =
      let same : Path (Result Exn AttestationRecord) (ok (unsigned r)) (ok (unsigned s)) =
        sym (from_dict-without r) ∙ ap from_dict (sorted_of_dumps _ _ e) ∙ from_dict-without s in
      let core : unsigned r ≡ unsigned s = cc in
      ap₂ (λ (t : AttestationRecord) x. record t { signature = x }) core es
