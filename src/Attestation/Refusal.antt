-- ===== src/Attestation/Refusal.antt =====
-- The exceptions of `verify_record`.
use halt_proof.Base.{String, Bool, true, false, Option, none, some, if◌then◌else◌}
use halt_proof.Base.Results.{Result, ok, err, ◌>>=◌}
use halt_proof.Errors.{Exn, attestation_error, signature_error, contents_changed}
use halt_proof.Json.{Json, Fields, get, truthy, str}
use halt_proof.Platform.{Platform}
use halt_proof.Attestation.{
  AttestationRecord, canonical_bytes, verify_record, verify_dict, to_dict, present, decode_field,
  load_embedded, check_trusted,
}

-- One of the two exceptions that the callers of `verify_record` catch.
abbrev pub IsRefusal : Exn → Type 0
IsRefusal (attestation_error f) = Unit
IsRefusal (signature_error f) = Unit
IsRefusal _ = ⊥

abbrev pub IsAnswer : {A : Type 0} → Result Exn A → Type 0
IsAnswer (ok a) = Unit
IsAnswer (err e) = IsRefusal e

bind-IsAnswer :
    {A B : Type 0} (m : Result Exn A) (k : A → Result Exn B)
    → IsAnswer m
    → ((a : A) → IsAnswer (k a))
    → IsAnswer (m >>= k)
bind-IsAnswer (ok a) k h g = g a
bind-IsAnswer (err e) k h g = h

if-IsAnswer :
    {A : Type 0} (b : Bool) (x y : Result Exn A)
    → IsAnswer x
    → IsAnswer y
    → IsAnswer (if b then x else y)
if-IsAnswer true x y h g = h
if-IsAnswer false x y h g = g

option-IsAnswer :
    {A B : Type 0} (o : Option A) (f : Exn) (k : A → Result Exn B)
    → IsAnswer {A = B} (err f)
    → ((a : A) → IsAnswer (k a))
    → IsAnswer (elim o as (λ _. Result Exn B) [ none ↦ err f | some a ↦ k a ])
option-IsAnswer none f k h g = h
option-IsAnswer (some a) f k h g = g a

dec-IsAnswer :
    {A X : Type 0} (d : Dec X) (x y : Result Exn A)
    → IsAnswer x
    → IsAnswer y
    → IsAnswer (elim d as (λ _. Result Exn A) [ yes _ ↦ x | no _ ↦ y ])
dec-IsAnswer (yes e) x y h g = h
dec-IsAnswer (no e) x y h g = g

module _ (p : Platform) where
  present-IsAnswer : (k : String) (m : Fields) → IsAnswer (present p k m)
  unfolding present
  present-IsAnswer k m = option-IsAnswer (get k m) _ _ tt λ v. if-IsAnswer (truthy v) _ _ tt tt

  decode_field-IsAnswer : (v : Json) → IsAnswer (decode_field p v)
  unfolding decode_field
  decode_field-IsAnswer (str s) = option-IsAnswer (p.b64decode s) _ _ tt λ b. tt
  decode_field-IsAnswer _ = tt

  load_embedded-IsAnswer : (b : p.Bytes) → IsAnswer (load_embedded p b)
  unfolding load_embedded
  load_embedded-IsAnswer b = option-IsAnswer (p.from_public_bytes b) _ _ tt λ k. tt

  check_trusted-IsAnswer :
      (trusted : Option p.PublicKey) (b : p.Bytes) → IsAnswer (check_trusted p trusted b)
  unfolding check_trusted
  check_trusted-IsAnswer none b = tt
  check_trusted-IsAnswer (some t) b = dec-IsAnswer (p.Bytes_discrete (p.public_bytes t) b) _ _ tt tt

  -- `verify_record` raises no other exceptions than these two.
  pub verify_record-IsAnswer :
      (r : AttestationRecord) (trusted : Option p.PublicKey) → IsAnswer (verify_record p r trusted)
  unfolding verify_record verify_dict
  verify_record-IsAnswer r trusted =
      bind-IsAnswer _ _ (present-IsAnswer "signature" (to_dict r)) λ s.
        bind-IsAnswer _ _ (present-IsAnswer "public_key" (to_dict r)) λ k.
          bind-IsAnswer _ _ (decode_field-IsAnswer k) λ kb.
            bind-IsAnswer _ _ (decode_field-IsAnswer s) λ sb.
              bind-IsAnswer _ _ (load_embedded-IsAnswer kb) λ key.
                bind-IsAnswer _ _ (check_trusted-IsAnswer trusted kb) λ _.
                  if-IsAnswer (p.verify key sb (canonical_bytes p (to_dict r))) (ok true)
                    (err (signature_error contents_changed)) tt tt
