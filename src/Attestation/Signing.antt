-- ===== src/Attestation/Signing.antt =====
-- `sign_record` and `verify_record`.
use halt_proof.Base.{
  ◌≡◌, refl, ◌≢◌, eq_iff, Bool, true, false, Option, none, some, arith, Bool-cases, inl, inr,
  false≢true, ◌↔◌, ◌⊎◌, sym,
}
use halt_proof.Base.Results.{Result, ok, err}
use halt_proof.Errors.{Exn, signature_error, untrusted_key, contents_changed}
use halt_proof.Platform.{Platform, IsLawful}
use halt_proof.Attestation.{AttestationRecord, to_dict, canonical_bytes, sign_record, verify_record}
use halt_proof.Attestation.Codec.{
  normalise, canonical_bytes-normalise, normalise_of_canonical_bytes,
}

value_of {ℓ} : {A : Type ℓ} (o : Option A) → o ≢ none → (a : A) × (o ≡ some a)
value_of none h = absurd (h refl)
value_of (some a) h = (a, refl)

module _ (p : Platform) where
  -- An embedded key that the trusted key allows: any, or the same bytes.
  abbrev pub IsTrusted : Option p.PublicKey → p.Bytes → Type 0
  IsTrusted none b = Unit
  IsTrusted (some trusted) b = p.public_bytes trusted ≡ b

  -- The record holds a key and a signature, the key is allowed, and the signature is one of the
  -- record's canonical bytes under that key.
  pub record IsSigned (r : AttestationRecord) (trusted : Option p.PublicKey) : Type 0 where
    pub key_bytes : p.Bytes
    pub signature_bytes : p.Bytes
    pub key : p.PublicKey
    pub has_signature : r.signature ≢ ""
    pub has_key : r.public_key ≢ ""
    pub decoded_key : p.b64decode r.public_key ≡ some key_bytes
    pub decoded_signature : p.b64decode r.signature ≡ some signature_bytes
    pub loaded_key : p.from_public_bytes key_bytes ≡ some key
    pub allowed : IsTrusted trusted key_bytes
    pub verified : p.verify key signature_bytes (canonical_bytes p (to_dict r)) ≡ true

  -- The steps of an accepted verification, given what the libraries answered.
  accepted_steps :
      (r : AttestationRecord) (trusted : Option p.PublicKey) {b : Bool} {k s : p.Bytes}
      {key : p.PublicKey}
      → verify_record p r trusted ≡ ok b
      → p.b64decode r.public_key ≡ some k
      → p.b64decode r.signature ≡ some s
      → p.from_public_bytes k ≡ some key
      → (b ≡ true) × IsSigned r trusted
  unfolding verify_record
  accepted_steps r none {k} {s} {key} h ek es ey = (
    ground (arith, eq_iff r.signature "", eq_iff r.public_key ""),
    record {
      key_bytes = k;
      signature_bytes = s;
      key = key;
      has_signature = ground (arith, eq_iff r.signature "");
      has_key = ground (arith, eq_iff r.public_key "");
      decoded_key = ek;
      decoded_signature = es;
      loaded_key = ey;
      allowed = tt;
      verified = ground (arith, eq_iff r.signature "", eq_iff r.public_key "");
    },
  )
  accepted_steps r (some trusted) {k} {s} {key} h ek es ey = (
    ground (arith, eq_iff r.signature "", eq_iff r.public_key ""),
    record {
      key_bytes = k;
      signature_bytes = s;
      key = key;
      has_signature = ground (arith, eq_iff r.signature "");
      has_key = ground (arith, eq_iff r.public_key "");
      decoded_key = ek;
      decoded_signature = es;
      loaded_key = ey;
      allowed = ground (arith, eq_iff r.signature "", eq_iff r.public_key "");
      verified = ground (arith, eq_iff r.signature "", eq_iff r.public_key "");
    },
  )

  key_decodes :
      (r : AttestationRecord) (trusted : Option p.PublicKey) {b : Bool}
      → verify_record p r trusted ≡ ok b
      → p.b64decode r.public_key ≢ none
  unfolding verify_record
  key_decodes r trusted h e = ground (arith, eq_iff r.signature "", eq_iff r.public_key "")

  signature_decodes :
      (r : AttestationRecord) (trusted : Option p.PublicKey) {b : Bool} {k : p.Bytes}
      → verify_record p r trusted ≡ ok b
      → p.b64decode r.public_key ≡ some k
      → p.b64decode r.signature ≢ none
  unfolding verify_record
  signature_decodes r trusted h ek e = ground (arith, eq_iff r.signature "", eq_iff r.public_key "")

  key_loads :
      (r : AttestationRecord) (trusted : Option p.PublicKey) {b : Bool} {k s : p.Bytes}
      → verify_record p r trusted ≡ ok b
      → p.b64decode r.public_key ≡ some k
      → p.b64decode r.signature ≡ some s
      → p.from_public_bytes k ≢ none
  unfolding verify_record
  key_loads r trusted h ek es e = ground (arith, eq_iff r.signature "", eq_iff r.public_key "")

  IsSigned_of_accepted :
      (r : AttestationRecord) (trusted : Option p.PublicKey) {b : Bool}
      → verify_record p r trusted ≡ ok b
      → (b ≡ true) × IsSigned r trusted
  IsSigned_of_accepted r trusted h =
      let (k, ek) = value_of (p.b64decode r.public_key) (key_decodes r trusted h) in
      let (s, es) = value_of (p.b64decode r.signature) (signature_decodes r trusted h ek) in
      let (key, ey) = value_of (p.from_public_bytes k) (key_loads r trusted h ek es) in
      accepted_steps r trusted h ek es ey

  pub verify_record-IsSigned :
      (r : AttestationRecord) (trusted : Option p.PublicKey)
      → IsSigned r trusted
      → verify_record p r trusted ≡ ok true
  unfolding verify_record
  verify_record-IsSigned r none s = ground (arith, eq_iff r.signature "", eq_iff r.public_key "")
  verify_record-IsSigned r (some t) s =
      ground (arith, eq_iff r.signature "", eq_iff r.public_key "")

  -- `verify_record` accepts exactly the records that hold a signature of their canonical bytes
  -- under the embedded key, that key being the trusted one where one is given; it returns nothing
  -- but `True`.
  pub verify_record-iff-IsSigned :
      (r : AttestationRecord) (trusted : Option p.PublicKey)
      → ((verify_record p r trusted ≡ ok true) ↔ IsSigned r trusted)
        × (verify_record p r trusted ≢ ok false)
  verify_record-iff-IsSigned r trusted = (
    (λ h. (IsSigned_of_accepted r trusted h).1, verify_record-IsSigned r trusted),
    λ h. false≢true (IsSigned_of_accepted r trusted h).0,
  )

-- A signature that is valid for two texts under one key.
abbrev pub Forgery : Platform → Type 0
Forgery p =
    (k : p.PublicKey) × (s : p.Bytes) × (t : p.Text) × (u : p.Text) × (t ≢ u)
    × (p.verify k s t ≡ true)
    × (p.verify k s u ≡ true)

module _ (p : Platform) where
  refused_by :
      (r : AttestationRecord) {k s : p.Bytes} {key : p.PublicKey}
      → p.b64decode r.public_key ≡ some k
      → p.b64decode r.signature ≡ some s
      → p.from_public_bytes k ≡ some key
      → r.signature ≢ ""
      → r.public_key ≢ ""
      → p.verify key s (canonical_bytes p (to_dict r)) ≡ false
      → verify_record p r none ≡ err (signature_error contents_changed)
  unfolding verify_record
  refused_by r ek es ey hs hk h = ground (arith, eq_iff r.signature "", eq_iff r.public_key "")

module _ (p : Platform) (L : IsLawful p) where
  pub sign_record-IsSigned :
      (r : AttestationRecord) (k : p.PrivateKey) (trusted : Option p.PublicKey)
      → IsTrusted p trusted (p.public_bytes (p.public_key k))
      → IsSigned p (sign_record p r k) trusted
  unfolding sign_record
  sign_record-IsSigned r k trusted t = record {
    key_bytes = p.public_bytes (p.public_key k);
    signature_bytes = p.sign k (
        canonical_bytes p
          (to_dict (record r { public_key = p.b64encode (p.public_bytes (p.public_key k)) })));
    key = p.public_key k;
    has_signature = L.sign_nonempty k _;
    has_key = L.public_bytes_nonempty (p.public_key k);
    decoded_key = L.b64decode-b64encode _;
    decoded_signature = L.b64decode-b64encode _;
    loaded_key = L.from_public_bytes-public_bytes (p.public_key k);
    allowed = t;
    verified = L.verify-sign k _;
  }

  untrusted_refused :
      (r : AttestationRecord) (t : p.PublicKey) (s : IsSigned p r none)
      → p.public_bytes t ≢ s.key_bytes
      → verify_record p r (some t) ≡ err (signature_error untrusted_key)
  unfolding verify_record
  untrusted_refused r t s other = ground (arith, eq_iff r.signature "", eq_iff r.public_key "")

  -- Whether a trusted key has the signer's bytes decides the answer.
  abbrev pub signer_verdict : {A : Type 0} → Dec A → Result Exn Bool
  signer_verdict (yes same) = ok true
  signer_verdict (no other) = err (signature_error untrusted_key)

  sign_record_under :
      (r : AttestationRecord) (k : p.PrivateKey) (t : p.PublicKey)
      (d : Dec (p.public_bytes t ≡ p.public_bytes (p.public_key k)))
      → verify_record p (sign_record p r k) (some t) ≡ signer_verdict d
  unfolding sign_record-IsSigned
  sign_record_under r k t (yes same) =
      verify_record-IsSigned p _ (some t) (sign_record-IsSigned r k (some t) same)
  sign_record_under r k t (no other) =
      untrusted_refused _ t (sign_record-IsSigned r k none tt) other

  -- What `sign_record` signs verifies where no key is trusted. Where one is, it verifies if that
  -- key has the bytes of the signer's, and is refused as untrusted if it has not.
  pub verify_record-sign_record :
      (r : AttestationRecord) (k : p.PrivateKey) (t : p.PublicKey)
      → (verify_record p (sign_record p r k) none ≡ ok true)
        × (verify_record p (sign_record p r k) (some t)
            ≡ signer_verdict
                (p.Bytes_discrete (p.public_bytes t) (p.public_bytes (p.public_key k))))
  verify_record-sign_record r k t = (
    verify_record-IsSigned p _ none (sign_record-IsSigned r k none tt),
    sign_record_under r k t (p.Bytes_discrete (p.public_bytes t) (p.public_bytes (p.public_key k))),
  )

  pub verify_record-normalise :
      (r : AttestationRecord) (trusted : Option p.PublicKey)
      → verify_record p r trusted ≡ ok true
      → verify_record p (normalise r) trusted ≡ ok true
  verify_record-normalise r trusted h =
      let s = (IsSigned_of_accepted p r trusted h).1 in
      verify_record-IsSigned p (normalise r) trusted (record {
        key_bytes = s.key_bytes;
        signature_bytes = s.signature_bytes;
        key = s.key;
        has_signature = s.has_signature;
        has_key = s.has_key;
        decoded_key = s.decoded_key;
        decoded_signature = s.decoded_signature;
        loaded_key = s.loaded_key;
        allowed = s.allowed;
        verified = rw (canonical_bytes-normalise p L r) s.verified;
      })

  changed_refused :
      (r s : AttestationRecord) (signed : IsSigned p r none)
      → s.public_key ≡ r.public_key
      → s.signature ≡ r.signature
      → p.verify signed.key signed.signature_bytes (canonical_bytes p (to_dict s)) ≡ false
      → verify_record p s none ≡ err (signature_error contents_changed)
  changed_refused r s signed ek es h =
      refused_by p s (rw ek signed.decoded_key) (rw es signed.decoded_signature) signed.loaded_key
        (rw es signed.has_signature) (rw ek signed.has_key) h

  -- Take a record that verifies, and a second one with its key and signature but with any other
  -- content. The second is refused because its contents changed, or it shows a signature that is
  -- valid for two texts.
  pub verify_record_tampered :
      (r s : AttestationRecord)
      → verify_record p r none ≡ ok true
      → s.public_key ≡ r.public_key
      → s.signature ≡ r.signature
      → normalise s ≢ normalise r
      → (verify_record p s none ≡ err (signature_error contents_changed)) ⊎ Forgery p
  verify_record_tampered r s h ek es changed =
      let signed = (IsSigned_of_accepted p r none h).1 in
      elim (Bool-cases
        (p.verify signed.key signed.signature_bytes (canonical_bytes p (to_dict s)))) [
          | inr no_match ↦ inl (changed_refused r s signed ek es no_match)
          | inl match ↦ inr (
            signed.key,
            signed.signature_bytes,
            canonical_bytes p (to_dict r),
            canonical_bytes p (to_dict s),
            λ e. changed (sym (normalise_of_canonical_bytes p L r s e (sym es))),
            signed.verified,
            match,
          )
        ]
