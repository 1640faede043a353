-- ===== src/Platform.antt =====
-- The libraries that attestation.py and keys.py call: `json`, `hashlib`, `base64` and the Ed25519
-- keys of `cryptography`. `Platform` holds the calls and `IsLawful` what their documentation says
-- of them.
pub mod Sample
use halt_proof.Base.{String, ◌≡◌, ◌≢◌, Bool, true, Option, none, some}
use halt_proof.Json.{Json, sort_keys}

pub record Platform : Type 1 where
  -- What `json.dumps` writes, and `line.strip()` of a line that is not blank.
  pub Text : Type 0
  pub Text_discrete : Discrete Text
  -- `json.dumps(v, sort_keys=True, separators=(",", ":"))`
  pub dumps : Json → Text
  -- `json.loads(line)`; `none` is a `JSONDecodeError`.
  pub loads : Text → Option Json
  -- `hashlib.sha256(text.encode("utf-8")).hexdigest()`
  pub sha256 : Text → String
  pub PrivateKey : Type 0
  pub PublicKey : Type 0
  pub Bytes : Type 0
  pub Bytes_discrete : Discrete Bytes
  -- `private_key.public_key()`
  pub public_key : PrivateKey → PublicKey
  -- `public_key.public_bytes(Raw, Raw)`
  pub public_bytes : PublicKey → Bytes
  -- `Ed25519PublicKey.from_public_bytes(b)`; `none` is an exception.
  pub from_public_bytes : Bytes → Option PublicKey
  -- `private_key.sign(text.encode("utf-8"))`
  pub sign : PrivateKey → Text → Bytes
  -- `public_key.verify(signature, text.encode("utf-8"))`; `false` is an `InvalidSignature`.
  pub verify : PublicKey → Bytes → Text → Bool
  -- `base64.b64encode(b).decode("ascii")`
  pub b64encode : Bytes → String
  -- `base64.b64decode(s)`; `none` is an exception.
  pub b64decode : String → Option Bytes

pub record IsLawful (p : Platform) : Type 0 where
  -- What was written is read back, its keys in the order of the text.
  pub loads-dumps : (v : Json) → p.loads (p.dumps v) ≡ some (sort_keys v)
  -- The text does not depend on the order of the keys.
  pub dumps-sort_keys : (v : Json) → p.dumps (sort_keys v) ≡ p.dumps v
  -- A digest has 64 digits.
  pub sha256_nonempty : (t : p.Text) → p.sha256 t ≢ ""
  pub from_public_bytes-public_bytes :
      (k : p.PublicKey) → p.from_public_bytes (p.public_bytes k) ≡ some k
  pub verify-sign :
      (k : p.PrivateKey) (t : p.Text) → p.verify (p.public_key k) (p.sign k t) t ≡ true
  pub b64decode-b64encode : (b : p.Bytes) → p.b64decode (p.b64encode b) ≡ some b
  -- A key has 32 bytes and a signature 64, so neither is encoded as the empty text.
  pub public_bytes_nonempty : (k : p.PublicKey) → p.b64encode (p.public_bytes k) ≢ ""
  pub sign_nonempty : (k : p.PrivateKey) (t : p.Text) → p.b64encode (p.sign k t) ≢ ""

-- Two texts with one digest.
abbrev pub Collision : Platform → Type 0
Collision p = (s : p.Text) × (t : p.Text) × (s ≢ t) × (p.sha256 s ≡ p.sha256 t)
