-- ===== src/Attestation.antt =====
-- attestation.py: records, their dicts, hashes and signatures. The log and its chain stand in the
-- modules below, and so do the proofs.
pub mod Codec
pub mod Signing
pub mod Refusal
pub mod Passing
pub mod Log
pub mod Chain
use halt_proof.Base.{
  ℕ, zero, suc, String, ◌==◌, Bool, true, false, ◌||◌, Option, none, some, List, [], ◌∷◌, map, not,
  if◌then◌else◌,
}
use halt_proof.Base.Int.{ℤ, pos}
use halt_proof.Base.Results.{Result, ok, err, ◌>>=◌, ◌>>◌}
use halt_proof.Errors.{
  Exn, attestation_error, signature_error, ill_typed, type_error, attribute_error,
  missing_signature, malformed_base64, invalid_public_key, untrusted_key, contents_changed,
}
use halt_proof.Json.{
  Json, null, bool, num, str, arr, obj, Items, nil, cons, Fields, end, field, get, without, truthy,
  strings,
}
use halt_proof.Platform.{Platform}
use halt_proof.Backend.{StepResult, step_dict}

abbrev pub schema_version : ℤ
schema_version = pos 1

pub record AttestationRecord : Type 0 where
  pub version : ℤ
  pub id : String
  pub seq : ℤ
  pub timestamp : String
  pub operator : String
  pub hostname : String
  pub action : String
  pub target_group : String
  pub backend : String
  pub nodes : List String
  pub dry_run : Bool
  pub confirmed : Bool
  pub steps : Items
  pub summary : Fields
  pub prev_hash : String
  pub public_key : String
  pub signature : String

-- `asdict(self)`: the fields in the order of their declaration.
unfoldable pub to_dict : AttestationRecord → Fields
unfolding strings
to_dict r = field "version" (num r.version) (
    field "id" (str r.id) (
      field "seq" (num r.seq) (
        field "timestamp" (str r.timestamp) (
          field "operator" (str r.operator) (
            field "hostname" (str r.hostname) (
              field "action" (str r.action) (
                field "target_group" (str r.target_group) (
                  field "backend" (str r.backend) (
                    field "nodes" (arr (strings r.nodes)) (
                      field "dry_run" (bool r.dry_run) (
                        field "confirmed" (bool r.confirmed) (
                          field "steps" (arr r.steps) (
                            field "summary" (obj r.summary) (
                              field "prev_hash" (str r.prev_hash) (
                                field "public_key" (str r.public_key)
                                  (field "signature" (str r.signature) end))))))))))))))))

-- A keyword argument of `cls(**filtered)` at the type that the dataclass declares.
as_int : String → Json → Result Exn ℤ
as_int k (num n) = ok n
as_int k _ = err (ill_typed k)

as_str : String → Json → Result Exn String
as_str k (str s) = ok s
as_str k _ = err (ill_typed k)

as_bool : String → Json → Result Exn Bool
as_bool k (bool b) = ok b
as_bool k _ = err (ill_typed k)

as_list : String → Json → Result Exn Items
as_list k (arr vs) = ok vs
as_list k _ = err (ill_typed k)

as_dict : String → Json → Result Exn Fields
as_dict k (obj m) = ok m
as_dict k _ = err (ill_typed k)

as_strings : String → Items → Result Exn (List String)
unfolding as_str
as_strings k nil = ok []
as_strings k (cons v vs) = do s ← as_str k v; ss ← as_strings k vs; ok (s ∷ ss)

-- A field without a default: a missing keyword argument is a `TypeError`.
required : {A : Type 0} → (String → Json → Result Exn A) → String → Fields → Result Exn A
required read k m = elim (get k m) [ none ↦ err type_error | some v ↦ read k v ]

-- A field with the default `""`.
optional : String → Fields → Result Exn String
unfolding as_str
optional k m = elim (get k m) [ none ↦ ok "" | some v ↦ as_str k v ]

-- `AttestationRecord.from_dict`. Keys that are no field are not looked at, as the filter drops
-- them.
unfoldable pub from_dict : Fields → Result Exn AttestationRecord
unfolding as_int as_str as_bool as_list as_dict as_strings required optional get
from_dict m = do
  version ← required as_int "version" m
  id ← required as_str "id" m
  seq ← required as_int "seq" m
  timestamp ← required as_str "timestamp" m
  operator ← required as_str "operator" m
  hostname ← required as_str "hostname" m
  action ← required as_str "action" m
  target_group ← required as_str "target_group" m
  backend ← required as_str "backend" m
  node_items ← required as_list "nodes" m
  nodes ← as_strings "nodes" node_items
  dry_run ← required as_bool "dry_run" m
  confirmed ← required as_bool "confirmed" m
  steps ← required as_list "steps" m
  summary ← required as_dict "summary" m
  prev_hash ← optional "prev_hash" m
  public_key ← optional "public_key" m
  signature ← optional "signature" m
  ok (record {
    version = version;
    id = id;
    seq = seq;
    timestamp = timestamp;
    operator = operator;
    hostname = hostname;
    action = action;
    target_group = target_group;
    backend = backend;
    nodes = nodes;
    dry_run = dry_run;
    confirmed = confirmed;
    steps = steps;
    summary = summary;
    prev_hash = prev_hash;
    public_key = public_key;
    signature = signature;
  })

-- What the library calls of `build_record` return: `uuid.uuid4()`, the time, the host's name.
pub record Origin : Type 0 where
  pub id : String
  pub timestamp : String
  pub hostname : String

-- `s["status"] == status`
has_status : String → Fields → Bool
unfolding get
has_status status s = elim (get "status" s) [ some (str t) ↦ t == status | _ ↦ false ]

-- `sum(1 for s in step_dicts if s["status"] == status)`
unfoldable pub count_status : String → List Fields → ℕ
unfolding has_status
count_status status [] = 0
count_status status (s ∷ ss) =
    let rest = count_status status ss in if has_status status s then suc rest else rest

unfoldable pub dicts : List Fields → Items
dicts [] = nil
dicts (m ∷ ms) = cons (obj m) (dicts ms)

unfoldable pub summarise : List Fields → Fields
unfolding count_status
summarise ss = field "success" (num (pos (count_status "success" ss))) (
    field "failure" (num (pos (count_status "failure" ss))) (
      field "planned" (num (pos (count_status "planned" ss)))
        (field "skipped" (num (pos (count_status "skipped" ss))) end)))

unfoldable pub build_record :
    Origin
    → ℤ
    → String
    → String
    → String
    → String
    → List String
    → Bool
    → Bool
    → List StepResult
    → String
    → AttestationRecord
unfolding step_dict summarise dicts
build_record o seq operator action target_group backend nodes dry_run confirmed steps prev_hash =
    let step_dicts = map step_dict steps in
    record {
      version = schema_version;
      id = o.id;
      seq = seq;
      timestamp = o.timestamp;
      operator = operator;
      hostname = o.hostname;
      action = action;
      target_group = target_group;
      backend = backend;
      nodes = nodes;
      dry_run = dry_run;
      confirmed = confirmed;
      steps = dicts step_dicts;
      summary = summarise step_dicts;
      prev_hash = prev_hash;
      public_key = "";
      signature = "";
    }

module _ (p : Platform) where
  -- `_canonical_bytes`
  unfoldable pub canonical_bytes : Fields → p.Text
  unfolding without
  canonical_bytes m = p.dumps (obj (without "signature" m))

  -- `record_content_hash` of a dict.
  unfoldable pub dict_content_hash : Fields → String
  dict_content_hash m = p.sha256 (p.dumps (obj m))

  unfoldable pub record_content_hash : AttestationRecord → String
  record_content_hash r = dict_content_hash (to_dict r)

  unfoldable pub sign_record : AttestationRecord → p.PrivateKey → AttestationRecord
  unfolding canonical_bytes to_dict
  sign_record r private_key =
      let keyed : AttestationRecord = record r {
        public_key = p.b64encode (p.public_bytes (p.public_key private_key));
      } in
      record keyed {
        signature = p.b64encode (p.sign private_key (canonical_bytes (to_dict keyed)));
      }

  -- `base64.b64decode(v)` raises for what is no text.
  unfoldable decode_field : Json → Result Exn p.Bytes
  decode_field (str s) = elim (p.b64decode s) [
    | none ↦ err (attestation_error malformed_base64)
    | some b ↦ ok b
  ]
  decode_field _ = err (attestation_error malformed_base64)

  -- `data.get(k)`, where it is there and true.
  unfoldable present : String → Fields → Result Exn Json
  unfolding get truthy
  present k m = elim (get k m) [
    | none ↦ err (attestation_error missing_signature)
    | some v ↦ if truthy v then ok v else err (attestation_error missing_signature)
  ]

  unfoldable load_embedded : p.Bytes → Result Exn p.PublicKey
  load_embedded b = elim (p.from_public_bytes b) [
    | none ↦ err (attestation_error invalid_public_key)
    | some k ↦ ok k
  ]

  -- The comparison with the trusted key, where one is given.
  unfoldable check_trusted : Option p.PublicKey → p.Bytes → Result Exn (Unit {0})
  check_trusted none b = ok tt
  check_trusted (some trusted) b = elim (p.Bytes_discrete (p.public_bytes trusted) b) [
    | yes same ↦ ok tt
    | no other ↦ err (signature_error untrusted_key)
  ]

  -- `verify_record` of a dict.
  unfoldable pub verify_dict : Fields → Option p.PublicKey → Result Exn Bool
  unfolding present decode_field load_embedded check_trusted canonical_bytes
  verify_dict m trusted = do
    signature_b64 ← present "signature" m
    public_key_b64 ← present "public_key" m
    public_key_bytes ← decode_field public_key_b64
    signature_bytes ← decode_field signature_b64
    public_key ← load_embedded public_key_bytes
    check_trusted trusted public_key_bytes
    if p.verify public_key signature_bytes (canonical_bytes m)
        then ok true
        else err (signature_error contents_changed)

  unfoldable pub verify_record : AttestationRecord → Option p.PublicKey → Result Exn Bool
  unfolding verify_dict to_dict
  verify_record r trusted = verify_dict (to_dict r) trusted
