-- ===== src/Platform/Sample.antt =====
-- A platform that meets its laws, for runs on concrete data: a text is a sorted value, a digest and
-- a signature spell out what they are taken of.
use Prim.Native.String.{[], ◌∷◌}
use native.Mathlib.Decide.{ℕ_discrete}
use text.Mathlib.TextLemmas.{cons-ne-nil}
use halt_proof.Base.{String, ◌<>◌, refl, ◌==◌, eq_refl, Option, none, some, if◌then◌else◌}
use halt_proof.Base.TextOrder.{String_discrete}
use halt_proof.Base.Decimal.{str_ℤ}
use halt_proof.Json.{
  Json, null, bool, num, str, arr, obj, Items, nil, cons, Fields, end, field, sort_keys,
}
use halt_proof.Json.Sort.{sort_keys_idem}
use halt_proof.Platform.{Platform, IsLawful}

pub Json_discrete : Discrete Json
Json_discrete = hlevel (ℕ_discrete, String_discrete)

unfoldable mutual
  unfolding str_ℤ

  pub spell : Json → String
  spell null = "~"
  spell (bool b) = if b then "+" else "-"
  spell (num n) = str_ℤ n
  spell (str s) = "'" <> s
  spell (arr vs) = "[" <> spell_items vs
  spell (obj m) = "{" <> spell_fields m

  spell_items : Items → String
  spell_items nil = "]"
  spell_items (cons v vs) = spell v <> spell_items vs

  spell_fields : Fields → String
  spell_fields end = "}"
  spell_fields (field k v m) = k <> spell v <> spell_fields m

unfoldable pub decode : String → Option String
decode [] = none
decode (c ∷ s) = some s

unfoldable pub sample : Platform
unfolding spell decode
sample = record {
  Text = Json;
  Text_discrete = Json_discrete;
  dumps = sort_keys;
  loads = λ t. some t;
  sha256 = λ t. "#" ∷ spell t;
  PrivateKey = String;
  PublicKey = String;
  Bytes = String;
  Bytes_discrete = String_discrete;
  public_key = λ k. k;
  public_bytes = λ k. k;
  from_public_bytes = λ b. some b;
  sign = λ k t. k <> spell t;
  verify = λ k s t. s == (k <> spell t);
  b64encode = λ b. "=" ∷ b;
  b64decode = decode;
}

pub sample-IsLawful : IsLawful sample
unfolding sample
sample-IsLawful = record {
  loads-dumps = λ v. refl;
  dumps-sort_keys = λ v. sort_keys_idem v;
  sha256_nonempty = λ t. cons-ne-nil _ _;
  from_public_bytes-public_bytes = λ k. refl;
  verify-sign = λ k t. eq_refl _;
  b64decode-b64encode = λ b. refl;
  public_bytes_nonempty = λ k. cons-ne-nil _ _;
  sign_nonempty = λ k t. cons-ne-nil _ _;
}

unfoldable pub key : sample.PrivateKey
unfolding sample
key = "k"
