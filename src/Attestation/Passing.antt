-- ===== src/Attestation/Passing.antt =====
-- Reading the log raises no `HaltProofError`: `run_verify_chain` has nothing for its callers to
-- catch.
use halt_proof.Base.{String, Option, none, some, List, [], ◌∷◌}
use halt_proof.Base.Results.{Result, ok, err, ◌>>=◌}
use halt_proof.Errors.{Exn, haltproof_error, attribute_error, json_decode_error}
use halt_proof.Json.{Json, bool, num, str, arr, obj, Items, nil, cons, Fields, get}
use halt_proof.Platform.{Platform}
use halt_proof.World.{World, log_at, log_lines, Content}
use halt_proof.Attestation.{
  AttestationRecord, as_int, as_str, as_bool, as_list, as_dict, as_strings, required, optional,
  from_dict,
}
use halt_proof.Attestation.Log.{Line, LogFile, read_line, read_lines, read_all}
use halt_proof.Attestation.Chain.{verify_log}
use halt_proof.Core.{run_verify_chain}

-- No `HaltProofError`.
abbrev IsOther : Exn → Type 0
IsOther (haltproof_error f) = ⊥
IsOther e = Unit

abbrev pub IsPassing : {A : Type 0} → Result Exn A → Type 0
IsPassing (ok a) = Unit
IsPassing (err e) = IsOther e

bind-IsPassing :
    {A B : Type 0} (m : Result Exn A) (k : A → Result Exn B)
    → IsPassing m
    → ((a : A) → IsPassing (k a))
    → IsPassing (m >>= k)
bind-IsPassing (ok a) k h g = g a
bind-IsPassing (err e) k h g = h

option-IsPassing :
    {A B : Type 0} (o : Option A) (m : Result Exn B) (k : A → Result Exn B)
    → IsPassing m
    → ((a : A) → IsPassing (k a))
    → IsPassing (elim o as (λ _. Result Exn B) [ none ↦ m | some a ↦ k a ])
option-IsPassing none m k h g = h
option-IsPassing (some a) m k h g = g a

abbrev Reader : Type 0 → Type 0
Reader A = String → Json → Result Exn A

-- A reader of a field at its type.
abbrev PassingReader : {A : Type 0} → Reader A → Type 0
PassingReader read = (k : String) (v : Json) → IsPassing (read k v)

as_int-IsPassing : PassingReader as_int
unfolding as_int
as_int-IsPassing k (num n) = tt
as_int-IsPassing k v = tt

as_str-IsPassing : PassingReader as_str
unfolding as_str
as_str-IsPassing k (str s) = tt
as_str-IsPassing k v = tt

as_bool-IsPassing : PassingReader as_bool
unfolding as_bool
as_bool-IsPassing k (bool b) = tt
as_bool-IsPassing k v = tt

as_list-IsPassing : PassingReader as_list
unfolding as_list
as_list-IsPassing k (arr vs) = tt
as_list-IsPassing k v = tt

as_dict-IsPassing : PassingReader as_dict
unfolding as_dict
as_dict-IsPassing k (obj m) = tt
as_dict-IsPassing k v = tt

as_strings-IsPassing : (k : String) (vs : Items) → IsPassing (as_strings k vs)
unfolding as_strings
as_strings-IsPassing k nil = tt
as_strings-IsPassing k (cons v vs) =
    bind-IsPassing _ _ (as_str-IsPassing k v)
      λ s. bind-IsPassing _ _ (as_strings-IsPassing k vs) λ ss. tt

required-IsPassing :
    {A : Type 0} (read : Reader A)
    → PassingReader read
    → (k : String) (m : Fields) → IsPassing (required read k m)
unfolding required
required-IsPassing read h k m = option-IsPassing (get k m) _ _ tt λ v. h k v

optional-IsPassing : (k : String) (m : Fields) → IsPassing (optional k m)
unfolding optional
optional-IsPassing k m = option-IsPassing (get k m) _ _ tt λ v. as_str-IsPassing k v

ruleset passing_rules = (
  bind-IsPassing, required-IsPassing, optional-IsPassing, as_int-IsPassing, as_str-IsPassing,
  as_bool-IsPassing, as_list-IsPassing, as_dict-IsPassing, as_strings-IsPassing,
)

from_dict-IsPassing : (m : Fields) → IsPassing (from_dict m)
unfolding from_dict
from_dict-IsPassing m = search passing_rules depth 40

module _ (p : Platform) where
  read_line-IsPassing : (t : p.Text) → IsPassing (read_line p t)
  unfolding read_line
  read_line-IsPassing t = option-IsPassing (p.loads t) _ _ tt found
    where
      found :
          (v : Json)
          → IsPassing (elim v as (λ _. Result Exn AttestationRecord) [
            | obj m ↦ from_dict m
            | _ ↦ err attribute_error
          ])
      found (obj m) = from_dict-IsPassing m
      found v = tt

  read_lines-IsPassing : (lines : List (Line p)) → IsPassing (read_lines p lines)
  unfolding read_lines
  read_lines-IsPassing [] = tt
  read_lines-IsPassing (none ∷ lines) = read_lines-IsPassing lines
  read_lines-IsPassing (some t ∷ lines) =
      bind-IsPassing _ _ (read_line-IsPassing t)
        λ r. bind-IsPassing _ _ (read_lines-IsPassing lines) λ rs. tt

  read_all-IsPassing : (f : LogFile p) → IsPassing (read_all p f)
  unfolding read_all
  read_all-IsPassing none = tt
  read_all-IsPassing (some lines) = read_lines-IsPassing lines

  verify_log-IsPassing : (f : LogFile p) → IsPassing (verify_log p f)
  unfolding verify_log
  verify_log-IsPassing f = bind-IsPassing _ _ (read_all-IsPassing f) λ rs. tt

  log_at-IsPassing : (path : String) (w : World p) → IsPassing (log_at p path w)
  unfolding log_at
  log_at-IsPassing path w = option-IsPassing (w.files path) _ _ tt content
    where
      content :
          (c : Content p)
          → IsPassing (elim c as (λ _. Result Exn (LogFile p)) [
            | log_lines lines ↦ ok (some lines)
            | _ ↦ err json_decode_error
          ])
      content (log_lines lines) = tt
      content c = tt

  -- `run_verify_chain` raises no `HaltProofError`.
  pub run_verify_chain-IsPassing :
      (default_log : String) (w : World p) (path : Option String)
      → IsPassing (run_verify_chain p default_log w path)
  unfolding run_verify_chain
  run_verify_chain-IsPassing default_log w path = bind-IsPassing _ _ (log_at-IsPassing _ w) λ f.
      bind-IsPassing _ _ (read_all-IsPassing f)
        λ records. bind-IsPassing _ _ (verify_log-IsPassing f) λ verdict. tt
