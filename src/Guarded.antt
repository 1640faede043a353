-- ===== src/Guarded.antt =====
-- What cli.py and mcp_server.py do around an operation of core.py: `except core.HaltProofError`.
use halt_proof.Base.{◌≡◌, ap, ap₂}
use halt_proof.Base.Results.{Result, ok, err}
use halt_proof.Errors.{
  Exn, HaltFault, haltproof_error, attestation_error, signature_error, value_error, type_error,
  attribute_error, key_error, json_decode_error, file_not_found, os_error, timeout_expired,
  other_error, ill_typed,
}
use halt_proof.Exec.{Exec, Returns}

-- A `HaltProofError` becomes a value; every other exception goes on.
unfoldable pub caught : {A : Type 0} → Result Exn A → Result Exn (Result HaltFault A)
caught (ok a) = ok (ok a)
caught (err (haltproof_error f)) = ok (err f)
caught (err e) = err e

-- The state is the one that the operation left.
unfoldable pub guarded : {S A : Type 0} → Exec S A → Exec S (Result HaltFault A)
unfolding caught
guarded m s = (caught (m s).0, (m s).1)

caught-ok :
    {A : Type 0} (r : Result Exn A) (a : A)
    → ◌≡◌ {A = Result Exn (Result HaltFault A)} (caught r) (ok (ok a))
    → r ≡ ok a
unfolding caught
caught-ok (ok b) a e = cc
caught-ok (err (haltproof_error f)) a e = cc
caught-ok (err (attestation_error f)) a e = cc
caught-ok (err (signature_error f)) a e = cc
caught-ok (err (value_error s)) a e = cc
caught-ok (err type_error) a e = cc
caught-ok (err attribute_error) a e = cc
caught-ok (err key_error) a e = cc
caught-ok (err json_decode_error) a e = cc
caught-ok (err file_not_found) a e = cc
caught-ok (err os_error) a e = cc
caught-ok (err (timeout_expired s)) a e = cc
caught-ok (err (other_error s)) a e = cc
caught-ok (err (ill_typed s)) a e = cc

-- What the guard returned was returned by the operation.
pub guarded-Returns :
    {S A : Type 0} (m : Exec S A) (s : S) (a : A) (t : S)
    → Returns (guarded m) s (ok a) t
    → Returns m s a t
unfolding guarded
guarded-Returns m s a t e =
    ap₂ (λ r x. (r, x)) (caught-ok (m s).0 a (ap (λ x. x.0) e)) (ap (λ x. x.1) e)
