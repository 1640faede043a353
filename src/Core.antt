-- ===== src/Core.antt =====
-- core.py: the choice of a backend, and the operations other than `run_halt`, `run_status` and
-- `run_keygen`, which have modules of their own.
pub mod Halt
pub mod Choice
pub mod Status
pub mod Keygen
pub mod Lookup
use halt_proof.Base.{
  ℕ, String, ◌==◌, Bool, true, false, not, ◌&&◌, Option, none, some, List, [], ◌∷◌, length,
  if◌then◌else◌,
}
use halt_proof.Base.Results.{Result, ok, err, ◌>>=◌, ◌>>◌}
use halt_proof.Errors.{
  Exn, HaltFault, haltproof_error, no_backend, unknown_backend, no_attestation, already_exists,
  attestation_error, signature_error, value_error,
}
use halt_proof.Platform.{Platform}
use halt_proof.Host.{Host}
use halt_proof.World.{World, log_at, load_public_key}
use halt_proof.Config.{HaltProofConfig, setting, namespace, ipmi_user}
use halt_proof.Operator.{or_else}
use halt_proof.Attestation.{AttestationRecord, verify_record}
use halt_proof.Attestation.Log.{LogFile, read_all, find, load_record_from_file}
use halt_proof.Attestation.Chain.{Break, verify_log}
use halt_proof.Backend.Detect.{known_backend_names, is_one_of, detect_backend}
use halt_proof.Backend.Clusters.{ClusterBackend, Arguments, get_backend}

-- `value or None`
abbrev pub non_empty : Option String → Option String
non_empty none = none
non_empty (some s) = if s == "" then none else some s

-- The keyword arguments that `_build_backend` takes from the settings.
unfoldable pub backend_arguments : String → HaltProofConfig → Result Exn Arguments
backend_arguments name config =
    if name == "kubernetes"
    then (do ns ← namespace config; ok (record { namespace = some ns; user = none }))
    else if name == "ipmi"
    then (do user ← ipmi_user config; ok (record { namespace = none; user = non_empty user }))
    else ok (record { namespace = none; user = none })

-- `_build_backend`
unfoldable pub build_backend : String → HaltProofConfig → Result Exn ClusterBackend
unfolding backend_arguments get_backend
build_backend name config = do a ← backend_arguments name config; get_backend name a

-- The checks of `resolve_backend_name` on the name that was found.
unfoldable pub check_name : Option String → Result Exn String
unfolding is_one_of
check_name none = err (haltproof_error no_backend)
check_name (some name) =
    if name == ""
    then err (haltproof_error no_backend)
    else if is_one_of name known_backend_names
    then ok name
    else err (haltproof_error (unknown_backend name))

-- `resolve_backend_name`
unfoldable pub resolve_backend_name : Host → Option String → HaltProofConfig → Result Exn String
unfolding check_name or_else
resolve_backend_name h explicit config = elim (non_empty explicit) [
  | some name ↦ check_name (some name)
  | none ↦ do
    configured ← setting "backend" config
    check_name (or_else configured (detect_backend h))
]

-- The dict that `run_verify` returns.
pub record Verified : Type 0 where
  pub valid : Bool
  pub error : Option Exn
  pub found : AttestationRecord

-- The `try` of `run_verify`: the two exceptions of `verify_record` become the result.
unfoldable pub verified : AttestationRecord → Result Exn Bool → Result Exn Verified
verified r (ok b) = ok (record { valid = true; error = none; found = r })
verified r (err (attestation_error f)) =
    ok (record { valid = false; error = some (attestation_error f); found = r })
verified r (err (signature_error f)) =
    ok (record { valid = false; error = some (signature_error f); found = r })
verified r (err e) = err e

-- `a or b or default`
unfoldable pub chosen : Option String → Option String → String → String
unfolding or_else
chosen a b default = elim (or_else a (or_else b (some default))) [ none ↦ default | some s ↦ s ]

-- The dict that `run_verify_chain` returns.
pub record ChainReport : Type 0 where
  pub valid : Bool
  pub error : Option Break
  pub record_count : ℕ
  pub attestation_log_path : String

module _ (p : Platform) (default_log : String) where
  -- The record that the reference names: in a file of that path, or else in the log.
  unfoldable pub referenced : World p → String → Option String → Result Exn AttestationRecord
  unfolding chosen
  referenced w attestation_ref attestation_log_path = elim (w.files attestation_ref) [
    | some content ↦ do f ← log_at p attestation_ref w; load_record_from_file p f
    | none ↦ do
      f ← log_at p (chosen attestation_log_path none default_log) w
      r ← find p f attestation_ref
      elim r [
        | none ↦ err (haltproof_error (no_attestation attestation_ref))
        | some match ↦ ok match
      ]
  ]

  -- `load_public_key(trusted_key_path) if trusted_key_path else None`
  unfoldable pub trusted_key : World p → Option String → Result Exn (Option p.PublicKey)
  trusted_key w path = elim (non_empty path) [
    | none ↦ ok none
    | some q ↦ do k ← load_public_key p q w; ok (some k)
  ]

  -- `run_verify`
  unfoldable pub run_verify : World p → String → Option String → Option String → Result Exn Verified
  unfolding referenced trusted_key verified
  run_verify w attestation_ref attestation_log_path trusted_key_path = do
    r ← referenced w attestation_ref attestation_log_path
    trusted ← trusted_key w trusted_key_path
    verified r (verify_record p r trusted)

  -- `run_verify_chain`. The log is read twice, with no change between the reads.
  unfoldable pub run_verify_chain : World p → Option String → Result Exn ChainReport
  unfolding chosen
  run_verify_chain w attestation_log_path = do
    let log_path = chosen attestation_log_path none default_log
    f ← log_at p log_path w
    records ← read_all p f
    verdict ← verify_log p f
    ok (record {
      valid = verdict.0;
      error = verdict.1;
      record_count = length records;
      attestation_log_path = log_path;
    })
