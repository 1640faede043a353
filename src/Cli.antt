-- ===== src/Cli.antt =====
-- cli.py: the commands, from their parsed options to the dict that they print and the exit code.
-- Cli/Render has what is printed of the dict. Parsing the command line is click's.
pub mod Nodes
pub mod Layout
pub mod Dicts
pub mod Render
pub mod Exit
pub mod Record
pub mod Agreement
use halt_proof.Base.{
  ℕ, String, ◌==◌, Bool, true, false, not, ◌||◌, Option, none, some, List, if◌then◌else◌,
}
use halt_proof.Base.Results.{Result, ok, err}
use halt_proof.Errors.{HaltFault}
use halt_proof.Platform.{Platform}
use halt_proof.Exec.{Exec, pure, reads, ◌>>=◌}
use halt_proof.Host.{Host}
use halt_proof.World.{World, Mode}
use halt_proof.Guarded.{guarded}
use halt_proof.Core.{ChainReport, Verified, run_verify, run_verify_chain, non_empty}
use halt_proof.Core.Halt.{Request, HaltResult, Setup, run_halt}
use halt_proof.Core.Status.{StatusRequest, StatusReport, run_status}
use halt_proof.Core.Keygen.{KeygenResult, run_keygen}
use halt_proof.Cli.Nodes.{node_list}

-- `--format`, and `--json` as its shorthand.
pub data Format : Type 0 where
  human json : Format

pub record FormatOptions : Type 0 where
  pub output_format : Format
  pub json_flag : Bool

-- `_resolve_format`
unfoldable pub resolve_format : FormatOptions → Format
resolve_format o = if o.json_flag then json else o.output_format

-- The messages of a `ClickException`.
pub data ClickFault : Type 0 where
  halt_fault : HaltFault → ClickFault
  reference_required : ClickFault

-- How a command ends: it prints a dict and exits with a code, or raises a `ClickException`.
pub data Ended (A : Type 0) : Type 0 where
  exits : ℕ → Format → A → Ended A
  click_exception : ClickFault → Ended A

-- `sys.exit(1)` if the command failed.
unfoldable pub exit_code : Bool → ℕ
exit_code failed = if failed then 1 else 0

-- What comes after the guarded operation: `_emit`, and the exit.
unfoldable pub finish : {A : Type 0} → FormatOptions → (A → Bool) → Result HaltFault A → Ended A
unfolding resolve_format exit_code
finish o failed (ok result) = exits (exit_code (failed result)) (resolve_format o) result
finish o failed (err f) = click_exception (halt_fault f)

pub record HaltOptions : Type 0 where
  pub target_group : String
  pub nodes : Option String
  pub backend_name : Option String
  pub confirm : Bool
  pub reason : String
  pub operator_id : Option String
  pub config_path : Option String
  pub attestation_log_path : Option String
  pub attestation_key_path : Option String
  pub no_sign : Bool
  pub remote_collector_url : Option String
  pub format : FormatOptions

-- What `halt` passes on.
unfoldable pub halt_request : HaltOptions → Request
unfolding node_list
halt_request o = record {
  target_group = o.target_group;
  nodes = node_list o.nodes;
  backend_name = o.backend_name;
  confirm = o.confirm;
  reason = o.reason;
  operator_id = o.operator_id;
  config_path = o.config_path;
  attestation_log_path = o.attestation_log_path;
  attestation_key_path = o.attestation_key_path;
  no_sign = o.no_sign;
  remote_collector_url = o.remote_collector_url;
}

pub record VerifyOptions : Type 0 where
  pub attestation_ref : Option String
  pub attestation_log_path : Option String
  pub trusted_key_path : Option String
  pub chain_mode : Bool
  pub format : FormatOptions

-- The dict that `verify` prints.
pub data Checked : Type 0 where
  whole_chain : ChainReport → Checked
  one_record : Verified → Checked

-- `not result["valid"]`
unfoldable pub is_refused : Checked → Bool
is_refused (whole_chain report) = not report.valid
is_refused (one_record v) = not v.valid

pub record StatusOptions : Type 0 where
  pub backend_name : Option String
  pub nodes : Option String
  pub target_group : Option String
  pub config_path : Option String
  pub format : FormatOptions

pub record KeygenOptions : Type 0 where
  pub output_path : Option String
  pub force : Bool
  pub format : FormatOptions

module _ (p : Platform) (h : Host) (u : Setup) where
  unfoldable pub halt : HaltOptions → Exec (World p) (Ended HaltResult)
  unfolding halt_request finish guarded
  halt o = do
    result ← guarded (run_halt p h u (halt_request o))
    pure (finish o.format (λ r. r.any_failures) result)

  -- `verify --chain`
  unfoldable pub check_chain : VerifyOptions → Exec (World p) (Ended Checked)
  unfolding finish
  check_chain o = do
    report ← reads (λ w. run_verify_chain p u.default_log w o.attestation_log_path)
    pure (finish o.format is_refused (ok (whole_chain report)))

  -- `verify` of one record.
  unfoldable pub check_record : VerifyOptions → String → Exec (World p) (Ended Checked)
  unfolding finish guarded
  check_record o attestation_ref = do
    result ← guarded (
        reads λ w.
          run_verify p u.default_log w attestation_ref o.attestation_log_path o.trusted_key_path)
    pure (finish o.format is_refused (elim result [ ok v ↦ ok (one_record v) | err f ↦ err f ]))

  unfoldable pub verify : VerifyOptions → Exec (World p) (Ended Checked)
  unfolding check_chain check_record
  verify o = if o.chain_mode then check_chain o else elim (non_empty o.attestation_ref) [
    | none ↦ pure (click_exception reference_required)
    | some attestation_ref ↦ check_record o attestation_ref
  ]

  unfoldable pub status : StatusOptions → Exec (World p) (Ended StatusReport)
  unfolding node_list finish guarded
  status o = do
    result ← guarded (
        run_status p h u.home (record {
          backend_name = o.backend_name;
          nodes = node_list o.nodes;
          target_group = o.target_group;
          config_path = o.config_path;
        }))
    pure (finish o.format (λ _. false) result)

  module _ (umask : Mode) (generate : ℕ → p.PrivateKey) where
    unfoldable pub keygen : KeygenOptions → Exec (World p) (Ended KeygenResult)
    unfolding finish guarded
    keygen o = do
      result ← guarded (run_keygen p umask generate u.default_key o.output_path o.force)
      pure (finish o.format (λ _. false) result)
