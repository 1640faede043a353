-- ===== src/Mcp.antt =====
-- mcp_server.py: the tools. What a tool returns is the operation's dict, or a dict with the error's
-- text: `err`. The MCP server itself is a library.
use halt_proof.Base.{String, ℕ, Bool, false, Option, none, List}
use halt_proof.Base.Results.{Result}
use halt_proof.Errors.{HaltFault}
use halt_proof.Platform.{Platform}
use halt_proof.Exec.{Exec, reads}
use halt_proof.Host.{Host}
use halt_proof.World.{World, Mode}
use halt_proof.Guarded.{guarded}
use halt_proof.Core.{ChainReport, Verified, run_verify, run_verify_chain}
use halt_proof.Core.Halt.{Request, HaltResult, Setup, run_halt}
use halt_proof.Core.Status.{StatusReport, run_status}
use halt_proof.Core.Keygen.{KeygenResult, run_keygen}

-- The request of the tool `halt`: what it has no argument for stays at the default of `run_halt`.
unfoldable pub halt_request :
    String → Option (List String) → Option String → Bool → String → Option String → Request
halt_request target_group nodes backend confirm reason operator_id = record {
  target_group = target_group;
  nodes = nodes;
  backend_name = backend;
  confirm = confirm;
  reason = reason;
  operator_id = operator_id;
  config_path = none;
  attestation_log_path = none;
  attestation_key_path = none;
  no_sign = false;
  remote_collector_url = none;
}

module _ (p : Platform) (h : Host) (u : Setup) where
  unfoldable pub halt :
      String
      → Option (List String)
      → Option String
      → Bool
      → String
      → Option String
      → Exec (World p) (Result HaltFault HaltResult)
  unfolding halt_request
  halt target_group nodes backend confirm reason operator_id =
      guarded (run_halt p h u (halt_request target_group nodes backend confirm reason operator_id))

  unfoldable pub verify :
      String → Option String → Option String → Exec (World p) (Result HaltFault Verified)
  verify attestation_ref attestation_log_path trusted_key_path = guarded (
      reads λ w. run_verify p u.default_log w attestation_ref attestation_log_path trusted_key_path)

  unfoldable pub verify_chain : Option String → Exec (World p) (Result HaltFault ChainReport)
  verify_chain attestation_log_path =
      guarded (reads λ w. run_verify_chain p u.default_log w attestation_log_path)

  unfoldable pub status :
      Option String
      → Option (List String)
      → Option String
      → Exec (World p) (Result HaltFault StatusReport)
  status backend nodes group = guarded (
      run_status p h u.home (record {
        backend_name = backend;
        nodes = nodes;
        target_group = group;
        config_path = none;
      }))

  module _ (umask : Mode) (generate : ℕ → p.PrivateKey) where
    unfoldable pub keygen : Option String → Bool → Exec (World p) (Result HaltFault KeygenResult)
    keygen output_path force = guarded (run_keygen p umask generate u.default_key output_path force)
