-- ===== src/Core/Halt.antt =====
-- `run_halt` of core.py.
pub mod DryRun
pub mod Chained
pub mod Unrecorded
pub mod Unread
pub mod Reported
pub mod Verified
pub mod Executed
pub mod Log
pub mod Asked
use halt_proof.Base.{
  String, ◌<>◌, ◌==◌, Bool, true, false, not, Option, none, some, List, [], ◌∷◌, ◌++◌, map,
  if◌then◌else◌,
}
use halt_proof.Base.Int.{ℤ}
use halt_proof.Base.Results
use halt_proof.Base.Results.{Result, ok, err}
use halt_proof.Errors.{Exn, haltproof_error, no_nodes, key_not_found}
use halt_proof.Json.{Fields}
use halt_proof.Platform.{Platform}
use halt_proof.Exec.{Exec, pure, raise, lift, reads, modify, ◌>>=◌, ◌>>◌}
use halt_proof.Host.{Host, Trace, timestamp, fresh_id}
use halt_proof.World.{World, on_trace, write_file, log_at, log_content, load_private_key}
use halt_proof.Config.{HaltProofConfig, setting, resolve_group, load_config}
use halt_proof.Operator.{or_else, resolve_operator_id}
use halt_proof.Attestation.{AttestationRecord, Origin, to_dict, build_record, sign_record}
use halt_proof.Attestation.Log.{chain_state, append}
use halt_proof.Backend.{StepResult, StepStatus, success, failure, planned, skipped}
use halt_proof.Backend.Clusters.{ClusterBackend, drain, isolate_network, power_fence}
use halt_proof.Core.{build_backend, resolve_backend_name, chosen, non_empty}

-- The keyword arguments.
pub record Request : Type 0 where
  pub target_group : String
  pub nodes : Option (List String)
  pub backend_name : Option String
  pub confirm : Bool
  pub reason : String
  pub operator_id : Option String
  pub config_path : Option String
  pub attestation_log_path : Option String
  pub attestation_key_path : Option String
  pub no_sign : Bool
  pub remote_collector_url : Option String

-- How `urlopen` ends: a status, a `URLError` with its text, or another exception.
pub data Posted : Type 0 where
  status : String → Posted
  url_error : String → Posted
  failed : Exn → Posted

unfoldable pub posted : Posted → Result Exn String
posted (status s) = ok s
posted (url_error text) = ok ("error: " <> text)
posted (failed e) = err e

-- What the module computes at import, and the collector.
pub record Setup : Type 0 where
  pub home : String
  pub default_log : String
  pub default_key : String
  pub urlopen : String → Fields → Posted

-- The dict that is returned: the record's fields and these.
pub record HaltResult : Type 0 where
  pub made : AttestationRecord
  pub signed : Bool
  pub attestation_log_path : String
  pub remote_collector_status : Option String
  pub any_failures : Bool

-- `nodes or config.resolve_group(target_group)`, which must not be empty.
unfoldable pub choose_nodes :
    Option (List String) → String → Result Exn (Option (List String)) → Result Exn (List String)
choose_nodes (some (n ∷ ns)) group configured = ok (n ∷ ns)
choose_nodes _ group (err e) = err e
choose_nodes _ group (ok none) = err (haltproof_error (no_nodes group))
choose_nodes _ group (ok (some [])) = err (haltproof_error (no_nodes group))
choose_nodes _ group (ok (some (n ∷ ns))) = ok (n ∷ ns)

-- `any(s.status.value == "failure" for s in all_steps)`
unfoldable pub any_failed : List StepResult → Bool
any_failed [] = false
any_failed (s ∷ ss) = let rest = any_failed ss in elim s.status [ failure ↦ true | _ ↦ rest ]

module _ (h : Host) where
  -- The three operations, in order.
  unfoldable pub all_steps :
      ClusterBackend → List String → Bool → String → Exec Trace (List StepResult)
  all_steps backend nodes dry_run reason = do
    drained ← drain h backend nodes dry_run reason
    isolated ← isolate_network h backend nodes dry_run
    fenced ← power_fence h backend nodes dry_run
    pure (drained ++ (isolated ++ fenced))

module _ (p : Platform) (h : Host) (u : Setup) where
  -- What comes before the first command: the settings, the nodes and the backend.
  pub record Plan : Type 0 where
    pub config : HaltProofConfig
    pub node_list : List String
    pub backend_name : String
    pub backend : ClusterBackend

  unfoldable pub plan : Request → Exec (World p) Plan
  plan q = do
    config ← reads (load_config p h u.home q.config_path)
    node_list ← lift (choose_nodes q.nodes q.target_group (resolve_group q.target_group config))
    name ← lift (resolve_backend_name h q.backend_name config)
    backend ← lift (build_backend name config)
    pure (record { config = config; node_list = node_list; backend_name = name; backend = backend })

  -- A request joins those that were sent.
  unfoldable pub request_sent : String → Fields → World p → World p
  request_sent url payload w = record w { posts = w.posts ++ (url, payload) ∷ [] }

  -- `_post_to_collector`
  unfoldable pub post : String → Fields → Exec (World p) String
  post url payload = do modify (request_sent url payload); lift (posted (u.urlopen url payload))

  -- `AttestationLog(log_path).chain_state()`
  unfoldable pub read_state : String → World p → Result Exn (ℤ × String)
  read_state log_path w = Results.◌>>=◌ (log_at p log_path w) (chain_state p)

  -- The record of the steps, after the state of the log at that moment.
  unfoldable pub make_record :
      Request → Plan → String → String → List StepResult → Exec (World p) AttestationRecord
  make_record q s operator log_path steps = do
    state ← reads (read_state log_path)
    id ← on_trace p (fresh_id h)
    now ← on_trace p (timestamp h)
    pure (
        build_record (record { id = id; timestamp = now; hostname = h.hostname }) state.0 operator
          "halt" q.target_group s.backend_name s.node_list (not q.confirm) q.confirm steps state.1)

  -- `load_private_key` of a path that has to exist.
  unfoldable pub signing_key : String → World p → Result Exn p.PrivateKey
  signing_key path w = elim (w.files path) [
    | none ↦ err (haltproof_error (key_not_found path))
    | some content ↦ load_private_key p path w
  ]

  -- The block under `if not no_sign`. The key is looked for only here, after the commands.
  unfoldable pub sign_step : Request → Plan → AttestationRecord → Exec (World p) AttestationRecord
  sign_step q s r = if q.no_sign then pure r else (do
    configured ← lift (setting "attestation_key_path" s.config)
    key ← reads (signing_key (chosen q.attestation_key_path configured u.default_key))
    pure (sign_record p r key))

  -- `attestation_log.append(record)`
  unfoldable pub append_step : String → AttestationRecord → Exec (World p) (Unit {0})
  append_step log_path r = do
    f ← reads (log_at p log_path)
    modify (write_file p log_path (log_content p (append p f r)))

  -- The request, if there is a URL.
  unfoldable pub send : Option String → AttestationRecord → Exec (World p) (Option String)
  send none r = pure none
  send (some url) r = do answer ← post url (to_dict r); pure (some answer)

  -- The block under `if remote_url`.
  unfoldable pub post_step : Request → Plan → AttestationRecord → Exec (World p) (Option String)
  post_step q s r = do
    configured ← lift (setting "remote_collector_url" s.config)
    send (or_else q.remote_collector_url (non_empty configured)) r

  -- `run_halt` from the first command on.
  unfoldable pub execute : Request → Plan → Exec (World p) HaltResult
  execute q s = do
    steps ← on_trace p (all_steps h s.backend s.node_list (not q.confirm) q.reason)
    configured ← lift (setting "operator_id" s.config)
    configured_log ← lift (setting "attestation_log_path" s.config)
    let operator = resolve_operator_id h (or_else q.operator_id configured)
    let log_path = chosen q.attestation_log_path configured_log u.default_log
    made ← make_record q s operator log_path steps
    signed ← sign_step q s made
    append_step log_path signed
    remote ← post_step q s signed
    pure (record {
      made = signed;
      signed = not q.no_sign;
      attestation_log_path = log_path;
      remote_collector_status = remote;
      any_failures = any_failed steps;
    })

  -- `run_halt`
  unfoldable pub run_halt : Request → Exec (World p) HaltResult
  run_halt q = do s ← plan q; execute q s
