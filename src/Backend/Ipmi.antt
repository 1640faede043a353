-- ===== src/Backend/Ipmi.antt =====
-- backends/ipmi.py
use halt_proof.Base.{
  String, ◌==◌, Bool, true, false, Option, none, some, List, [], ◌∷◌, ◌++◌, if◌then◌else◌,
}
use halt_proof.Base.Int.{pos, eqb_ℤ}
use halt_proof.Base.Text.{strip, first, contains}
use halt_proof.Errors.{timeout_expired}
use halt_proof.Exec.{Exec, pure, raise, collect, ◌>>=◌}
use halt_proof.Host.{
  Host, Environ, getenv, Outcome, completed, not_found, timed_out, raised, Trace, run_process,
}
use halt_proof.Backend.{StepResult, NodeStatus}
use halt_proof.Backend.Runner.{run_step, skipped_step}

module _ (h : Host) (user : Option String) (interface : String) where
  -- `_base_args`
  unfoldable pub base_args : String → List String
  base_args bmc_host =
      let args : List String = "ipmitool" ∷ "-I" ∷ interface ∷ "-H" ∷ bmc_host ∷ [] in
      elim user [ none ↦ args | some u ↦ if u == "" then args else args ++ ("-U" ∷ u ∷ "-E" ∷ []) ]

  -- `_env`
  unfoldable pub process_env : Option Environ
  unfolding getenv
  process_env = elim (getenv "IPMI_PASSWORD" h.environ) [ none ↦ none | some _ ↦ some h.environ ]

  unfoldable pub drain_node : String → Exec Trace (List StepResult)
  drain_node node = do
    step ←
        skipped_step h node "drain"
          "IPMI backend manages BMC power state, not scheduler drain state; use the slurm or kubernetes backend for workload draining."
    pure (step ∷ [])

  unfoldable pub drain : List String → Bool → Exec Trace (List StepResult)
  unfolding drain_node
  drain nodes dry_run = collect drain_node nodes

  unfoldable pub isolate_node : String → Exec Trace (List StepResult)
  isolate_node node = do
    step ←
        skipped_step h node "isolate_network"
          "IPMI backend has no workload network-policy primitive; use the kubernetes backend for network isolation."
    pure (step ∷ [])

  unfoldable pub isolate_network : List String → Bool → Exec Trace (List StepResult)
  unfolding isolate_node
  isolate_network nodes dry_run = collect isolate_node nodes

  unfoldable pub fence_node : Bool → String → Exec Trace (List StepResult)
  unfolding base_args process_env
  fence_node dry_run node = do
    step ←
        run_step h node "power_fence" (base_args node ++ ("chassis" ∷ "power" ∷ "off" ∷ [])) dry_run
          process_env
    pure (step ∷ [])

  unfoldable pub power_fence : List String → Bool → Exec Trace (List StepResult)
  unfolding fence_node
  power_fence nodes dry_run = collect (fence_node dry_run) nodes

  unreachable : String → String → Exec Trace (List NodeStatus)
  unreachable node detail =
      pure (record { node = node; reachable = false; state = "unknown"; detail = detail } ∷ [])

  -- The power state that `ipmitool` prints.
  power_state : String → String
  unfolding contains
  power_state output =
      if contains "is on" output
      then "on"
      else if contains "is off" output
      then "off"
      else "unknown"

  -- What follows the call in the loop of `status`. A timeout is not caught.
  unfoldable pub node_status : String → Outcome → Exec Trace (List NodeStatus)
  unfolding unreachable power_state strip first eqb_ℤ
  node_status node (not_found text) = unreachable node "ipmitool not found"
  node_status node (timed_out seconds text) = raise (timeout_expired seconds)
  node_status node (raised e) = raise e
  node_status node (completed r) =
      if eqb_ℤ r.returncode (pos 0)
      then pure (
          record {
            node = node;
            reachable = true;
            state = power_state (h.lower (strip r.stdout));
            detail = "";
          }
          ∷ [])
      else unreachable node (first 300 (strip r.stderr))

  unfoldable pub check_node : String → Exec Trace (List NodeStatus)
  unfolding node_status base_args process_env run_process
  check_node node = do
    outcome ← run_process h (record {
      argv = base_args node ++ ("chassis" ∷ "power" ∷ "status" ∷ []);
      input = none;
      timeout = 30;
      env = process_env;
    })
    node_status node outcome

  unfoldable pub status : List String → Exec Trace (List NodeStatus)
  unfolding check_node
  status = collect check_node
