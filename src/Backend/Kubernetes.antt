-- ===== src/Backend/Kubernetes.antt =====
-- backends/kubernetes.py
use halt_proof.Base.{
  String, ◌<>◌, ◌==◌, Bool, true, false, Option, none, some, List, [], ◌∷◌, ◌++◌, if◌then◌else◌,
}
use halt_proof.Base.Int.{pos, eqb_ℤ}
use halt_proof.Base.Text.{strip, first}
use halt_proof.Base.Results
use halt_proof.Base.Results.{Result, ok, err}
use halt_proof.Errors.{Exn, attribute_error, type_error, timeout_expired}
use halt_proof.Json.{Json, null, bool, str, arr, obj, Items, nil, cons, end, get, truthy}
use halt_proof.Exec.{Exec, pure, raise, lift, collect, ◌>>=◌}
use halt_proof.Host.{Host, Outcome, completed, not_found, timed_out, raised, Trace, run_process}
use halt_proof.Backend.{StepStatus, planned, success, failure, StepResult, NodeStatus}
use halt_proof.Backend.Runner.{step_result, run_step, skipped_step}

-- `_DENY_ALL_POLICY_TEMPLATE.format(group=group, namespace=namespace)`
unfoldable pub manifest : String → String → String
manifest group namespace =
    "apiVersion: networking.k8s.io/v1\nkind: NetworkPolicy\nmetadata:\n  name: haltproof-deny-all-"
    <> group <> "\n  namespace: " <> namespace
    <> "\nspec:\n  podSelector: {}\n  policyTypes:\n    - Ingress\n    - Egress\n"

-- `d.get(k, default)` of a value that is expected to be a dict.
get_or : String → Json → Json → Result Exn Json
unfolding get
get_or k default (obj m) = elim (get k m) [ none ↦ ok default | some v ↦ ok v ]
get_or k default _ = err attribute_error

-- `v == text`
is_text : String → Json → Bool
is_text text (str s) = s == text
is_text text _ = false

-- `next((c for c in conditions if c.get("type") == "Ready"), None)`
next_ready : Items → Result Exn (Option Json)
unfolding get_or is_text
next_ready nil = ok none
next_ready (cons c cs) =
    let rest = next_ready cs in
    Results.◌>>=◌ (get_or "type" null c)
      (λ kind. if is_text "Ready" kind then ok (some c) else rest)

conditions_of : Json → Result Exn Items
conditions_of (arr cs) = ok cs
conditions_of (obj end) = ok nil
conditions_of (obj m) = err attribute_error
conditions_of (str s) = if s == "" then ok nil else err attribute_error
conditions_of _ = err type_error

-- `bool(ready and ready.get("status") == "True")`
is_ready : Option Json → Result Exn Bool
unfolding get_or is_text
is_ready none = ok false
is_ready (some c) = Results.◌>>=◌ (get_or "status" null c) (λ status. ok (is_text "True" status))

-- The state of a node from the JSON that `kubectl get node` prints.
unfoldable pub node_state : Json → Result Exn String
unfolding get_or next_ready conditions_of is_ready truthy
node_state v = Results.◌>>=◌ (get_or "status" (obj end) v) λ status.
    Results.◌>>=◌ (get_or "conditions" (arr nil) status) λ conditions.
      Results.◌>>=◌ (conditions_of conditions) λ items. Results.◌>>=◌ (next_ready items) λ found.
        Results.◌>>=◌ (is_ready found) λ ready. Results.◌>>=◌ (get_or "spec" (obj end) v) λ spec.
          Results.◌>>=◌ (get_or "unschedulable" (bool false) spec) λ unschedulable.
            ok (if truthy unschedulable then "cordoned" else if ready then "ready" else "not-ready")

module _ (h : Host) (namespace : String) (group : String) where
  unfoldable pub drain_node : Bool → String → Exec Trace (List StepResult)
  drain_node dry_run node = do
    cordon ← run_step h node "cordon" ("kubectl" ∷ "cordon" ∷ node ∷ []) dry_run none
    drain ←
        run_step h node "drain"
          ("kubectl" ∷ "drain" ∷ node ∷ "--ignore-daemonsets" ∷ "--delete-emptydir-data" ∷ "--force"
            ∷ "--grace-period=30" ∷ [])
          dry_run none
    pure (cordon ∷ drain ∷ [])

  unfoldable pub drain : List String → Bool → Exec Trace (List StepResult)
  unfolding drain_node
  drain nodes dry_run = collect (drain_node dry_run) nodes

  abbrev pub apply_command : List String
  apply_command = "kubectl" ∷ "apply" ∷ "-n" ∷ namespace ∷ "-f" ∷ "-" ∷ []

  unfoldable pub plan_isolation : String → Exec Trace (List StepResult)
  unfolding manifest strip
  plan_isolation node = do
    step ←
        step_result h node "isolate_network" (apply_command ++ "<manifest below>" ∷ []) planned
          (strip (manifest group namespace))
    pure (step ∷ [])

  -- The status and the detail from the one call of `kubectl apply`.
  unfoldable pub applied : Outcome → Result Exn (StepStatus × String)
  unfolding strip first eqb_ℤ
  applied (completed r) =
      if eqb_ℤ r.returncode (pos 0)
      then ok (success, first 500 (strip r.stdout))
      else ok (failure, first 500 (strip r.stderr))
  applied (not_found text) = ok (failure, text)
  applied (timed_out seconds text) = ok (failure, text)
  applied (raised e) = err e

  unfoldable pub report_isolation : StepStatus × String → String → Exec Trace (List StepResult)
  report_isolation (status, detail) node = do
    step ← step_result h node "isolate_network" apply_command status detail
    pure (step ∷ [])

  -- One `kubectl apply` for the namespace, reported for each node.
  unfoldable pub isolate_network : List String → Bool → Exec Trace (List StepResult)
  unfolding plan_isolation report_isolation applied manifest run_process
  isolate_network nodes dry_run = if dry_run then collect plan_isolation nodes else do
    outcome ← run_process h (record {
      argv = apply_command;
      input = some (manifest group namespace);
      timeout = 60;
      env = none;
    })
    result ← lift (applied outcome)
    collect (report_isolation result) nodes

  unfoldable pub fence_node : String → Exec Trace (List StepResult)
  fence_node node = do
    step ←
        skipped_step h node "power_fence"
          "Kubernetes backend has no physical power-fencing primitive; use the ipmi backend for hard power fencing of the underlying hosts."
    pure (step ∷ [])

  unfoldable pub power_fence : List String → Bool → Exec Trace (List StepResult)
  unfolding fence_node
  power_fence nodes dry_run = collect fence_node nodes

  unreachable : String → String → Exec Trace (List NodeStatus)
  unreachable node detail =
      pure (record { node = node; reachable = false; state = "unknown"; detail = detail } ∷ [])

  -- What follows the call in the loop of `status`. A timeout is not caught.
  unfoldable pub node_status : String → Outcome → Exec Trace (List NodeStatus)
  unfolding unreachable node_state strip first eqb_ℤ
  node_status node (not_found text) = unreachable node "kubectl not found"
  node_status node (timed_out seconds text) = raise (timeout_expired seconds)
  node_status node (raised e) = raise e
  node_status node (completed r) =
      if eqb_ℤ r.returncode (pos 0)
      then elim (h.parse_json r.stdout) [
        | err text ↦ unreachable node text
        | ok v ↦ do
          state ← lift (node_state v)
          pure (record { node = node; reachable = true; state = state; detail = "" } ∷ [])
      ]
      else unreachable node (first 300 (strip r.stderr))

  unfoldable pub check_node : String → Exec Trace (List NodeStatus)
  unfolding node_status run_process
  check_node node = do
    outcome ← run_process h (record {
      argv = "kubectl" ∷ "get" ∷ "node" ∷ node ∷ "-o" ∷ "json" ∷ [];
      input = none;
      timeout = 30;
      env = none;
    })
    node_status node outcome

  unfoldable pub status : List String → Exec Trace (List NodeStatus)
  unfolding check_node
  status = collect check_node
