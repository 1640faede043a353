-- ===== src/Backend/Slurm.antt =====
-- backends/slurm.py
use Prim.Native.Char.{code}
use text.Mathlib.Text.{starts_with}
use halt_proof.Base.{String, ◌<>◌, ◌==◌, Bool, true, false, none, List, [], ◌∷◌, eqb, if◌then◌else◌}
use halt_proof.Base.Int.{pos, eqb_ℤ}
use halt_proof.Base.Text.{strip, first, is_space}
use halt_proof.Errors.{timeout_expired}
use halt_proof.Exec.{Exec, pure, raise, collect, ◌>>=◌}
use halt_proof.Host.{Host, Outcome, completed, not_found, timed_out, raised, Trace, run_process}
use halt_proof.Backend.{StepResult, NodeStatus}
use halt_proof.Backend.Runner.{run_step, skipped_step}

-- A word in front of words, unless it is empty.
push : String → List String → List String
push w ws = if w == "" then ws else w ∷ ws

-- The word that a text begins with, and the words after it.
split_first : String → String × List String
unfolding push is_space
split_first String.[] = ("", [])
split_first (String.◌∷◌ c s) =
    let (w, ws) = split_first s in
    if is_space (code c) then ("", push w ws) else (String.◌∷◌ c w, ws)

-- `s.split()`
unfoldable pub words : String → List String
unfolding split_first
words s = let (w, ws) = split_first s in push w ws

-- `token.split("=", 1)[1]` of a text that holds a `=`.
after_equals : String → String
after_equals String.[] = String.[]
after_equals (String.◌∷◌ c s) = let rest = after_equals s in if eqb (code c) b'=' then s else rest

-- The loop over the words, from the state so far.
state_in : (String → String) → List String → String
unfolding after_equals
state_in lower [] = "unknown"
state_in lower (token ∷ tokens) =
    let rest = state_in lower tokens in
    if starts_with token "State=" then lower (after_equals token) else rest

module _ (h : Host) where
  unfoldable pub drain_node : Bool → String → String → Exec Trace (List StepResult)
  drain_node dry_run reason node = do
    step ←
        run_step h node "drain"
          ("scontrol"
            ∷ "update"
            ∷ ("nodename=" <> node)
            ∷ "state=drain"
            ∷ ("reason=" <> reason)
            ∷ [])
          dry_run none
    pure (step ∷ [])

  unfoldable pub drain : List String → Bool → String → Exec Trace (List StepResult)
  unfolding drain_node
  drain nodes dry_run reason = collect (drain_node dry_run reason) nodes

  unfoldable pub suspend_node : Bool → String → Exec Trace (List StepResult)
  suspend_node dry_run node = do
    step ←
        run_step h node "suspend"
          ("scontrol" ∷ "update" ∷ ("nodename=" <> node) ∷ "state=power_down" ∷ []) dry_run none
    pure (step ∷ [])

  unfoldable pub isolate_network : List String → Bool → Exec Trace (List StepResult)
  unfolding suspend_node
  isolate_network nodes dry_run = collect (suspend_node dry_run) nodes

  unfoldable pub fence_node : String → Exec Trace (List StepResult)
  fence_node node = do
    step ←
        skipped_step h node "power_fence"
          "Slurm backend has no physical power-fencing primitive; use the ipmi backend for hard power fencing of the underlying hosts."
    pure (step ∷ [])

  unfoldable pub power_fence : List String → Bool → Exec Trace (List StepResult)
  unfolding fence_node
  power_fence nodes dry_run = collect fence_node nodes

  unreachable : String → String → Exec Trace (List NodeStatus)
  unreachable node detail =
      pure (record { node = node; reachable = false; state = "unknown"; detail = detail } ∷ [])

  -- What follows the call in the loop of `status`. A timeout is not caught.
  unfoldable pub node_status : String → Outcome → Exec Trace (List NodeStatus)
  unfolding unreachable state_in words strip first eqb_ℤ
  node_status node (not_found text) = unreachable node "scontrol not found"
  node_status node (timed_out seconds text) = raise (timeout_expired seconds)
  node_status node (raised e) = raise e
  node_status node (completed r) =
      if eqb_ℤ r.returncode (pos 0)
      then pure (
          record {
            node = node;
            reachable = true;
            state = state_in h.lower (words r.stdout);
            detail = "";
          }
          ∷ [])
      else unreachable node (first 300 (strip r.stderr))

  unfoldable pub check_node : String → Exec Trace (List NodeStatus)
  unfolding node_status run_process
  check_node node = do
    outcome ← run_process h (record {
      argv = "scontrol" ∷ "show" ∷ "node" ∷ node ∷ [];
      input = none;
      timeout = 30;
      env = none;
    })
    node_status node outcome

  unfoldable pub status : List String → Exec Trace (List NodeStatus)
  unfolding check_node
  status = collect check_node
