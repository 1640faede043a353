-- ===== src/Backend/Runner/Reports.antt =====
-- What `run_step` says of a command that it ran.
use Prim.Native.String.{count}
use text.Mathlib.TextLemmas.{length-cons, length-nil}
use halt_proof.Base.{
  String, ◌<>◌, ◌≡◌, ◌↔◌, refl, ℕ, zero, suc, ◌≤◌, arith, Bool, true, false, Option, none, List, [],
  ◌∷◌, ◌++◌,
}
use halt_proof.Base.Int.{ℤ, pos, eqb_ℤ, eqb_ℤ_iff}
use halt_proof.Base.Results.{ok}
use halt_proof.Base.Text.{first, strip, or_text}
use halt_proof.Exec.{pure, ◌>>=◌}
use halt_proof.Host.{
  Host, Trace, Call, Environ, Outcome, completed, not_found, timed_out, raised, run_process,
  timestamp,
}
use halt_proof.Backend.{StepResult, StepStatus, success, failure}
use halt_proof.Backend.Runner.{run_step, report, step_result}
use halt_proof.Backend.Executed.{IsCaught}

-- `first n` keeps at most that many characters.
pub count-first : (n : ℕ) (s : String) → count (first n s) ≤ n
unfolding first
count-first zero s = rw length-nil (omega arith)
count-first (suc n) String.[] = rw length-nil (omega arith)
count-first (suc n) (String.◌∷◌ c s) =
    rw (length-cons c (first n s)) (omega (arith, count-first n s))

-- The process ended with the code 0.
abbrev pub Succeeded : Outcome → Type 0
Succeeded (completed r) = r.returncode ≡ pos 0
Succeeded _ = ⊥

-- What is kept of the output has a bound.
abbrev pub IsCut : Outcome → String → Type 0
IsCut (completed r) detail = count detail ≤ 500
IsCut _ detail = Unit

-- The step tells what came of the command.
pub record Tells (node operation : String) (command : List String) (o : Outcome) (s : StepResult)
    : Type 0 where
  pub same_node : s.node ≡ node
  pub same_operation : s.operation ≡ operation
  pub same_command : s.command ≡ command
  pub succeeded : (s.status ≡ success) ↔ Succeeded o
  pub failed : (s.status ≡ failure) ↔ (¬ Succeeded o)
  pub cut : IsCut o s.detail

module _ (h : Host) (node operation : String) (command : List String) where
  -- The step that `step_result` makes.
  abbrev made : StepStatus → String → Trace → StepResult
  made status detail t = record {
    node = node;
    operation = operation;
    command = command;
    status = status;
    detail = detail;
    timestamp = h.now t.ticks;
  }

  abbrev Reported : Outcome → Trace → Type 0
  Reported o t =
      (s : StepResult) × ((report h node operation command o t).0 ≡ ok s)
      × Tells node operation command o s

  completed-Reported :
      (code : ℤ) (out errors : String) (t : Trace) (b : Bool)
      → eqb_ℤ code (pos 0) ≡ b
      → Reported (completed (record { returncode = code; stdout = out; stderr = errors })) t
  unfolding report step_result timestamp ◌>>=◌ pure
  completed-Reported code out errors t true e = (
    made success (first 500 (strip out)) t,
    rw e refl,
    record {
      same_node = refl;
      same_operation = refl;
      same_command = refl;
      succeeded = ground (arith, eqb_ℤ_iff code (pos 0));
      failed = ground (arith, eqb_ℤ_iff code (pos 0));
      cut = count-first 500 (strip out);
    },
  )
  completed-Reported code out errors t false e = (
    made failure (first 500 (strip (or_text errors out))) t,
    rw e refl,
    record {
      same_node = refl;
      same_operation = refl;
      same_command = refl;
      succeeded = ground (arith, eqb_ℤ_iff code (pos 0));
      failed = ground (arith, eqb_ℤ_iff code (pos 0));
      cut = count-first 500 (strip (or_text errors out));
    },
  )

  report-Reported : (o : Outcome) (t : Trace) → IsCaught o → Reported o t
  unfolding report step_result timestamp ◌>>=◌ pure
  report-Reported (completed r) t c =
      completed-Reported r.returncode r.stdout r.stderr t (eqb_ℤ r.returncode (pos 0)) refl
  report-Reported (not_found text) t c = (
    made failure ("executable not found: " <> text) t,
    refl,
    record {
      same_node = refl;
      same_operation = refl;
      same_command = refl;
      succeeded = ground arith;
      failed = ground arith;
      cut = tt;
    },
  )
  report-Reported (timed_out seconds text) t c = (
    made failure ("timed out after " <> seconds <> "s") t,
    refl,
    record {
      same_node = refl;
      same_operation = refl;
      same_command = refl;
      succeeded = ground arith;
      failed = ground arith;
      cut = tt;
    },
  )
  report-Reported (raised e) t c = absurd c

  -- The call that `run_step` makes.
  abbrev pub started : Option Environ → Call
  started env = record { argv = command; input = none; timeout = 60; env = env }

  -- `run_step` of a command that is really run, and that ends in no exception that `run_step` does
  -- not catch, returns a step of this node, operation and command. Its status is success if the
  -- process ended with the code 0, and failure if it ended with another one, had no executable or
  -- took too long; of the output at most 500 characters are kept.
  pub run_step-Tells :
      (env : Option Environ) (t : Trace)
      → IsCaught (h.run t.calls (started env))
      → (s : StepResult) × ((run_step h node operation command false env t).0 ≡ ok s)
        × Tells node operation command (h.run t.calls (started env)) s
  unfolding run_step run_process ◌>>=◌
  run_step-Tells env t caught =
      report-Reported (h.run t.calls (started env))
        (record t { calls = t.calls ++ started env ∷ [] }) caught
