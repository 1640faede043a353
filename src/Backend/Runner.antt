-- ===== src/Backend/Runner.antt =====
-- backends/runner.py: the one place at which a command is run or only planned.
pub mod Reports
use halt_proof.Base.{String, ◌<>◌, Bool, Option, none, List, [], if◌then◌else◌}
use halt_proof.Base.Int.{pos, eqb_ℤ}
use halt_proof.Base.Text.{strip, first, or_text}
use halt_proof.Exec.{Exec, pure, raise, ◌>>=◌}
use halt_proof.Host.{
  Host, Environ, Outcome, completed, not_found, timed_out, raised, Trace, run_process, timestamp,
}
use halt_proof.Backend.{StepStatus, planned, success, failure, skipped, StepResult}

module _ (h : Host) where
  -- `StepResult(...)`, whose timestamp is taken when it is made.
  unfoldable pub step_result :
      String → String → List String → StepStatus → String → Exec Trace StepResult
  unfolding timestamp
  step_result node operation command status detail = do
    now ← timestamp h
    pure (record {
      node = node;
      operation = operation;
      command = command;
      status = status;
      detail = detail;
      timestamp = now;
    })

  -- What follows `subprocess.run` in `run_step`.
  unfoldable pub report : String → String → List String → Outcome → Exec Trace StepResult
  unfolding strip first or_text eqb_ℤ
  report node operation command (completed r) =
      if eqb_ℤ r.returncode (pos 0)
      then step_result node operation command success (first 500 (strip r.stdout))
      else step_result node operation command failure
          (first 500 (strip (or_text r.stderr r.stdout)))
  report node operation command (not_found text) =
      step_result node operation command failure ("executable not found: " <> text)
  report node operation command (timed_out seconds text) =
      step_result node operation command failure ("timed out after " <> seconds <> "s")
  report node operation command (raised e) = raise e

  -- `run_step`, with its default timeout.
  unfoldable pub run_step :
      String → String → List String → Bool → Option Environ → Exec Trace StepResult
  unfolding report run_process
  run_step node operation command dry_run env =
      if dry_run
      then step_result node operation command planned "dry-run: command not executed"
      else do
        outcome ← run_process h (record { argv = command; input = none; timeout = 60; env = env })
        report node operation command outcome

  -- `skipped`
  unfoldable pub skipped_step : String → String → String → Exec Trace StepResult
  skipped_step node operation reason = step_result node operation [] skipped reason
