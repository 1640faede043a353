-- ===== src/Backend/Executed/Steps.antt =====
-- Single steps, and the operations that make their steps node by node.
use halt_proof.Base.{
  String, ◌≡◌, refl, sym, ◌⊎◌, inl, inr, arith, true, false, Bool, Option, List, [], ◌∷◌, ◌++◌,
  append-nil, if◌then◌else◌,
}
use halt_proof.Base.Int.{pos, eqb_ℤ}
use halt_proof.Base.Results.{ok}
use halt_proof.Exec.{Exec, ◌>>=◌}
use halt_proof.Host.{
  Host, Trace, Call, Environ, Outcome, completed, not_found, timed_out, raised, run_process,
  timestamp,
}
use halt_proof.Backend.{StepResult, StepStatus, success, failure}
use halt_proof.Backend.Runner.{run_step, skipped_step, step_result, report}
use halt_proof.Backend.Kubernetes
use halt_proof.Backend.Slurm
use halt_proof.Backend.Ipmi
use halt_proof.Backend.Clusters.{ClusterBackend, kubernetes, slurm, ipmi, drain, power_fence}
use halt_proof.Backend.DryRun.{flat, drained, once}
use halt_proof.Backend.Executed.{
  IsCaught, IsAnswering, WasRun, IsAccounted, IsAccountedStep, collect-IsAccounted, one-IsAccounted,
  two-IsAccounted,
}

-- `m` returns a step of this command that was run, and starts no process itself.
abbrev pub IsRunStep : Exec Trace StepResult → String → List String → Type 0
IsRunStep m node command =
    (t : Trace)
    → (s : StepResult) × ((m t).0 ≡ ok s)
      × ((m t).1.calls ≡ t.calls)
      × (s.node ≡ node)
      × (s.command ≡ command)
      × WasRun s

module _ (h : Host) where
  pub step_result-IsRunStep :
      (node operation : String) (command : List String) (status : StepStatus) (detail : String)
      → (status ≡ success) ⊎ (status ≡ failure)
      → IsRunStep (step_result h node operation command status detail) node command
  unfolding step_result timestamp ◌>>=◌
  step_result-IsRunStep node operation command status detail w t = (_, refl, refl, refl, refl, w)

  branch-IsRunStep :
      (node operation : String) (command : List String) (b : Bool) (out error : String)
      → IsRunStep
          (if b
            then step_result h node operation command success out
            else step_result h node operation command failure error)
          node
          command
  branch-IsRunStep node operation command true out error =
      step_result-IsRunStep node operation command success out (inl refl)
  branch-IsRunStep node operation command false out error =
      step_result-IsRunStep node operation command failure error (inr refl)

  report-IsRunStep :
      (node operation : String) (command : List String) (o : Outcome)
      → IsCaught o
      → IsRunStep (report h node operation command o) node command
  unfolding report
  report-IsRunStep node operation command (completed r) c =
      branch-IsRunStep node operation command (eqb_ℤ r.returncode (pos 0)) _ _
  report-IsRunStep node operation command (not_found text) c =
      step_result-IsRunStep node operation command failure _ (inr refl)
  report-IsRunStep node operation command (timed_out seconds text) c =
      step_result-IsRunStep node operation command failure _ (inr refl)
  report-IsRunStep node operation command (raised e) c = absurd c

  pub skipped_step-IsAccountedStep :
      (node operation reason : String) → IsAccountedStep (skipped_step h node operation reason) node
  unfolding skipped_step step_result timestamp ◌>>=◌
  skipped_step-IsAccountedStep node operation reason t = (
    _,
    [],
    refl,
    sym (append-nil t.calls),
    refl,
    record { backed = (inl (inr refl), tt); mentioned = tt; limited = tt },
  )

  module _ (answers : IsAnswering h) where
    pub run_step-IsAccountedStep :
        (node operation : String) (command : List String) (env : Option Environ)
        → IsAccountedStep (run_step h node operation command false env) node
    unfolding run_step run_process ◌>>=◌
    run_step-IsAccountedStep node operation command env t =
        let c : Call = record { argv = command; input = _; timeout = 60; env = env } in
        let u : Trace = record t { calls = t.calls ++ c ∷ [] } in
        let (s, es, ec, en, em, w) =
          report-IsRunStep node operation command (h.run t.calls c) (answers t.calls c) u in
        (
          s,
          c ∷ [],
          es,
          ec,
          en,
          record {
            backed = (inr (inl (sym em)), tt);
            mentioned = (inl (em, w), tt);
            limited = ((omega arith, omega arith), tt);
          },
        )

    pub drain-IsAccounted :
        (b : ClusterBackend) (nodes : List String) (reason : String)
        → IsAccounted (drain h b nodes false reason) (flat (drained h b) nodes)
    unfolding drain Kubernetes.drain Slurm.drain Ipmi.drain
    drain-IsAccounted (kubernetes namespace group) nodes reason =
        collect-IsAccounted _ _
          (λ x.
            two-IsAccounted _ _ x (run_step-IsAccountedStep x _ _ _)
              (run_step-IsAccountedStep x _ _ _))
          nodes
    drain-IsAccounted slurm nodes reason =
        collect-IsAccounted _ _ (λ x. one-IsAccounted _ x (run_step-IsAccountedStep x _ _ _)) nodes
    drain-IsAccounted (ipmi user interface) nodes reason =
        collect-IsAccounted _ _ (λ x. one-IsAccounted _ x (skipped_step-IsAccountedStep x _ _))
          nodes

    pub power_fence-IsAccounted :
        (b : ClusterBackend) (nodes : List String)
        → IsAccounted (power_fence h b nodes false) (flat (once h) nodes)
    unfolding power_fence Kubernetes.power_fence Slurm.power_fence Ipmi.power_fence
    power_fence-IsAccounted (kubernetes namespace group) nodes =
        collect-IsAccounted _ _ (λ x. one-IsAccounted _ x (skipped_step-IsAccountedStep x _ _))
          nodes
    power_fence-IsAccounted slurm nodes =
        collect-IsAccounted _ _ (λ x. one-IsAccounted _ x (skipped_step-IsAccountedStep x _ _))
          nodes
    power_fence-IsAccounted (ipmi user interface) nodes =
        collect-IsAccounted _ _ (λ x. one-IsAccounted _ x (run_step-IsAccountedStep x _ _ _)) nodes
