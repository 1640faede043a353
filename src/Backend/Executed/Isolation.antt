-- ===== src/Backend/Executed/Isolation.antt =====
-- Network isolation.
use halt_proof.Base.{
  All-map, String, ◌≡◌, refl, ap₂, sym, ◌∙◌, ◌⊎◌, inl, inr, arith, false, none, some, Bool-cases,
  List, [], ◌∷◌, ◌++◌, All,
}
use halt_proof.Base.Int.{pos, eqb_ℤ}
use halt_proof.Base.Results.{ok}
use halt_proof.Base.Text.{first, strip}
use halt_proof.Exec.{lift, collect, ◌>>=◌}
use halt_proof.Host.{
  Host, Trace, Call, Outcome, completed, not_found, timed_out, raised, run_process,
}
use halt_proof.Backend.{StepResult, StepStatus, success, failure}
use halt_proof.Backend.Runner.{step_result}
use halt_proof.Backend.Kubernetes
use halt_proof.Backend.Slurm
use halt_proof.Backend.Ipmi
use halt_proof.Backend.Clusters.{ClusterBackend, kubernetes, slurm, ipmi, isolate_network}
use halt_proof.Backend.DryRun.{nodes_of, flat, once}
use halt_proof.Backend.Executed.{
  IsCaught, IsAnswering, WasRun, IsLimited, Account, IsAccounted, collect-IsAccounted,
  one-IsAccounted,
}
use halt_proof.Backend.Executed.Steps.{
  step_result-IsRunStep, run_step-IsAccountedStep, skipped_step-IsAccountedStep,
}

-- Isolation on Kubernetes, where one call is reported for each node.
module _ (h : Host) (namespace group : String) where
  abbrev Reported : StepResult → Type 0
  Reported s = (s.command ≡ Kubernetes.apply_command h namespace group) × WasRun s

  reports :
      (status : StepStatus) (detail : String)
      → (status ≡ success) ⊎ (status ≡ failure)
      → (nodes : List String) (t : Trace)
      → (steps : List StepResult) × ((collect
            (Kubernetes.report_isolation h namespace group (status, detail))
            nodes
            t).0
          ≡ ok steps)
        × ((collect
              (Kubernetes.report_isolation h namespace group (status, detail))
              nodes
              t).1.calls
            ≡ t.calls)
        × (nodes_of steps ≡ flat (once h) nodes)
        × All Reported steps
  unfolding collect Kubernetes.report_isolation ◌>>=◌
  reports status detail w [] t = ([], refl, refl, refl, tt)
  reports status detail w (x ∷ xs) t =
      let (s, es, ec, en, em, run) =
        step_result-IsRunStep h x "isolate_network" (Kubernetes.apply_command h namespace group)
          status detail w t in
      let u : Trace =
        (step_result h x "isolate_network" (Kubernetes.apply_command h namespace group) status
          detail t).1 in
      let (ss, es', ec', en', all) = reports status detail w xs u in
      (s ∷ ss, rw es (rw es' refl), rw es (rw es' (ec' ∙ ec)), ap₂ ◌∷◌ en en', ((em, run), all))

  -- What the answer of the one call becomes.
  applied-WasRun :
      (o : Outcome)
      → IsCaught o
      → (status : StepStatus) × (detail : String) × (Kubernetes.applied h namespace group o
          ≡ ok (status, detail))
        × ((status ≡ success) ⊎ (status ≡ failure))
  unfolding Kubernetes.applied
  applied-WasRun (completed r) c = elim (Bool-cases (eqb_ℤ r.returncode (pos 0))) [
    | inl e ↦ (success, first 500 (strip r.stdout), rw e refl, inl refl)
    | inr e ↦ (failure, first 500 (strip r.stderr), rw e refl, inr refl)
  ]
  applied-WasRun (not_found text) c = (failure, text, refl, inr refl)
  applied-WasRun (timed_out seconds text) c = (failure, text, refl, inr refl)
  applied-WasRun (raised e) c = absurd c

  Account-one :
      (c : Call) (steps : List StepResult) (n : String) (ns : List String)
      → nodes_of steps ≡ n ∷ ns
      → c.argv ≡ Kubernetes.apply_command h namespace group
      → IsLimited c
      → All Reported steps
      → Account steps (c ∷ [])
  Account-one c [] n ns en e limit all = cc
  Account-one c (s ∷ ss) n ns en e limit all = record {
    backed = All-map (λ x r. inr (inl (e ∙ sym r.0))) (s ∷ ss) all;
    mentioned = (inl (all.0.0 ∙ sym e, all.0.1), tt);
    limited = (limit, tt);
  }

  isolate_network-IsAccounted :
      IsAnswering h
      → (n : String) (ns : List String)
      → IsAccounted
          (Kubernetes.isolate_network h namespace group (n ∷ ns) false)
          (flat (once h) (n ∷ ns))
  unfolding Kubernetes.isolate_network run_process ◌>>=◌ lift
  isolate_network-IsAccounted answers n ns t =
      let c : Call = record {
        argv = Kubernetes.apply_command h namespace group;
        input = some (Kubernetes.manifest group namespace);
        timeout = 60;
        env = none;
      } in
      let u : Trace = record t { calls = t.calls ++ c ∷ [] } in
      let (status, detail, e, w) = applied-WasRun (h.run t.calls c) (answers t.calls c) in
      let (steps, es, ec, en, all) = reports status detail w (n ∷ ns) u in
      (
        steps,
        c ∷ [],
        rw e es,
        rw e ec,
        en,
        Account-one c steps n (flat (once h) ns) en refl (omega arith, omega arith) all,
      )

module _ (h : Host) (answers : IsAnswering h) where
  pub clusters-isolate_network-IsAccounted :
      (b : ClusterBackend) (n : String) (ns : List String)
      → IsAccounted (isolate_network h b (n ∷ ns) false) (flat (once h) (n ∷ ns))
  unfolding isolate_network Slurm.isolate_network Ipmi.isolate_network
  clusters-isolate_network-IsAccounted (kubernetes namespace group) n ns =
      isolate_network-IsAccounted h namespace group answers n ns
  clusters-isolate_network-IsAccounted slurm n ns =
      collect-IsAccounted _ _
        (λ x. one-IsAccounted _ x (run_step-IsAccountedStep h answers x _ _ _)) (n ∷ ns)
  clusters-isolate_network-IsAccounted (ipmi user interface) n ns =
      collect-IsAccounted _ _ (λ x. one-IsAccounted _ x (skipped_step-IsAccountedStep h x _ _))
        (n ∷ ns)
