-- ===== src/Backend/DryRun.antt =====
-- The operations of the backends with `dry_run=True`.
use halt_proof.Base.{
  String, ◌≡◌, refl, ap, ap₂, ◌∙◌, ◌⊎◌, inl, inr, true, Option, List, [], ◌∷◌, ◌++◌, All,
  All-append,
}
use halt_proof.Base.Results.{ok}
use halt_proof.Exec.{Exec, pure, collect, ◌>>=◌}
use halt_proof.Host.{Host, Trace, Environ, timestamp}
use halt_proof.Backend.{StepResult, planned, skipped, StepStatus}
use halt_proof.Backend.Runner.{run_step, skipped_step, step_result}
use halt_proof.Backend.Kubernetes
use halt_proof.Backend.Slurm
use halt_proof.Backend.Ipmi
use halt_proof.Backend.Clusters.{
  ClusterBackend, kubernetes, slurm, ipmi, drain, isolate_network, power_fence,
}

abbrev pub WasNotRun : StepResult → Type 0
WasNotRun s = (s.status ≡ planned) ⊎ (s.status ≡ skipped)

abbrev pub nodes_of : List StepResult → List String
nodes_of [] = []
nodes_of (s ∷ ss) = s.node ∷ nodes_of ss

pub nodes_of-append : (ss ts : List StepResult) → nodes_of (ss ++ ts) ≡ nodes_of ss ++ nodes_of ts
nodes_of-append [] ts = refl
nodes_of-append (s ∷ ss) ts = ap (◌∷◌ s.node) (nodes_of-append ss ts)

-- `m` returns steps for exactly these nodes, none of which was run, and starts no process.
abbrev pub IsQuiet : Exec Trace (List StepResult) → List String → Type 0
IsQuiet m ns =
    (t : Trace)
    → (steps : List StepResult) × ((m t).0 ≡ ok steps)
      × All WasNotRun steps
      × (nodes_of steps ≡ ns)
      × ((m t).1.calls ≡ t.calls)

abbrev pub flat : (String → List String) → List String → List String
flat g [] = []
flat g (x ∷ xs) = g x ++ flat g xs

collect-IsQuiet :
    (f : String → Exec Trace (List StepResult)) (g : String → List String)
    → ((x : String) → IsQuiet (f x) (g x))
    → (xs : List String) → IsQuiet (collect f xs) (flat g xs)
unfolding collect
collect-IsQuiet f g q [] t = ([], refl, tt, refl, refl)
collect-IsQuiet f g q (x ∷ xs) t =
    let (ys, ey, hy, ny, cy) = q x t in
    let (zs, ez, hz, nz, cz) = collect-IsQuiet f g q xs (f x t).1 in
    (
      ys ++ zs,
      rw ey (rw ez refl),
      All-append WasNotRun ys zs hy hz,
      nodes_of-append ys zs ∙ ap₂ ◌++◌ ny nz,
      rw ey (rw ez (cz ∙ cy)),
    )

-- The same of an action that makes one step, for one node.
abbrev IsQuietStep : Exec Trace StepResult → String → Type 0
IsQuietStep m n =
    (t : Trace)
    → (s : StepResult) × ((m t).0 ≡ ok s) × WasNotRun s × (s.node ≡ n) × ((m t).1.calls ≡ t.calls)

one-IsQuiet :
    (m : Exec Trace StepResult) (n : String)
    → IsQuietStep m n
    → IsQuiet (m >>= λ s. pure (s ∷ [])) (n ∷ [])
unfolding ◌>>=◌
one-IsQuiet m n q t =
    let (s, e, w, en, c) = q t in (s ∷ [], rw e refl, (w, tt), ap (λ x. x ∷ []) en, rw e c)

two-IsQuiet :
    (m k : Exec Trace StepResult) (n : String)
    → IsQuietStep m n
    → IsQuietStep k n
    → IsQuiet (m >>= λ s. k >>= λ s'. pure (s ∷ s' ∷ [])) (n ∷ n ∷ [])
unfolding ◌>>=◌
two-IsQuiet m k n q r t =
    let (s, e, w, en, c) = q t in
    let (s', e', w', en', c') = r (m t).1 in
    (
      s ∷ s' ∷ [],
      rw e (rw e' refl),
      (w, (w', tt)),
      ap₂ (λ x y. x ∷ y ∷ []) en en',
      rw e (rw e' (c' ∙ c)),
    )

module _ (h : Host) where
  step_result-IsQuietStep :
      (node operation : String) (command : List String) (status : StepStatus) (detail : String)
      → (status ≡ planned) ⊎ (status ≡ skipped)
      → IsQuietStep (step_result h node operation command status detail) node
  unfolding step_result timestamp ◌>>=◌
  step_result-IsQuietStep node operation command status detail w t = (
    record {
      node = node;
      operation = operation;
      command = command;
      status = status;
      detail = detail;
      timestamp = h.now t.ticks;
    },
    refl,
    w,
    refl,
    refl,
  )

  run_step-IsQuietStep :
      (node operation : String) (command : List String) (env : Option Environ)
      → IsQuietStep (run_step h node operation command true env) node
  unfolding run_step
  run_step-IsQuietStep node operation command env =
      step_result-IsQuietStep node operation command planned _ (inl refl)

  skipped_step-IsQuietStep :
      (node operation reason : String) → IsQuietStep (skipped_step h node operation reason) node
  unfolding skipped_step
  skipped_step-IsQuietStep node operation reason =
      step_result-IsQuietStep node operation [] skipped reason (inr refl)

  -- The nodes of the steps that draining makes: on Kubernetes each node is cordoned and drained.
  abbrev pub drained : ClusterBackend → String → List String
  drained (kubernetes namespace group) n = n ∷ n ∷ []
  drained slurm n = n ∷ []
  drained (ipmi user interface) n = n ∷ []

  abbrev pub once : String → List String
  once n = n ∷ []

  pub drain-IsQuiet :
      (b : ClusterBackend) (nodes : List String) (reason : String)
      → IsQuiet (drain h b nodes true reason) (flat (drained b) nodes)
  unfolding drain Kubernetes.drain Slurm.drain Ipmi.drain
  drain-IsQuiet (kubernetes namespace group) nodes reason =
      collect-IsQuiet _ _
        (λ x. two-IsQuiet _ _ x (run_step-IsQuietStep x _ _ _) (run_step-IsQuietStep x _ _ _)) nodes
  drain-IsQuiet slurm nodes reason =
      collect-IsQuiet _ _ (λ x. one-IsQuiet _ x (run_step-IsQuietStep x _ _ _)) nodes
  drain-IsQuiet (ipmi user interface) nodes reason =
      collect-IsQuiet _ _ (λ x. one-IsQuiet _ x (skipped_step-IsQuietStep x _ _)) nodes

  pub isolate_network-IsQuiet :
      (b : ClusterBackend) (nodes : List String)
      → IsQuiet (isolate_network h b nodes true) (flat once nodes)
  unfolding isolate_network Kubernetes.isolate_network Slurm.isolate_network Ipmi.isolate_network
  isolate_network-IsQuiet (kubernetes namespace group) nodes =
      collect-IsQuiet _ _
        (λ x. one-IsQuiet _ x (step_result-IsQuietStep x _ _ planned _ (inl refl))) nodes
  isolate_network-IsQuiet slurm nodes =
      collect-IsQuiet _ _ (λ x. one-IsQuiet _ x (run_step-IsQuietStep x _ _ _)) nodes
  isolate_network-IsQuiet (ipmi user interface) nodes =
      collect-IsQuiet _ _ (λ x. one-IsQuiet _ x (skipped_step-IsQuietStep x _ _)) nodes

  pub power_fence-IsQuiet :
      (b : ClusterBackend) (nodes : List String)
      → IsQuiet (power_fence h b nodes true) (flat once nodes)
  unfolding power_fence Kubernetes.power_fence Slurm.power_fence Ipmi.power_fence
  power_fence-IsQuiet (kubernetes namespace group) nodes =
      collect-IsQuiet _ _ (λ x. one-IsQuiet _ x (skipped_step-IsQuietStep x _ _)) nodes
  power_fence-IsQuiet slurm nodes =
      collect-IsQuiet _ _ (λ x. one-IsQuiet _ x (skipped_step-IsQuietStep x _ _)) nodes
  power_fence-IsQuiet (ipmi user interface) nodes =
      collect-IsQuiet _ _ (λ x. one-IsQuiet _ x (run_step-IsQuietStep x _ _ _)) nodes
