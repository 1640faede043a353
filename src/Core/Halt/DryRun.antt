-- ===== src/Core/Halt/DryRun.antt =====
-- `run_halt` without `confirm`.
use halt_proof.Base.{
  String, ◌≡◌, refl, ◌∙◌, ap₂, true, false, not, Option, none, some, List, ◌++◌, All, All-append,
}
use halt_proof.Base.Results.{ok}
use halt_proof.Platform.{Platform}
use halt_proof.Exec.{
  Exec, ◌>>=◌, Keeps, Keeps-pure, Keeps-lift, Keeps-modify, Keeps-reads, keeps_rules, Keeps-bind,
}
use halt_proof.Host.{Host, Trace, Call, timestamp, fresh_id}
use halt_proof.World.{World, on_trace, write_file}
use halt_proof.Attestation.{AttestationRecord}
use halt_proof.Backend.{StepResult}
use halt_proof.Backend.Clusters.{ClusterBackend, drain, isolate_network}
use halt_proof.Backend.DryRun.{
  WasNotRun, nodes_of, nodes_of-append, flat, once, drained, drain-IsQuiet, isolate_network-IsQuiet,
  power_fence-IsQuiet,
}
use halt_proof.Core.Halt.{
  Request, Setup, Plan, all_steps, plan, post, request_sent, make_record, sign_step, append_step,
  send, post_step, execute, run_halt,
}

-- The commands that were started.
abbrev pub calls : {p : Platform} → World p → List Call
calls w = w.trace.calls

module _ (h : Host) where
  -- A dry run of the three operations returns, and starts no process. Its steps are all planned or
  -- skipped, and they name the nodes in order: once for each drain command of the backend, then
  -- once for the isolation, then once for the fencing.
  pub all_steps_dry :
      (b : ClusterBackend) (nodes : List String) (reason : String) (t : Trace)
      → (steps : List StepResult) × ((all_steps h b nodes true reason t).0 ≡ ok steps)
        × All WasNotRun steps
        × (nodes_of steps
            ≡ flat (drained h b) nodes ++ (flat (once h) nodes ++ flat (once h) nodes))
        × ((all_steps h b nodes true reason t).1.calls ≡ t.calls)
  unfolding all_steps ◌>>=◌
  all_steps_dry b nodes reason t =
      let (xs, ex, hx, nx, cx) = drain-IsQuiet h b nodes reason t in
      let t₁ = (drain h b nodes true reason t).1 in
      let (ys, ey, hy, ny, cy) = isolate_network-IsQuiet h b nodes t₁ in
      let t₂ = (isolate_network h b nodes true t₁).1 in
      let (zs, ez, hz, nz, cz) = power_fence-IsQuiet h b nodes t₂ in
      (
        xs ++ (ys ++ zs),
        rw ex (rw ey (rw ez refl)),
        All-append WasNotRun xs (ys ++ zs) hx (All-append WasNotRun ys zs hy hz),
        nodes_of-append xs (ys ++ zs) ∙ ap₂ ◌++◌ nx (nodes_of-append ys zs ∙ ap₂ ◌++◌ ny nz),
        rw ex (rw ey (rw ez (cz ∙ cy ∙ cx))),
      )

module _ (p : Platform) (h : Host) (u : Setup) where
  abbrev KeepsCalls : {A : Type 0} → Exec (World p) A → Type 0
  KeepsCalls m = Keeps (λ (w : World p). w.trace.calls) m

  on_trace-KeepsCalls :
      {A : Type 0} (m : Exec Trace A)
      → ((t : Trace) → (m t).1.calls ≡ t.calls)
      → KeepsCalls (on_trace p m)
  unfolding on_trace
  on_trace-KeepsCalls m k = record { at = λ w. k w.trace }

  fresh_id-KeepsCalls : KeepsCalls (on_trace p (fresh_id h))
  unfolding fresh_id
  fresh_id-KeepsCalls = on_trace-KeepsCalls _ (λ t. refl)

  timestamp-KeepsCalls : KeepsCalls (on_trace p (timestamp h))
  unfolding timestamp
  timestamp-KeepsCalls = on_trace-KeepsCalls _ (λ t. refl)

  all_steps-KeepsCalls :
      (q : Request) (s : Plan p h u)
      → q.confirm ≡ false
      → KeepsCalls (on_trace p (all_steps h s.backend s.node_list (not q.confirm) q.reason))
  all_steps-KeepsCalls q s dry =
      on_trace-KeepsCalls _ (λ t. rw dry (all_steps_dry h s.backend s.node_list q.reason t).4)

  pub plan-KeepsCalls : (q : Request) → KeepsCalls (plan p h u q)
  unfolding plan
  plan-KeepsCalls q = search keeps_rules depth 9

  pub make_record-KeepsCalls :
      (q : Request) (s : Plan p h u) (operator log_path : String) (steps : List StepResult)
      → KeepsCalls (make_record p h u q s operator log_path steps)
  unfolding make_record
  make_record-KeepsCalls q s operator log_path steps =
      search (keeps_rules, fresh_id-KeepsCalls, timestamp-KeepsCalls) depth 9

  pub sign_step-KeepsCalls :
      (q : Request) (s : Plan p h u) (r : AttestationRecord) → KeepsCalls (sign_step p h u q s r)
  unfolding sign_step
  sign_step-KeepsCalls q s r = search keeps_rules depth 9

  pub append_step-KeepsCalls :
      (log_path : String) (r : AttestationRecord) → KeepsCalls (append_step p h u log_path r)
  unfolding append_step write_file
  append_step-KeepsCalls log_path r =
      Keeps-bind _ _ (Keeps-reads _) (λ f. Keeps-modify _ (λ w. refl))

  send-KeepsCalls : (o : Option String) (r : AttestationRecord) → KeepsCalls (send p h u o r)
  unfolding send post request_sent
  send-KeepsCalls none r = search keeps_rules
  send-KeepsCalls (some url) r =
      Keeps-bind _ _ (Keeps-bind _ _ (Keeps-modify _ (λ w. refl)) (λ _. Keeps-lift _))
        (λ answer. Keeps-pure _)

  pub post_step-KeepsCalls :
      (q : Request) (s : Plan p h u) (r : AttestationRecord) → KeepsCalls (post_step p h u q s r)
  unfolding post_step
  post_step-KeepsCalls q s r = search (keeps_rules, send-KeepsCalls)

  execute-KeepsCalls :
      (q : Request) (s : Plan p h u) → q.confirm ≡ false → KeepsCalls (execute p h u q s)
  unfolding execute
  execute-KeepsCalls q s dry = Keeps-bind _ _ (all_steps-KeepsCalls q s dry) λ steps.
      Keeps-bind _ _ (Keeps-lift _) λ configured. Keeps-bind _ _ (Keeps-lift _) λ configured_log.
        Keeps-bind _ _ (make_record-KeepsCalls q s _ _ steps) λ made.
          Keeps-bind _ _ (sign_step-KeepsCalls q s made) λ signed.
            Keeps-bind _ _ (append_step-KeepsCalls _ signed)
              λ _. Keeps-bind _ _ (post_step-KeepsCalls q s signed) λ remote. Keeps-pure _

  -- Without `confirm`, `run_halt` starts no process, whatever the settings and the files are, and
  -- whether it returns or raises.
  pub run_halt_dry :
      (q : Request) (w : World p)
      → q.confirm ≡ false
      → (run_halt p h u q w).1.trace.calls ≡ w.trace.calls
  unfolding run_halt
  run_halt_dry q w dry =
      (Keeps-bind (plan p h u q) (execute p h u q) (plan-KeepsCalls q)
          (λ s. execute-KeepsCalls q s dry)).at
        w
