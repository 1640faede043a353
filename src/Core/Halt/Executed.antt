-- ===== src/Core/Halt/Executed.antt =====
-- `run_halt` with `confirm`: the steps of its record, and the commands that were started.
use halt_proof.Base.{
  String, ◌≡◌, refl, ◌∙◌, sym, ap, ap₂, subst, ◌≢◌, ◌↔◌, All, arith, Bool, true, false, not, Option,
  none, some, List, [], ◌∷◌, ◌++◌, append_assoc, map, if◌then◌else◌, Bool-cases, inl, inr,
}
use halt_proof.Base.Results.{Result, ok, err, ok_injective}
use halt_proof.Errors.{Exn}
use halt_proof.Platform.{Platform}
use halt_proof.Exec.{
  Exec, ◌>>=◌, Returns, Leads, >>=-Leads, pure-Leads, >>=-Returns, lift-Returns, pure-Returns,
  Keeps-Returns,
}
use halt_proof.Host.{Host, Trace, Call}
use halt_proof.World.{World, on_trace}
use halt_proof.Attestation.{AttestationRecord, build_record, sign_record, dicts}
use halt_proof.Backend.{StepResult, step_dict, failure}
use halt_proof.Backend.Clusters.{ClusterBackend, drain, isolate_network}
use halt_proof.Backend.DryRun.{nodes_of, nodes_of-append, flat, once, drained}
use halt_proof.Backend.Executed.{IsAnswering, Account, Account-append}
use halt_proof.Backend.Executed.Steps.{drain-IsAccounted, power_fence-IsAccounted}
use halt_proof.Backend.Executed.Isolation.{clusters-isolate_network-IsAccounted}
use halt_proof.Core.Halt.{
  Request, Setup, HaltResult, Plan, plan, all_steps, choose_nodes, make_record, sign_step, execute,
  run_halt, any_failed,
}
use halt_proof.Core.Halt.DryRun.{calls, plan-KeepsCalls}
use halt_proof.Core.Halt.Chained.{signed_record}
use halt_proof.Core.Halt.Unrecorded.{execute-calls}

-- If no call ends in an exception that the runner does not catch, then the three operations, run on
-- at least one node, return. A node that fails, times out or has no tool stops no other node: the
-- steps name each node for each operation, in order, and they account for the calls that were
-- started.
pub all_steps_executed :
    (h : Host) (b : ClusterBackend) (n : String) (ns : List String) (reason : String) (t : Trace)
    → IsAnswering h
    → (steps : List StepResult) × (started : List Call) × ((all_steps h b (n ∷ ns) false reason t).0
        ≡ ok steps)
      × ((all_steps h b (n ∷ ns) false reason t).1.calls ≡ t.calls ++ started)
      × (nodes_of steps
          ≡ flat (drained h b) (n ∷ ns) ++ (flat (once h) (n ∷ ns) ++ flat (once h) (n ∷ ns)))
      × Account steps started
unfolding all_steps ◌>>=◌
all_steps_executed h b n ns reason t answers =
    let (xs, cs, ex, cx, nx, ax) = drain-IsAccounted h answers b (n ∷ ns) reason t in
    let t₁ = (drain h b (n ∷ ns) false reason t).1 in
    let (ys, ds, ey, cy, ny, ay) = clusters-isolate_network-IsAccounted h answers b n ns t₁ in
    let t₂ = (isolate_network h b (n ∷ ns) false t₁).1 in
    let (zs, es, ez, cz, nz, az) = power_fence-IsAccounted h answers b (n ∷ ns) t₂ in
    (
      xs ++ (ys ++ zs),
      cs ++ (ds ++ es),
      rw ex (rw ey (rw ez refl)),
      rw ex (
          rw ey (
            rw ez (
              cz
              ∙ ap (λ l. l ++ es) (cy ∙ ap (λ l. l ++ ds) cx)
              ∙ append_assoc (t.calls ++ cs) ds es
              ∙ append_assoc t.calls cs (ds ++ es)))),
      nodes_of-append xs (ys ++ zs) ∙ ap₂ ◌++◌ nx (nodes_of-append ys zs ∙ ap₂ ◌++◌ ny nz),
      Account-append xs (ys ++ zs) cs (ds ++ es) ax (Account-append ys zs ds es ay az),
    )

choose_nodes_nonempty :
    (o : Option (List String)) (group : String) (r : Result Exn (Option (List String)))
    (ns : List String)
    → choose_nodes o group r ≡ ok ns
    → (m : String) × (ms : List String) × (ns ≡ m ∷ ms)
unfolding choose_nodes
choose_nodes_nonempty (some (m ∷ ms)) group r ns e = (m, ms, sym (ok_injective e))
choose_nodes_nonempty (some []) group (err x) ns e = cc
choose_nodes_nonempty (some []) group (ok none) ns e = cc
choose_nodes_nonempty (some []) group (ok (some [])) ns e = cc
choose_nodes_nonempty (some []) group (ok (some (m ∷ ms))) ns e = (m, ms, sym (ok_injective e))
choose_nodes_nonempty none group (err x) ns e = cc
choose_nodes_nonempty none group (ok none) ns e = cc
choose_nodes_nonempty none group (ok (some [])) ns e = cc
choose_nodes_nonempty none group (ok (some (m ∷ ms))) ns e = (m, ms, sym (ok_injective e))

pub then_branch {ℓ} : {A : Type ℓ} {b : Bool} (x y : A) → b ≡ true → (if b then x else y) ≡ x
then_branch {b = true} x y e = refl
then_branch {b = false} x y e = cc

-- No step failed.
abbrev pub NoneFailed : List StepResult → Type 0
NoneFailed steps = All (λ (s : StepResult). s.status ≢ failure) steps

any_failed-iff-NoneFailed : (ss : List StepResult) → (any_failed ss ≡ false) ↔ NoneFailed ss
unfolding any_failed
any_failed-iff-NoneFailed [] = ground arith
any_failed-iff-NoneFailed (s ∷ ss) = ground (arith, any_failed-iff-NoneFailed ss)

module _ (p : Platform) (h : Host) (u : Setup) where
  pub planned_nodes :
      (q : Request) (w v : World p) (s : Plan p h u)
      → Returns (plan p h u q) w s v
      → (m : String) × (ms : List String) × (s.node_list ≡ m ∷ ms)
  unfolding plan
  planned_nodes q w v s e =
      let (config, w₁, e₁, k₁) = >>=-Returns _ _ w e in
      let (node_list, w₂, e₂, k₂) = >>=-Returns _ _ w₁ k₁ in
      let (name, w₃, e₃, k₃) = >>=-Returns _ _ w₂ k₂ in
      let (backend, w₄, e₄, k₄) = >>=-Returns _ _ w₃ k₃ in
      let (m, ms, same) =
        choose_nodes_nonempty q.nodes q.target_group _ node_list (lift-Returns _ w₁ e₂) in
      (m, ms, sym (ap (λ (x : Plan p h u). x.node_list) (pure-Returns _ w₄ k₄).0) ∙ same)

  made_steps :
      (q : Request) (s : Plan p h u) (operator path : String) (steps : List StepResult)
      (w v : World p) {r : AttestationRecord}
      → Returns (make_record p h u q s operator path steps) w r v
      → r.steps ≡ dicts (map step_dict steps)
  unfolding make_record build_record
  made_steps q s operator path steps w v e =
      let (a, w₁, e₁, k₁) = >>=-Returns _ _ w e in
      let (id, w₂, e₂, k₂) = >>=-Returns _ _ w₁ k₁ in
      let (now, w₃, e₃, k₃) = >>=-Returns _ _ w₂ k₂ in
      ap (λ (x : AttestationRecord). x.steps) (sym (pure-Returns _ w₃ k₃).0)

  signed_steps :
      (q : Request) (s : Plan p h u) (r : AttestationRecord) (w v : World p) {t : AttestationRecord}
      → Returns (sign_step p h u q s r) w t v
      → t.steps ≡ r.steps
  unfolding sign_step sign_record
  signed_steps q s r w v {t} e = elim (Bool-cases q.no_sign) [
    | inl skip ↦
        let e' =
          ap (λ (m : Exec (World p) AttestationRecord). m w) (sym (then_branch _ _ skip)) ∙ e in
        ap (λ (x : AttestationRecord). x.steps) (sym (pure-Returns r w e').0)
    | inr signing ↦
        let (k, same) = signed_record p h u q s r w v signing e in
        ap (λ (x : AttestationRecord). x.steps) same
  ]

  execute_lists :
      (q : Request) (s : Plan p h u) (w : World p) (steps : List StepResult)
      → (all_steps h s.backend s.node_list (not q.confirm) q.reason w.trace).0 ≡ ok steps
      → Leads (execute p h u q s) w (λ res v.
        (res.made.steps ≡ dicts (map step_dict steps)) × (res.any_failures ≡ any_failed steps))
  unfolding execute on_trace
  execute_lists q s w steps same = >>=-Leads _ _ w λ found w₁ e₁.
      >>=-Leads _ _ w₁ λ configured w₂ e₂. >>=-Leads _ _ w₂ λ configured_log w₃ e₃.
        >>=-Leads _ _ w₃ λ made w₄ e₄. >>=-Leads _ _ w₄ λ signed w₅ e₅. >>=-Leads _ _ w₅ λ _ w₆ e₆.
          >>=-Leads _ _ w₆ λ remote w₇ e₇. pure-Leads _ _ w₇ (
            let e : found ≡ steps = ok_injective (sym (ap (λ x. x.0) e₁) ∙ same) in
            (
              signed_steps q s made w₄ w₅ e₅
                  ∙ made_steps q s _ _ found w₃ w₄ e₄
                  ∙ ap (λ x. dicts (map step_dict x)) e,
              ap any_failed e,
            ))

  -- If no call ends in an exception that the runner does not catch, and `run_halt` with `confirm`
  -- returns, then the steps in its record account for the commands that it started: each was
  -- started by a step that was run, each step that was run names a command that was started, and
  -- each may take at most a minute. `any_failures` is false exactly if none of these steps failed.
  pub run_halt_executed :
      (q : Request) (w v : World p) (res : HaltResult)
      → IsAnswering h
      → q.confirm ≡ true
      → Returns (run_halt p h u q) w res v
      → (steps : List StepResult) × (started : List Call) × (res.made.steps
          ≡ dicts (map step_dict steps))
        × ((res.any_failures ≡ false) ↔ NoneFailed steps)
        × (v.trace.calls ≡ w.trace.calls ++ started)
        × Account steps started
  unfolding run_halt on_trace
  run_halt_executed q w v res answers confirmed e =
      let (s, w₁, e₁, k₁) = >>=-Returns _ _ w e in
      let (n, ns, nodes) = planned_nodes q w w₁ s e₁ in
      let (steps, started, es, ec, _, account) =
        all_steps_executed h s.backend n ns q.reason w₁.trace answers in
      let (listed, failures) = execute_lists q s w₁ steps (rw (confirmed, nodes) es) res v k₁ in
      let kept = Keeps-Returns calls (plan p h u q) w (plan-KeepsCalls p h u q) e₁ in
      (
        steps,
        started,
        listed,
        subst (λ b. (b ≡ false) ↔ NoneFailed steps) (sym failures)
            (any_failed-iff-NoneFailed steps),
        ap (λ x. calls x.1) (sym k₁)
            ∙ execute-calls p h u q s w₁
            ∙ rw (confirmed, nodes) ec
            ∙ ap (λ l. l ++ started) kept,
        account,
      )
