-- ===== src/Core/Halt/Asked.antt =====
-- What the record that `run_halt` returns says of the request, the nodes and the operator.
use halt_proof.Base.{
  String, Bool, true, false, ◌==◌, ◌≡◌, ◌≢◌, refl, ◌∙◌, sym, ap, subst, ℕ, suc, ◌+◌, arith, not,
  List, [], ◌∷◌, map, length, if◌then◌else◌, Bool-cases, inl, inr,
}
use halt_proof.Base.Int.{pos}
use halt_proof.Json.{num, Fields, end, field}
use halt_proof.Platform.{Platform}
use halt_proof.Exec.{Exec, Returns, Leads, >>=-Leads, pure-Leads, >>=-Returns, pure-Returns}
use halt_proof.Host.{Host}
use halt_proof.World.{World}
use halt_proof.Operator.{os_user, resolve_operator_id-named}
use halt_proof.Attestation.{
  AttestationRecord, build_record, sign_record, dicts, summarise, count_status,
}
use halt_proof.Backend.{
  StepResult, StepStatus, success, failure, planned, skipped, step_dict, value,
}
use halt_proof.Core.Halt.{
  Request, Setup, HaltResult, Plan, make_record, sign_step, execute, run_halt,
}
use halt_proof.Core.Halt.Chained.{signed_record}
use halt_proof.Core.Halt.Executed.{then_branch, planned_nodes}

-- One status is the other.
abbrev pub same_status : StepStatus → StepStatus → Bool
same_status planned planned = true
same_status success success = true
same_status failure failure = true
same_status skipped skipped = true
same_status t u = false

-- How many of the steps have this status.
abbrev pub tally : StepStatus → List StepResult → ℕ
tally t [] = 0
tally t (s ∷ steps) = let rest = tally t steps in if same_status t s.status then suc rest else rest

-- The value of a status in a dict tells the status.
value-same_status : (t u : StepStatus) → (value u == value t) ≡ same_status t u
unfolding value
value-same_status planned planned = refl
value-same_status planned success = refl
value-same_status planned failure = refl
value-same_status planned skipped = refl
value-same_status success planned = refl
value-same_status success success = refl
value-same_status success failure = refl
value-same_status success skipped = refl
value-same_status failure planned = refl
value-same_status failure success = refl
value-same_status failure failure = refl
value-same_status failure skipped = refl
value-same_status skipped planned = refl
value-same_status skipped success = refl
value-same_status skipped failure = refl
value-same_status skipped skipped = refl

-- Counting the dicts counts the steps.
count_status-tally :
    (t : StepStatus) (steps : List StepResult)
    → count_status (value t) (map step_dict steps) ≡ tally t steps
unfolding count_status step_dict
count_status-tally t [] = refl
count_status-tally t (s ∷ steps) =
    rw (value-same_status t s.status, count_status-tally t steps) refl

-- The summary of a record: each status with the number of the steps that have it.
abbrev pub tallied : List StepResult → Fields
tallied steps = field "success" (num (pos (tally success steps))) (
    field "failure" (num (pos (tally failure steps))) (
      field "planned" (num (pos (tally planned steps)))
        (field "skipped" (num (pos (tally skipped steps))) end)))

summarise-tallied : (steps : List StepResult) → summarise (map step_dict steps) ≡ tallied steps
unfolding summarise value
summarise-tallied steps =
    rw
      (
        count_status-tally success steps,
        count_status-tally failure steps,
        count_status-tally planned steps,
        count_status-tally skipped steps,
      )
      refl

-- One of four numbers grows by 1.
tally_one :
    (t : StepStatus) (a b c d n : ℕ)
    → a + b + c + d ≡ n
    → (if same_status success t then suc a else a)
        + (if same_status failure t then suc b else b)
        + (if same_status planned t then suc c else c)
        + (if same_status skipped t then suc d else d)
      ≡ suc n
tally_one planned a b c d n e = omega (arith, e)
tally_one success a b c d n e = omega (arith, e)
tally_one failure a b c d n e = omega (arith, e)
tally_one skipped a b c d n e = omega (arith, e)

-- Every step is counted, and no step twice.
tally_sum :
    (steps : List StepResult)
    → tally success steps + tally failure steps + tally planned steps + tally skipped steps
      ≡ length steps
tally_sum [] = refl
tally_sum (s ∷ steps) =
    tally_one s.status (tally success steps) (tally failure steps) (tally planned steps)
      (tally skipped steps) (length steps) (tally_sum steps)

-- The record is about this request, made by a named operator; its summary counts its steps.
pub record Says (q : Request) (nodes : List String) (r : AttestationRecord) : Type 0 where
  pub action : r.action ≡ "halt"
  pub target_group : r.target_group ≡ q.target_group
  pub same_nodes : r.nodes ≡ nodes
  pub dry_run : r.dry_run ≡ not q.confirm
  pub confirmed : r.confirmed ≡ q.confirm
  pub named : r.operator ≢ ""
  pub steps : List StepResult
  pub listed : r.steps ≡ dicts (map step_dict steps)
  pub summed : r.summary ≡ tallied steps

module _ (p : Platform) (h : Host) (u : Setup) where
  made_record-Says :
      (q : Request) (s : Plan p h u) (operator path : String) (steps : List StepResult)
      (w v : World p) {r : AttestationRecord}
      → operator ≢ ""
      → Returns (make_record p h u q s operator path steps) w r v
      → Says q s.node_list r
  unfolding make_record build_record
  made_record-Says q s operator path steps w v named e =
      let (a, w₁, e₁, k₁) = >>=-Returns _ _ w e in
      let (id, w₂, e₂, k₂) = >>=-Returns _ _ w₁ k₁ in
      let (now, w₃, e₃, k₃) = >>=-Returns _ _ w₂ k₂ in
      subst (Says q s.node_list) (pure-Returns _ w₃ k₃).0 (record {
        action = refl;
        target_group = refl;
        same_nodes = refl;
        dry_run = refl;
        confirmed = refl;
        named = named;
        steps = steps;
        listed = refl;
        summed = summarise-tallied steps;
      })

  sign_record-Says :
      (q : Request) (nodes : List String) (r : AttestationRecord) (k : p.PrivateKey)
      → Says q nodes r
      → Says q nodes (sign_record p r k)
  unfolding sign_record
  sign_record-Says q nodes r k a = record {
    action = a.action;
    target_group = a.target_group;
    same_nodes = a.same_nodes;
    dry_run = a.dry_run;
    confirmed = a.confirmed;
    named = a.named;
    steps = a.steps;
    listed = a.listed;
    summed = a.summed;
  }

  sign_step-Says :
      (q : Request) (s : Plan p h u) (nodes : List String) (r : AttestationRecord) (w v : World p)
      {t : AttestationRecord}
      → Returns (sign_step p h u q s r) w t v
      → Says q nodes r
      → Says q nodes t
  unfolding sign_step
  sign_step-Says q s nodes r w v {t} e a = elim (Bool-cases q.no_sign) [
    | inl skip ↦
        let e' =
          ap (λ (m : Exec (World p) AttestationRecord). m w) (sym (then_branch _ _ skip)) ∙ e in
        subst (Says q nodes) (pure-Returns r w e').0 a
    | inr signing ↦
        let (k, same) = signed_record p h u q s r w v signing e in
        subst (Says q nodes) (sym same) (sign_record-Says q nodes r k a)
  ]

  execute-Says :
      (q : Request) (s : Plan p h u) (w : World p)
      → os_user h ≢ ""
      → Leads (execute p h u q s) w (λ res v. Says q s.node_list res.made)
  unfolding execute
  execute-Says q s w named = >>=-Leads _ _ w λ steps w₁ e₁. >>=-Leads _ _ w₁ λ configured w₂ e₂.
      >>=-Leads _ _ w₂ λ configured_log w₃ e₃. >>=-Leads _ _ w₃ λ made w₄ e₄.
        >>=-Leads _ _ w₄ λ signed w₅ e₅. >>=-Leads _ _ w₅ λ _ w₆ e₆.
          >>=-Leads _ _ w₆ λ remote w₇ e₇. pure-Leads _ _ w₇ (
            sign_step-Says q s s.node_list made w₄ w₅ e₅
              (made_record-Says q s _ _ steps w₃ w₄ (resolve_operator_id-named h _ named) e₄))

  -- If `run_halt` returns, and the system has a name for its user, then the record that it returns
  -- says that it is a halt of the given group, dry unless it was confirmed. It names at least one
  -- node and an operator. Its summary has, under each of the four statuses, the number of its
  -- steps with that status, and these numbers add up to the number of its steps.
  pub run_halt-Says :
      (q : Request) (w v : World p) (res : HaltResult)
      → os_user h ≢ ""
      → Returns (run_halt p h u q) w res v
      → (n : String) × (ns : List String) × (says : Says q (n ∷ ns) res.made) × (tally success
              says.steps
            + tally failure says.steps
            + tally planned says.steps
            + tally skipped says.steps
          ≡ length says.steps)
  unfolding run_halt
  run_halt-Says q w v res named e =
      let (s, w₁, e₁, k₁) = >>=-Returns _ _ w e in
      let (n, ns, same) = planned_nodes p h u q w w₁ s e₁ in
      let says = subst (λ nodes. Says q nodes res.made) same (execute-Says q s w₁ named res v k₁) in
      (n, ns, says, tally_sum says.steps)
