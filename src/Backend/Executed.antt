-- ===== src/Backend/Executed.antt =====
-- Runs that are not dry: what the steps say of the commands that were started.
pub mod Steps
pub mod Isolation
use halt_proof.Base.{
  String, ◌≡◌, refl, ap, ap₂, sym, ◌∙◌, ◌⊎◌, inl, inr, ℕ, ◌≤◌, ◌<◌, arith, true, false, Bool,
  Option, none, some, Bool-cases, List, [], ◌∷◌, ◌++◌, append_assoc, append-nil, All, All-append,
  All-map, if◌then◌else◌,
}
use halt_proof.Base.Int.{pos, eqb_ℤ}
use halt_proof.Base.Results.{ok, err}
use halt_proof.Base.Text.{first, strip}
use halt_proof.Exec.{Exec, pure, lift, collect, ◌>>=◌}
use halt_proof.Host.{
  Host, Trace, Call, Environ, Outcome, completed, not_found, timed_out, raised, run_process,
  timestamp,
}
use halt_proof.Backend.{StepResult, StepStatus, planned, success, failure, skipped}
use halt_proof.Backend.Runner.{run_step, skipped_step, step_result, report}
use halt_proof.Backend.Kubernetes
use halt_proof.Backend.Slurm
use halt_proof.Backend.Ipmi
use halt_proof.Backend.Clusters.{
  ClusterBackend, kubernetes, slurm, ipmi, drain, isolate_network, power_fence,
}
use halt_proof.Backend.DryRun.{WasNotRun, nodes_of, nodes_of-append, flat, drained, once}

-- An outcome that `run_step` turns into a step: all but the exceptions that it does not catch.
abbrev pub IsCaught : Outcome → Type 0
IsCaught (raised e) = ⊥
IsCaught _ = Unit

abbrev pub IsAnswering : Host → Type 0
IsAnswering h = (earlier : List Call) (c : Call) → IsCaught (h.run earlier c)

-- One of the calls started this command.
abbrev pub Issued : List String → List Call → Type 0
Issued command [] = ⊥
Issued command (c ∷ cs) = (c.argv ≡ command) ⊎ Issued command cs

abbrev pub WasRun : StepResult → Type 0
WasRun s = (s.status ≡ success) ⊎ (s.status ≡ failure)

-- One of the steps that were run has this command.
abbrev pub Mentioned : List StepResult → List String → Type 0
Mentioned [] argv = ⊥
Mentioned (s ∷ ss) argv = ((s.command ≡ argv) × WasRun s) ⊎ Mentioned ss argv

-- A step was not run, or one of the calls started its command.
abbrev pub Backed : List Call → StepResult → Type 0
Backed cs s = WasNotRun s ⊎ Issued s.command cs

-- The call may take at most a minute.
abbrev pub IsLimited : Call → Type 0
IsLimited c = (0 < c.timeout) × (c.timeout ≤ 60)

-- The steps say of these calls what happened, and nothing else.
pub record Account (steps : List StepResult) (calls : List Call) : Type 0 where
  pub backed : All (Backed calls) steps
  pub mentioned : All (λ (c : Call). Mentioned steps c.argv) calls
  pub limited : All IsLimited calls

Issued-left :
    (command : List String) (cs ds : List Call) → Issued command cs → Issued command (cs ++ ds)
Issued-left command [] ds h = absurd h
Issued-left command (c ∷ cs) ds (inl e) = inl e
Issued-left command (c ∷ cs) ds (inr h) = inr (Issued-left command cs ds h)

Issued-right :
    (command : List String) (cs ds : List Call) → Issued command ds → Issued command (cs ++ ds)
Issued-right command [] ds h = h
Issued-right command (c ∷ cs) ds h = inr (Issued-right command cs ds h)

Mentioned-left :
    (ss ts : List StepResult) (argv : List String) → Mentioned ss argv → Mentioned (ss ++ ts) argv
Mentioned-left [] ts argv h = absurd h
Mentioned-left (s ∷ ss) ts argv (inl e) = inl e
Mentioned-left (s ∷ ss) ts argv (inr h) = inr (Mentioned-left ss ts argv h)

Mentioned-right :
    (ss ts : List StepResult) (argv : List String) → Mentioned ts argv → Mentioned (ss ++ ts) argv
Mentioned-right [] ts argv h = h
Mentioned-right (s ∷ ss) ts argv h = inr (Mentioned-right ss ts argv h)

Backed-left : (cs ds : List Call) (s : StepResult) → Backed cs s → Backed (cs ++ ds) s
Backed-left cs ds s (inl idle) = inl idle
Backed-left cs ds s (inr h) = inr (Issued-left s.command cs ds h)

Backed-right : (cs ds : List Call) (s : StepResult) → Backed ds s → Backed (cs ++ ds) s
Backed-right cs ds s (inl idle) = inl idle
Backed-right cs ds s (inr h) = inr (Issued-right s.command cs ds h)

-- Accounts of one run after another make one account.
pub Account-append :
    (ss ts : List StepResult) (cs ds : List Call)
    → Account ss cs
    → Account ts ds
    → Account (ss ++ ts) (cs ++ ds)
Account-append ss ts cs ds a b = record {
  backed =
      All-append (Backed (cs ++ ds)) ss ts (All-map (Backed-left cs ds) ss a.backed)
        (All-map (Backed-right cs ds) ts b.backed);
  mentioned =
      All-append (λ (c : Call). Mentioned (ss ++ ts) c.argv) cs ds
        (All-map (λ c. Mentioned-left ss ts c.argv) cs a.mentioned)
        (All-map (λ c. Mentioned-right ss ts c.argv) ds b.mentioned);
  limited = All-append IsLimited cs ds a.limited b.limited;
}

-- `m` returns steps for exactly these nodes, and they account for the calls that it started.
abbrev pub IsAccounted : Exec Trace (List StepResult) → List String → Type 0
IsAccounted m ns =
    (t : Trace)
    → (steps : List StepResult) × (started : List Call) × ((m t).0 ≡ ok steps)
      × ((m t).1.calls ≡ t.calls ++ started)
      × (nodes_of steps ≡ ns)
      × Account steps started

-- The same of an action that makes one step.
abbrev pub IsAccountedStep : Exec Trace StepResult → String → Type 0
IsAccountedStep m n =
    (t : Trace)
    → (s : StepResult) × (started : List Call) × ((m t).0 ≡ ok s)
      × ((m t).1.calls ≡ t.calls ++ started)
      × (s.node ≡ n)
      × Account (s ∷ []) started

pub bind-IsAccounted :
    (m k : Exec Trace (List StepResult)) (xs ys : List String)
    → IsAccounted m xs
    → IsAccounted k ys
    → IsAccounted (m >>= λ ss. k >>= λ ts. pure (ss ++ ts)) (xs ++ ys)
unfolding ◌>>=◌
bind-IsAccounted m k xs ys f g t =
    let (ss, cs, es, ec, en, a) = f t in
    let (ts, ds, es', ec', en', b) = g (m t).1 in
    (
      ss ++ ts,
      cs ++ ds,
      rw es (rw es' refl),
      rw es (rw es' (ec' ∙ ap (λ x. x ++ ds) ec ∙ append_assoc t.calls cs ds)),
      nodes_of-append ss ts ∙ ap₂ ◌++◌ en en',
      Account-append ss ts cs ds a b,
    )

empty-Account : Account [] []
empty-Account = record { backed = tt; mentioned = tt; limited = tt }

pub collect-IsAccounted :
    (f : String → Exec Trace (List StepResult)) (g : String → List String)
    → ((x : String) → IsAccounted (f x) (g x))
    → (xs : List String) → IsAccounted (collect f xs) (flat g xs)
unfolding collect
collect-IsAccounted f g q [] t = ([], [], refl, sym (append-nil t.calls), refl, empty-Account)
collect-IsAccounted f g q (x ∷ xs) t =
    bind-IsAccounted (f x) (collect f xs) (g x) (flat g xs) (q x) (collect-IsAccounted f g q xs) t

pub one-IsAccounted :
    (m : Exec Trace StepResult) (n : String)
    → IsAccountedStep m n
    → IsAccounted (m >>= λ s. pure (s ∷ [])) (n ∷ [])
unfolding ◌>>=◌
one-IsAccounted m n q t =
    let (s, cs, e, ec, en, a) = q t in (s ∷ [], cs, rw e refl, rw e ec, ap (λ x. x ∷ []) en, a)

pub two-IsAccounted :
    (m k : Exec Trace StepResult) (n : String)
    → IsAccountedStep m n
    → IsAccountedStep k n
    → IsAccounted (m >>= λ s. k >>= λ s'. pure (s ∷ s' ∷ [])) (n ∷ n ∷ [])
unfolding ◌>>=◌
two-IsAccounted m k n q r t =
    let (s, cs, e, ec, en, a) = q t in
    let (s', ds, e', ec', en', b) = r (m t).1 in
    (
      s ∷ s' ∷ [],
      cs ++ ds,
      rw e (rw e' refl),
      rw e (rw e' (ec' ∙ ap (λ x. x ++ ds) ec ∙ append_assoc t.calls cs ds)),
      ap₂ (λ x y. x ∷ y ∷ []) en en',
      Account-append (s ∷ []) (s' ∷ []) cs ds a b,
    )
