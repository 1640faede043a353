-- ===== src/Tests/Executed.antt =====
-- The theorems on halts that are really run, and on what comes after them.
use halt_proof.Base.{
  ◌≢◌, ◌==◌, ◌+◌, length, false≢true, String, ◌≡◌, ◌↔◌, refl, ap, ℕ, true, false, none, some, List,
  [], ◌∷◌, ◌++◌, map,
}
use halt_proof.Base.Results.{ok}
use halt_proof.Platform.Sample.{sample, sample-IsLawful}
use halt_proof.Host.{Call, completed}
use halt_proof.World.{log_at}
use halt_proof.Attestation.{dicts}
use halt_proof.Attestation.Codec.{normalise}
use halt_proof.Attestation.Log.Refined.{Operation, append_record, check, next_number}
use halt_proof.Backend.{StepResult, success, failure, planned, skipped, step_dict}
use halt_proof.Backend.Clusters.{slurm}
use halt_proof.Backend.DryRun.{nodes_of, flat, once, drained}
use halt_proof.Backend.Executed.{Account}
use halt_proof.Backend.Runner.{run_step}
use halt_proof.Backend.Runner.Reports.{Tells, run_step-Tells}
use halt_proof.Core.{chosen, run_verify, run_verify_chain}
use halt_proof.Core.Lookup.{run_halt_looked_up}
use halt_proof.Core.Halt.{all_steps}
use halt_proof.Core.Halt.Executed.{NoneFailed, all_steps_executed, run_halt_executed}
use halt_proof.Core.Halt.Log.{IsIntactAt, run_halt-IsIntactAt}
use halt_proof.Core.Halt.Asked.{Says, tally, run_halt-Says}
use halt_proof.Operator.{os_user}
use halt_proof.Core.Status.{run_status}
use halt_proof.History.{start, later, halt, status, reached_log_verifies}
use halt_proof.Tests.{host, setup, idle, with_key, request, r₁}
use halt_proof.Tests.Chain.{empty-IsIntact}
use halt_proof.Tests.Halt.{
  ran, returned, run_halt-returned, path-attestations, path-chosen, returned_id-is_no_file,
  status_request,
}

all_steps_executed_example :
    (steps : List StepResult) × (calls : List Call) × ((all_steps host slurm
        ("n1" ∷ [])
        false
        "fire"
        idle).0
      ≡ ok steps)
    × ((all_steps host slurm ("n1" ∷ []) false "fire" idle).1.calls ≡ [] ++ calls)
    × (nodes_of steps
        ≡ flat (drained host slurm) ("n1" ∷ [])
          ++ (flat (once host) ("n1" ∷ []) ++ flat (once host) ("n1" ∷ [])))
    × Account steps calls
all_steps_executed_example = all_steps_executed host slurm "n1" [] "fire" idle λ earlier c. tt

run_halt_executed_example :
    (steps : List StepResult) × (calls : List Call) × (returned.made.steps
      ≡ dicts (map step_dict steps))
    × ((returned.any_failures ≡ false) ↔ NoneFailed steps)
    × (ran.1.trace.calls ≡ [] ++ calls)
    × Account steps calls
run_halt_executed_example =
    run_halt_executed sample host setup (request true) with_key ran.1 returned (λ earlier c. tt)
      refl run_halt-returned

log_at-with_key : log_at sample "attestations.jsonl" with_key ≡ ok none
unfolding log_at
log_at-with_key = refl

run_halt-IsIntactAt_example : IsIntactAt sample "attestations.jsonl" ran.1
run_halt-IsIntactAt_example =
    run_halt-IsIntactAt sample host setup "attestations.jsonl" sample-IsLawful (request true)
      with_key refl
      (record {
        log = none;
        records = [];
        found = log_at-with_key;
        intact = record { holds = refl; intact = empty-IsIntact };
      })

default_path : chosen none none "attestations.jsonl" ≡ "attestations.jsonl"
unfolding chosen
default_path = refl

reached_log_verifies_example :
    (count : ℕ) × (run_verify_chain sample "attestations.jsonl"
        (run_status sample host "/home/ops" status_request ran.1).1
        none
      ≡ ok (record {
        valid = true;
        error = none;
        record_count = count;
        attestation_log_path = chosen none none "attestations.jsonl";
      }))
reached_log_verifies_example =
    reached_log_verifies sample "attestations.jsonl" "attestations.jsonl" none sample-IsLawful
      default_path refl
      (later (later start (halt host setup (request true) with_key ran.1 refl refl)) (
        status host "/home/ops" status_request ran.1
          (run_status sample host "/home/ops" status_request ran.1).1 refl))

run_halt_looked_up_example :
    run_verify sample "attestations.jsonl" ran.1 returned.made.id none none
    ≡ ok (record { valid = true; error = none; found = normalise returned.made })
run_halt_looked_up_example =
    run_halt_looked_up sample sample-IsLawful host setup (request true) with_key ran.1 returned none
      [] none run_halt-returned refl path-attestations
      (record { holds = refl; intact = empty-IsIntact }) path-chosen returned_id-is_no_file tt

run_step-Tells_example :
    (s : StepResult) × ((run_step host "n1" "drain" ("scontrol" ∷ []) false none idle).0 ≡ ok s)
    × Tells "n1" "drain"
        ("scontrol" ∷ [])
        (completed
          (record { returncode = halt_proof.Base.Int.pos 0; stdout = "done"; stderr = "" }))
        s
run_step-Tells_example = run_step-Tells host "n1" "drain" ("scontrol" ∷ []) none idle tt

abbrev operations : List Operation
operations = append_record r₁ ∷ next_number ∷ check ∷ []

os_user-host : os_user host ≢ ""
unfolding os_user
os_user-host e = false≢true (ap (λ s. s == "") e)

run_halt-Says_example :
    (n : String) × (ns : List String) × (says : Says (request true) (n ∷ ns) returned.made) × (tally
          success says.steps
        + tally failure says.steps
        + tally planned says.steps
        + tally skipped says.steps
      ≡ length says.steps)
run_halt-Says_example =
    run_halt-Says sample host setup (request true) with_key ran.1 returned os_user-host
      run_halt-returned
