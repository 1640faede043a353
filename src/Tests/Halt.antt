-- ===== src/Tests/Halt.antt =====
-- The theorems on `run_halt`, on one node under Slurm.
use halt_proof.Base.{◌≡◌, refl, true, false, none, List, [], ◌∷◌, ◌++◌, All}
use halt_proof.Platform.Sample.{sample, sample-IsLawful}
use halt_proof.Exec.{Exec, Returns, ◌>>=◌, lift, reads}
use halt_proof.Base.Results.{Result, ok, err}
use halt_proof.World.{World}
use halt_proof.Errors.{Exn}
use halt_proof.World.{log_at}
use halt_proof.Config.{load_config, resolve_group}
use halt_proof.Core.{build_backend, resolve_backend_name}
use halt_proof.Attestation.Log.{LogFile}
use halt_proof.Attestation.Chain.{verify_log}
use halt_proof.Attestation.Chain.Extended.{IsIntactLog}
use halt_proof.Core.{chosen, run_verify_chain}
use halt_proof.Base.{some}
use halt_proof.Errors.{attribute_error}
use halt_proof.Json.{field, str}
use halt_proof.Config.{HaltProofConfig, namespace, ipmi_user}
use halt_proof.Core.Status.{StatusRequest}
use halt_proof.Core.Halt.Verified.{run_halt_verified}
use halt_proof.Core.Halt.Chained.{run_halt_chained}
use halt_proof.Tests.Chain.{empty-IsIntact}
use halt_proof.Core.Halt.{run_halt, HaltResult, plan, execute, choose_nodes, all_steps}
use halt_proof.Core.Halt.DryRun.{run_halt_dry, calls}
use halt_proof.Json.{end}
use halt_proof.Config.{setting}
use halt_proof.World.{on_trace}
use halt_proof.Backend.{StepResult}
use halt_proof.Backend.Clusters.{slurm}
use halt_proof.Backend.DryRun.{WasNotRun, nodes_of, flat, once, drained}
use halt_proof.Core.Halt.{Plan}
use halt_proof.Core.Halt.DryRun.{all_steps_dry}
use halt_proof.Core.Halt.Unrecorded.{run_halt_unrecorded}
use halt_proof.Tests.{idle, host, setup, with_key, without_key, request, r₁}

run_halt_dry_example : (run_halt sample host setup (request false) with_key).1.trace.calls ≡ []
run_halt_dry_example = run_halt_dry sample host setup (request false) with_key refl

-- What a halt with `confirm` returns, and what it leaves.
abbrev pub ran : Result Exn HaltResult × World sample
ran = run_halt sample host setup (request true) with_key

abbrev pub returned : HaltResult
returned = elim ran.0 [
  | ok res ↦ res
  | err e ↦ record {
    made = r₁;
    signed = false;
    attestation_log_path = "";
    remote_collector_status = none;
    any_failures = true;
  }
]

-- What the two are, computed once.
run_halt-computes :
    Returns (run_halt sample host setup (request true)) with_key returned ran.1
    × (log_at sample returned.attestation_log_path with_key ≡ ok none)
    × (chosen none none setup.default_log ≡ returned.attestation_log_path)
    × (ran.1.files returned.made.id ≡ none)
    × (returned.any_failures ≡ false)
    × (returned.made.id ≡ "id")
unfolding run_halt plan execute ◌>>=◌ lift reads load_config choose_nodes resolve_group
    resolve_backend_name build_backend halt_proof.Core.backend_arguments
    halt_proof.Backend.Clusters.get_backend halt_proof.Backend.Clusters.construct
    halt_proof.Backend.Detect.is_one_of all_steps halt_proof.World.on_trace
    halt_proof.Backend.Clusters.drain halt_proof.Backend.Slurm.drain
    halt_proof.Backend.Slurm.drain_node halt_proof.Exec.collect halt_proof.Exec.pure
    halt_proof.Exec.modify halt_proof.Backend.Runner.run_step halt_proof.Backend.Runner.report
    halt_proof.Backend.Runner.step_result halt_proof.Host.run_process halt_proof.Host.timestamp
    halt_proof.Host.fresh_id halt_proof.Backend.Clusters.isolate_network
    halt_proof.Backend.Slurm.isolate_network halt_proof.Backend.Clusters.power_fence
    halt_proof.Backend.Slurm.power_fence halt_proof.Backend.Runner.skipped_step
    halt_proof.Config.setting halt_proof.Core.Halt.make_record halt_proof.Core.Halt.read_state
    log_at halt_proof.Core.chosen halt_proof.Attestation.Log.chain_state
    halt_proof.Attestation.Log.last_record halt_proof.Core.Halt.sign_step
    halt_proof.Core.Halt.signing_key halt_proof.Core.Halt.append_step halt_proof.Core.Halt.post_step
    halt_proof.Core.Halt.send halt_proof.Core.Halt.post halt_proof.Core.Halt.request_sent
    halt_proof.Core.Halt.posted halt_proof.World.load_private_key halt_proof.World.write_file
    halt_proof.Attestation.sign_record halt_proof.Attestation.build_record
    halt_proof.Core.Halt.any_failed
run_halt-computes = (refl, refl, refl, refl, refl, refl)

pub run_halt-returned : Returns (run_halt sample host setup (request true)) with_key returned ran.1
run_halt-returned = run_halt-computes.0

pub path-attestations : log_at sample returned.attestation_log_path with_key ≡ ok none
path-attestations = run_halt-computes.1

pub path-chosen : chosen none none setup.default_log ≡ returned.attestation_log_path
path-chosen = run_halt-computes.2

pub returned_id-is_no_file : ran.1.files returned.made.id ≡ none
returned_id-is_no_file = run_halt-computes.3

pub returned_id : returned.made.id ≡ "id"
returned_id = run_halt-computes.5

pub returned-any_failures : returned.any_failures ≡ false
returned-any_failures = run_halt-computes.4

run_halt_chained_example :
    (g : LogFile sample) × (log_at sample returned.attestation_log_path ran.1 ≡ ok g)
    × IsIntactLog sample g (returned.made ∷ [])
    × (verify_log sample g ≡ ok (true, none))
run_halt_chained_example =
    run_halt_chained sample sample-IsLawful host setup (request true) with_key ran.1 returned none
      [] run_halt-returned refl path-attestations (record { holds = refl; intact = empty-IsIntact })

abbrev pub settled : Plan sample host setup
settled = record { config = end; node_list = "n1" ∷ []; backend_name = "slurm"; backend = slurm }

pub plan-settled : Returns (plan sample host setup (request true)) without_key settled without_key
unfolding plan ◌>>=◌ lift reads load_config choose_nodes resolve_group resolve_backend_name
    build_backend halt_proof.Core.backend_arguments halt_proof.Backend.Clusters.get_backend
    halt_proof.Backend.Clusters.construct halt_proof.Backend.Detect.is_one_of halt_proof.Exec.pure
plan-settled = refl

setting-end : setting "attestation_key_path" end ≡ ok none
unfolding setting
setting-end = refl

run_halt_unrecorded_example :
    (e : Exn) × ((run_halt sample host setup (request true) without_key).0 ≡ err e)
    × ((run_halt sample host setup (request true) without_key).1.files ≡ without_key.files)
    × (calls (run_halt sample host setup (request true) without_key).1
        ≡ calls (on_trace sample (all_steps host slurm ("n1" ∷ []) false "fire") without_key).1)
run_halt_unrecorded_example =
    run_halt_unrecorded sample host setup (request true) settled none without_key without_key
      plan-settled refl setting-end refl

all_steps_dry_example :
    (steps : List StepResult) × ((all_steps host slurm ("n1" ∷ []) true "fire" idle).0 ≡ ok steps)
    × All WasNotRun steps
    × (nodes_of steps
        ≡ flat (drained host slurm) ("n1" ∷ [])
          ++ (flat (once host) ("n1" ∷ []) ++ flat (once host) ("n1" ∷ [])))
    × ((all_steps host slurm ("n1" ∷ []) true "fire" idle).1.calls ≡ [])
all_steps_dry_example = all_steps_dry host slurm ("n1" ∷ []) "fire" idle

run_halt_verified_example :
    run_verify_chain sample "attestations.jsonl" ran.1 none
    ≡ ok (record {
      valid = true;
      error = none;
      record_count = 1;
      attestation_log_path = returned.attestation_log_path;
    })
run_halt_verified_example =
    run_halt_verified sample sample-IsLawful host setup (request true) with_key ran.1 returned none
      [] none run_halt-returned refl path-attestations
      (record { holds = refl; intact = empty-IsIntact }) path-chosen

-- A file of settings in which a table is a text.
abbrev wrong_table : HaltProofConfig
wrong_table = field "kubernetes" (str "prod") end

name-kubernetes : resolve_backend_name host (some "kubernetes") wrong_table ≡ ok "kubernetes"
unfolding resolve_backend_name halt_proof.Core.check_name halt_proof.Backend.Detect.is_one_of
name-kubernetes = refl

build_backend-wrong_table : build_backend "kubernetes" wrong_table ≡ err attribute_error
unfolding build_backend halt_proof.Core.backend_arguments halt_proof.Backend.Clusters.get_backend
    halt_proof.Backend.Clusters.construct halt_proof.Backend.Detect.is_one_of
    halt_proof.Config.namespace
build_backend-wrong_table = refl

abbrev pub status_request : StatusRequest
status_request = record {
  backend_name = none;
  nodes = some ("n1" ∷ []);
  target_group = none;
  config_path = none;
}
