-- ===== src/Tests/Print.antt =====
-- What the commands print, and the halts whose record is not written.
use halt_proof.Base.{
  String, ◌==◌, ◌<>◌, ◌≡◌, ◌≢◌, refl, sym, ap, true, false, false≢true, none, some, List, [], ◌∷◌,
  map,
}
use halt_proof.Base.Results.{Result, ok, err}
use halt_proof.Errors.{Exn}
use halt_proof.Platform.Sample.{sample, sample-IsLawful, key}
use halt_proof.Exec.{Returns, pure, ◌>>=◌, lift, reads}
use halt_proof.Guarded.{guarded, caught}
use halt_proof.World.{World, on_trace}
use halt_proof.Operator.{os_user}
use halt_proof.Attestation.{dicts}
use halt_proof.Attestation.Codec.{normalise}
use halt_proof.Backend.{StepResult, NodeStatus, step_dict, node_dict}
use halt_proof.Core.{Verified}
use halt_proof.Core.Halt.Reported.{Told, run_halt-Told}
use halt_proof.Cli.{
  FormatOptions, human, exits, one_record, whole_chain, is_refused, resolve_format, exit_code,
  finish, HaltOptions, VerifyOptions, StatusOptions, KeygenOptions, halt, verify, status, keygen,
}
use halt_proof.Cli.Layout.{Words}
use halt_proof.Cli.Dicts.{halt_dict, checked_dict, status_dict}
use halt_proof.Cli.Render.{
  mode_line, render_halt, render_checked, render_status, exited, print_ended,
}
use halt_proof.Cli.Render.Halted.{halt_lines, verified_lines, halt_prints, verify_prints_halted}
use halt_proof.Cli.Render.Health
use halt_proof.Core.Status.Nodes.{AsksFor}
use halt_proof.Config.{HaltProofConfig}
use halt_proof.Backend.Health.{names_of}
use halt_proof.Cli.Render.Health.{all_lines, status_prints}
use halt_proof.Cli.Render.Secret.{printed, keygen_secret}
use halt_proof.Cli.Agreement.Checks.{as_checked, verify_options, check_tools_agree}
use halt_proof.Cli.Agreement.{as_command}
use halt_proof.Cli.Nodes.{node_list, split_commas}
use halt_proof.Mcp
use halt_proof.Base.Text.{strip}
use halt_proof.Keys.{private_key_mode}
use halt_proof.Config.{load_config}
use halt_proof.Core.{resolve_backend_name, build_backend}
use halt_proof.Core.Status.{StatusReport, run_status, health, status_nodes}
use halt_proof.Backend.Detect.{detect_available_backends, detect_backend}
use halt_proof.Tests.{host, setup, with_key, request}
use halt_proof.Tests.Halt.{
  ran, returned, run_halt-returned, path-attestations, path-chosen, returned_id,
  returned_id-is_no_file,
}
use halt_proof.Tests.Chain.{empty-IsIntact}
use halt_proof.Tests.Cli.{options, options-request}

abbrev other_key : sample.PrivateKey
unfolding sample
other_key = "other"

abbrev words : Words
words = record {
  upper = λ s. s;
  repr = λ s. s;
  str_dict = λ m. "{}";
  str_value = λ v. "None";
  quoted = λ f. "padding";
  str_exn = λ e. "error";
  dumps_indented = λ m. "{}";
}

abbrev for_people : FormatOptions
for_people = record { output_format = human; json_flag = false }

abbrev spoken : HaltOptions
spoken = record options { format = for_people }

os_user-host : os_user host ≢ ""
unfolding os_user
os_user-host e = false≢true (ap (λ s. s == "") e)

halt-spoken :
    Returns
      (halt sample host setup spoken)
      with_key
      (exits (exit_code returned.any_failures) human returned)
      ran.1
unfolding halt guarded caught finish resolve_format ◌>>=◌ pure
halt-spoken = rw (options-request) (rw run_halt-returned refl)

halt_prints_example :
    (steps : List StepResult) × (returned.made.steps ≡ dicts (map step_dict steps))
    × (mode_line words returned.made
        ≡ "HaltProof halt ["
          <> ("EXECUTED"
              <> ("] target-group=" <> ("gpu" <> (" backend=" <> returned.made.backend)))))
    × (print_ended words halt_dict
          (render_halt words)
          (exits (exit_code returned.any_failures) human returned)
          []
        ≡ (ok (exited (exit_code returned.any_failures)), halt_lines words returned steps))
halt_prints_example =
    halt_prints sample words host setup spoken with_key ran.1 (exit_code returned.any_failures)
      returned os_user-host halt-spoken

abbrev by_id : String → VerifyOptions
by_id ref = record {
  attestation_ref = some ref;
  attestation_log_path = none;
  trusted_key_path = none;
  chain_mode = false;
  format = for_people;
}

for_people-resolves : resolve_format for_people ≡ human
unfolding resolve_format
for_people-resolves = refl

verify_prints_halted_example :
    (steps : List StepResult) × (checked : Verified) × (print_ended words halt_dict
        (render_halt words)
        (exits (exit_code returned.any_failures) human returned)
        []
      ≡ (ok (exited (exit_code returned.any_failures)), halt_lines words returned steps))
    × Returns
        (verify sample host setup (by_id "id"))
        ran.1
        (exits 0 human (one_record checked))
        ran.1
    × (print_ended words
          (checked_dict words)
          (render_checked words)
          (exits 0 human (one_record checked))
          []
        ≡ (ok (exited 0), verified_lines words checked steps))
    × (checked.valid ≡ true)
    × (checked.found ≡ normalise returned.made)
verify_prints_halted_example =
    verify_prints_halted sample words host setup sample-IsLawful spoken (by_id "id") with_key ran.1
      (exit_code returned.any_failures) returned none [] os_user-host halt-spoken refl
      path-attestations (record { holds = refl; intact = empty-IsIntact }) refl
      (ap some (sym returned_id)) refl for_people-resolves path-chosen returned_id-is_no_file tt

run_halt-Told_example : Told sample host setup with_key ran.1
run_halt-Told_example = run_halt-Told sample host setup (request true) with_key

abbrev asked : StatusOptions
asked = record {
  backend_name = some "slurm";
  nodes = some "n1,n2";
  target_group = none;
  config_path = none;
  format = for_people;
}

-- What `run_status` returns for it.
abbrev status_run : Result Exn StatusReport × World sample
status_run =
    run_status sample host "/home/ops"
      (record {
        backend_name = some "slurm";
        nodes = some ("n1" ∷ "n2" ∷ []);
        target_group = none;
        config_path = none;
      })
      with_key

abbrev report : StatusReport
report = elim status_run.0 [
  | ok found ↦ found
  | err e ↦ record {
    available_backends = [];
    auto_detected_backend = none;
    active_backend = none;
    nodes = [];
  }
]

status-computes :
    Returns (status sample host setup asked) with_key (exits 0 human report) status_run.1
unfolding status run_status ◌>>=◌ guarded caught finish resolve_format exit_code reads lift pure
    node_list split_commas strip health status_nodes load_config resolve_backend_name build_backend
    on_trace halt_proof.Backend.Clusters.status halt_proof.Backend.Slurm.status
    halt_proof.Exec.collect
status-computes = refl

status_prints_example :
    (config : HaltProofConfig) × (nodes : List String) × (found : List NodeStatus) × (load_config
        sample host "/home/ops" none with_key
      ≡ ok config)
    × AsksFor (Health.asked asked) config nodes
    × (names_of found ≡ nodes)
    × (report.nodes ≡ map node_dict found)
    × (print_ended words status_dict render_status (exits 0 human report) [] ≡ (
      ok (exited 0),
      all_lines (detect_available_backends host) (detect_backend host) report.active_backend found,
    ))
status_prints_example =
    status_prints sample host words setup asked with_key status_run.1 0 report status-computes

abbrev key_options : KeygenOptions
key_options = record { output_path = some "k"; force = false; format = for_people }

keygen_secret_example :
    ((Mcp.keygen sample host setup private_key_mode (λ n. key) (some "k") false with_key).0
      ≡ (Mcp.keygen sample host setup private_key_mode
          (λ n. other_key)
          (some "k")
          false
          with_key).0)
    × (printed words (keygen sample host setup private_key_mode (λ n. key) key_options with_key).0
        ≡ printed words
            (keygen sample host setup private_key_mode (λ n. other_key) key_options with_key).0)
keygen_secret_example =
    keygen_secret sample host setup private_key_mode words (λ n. key) (λ n. other_key) key_options
      with_key

check_tools_agree_example :
    (verify sample host setup (verify_options (some "id") none none false for_people) ran.1
      ≡ as_command for_people is_refused
          (as_checked one_record (Mcp.verify sample host setup "id" none none))
          ran.1)
    × (verify sample host setup (verify_options none none none true for_people) ran.1
        ≡ as_command for_people is_refused
            (as_checked whole_chain (Mcp.verify_chain sample host setup none))
            ran.1)
    × (keygen sample host setup private_key_mode (λ n. key) key_options ran.1
        ≡ as_command for_people
            (λ _. false)
            (Mcp.keygen sample host setup private_key_mode (λ n. key) (some "k") false)
            ran.1)
check_tools_agree_example =
    check_tools_agree sample host setup "id" none none none (some "k") false private_key_mode
      (λ n. key) for_people ran.1 λ e. false≢true (ap (λ s. s == "") e)
