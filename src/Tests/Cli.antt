-- ===== src/Tests/Cli.antt =====
-- The theorems on the commands and the tools.
use halt_proof.Base.{
  String, ◌==◌, ℕ, ◌≡◌, ◌≢◌, ◌↔◌, refl, ap, Bool, true, false, false≢true, none, some, List, [],
  ◌∷◌, ◌++◌, map, if◌then◌else◌, All,
}
use halt_proof.Base.Results.{ok}
use halt_proof.Base.Text.{strip}
use halt_proof.Platform.Sample.{sample, sample-IsLawful}
use halt_proof.Exec.{Returns, ◌>>=◌, pure}
use halt_proof.Host.{Call}
use halt_proof.World.{World, log_lines, log_at}
use halt_proof.Guarded.{guarded, caught}
use halt_proof.Keys.{private_key_mode}
use halt_proof.Attestation.{AttestationRecord, dicts}
use halt_proof.Attestation.Codec.{normalise}
use halt_proof.Attestation.Log.{LogFile, last_line, load_record_from_file}
use halt_proof.Attestation.Log.Written.{text_of}
use halt_proof.Attestation.Chain.{sorted_by_seq}
use halt_proof.Attestation.Chain.Intact.{IsIntact}
use halt_proof.Attestation.Signing.{IsSigned}
use halt_proof.Backend.{StepResult, step_dict}
use halt_proof.Backend.Executed.{Account}
use halt_proof.Core.{ChainReport, Verified, chosen, referenced, trusted_key}
use halt_proof.Core.Halt.Executed.{NoneFailed}
use halt_proof.Cli.{
  FormatOptions, human, json, exits, whole_chain, one_record, resolve_format, exit_code,
  HaltOptions, halt, halt_request, finish, VerifyOptions, verify, status,
}
use halt_proof.Cli.Nodes.{node_list, split_commas}
use halt_proof.Cli.Nodes.Split.{is_comma_free}
use halt_proof.Cli.Nodes.Join.{IsPlain, join_commas}
use halt_proof.Cli.Exit.{halt_exit_code, verify_chain_exit_code}
use halt_proof.Cli.Record.{verify_record_exit_code}
use halt_proof.Cli.Agreement.{as_command, halt_options, status_options, node_tools_agree}
use halt_proof.Mcp
use halt_proof.Tests.{host, setup, idle, with_key, request, r₁}
use halt_proof.Tests.Halt.{ran, returned, run_halt-returned}

abbrev format : FormatOptions
format = record { output_format = human; json_flag = true }

-- The options of the same request.
abbrev pub options : HaltOptions
options = record {
  target_group = "gpu";
  nodes = some "n1";
  backend_name = some "slurm";
  confirm = true;
  reason = "fire";
  operator_id = none;
  config_path = none;
  attestation_log_path = none;
  attestation_key_path = none;
  no_sign = false;
  remote_collector_url = some "https://collector";
  format = format;
}

pub options-request : halt_request options ≡ request true
unfolding halt_request node_list split_commas strip
options-request = refl

halt-returned :
    Returns
      (halt sample host setup options)
      with_key
      (exits (exit_code returned.any_failures) json returned)
      ran.1
unfolding halt guarded caught finish resolve_format ◌>>=◌ pure
halt-returned = rw (options-request) (rw run_halt-returned refl)

halt_exit_code_example :
    (steps : List StepResult) × (started : List Call) × (returned.made.steps
      ≡ dicts (map step_dict steps))
    × (ran.1.trace.calls ≡ [] ++ started)
    × Account steps started
    × ((exit_code returned.any_failures ≡ 0) ↔ NoneFailed steps)
halt_exit_code_example =
    halt_exit_code sample host setup options with_key ran.1 (exit_code returned.any_failures) json
      returned (λ earlier c. tt) refl halt-returned

-- A log of one record, and a file with a blank line.
abbrev with_log : World sample
with_log = record {
  trace = idle;
  files = λ path.
      if path == "attestations.jsonl"
      then some (log_lines (some (text_of sample r₁) ∷ []))
      else if path == "blank.json"
      then some (log_lines (none ∷ []))
      else none;
  modes = λ path. private_key_mode;
  posts = [];
}

abbrev verify_options : Bool → String → VerifyOptions
verify_options chain ref = record {
  attestation_ref = some ref;
  attestation_log_path = none;
  trusted_key_path = none;
  chain_mode = chain;
  format = format;
}

log_at-with_log :
    log_at sample (chosen none none "attestations.jsonl") with_log
    ≡ ok (some (some (text_of sample r₁) ∷ []))
unfolding log_at chosen
log_at-with_log = refl

verify_chain_exit_code_example :
    (code : ℕ) × (report : ChainReport) × Returns
      (verify sample host setup (verify_options true ""))
      with_log
      (exits code (resolve_format format) (whole_chain report))
      with_log
    × (report.record_count ≡ 1)
    × ((code ≡ 0) ↔ IsIntact sample (sorted_by_seq (normalise r₁ ∷ [])))
verify_chain_exit_code_example =
    verify_chain_exit_code sample host setup sample-IsLawful (verify_options true "") with_log
      (some (some (text_of sample r₁) ∷ [])) (r₁ ∷ []) refl log_at-with_log (refl, tt)

-- The log's path as the reference: its last record is read.
referenced-with_log :
    referenced sample "attestations.jsonl" with_log "attestations.jsonl" none ≡ ok (normalise r₁)
unfolding referenced log_at load_record_from_file last_line halt_proof.Attestation.Log.read_line
    sample halt_proof.Json.sort_keys halt_proof.Attestation.from_dict halt_proof.Attestation.to_dict
    halt_proof.Attestation.sign_record halt_proof.Attestation.build_record
referenced-with_log = refl

no_trusted_key : trusted_key sample "attestations.jsonl" with_log none ≡ ok none
unfolding trusted_key
no_trusted_key = refl

verify_record_exit_code_example :
    (code : ℕ) × (v : Verified) × Returns
      (verify sample host setup (verify_options false "attestations.jsonl"))
      with_log
      (exits code (resolve_format format) (one_record v))
      with_log
    × (v.found ≡ normalise r₁)
    × ((code ≡ 0) ↔ IsSigned sample (normalise r₁) none)
verify_record_exit_code_example =
    verify_record_exit_code sample host setup (verify_options false "attestations.jsonl")
      "attestations.jsonl" with_log (normalise r₁) none refl refl referenced-with_log no_trusted_key

last_line-blank : last_line sample none (none ∷ []) ≡ none
unfolding last_line
last_line-blank = refl

two_names-ArePlain : All IsPlain ("n1" ∷ "n2" ∷ [])
unfolding is_comma_free strip
two_names-ArePlain = (
  record { comma_free = refl; stripped = refl },
  (record { comma_free = refl; stripped = refl }, tt),
)

two_names-joined : join_commas ("n1" ∷ "n2" ∷ []) ≢ ""
unfolding join_commas
two_names-joined e = false≢true (ap (λ s. s == "") e)

node_tools_agree_example :
    (halt sample host setup
        (halt_options "gpu" ("n1" ∷ "n2" ∷ []) (some "slurm") false "fire" none format)
        with_key
      ≡ as_command format
          (λ r. r.any_failures)
          (Mcp.halt sample host setup "gpu"
            (some ("n1" ∷ "n2" ∷ []))
            (some "slurm")
            false
            "fire"
            none)
          with_key)
    × (status sample host setup
          (status_options (some "slurm") ("n1" ∷ "n2" ∷ []) none format)
          with_key
        ≡ as_command format
            (λ _. false)
            (Mcp.status sample host setup (some "slurm") (some ("n1" ∷ "n2" ∷ [])) none)
            with_key)
node_tools_agree_example =
    node_tools_agree sample host setup "gpu" "n1" ("n2" ∷ []) (some "slurm") false "fire" none none
      format with_key two_names-ArePlain two_names-joined
