-- ===== src/Tests.antt =====
-- The concrete data on which the theorems are run: a host with Slurm, files, and signed records.
mod Chain
mod Log
mod Print
mod Torn
mod Halt
mod Executed
mod Overlap
mod Keys
mod Cli
use halt_proof.Base.{
  String, ◌==◌, Bool, true, false, Option, none, some, List, [], ◌∷◌, if◌then◌else◌,
}
use halt_proof.Base.Int.{pos}
use halt_proof.Base.Results.{Result, ok, err}
use halt_proof.Platform.Sample.{sample, key}
use halt_proof.Host.{Host, Trace, completed}
use halt_proof.World.{World, private_pem}
use halt_proof.Attestation.{AttestationRecord, build_record, sign_record}
use halt_proof.Attestation.Log.Written.{state_after}
use halt_proof.Backend.{StepResult, success}
use halt_proof.Keys.{private_key_mode}
use halt_proof.Core.Halt.{Request, Setup, status}

abbrev pub host : Host
host = record {
  run = λ earlier c. completed (record { returncode = pos 0; stdout = "done"; stderr = "" });
  now = λ n. "2026-01-02T03:04:05+00:00";
  uuid4 = λ n. "id";
  hostname = "login1";
  which = λ tool. tool == "scontrol";
  environ = [];
  getuser = some "ops";
  lower = λ s. s;
  parse_json = λ s. err "no JSON";
}

abbrev pub setup : Setup
setup = record {
  home = "/home/ops";
  default_log = "attestations.jsonl";
  default_key = "signing.pem";
  urlopen = λ url payload. status "200";
}

abbrev pub idle : Trace
idle = record { calls = []; ticks = 0 }

-- No file but the key.
abbrev pub with_key : World sample
with_key = record {
  trace = idle;
  files = λ path. if path == "signing.pem" then some (private_pem key) else none;
  modes = λ path. private_key_mode;
  posts = [];
}

abbrev pub without_key : World sample
without_key = record {
  trace = idle;
  files = λ path. none;
  modes = λ path. private_key_mode;
  posts = [];
}

abbrev pub request : Bool → Request
request confirm = record {
  target_group = "gpu";
  nodes = some ("n1" ∷ []);
  backend_name = some "slurm";
  confirm = confirm;
  reason = "fire";
  operator_id = none;
  config_path = none;
  attestation_log_path = none;
  attestation_key_path = none;
  no_sign = false;
  remote_collector_url = some "https://collector";
}

abbrev pub one_step : StepResult
one_step = record {
  node = "n1";
  operation = "drain";
  command = "scontrol" ∷ [];
  status = success;
  detail = "done";
  timestamp = "t";
}

-- The signed record that follows these.
abbrev pub follow : List AttestationRecord → AttestationRecord
follow rs =
    let state = state_after sample rs in
    sign_record sample
      (build_record (record { id = "id"; timestamp = "t"; hostname = "login1" }) state.0 "ops"
        "halt" "gpu" "slurm" ("n1" ∷ []) false true (one_step ∷ []) state.1)
      key

abbrev pub r₁ : AttestationRecord
r₁ = follow []

abbrev pub r₂ : AttestationRecord
r₂ = follow (r₁ ∷ [])

abbrev pub r₃ : AttestationRecord
r₃ = follow (r₁ ∷ r₂ ∷ [])
