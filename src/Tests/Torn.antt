-- ===== src/Tests/Torn.antt =====
-- A halt whose log ends with a line that was cut short.
use halt_proof.Base.{
  ◌==◌, ◌≡◌, refl, ap, All, false≢true, true, false, none, some, [], ◌∷◌, if◌then◌else◌,
}
use halt_proof.Base.Results.{ok, err}
use halt_proof.Base.{Option, ◌<>◌, ◌++◌, map, inr}
use halt_proof.Base.Text.{strip, lstrip}
use halt_proof.Base.Text.Strip.{braced}
use halt_proof.Base.Lines.{split_lines, is_one_line, is_newline, is_boundary}
use halt_proof.Attestation.Codec.{normalise}
use halt_proof.Attestation.Log.{read_line, read_lines, read_all}
use halt_proof.Attestation.Log.Written.{text_of}
use halt_proof.Attestation.Log.Characters.{Script, line_of, lines_of, append_line}
use halt_proof.Attestation.Log.Characters.Legible.{Legible}
use halt_proof.Attestation.Log.Characters.Torn.{append_line_torn}
use halt_proof.Errors.{Exn, json_decode_error}
use halt_proof.Json.{Json, null, str, end}
use halt_proof.Platform.{Platform}
use halt_proof.Platform.Sample.{sample}
use halt_proof.Exec.{Returns, ◌>>=◌, lift, reads}
use halt_proof.World.{World, on_trace, log_lines}
use halt_proof.Config.{setting, load_config, resolve_group}
use halt_proof.Keys.{private_key_mode}
use halt_proof.Backend.Clusters.{ClusterBackend, slurm}
use halt_proof.Core.{chosen, resolve_backend_name, build_backend}
use halt_proof.Core.Halt.{Request, Plan, plan, all_steps, choose_nodes, run_halt}
use halt_proof.Core.Halt.DryRun.{calls}
use halt_proof.Core.Halt.Unread.{IsTorn, run_halt_torn, Raised, run_halts, run_halts_torn}
use halt_proof.Tests.{host, setup, idle, request, r₁}

-- No line is JSON.
abbrev strict : Platform
strict = record sample { loads = λ t. none }

cut_line : strict.Text
unfolding sample
cut_line = str "{"

abbrev cut_short : World strict
cut_short = record {
  trace = idle;
  files =
      λ path. if path == "attestations.jsonl" then some (log_lines (some cut_line ∷ [])) else none;
  modes = λ path. private_key_mode;
  posts = [];
}

abbrev settled : Plan strict host setup
settled = record { config = end; node_list = "n1" ∷ []; backend_name = "slurm"; backend = slurm }

plan-settled : Returns (plan strict host setup (request true)) cut_short settled cut_short
unfolding plan ◌>>=◌ lift reads load_config choose_nodes resolve_group resolve_backend_name
    build_backend halt_proof.Core.backend_arguments halt_proof.Backend.Clusters.get_backend
    halt_proof.Backend.Clusters.construct halt_proof.Backend.Detect.is_one_of halt_proof.Exec.pure
plan-settled = refl

setting_end : setting "attestation_log_path" end ≡ ok none
unfolding setting
setting_end = refl

cut_short-IsTorn :
    IsTorn strict host setup (cut_short.files (chosen none none "attestations.jsonl"))
unfolding chosen halt_proof.Attestation.Log.last_line
cut_short-IsTorn = record {
  lines = some cut_line ∷ [];
  found = refl;
  torn = cut_line;
  last = refl;
  unreadable = refl;
}

run_halt_torn_example :
    (e : Exn) × ((run_halt strict host setup (request true) cut_short).0 ≡ err e)
    × ((run_halt strict host setup (request true) cut_short).1.files ≡ cut_short.files)
    × (calls (run_halt strict host setup (request true) cut_short).1
        ≡ calls (on_trace strict (all_steps host slurm ("n1" ∷ []) false "fire") cut_short).1)
run_halt_torn_example =
    run_halt_torn strict host setup (request true) settled none cut_short cut_short plan-settled
      setting_end cut_short-IsTorn

abbrev blocked : Request
blocked = record (request true) { attestation_log_path = some "attestations.jsonl" }

direct-IsTorn : IsTorn strict host setup (cut_short.files "attestations.jsonl")
unfolding halt_proof.Attestation.Log.last_line
direct-IsTorn = record {
  lines = some cut_line ∷ [];
  found = refl;
  torn = cut_line;
  last = refl;
  unreadable = refl;
}

run_halts_torn_example :
    All
      (Raised strict host setup)
      (run_halts strict host setup (blocked ∷ blocked ∷ []) cut_short).0
    × ((run_halts strict host setup (blocked ∷ blocked ∷ []) cut_short).1.files ≡ cut_short.files)
run_halts_torn_example =
    run_halts_torn strict host setup (blocked ∷ blocked ∷ []) "attestations.jsonl" cut_short
      (refl, (refl, tt)) (λ e. false≢true (ap (λ s. s == "") e)) direct-IsTorn

unless_null : Json → Option Json
unless_null null = none
unless_null v = some v

-- A text that is no JSON is `null` here.
abbrev picky : Platform
unfolding sample
picky = record sample { loads = unless_null }

-- The text of one record.
abbrev only_first : Script picky
unfolding sample
only_first = record { show = λ t. "{1}"; text = λ s. if s == "{1}" then text_of picky r₁ else null }

abbrev first_text : Legible picky only_first (text_of picky r₁)
unfolding sample is_one_line is_boundary
first_text = record { inner = "1"; braces = refl; one_line = refl; reads_back = refl }

first_line-read :
    read_lines picky (map (line_of picky only_first) (split_lines is_newline false "{1}\n"))
    ≡ ok (normalise r₁ ∷ [])
unfolding sample unless_null read_lines read_line line_of split_lines is_newline strip
    halt_proof.Json.sort_keys halt_proof.Attestation.from_dict halt_proof.Attestation.to_dict
    halt_proof.Attestation.sign_record halt_proof.Attestation.build_record
first_line-read = refl

append_line_torn_example :
    (lines_of picky only_first (append_line picky only_first (some ("{1}\n" <> "{")) r₁)
      ≡ some (
          map (line_of picky only_first) (split_lines is_newline false "{1}\n")
          ++ some (only_first.text (lstrip "{" <> braced "1")) ∷ []))
    × (read_all picky
          (lines_of picky only_first (append_line picky only_first (some ("{1}\n" <> "{")) r₁))
        ≡ err json_decode_error)
unfolding sample lstrip unless_null is_one_line is_newline first_text
append_line_torn_example =
    append_line_torn picky only_first "{1}\n" "{" r₁ first_text (normalise r₁ ∷ [])
      (inr ("{1}", refl)) refl first_line-read refl
