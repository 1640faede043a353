-- ===== src/Cli/Render.antt =====
-- What the commands of cli.py print: `_emit` and the functions `render`. Lines that were printed
-- before an exception stay printed.
pub mod Timeline
pub mod Halted
pub mod Health
pub mod Secret
use mathlib.Core.Option
use halt_proof.Base.{ℕ, String, ◌<>◌, Bool, Option, none, some, List, [], ◌∷◌, ◌++◌, if◌then◌else◌}
use halt_proof.Base.Int.{pos}
use halt_proof.Base.Decimal.{str_ℤ}
use halt_proof.Base.Results.{Result}
use halt_proof.Base.Text.{or_text}
use halt_proof.Errors.{Exn}
use halt_proof.Json.{Json, Items, nil, cons, Fields}
use halt_proof.Exec.{Exec, pure, lift, modify, ◌>>=◌, ◌>>◌}
use halt_proof.Attestation.{AttestationRecord, dicts}
use halt_proof.Core.{ChainReport, Verified}
use halt_proof.Core.Halt.{HaltResult}
use halt_proof.Core.Status.{StatusReport}
use halt_proof.Core.Keygen.{KeygenResult}
use halt_proof.Cli.{
  Format, human, json, Ended, exits, click_exception, ClickFault, Checked, whole_chain, one_record,
}
use halt_proof.Cli.Layout.{Words, str_bool, padded, join, halt_line, timeline_line, node_line}
use halt_proof.Cli.Dicts.{message, reason, str_option}

abbrev pub Echo : Type 0 → Type 0
Echo A = Exec (List String) A

-- `click.echo`
unfoldable pub echo : String → Echo (Unit {0})
echo line = modify (λ lines. lines ++ line ∷ [])

-- One line for each item, up to one that raises.
unfoldable pub echo_items : (Json → Result Exn String) → Items → Echo (Unit {0})
unfolding echo
echo_items line nil = pure tt
echo_items line (cons v vs) =
    let rest = echo_items line vs in do text ← lift (line v); echo text; rest

module _ (ws : Words) where
  -- The function `render` of `halt`.
  unfoldable pub mode_line : AttestationRecord → String
  mode_line r =
      "HaltProof halt ["
      <> ((if r.dry_run then "DRY-RUN" else "EXECUTED")
          <> ("] target-group=" <> (r.target_group <> (" backend=" <> r.backend))))

  unfoldable pub id_line : HaltResult → String
  unfolding str_ℤ str_bool
  id_line res =
      "  attestation id="
      <> (res.made.id <> (" seq=" <> (str_ℤ res.made.seq <> (" signed=" <> str_bool res.signed))))

  unfoldable pub operator_line : AttestationRecord → String
  unfolding join
  operator_line r = "  operator=" <> (r.operator <> (" nodes=" <> join ", " r.nodes))

  unfoldable pub summary_line : AttestationRecord → String
  summary_line r = "  summary: " <> ws.str_dict r.summary

  unfoldable pub log_line : HaltResult → String
  log_line res = "  attestation log: " <> res.attestation_log_path

  unfoldable pub render_halt : HaltResult → Echo (Unit {0})
  unfolding mode_line id_line operator_line summary_line log_line echo_items halt_line
  render_halt res = do
    echo (mode_line res.made)
    echo (id_line res)
    echo (operator_line res.made)
    echo_items (halt_line ws) res.made.steps
    echo (summary_line res.made)
    echo (log_line res)

  -- `render_chain` of `verify`.
  unfoldable pub render_chain : ChainReport → Echo (Unit {0})
  unfolding reason str_option echo
  render_chain report =
      let status =
        if report.valid
        then "CHAIN INTACT"
        else "CHAIN BROKEN (" <> (str_option (Option.map (reason ws) report.error) <> ")") in
      echo (
        "Attestation log "
        <> (report.attestation_log_path
            <> (" (" <> (str_ℤ (pos report.record_count) <> (" records): " <> status)))))

  unfoldable pub verdict_line : Verified → String
  unfolding message str_option str_ℤ
  verdict_line v =
      let status =
        if v.valid
        then "VALID SIGNATURE"
        else "INVALID SIGNATURE (" <> (str_option (Option.map (message ws) v.error) <> ")") in
      "Attestation " <> (v.found.id <> (" (seq " <> (str_ℤ v.found.seq <> ("): " <> status))))

  unfoldable pub action_line : AttestationRecord → String
  action_line r =
      "  action="
      <> (r.action <> (" target_group=" <> (r.target_group <> (" backend=" <> r.backend))))

  unfoldable pub origin_line : AttestationRecord → String
  origin_line r =
      "  operator="
      <> (r.operator <> (" hostname=" <> (r.hostname <> (" timestamp=" <> r.timestamp))))

  unfoldable pub flags_line : AttestationRecord → String
  unfolding str_bool
  flags_line r = "  dry_run=" <> (str_bool r.dry_run <> (" confirmed=" <> str_bool r.confirmed))

  -- The function `render` of `verify`.
  unfoldable pub render_verified : Verified → Echo (Unit {0})
  unfolding verdict_line action_line origin_line flags_line summary_line echo_items timeline_line
  render_verified v = do
    echo (verdict_line v)
    echo (action_line v.found)
    echo (origin_line v.found)
    echo (flags_line v.found)
    echo "  timeline:"
    echo_items (timeline_line ws) v.found.steps
    echo (summary_line v.found)

  unfoldable pub render_checked : Checked → Echo (Unit {0})
  unfolding render_chain render_verified
  render_checked (whole_chain report) = render_chain report
  render_checked (one_record v) = render_verified v

-- The line of a backend.
unfoldable pub presence_lines : List (String × Bool) → Echo (Unit {0})
unfolding echo padded
presence_lines [] = pure tt
presence_lines ((name, b) ∷ rest) =
    let others = presence_lines rest in
    do echo ("  " <> (padded 12 name <> (" " <> (if b then "available" else "not found")))); others

-- The block under `if data["nodes"]`.
unfoldable pub node_lines : StatusReport → List Fields → Echo (Unit {0})
unfolding echo echo_items node_line str_option
node_lines report [] = pure tt
node_lines report (m ∷ ms) = do
  echo ("Node status (" <> (str_option report.active_backend <> "):"))
  echo_items node_line (dicts (m ∷ ms))

-- The function `render` of `status`.
unfoldable pub render_status : StatusReport → Echo (Unit {0})
unfolding presence_lines node_lines
render_status report = do
  echo "Backend availability:"
  presence_lines report.available_backends
  echo (
      "Auto-detected backend: "
      <> elim report.auto_detected_backend [ none ↦ "none" | some b ↦ or_text b "none" ])
  node_lines report report.nodes

-- The function `render` of `keygen`.
unfoldable pub render_keygen : KeygenResult → Echo (Unit {0})
unfolding echo
render_keygen k = do
  echo "Ed25519 keypair generated."
  echo (
      "  private key: "
      <> (k.private_key_path <> (" (permissions " <> (k.private_key_permissions <> ")"))))
  echo ("  public key:  " <> k.public_key_path)
  echo
      "  keep the private key secret and back it up securely; anyone holding it can forge attestation records signed as you."

-- `_emit`
unfoldable pub emit :
    {A : Type 0} → Words → (A → Fields) → (A → Echo (Unit {0})) → Format → A → Echo (Unit {0})
unfolding echo
emit ws dict render json value = echo (ws.dumps_indented (dict value))
emit ws dict render human value = render value

-- What the process ends with.
pub data Outcome : Type 0 where
  exited : ℕ → Outcome
  raised_click : ClickFault → Outcome

-- The end of a command: `_emit`, and then the exit.
unfoldable pub print_ended :
    {A : Type 0} → Words → (A → Fields) → (A → Echo (Unit {0})) → Ended A → Echo Outcome
unfolding emit
print_ended ws dict render (exits code format value) = do
  emit ws dict render format value
  pure (exited code)
print_ended ws dict render (click_exception f) = pure (raised_click f)
