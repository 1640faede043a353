-- ===== src/Cli/Render/Halted.antt =====
-- What `haltproof halt` prints for people, and what `haltproof verify` prints of its record
-- afterwards.
use halt_proof.Base.{
  ℕ, String, ◌<>◌, ◌≡◌, ◌≢◌, refl, ap, ◌∙◌, Bool, true, false, not, none, some, List, [], ◌∷◌, ◌++◌,
  map, append_assoc, if◌then◌else◌,
}
use halt_proof.Base.Results.{ok}
use halt_proof.Json.{sort_items}
use halt_proof.Platform.{Platform, IsLawful}
use halt_proof.Exec.{pure, ◌>>=◌, Returns}
use halt_proof.Host.{Host}
use halt_proof.World.{World, log_at}
use halt_proof.Operator.{os_user}
use halt_proof.Attestation.{AttestationRecord, dicts}
use halt_proof.Attestation.Codec.{normalise}
use halt_proof.Attestation.Log.{LogFile}
use halt_proof.Attestation.Chain.Extended.{IsIntactLog}
use halt_proof.Backend.{StepResult, step_dict}
use halt_proof.Core.{Verified, chosen, non_empty, run_verify}
use halt_proof.Core.Lookup.{Unmatched, run_halt_looked_up}
use halt_proof.Core.Halt.{Setup, HaltResult, run_halt}
use halt_proof.Core.Halt.Asked.{run_halt-Says}
use halt_proof.Cli.{
  human, exits, one_record, resolve_format, exit_code, is_refused, HaltOptions, VerifyOptions,
  halt_request, halt, verify,
}
use halt_proof.Cli.Exit.{finish-Returns, verify_single}
use halt_proof.Cli.Record.{check_record-Returns}
use halt_proof.Cli.Layout.{Words, halt_line, timeline_line}
use halt_proof.Cli.Dicts.{halt_dict, checked_dict}
use halt_proof.Cli.Render.{
  echo, mode_line, id_line, operator_line, summary_line, log_line, render_halt, verdict_line,
  action_line, origin_line, flags_line, render_checked, render_verified, exited, emit, print_ended,
}
use halt_proof.Cli.Render.Timeline.{
  echo_items-Lines, step_line, timed_line, halt_line-Lines, timeline_line-Lines,
}

module _ (ws : Words) where
  -- Three lines, one for each step, and two.
  abbrev pub halt_lines : HaltResult → List StepResult → List String
  halt_lines res steps =
      mode_line ws res.made
      ∷ (id_line ws res
          ∷ (operator_line ws res.made
              ∷ (map (step_line ws) steps ++ (summary_line ws res.made ∷ log_line ws res ∷ []))))

  -- Five lines, one for each step, and one.
  abbrev pub verified_lines : Verified → List StepResult → List String
  verified_lines v steps =
      verdict_line ws v
      ∷ (action_line ws v.found
          ∷ (origin_line ws v.found
              ∷ (flags_line ws v.found
                  ∷ ("  timeline:" ∷ (map (timed_line ws) steps ++ summary_line ws v.found ∷ [])))))

  render_halt_lines :
      (res : HaltResult) (steps : List StepResult)
      → res.made.steps ≡ dicts (map step_dict steps)
      → (code : ℕ)
      → print_ended ws halt_dict (render_halt ws) (exits code human res) []
        ≡ (ok (exited code), halt_lines res steps)
  unfolding print_ended emit render_halt echo ◌>>=◌ pure
  render_halt_lines res steps listed code =
      rw
        (
          listed,
          echo_items-Lines (halt_line ws) (dicts (map step_dict steps)) (map (step_line ws) steps)
              (mode_line ws res.made ∷ id_line ws res ∷ operator_line ws res.made ∷ [])
              (halt_line-Lines ws steps),
        )
        (ap
          (λ ls. (
            ok (exited code),
            mode_line ws res.made ∷ (id_line ws res ∷ (operator_line ws res.made ∷ ls)),
          ))
          (append_assoc (map (step_line ws) steps) (summary_line ws res.made ∷ [])
            (log_line ws res ∷ [])))

  render_verified_lines :
      (v : Verified) (steps : List StepResult)
      → v.found.steps ≡ sort_items (dicts (map step_dict steps))
      → (code : ℕ)
      → print_ended ws (checked_dict ws) (render_checked ws) (exits code human (one_record v)) []
        ≡ (ok (exited code), verified_lines v steps)
  unfolding print_ended emit render_checked render_verified echo ◌>>=◌ pure
  render_verified_lines v steps listed code =
      rw
        (
          listed,
          echo_items-Lines (timeline_line ws) (sort_items (dicts (map step_dict steps)))
              (map (timed_line ws) steps)
              (verdict_line ws v
                ∷ action_line ws v.found
                ∷ origin_line ws v.found
                ∷ flags_line ws v.found
                ∷ "  timeline:"
                ∷ [])
              (timeline_line-Lines ws steps),
        )
        refl

-- `"DRY-RUN" if dry_run else "EXECUTED"`
mode_word :
    (confirm : Bool) (rest : String)
    → "HaltProof halt [" <> ((if not confirm then "DRY-RUN" else "EXECUTED") <> rest)
      ≡ "HaltProof halt [" <> ((if confirm then "EXECUTED" else "DRY-RUN") <> rest)
mode_word true rest = refl
mode_word false rest = refl

module _ (p : Platform) (ws : Words) (h : Host) (u : Setup) where
  halted :
      (o : HaltOptions) (w v : World p) (code : ℕ) (res : HaltResult)
      → Returns (halt p h u o) w (exits code human res) v
      → Returns (run_halt p h u (halt_request o)) w res v
  unfolding halt
  halted o w v code res e =
      (finish-Returns o.format (λ r. r.any_failures) (run_halt p h u (halt_request o)) w e).0

  -- If `haltproof halt` ends with an exit code and its format is the one for people, and the system
  -- has a name for its user, then printing raises nothing and the exit code stays. The first line
  -- says EXECUTED if `--confirm` was given and DRY-RUN if not, and behind the third line there is
  -- one line for each step of the record, in their order, with its status, its node, its operation
  -- and its command.
  pub halt_prints :
      (o : HaltOptions) (w v : World p) (code : ℕ) (res : HaltResult)
      → os_user h ≢ ""
      → Returns (halt p h u o) w (exits code human res) v
      → (steps : List StepResult) × (res.made.steps ≡ dicts (map step_dict steps))
        × (mode_line ws res.made
            ≡ "HaltProof halt ["
              <> ((if o.confirm then "EXECUTED" else "DRY-RUN")
                  <> ("] target-group=" <> (o.target_group <> (" backend=" <> res.made.backend)))))
        × (print_ended ws halt_dict (render_halt ws) (exits code human res) []
            ≡ (ok (exited code), halt_lines ws res steps))
  unfolding halt_request mode_line
  halt_prints o w v code res named e =
      let (n, ns, says, _) =
        run_halt-Says p h u (halt_request o) w v res named (halted o w v code res e) in
      (
        says.steps,
        says.listed,
        rw (says.dry_run, says.target_group) (mode_word o.confirm _),
        render_halt_lines ws res says.steps says.listed code,
      )

  abbrev valid_record : HaltResult → Verified
  valid_record res = record { valid = true; error = none; found = normalise res.made }

  check_valid :
      (c : VerifyOptions) (ref : String) (v : World p) (res : HaltResult)
      → c.chain_mode ≡ false
      → non_empty c.attestation_ref ≡ some ref
      → c.trusted_key_path ≡ none
      → resolve_format c.format ≡ human
      → run_verify p u.default_log v ref c.attestation_log_path none ≡ ok (valid_record res)
      → Returns (verify p h u c) v (exits 0 human (one_record (valid_record res))) v
  unfolding exit_code is_refused
  check_valid c ref v res single named no_key format e =
      ap (λ m. m v) (verify_single p h u c ref single named)
      ∙ check_record-Returns p h u c ref v (valid_record res)
          (ap (run_verify p u.default_log v ref c.attestation_log_path) no_key ∙ e)
      ∙ ap (λ x. (ok (exits 0 x (one_record (valid_record res))), v)) format

  -- Let `haltproof halt`, asked to sign, end with an exit code, its format being the one for
  -- people, and let the log that it names have held an intact chain before, or not have existed;
  -- the system has a name for its user. If no earlier record has the id of the new one, and no file
  -- has it for its path, then `haltproof verify` of the id in the same log, with no trusted key and
  -- in the same format, ends with the exit code 0. Printing raises nothing: there are five lines,
  -- then one for each step that `halt` printed, in the same order, which shows the same columns
  -- after the time of the step, and the summary.
  pub verify_prints_halted :
      IsLawful p
      → (o : HaltOptions) (c : VerifyOptions) (w v : World p) (code : ℕ) (res : HaltResult)
        (f : LogFile p) (rs : List AttestationRecord)
      → os_user h ≢ ""
      → Returns (halt p h u o) w (exits code human res) v
      → o.no_sign ≡ false
      → log_at p res.attestation_log_path w ≡ ok f
      → IsIntactLog p f rs
      → c.chain_mode ≡ false
      → non_empty c.attestation_ref ≡ some res.made.id
      → c.trusted_key_path ≡ none
      → resolve_format c.format ≡ human
      → chosen c.attestation_log_path none u.default_log ≡ res.attestation_log_path
      → v.files res.made.id ≡ none
      → Unmatched res.made.id rs
      → (steps : List StepResult) × (checked : Verified) × (print_ended ws halt_dict
            (render_halt ws)
            (exits code human res)
            []
          ≡ (ok (exited code), halt_lines ws res steps))
        × Returns (verify p h u c) v (exits 0 human (one_record checked)) v
        × (print_ended ws
              (checked_dict ws)
              (render_checked ws)
              (exits 0 human (one_record checked))
              []
            ≡ (ok (exited 0), verified_lines ws checked steps))
        × (checked.valid ≡ true)
        × (checked.found ≡ normalise res.made)
  unfolding halt_request
  verify_prints_halted L o c w v code res f rs named e signing ef intact single asked no_key format
        same absent fresh =
      let (steps, listed, _, printed) = halt_prints o w v code res named e in
      let found =
        run_halt_looked_up p L h u (halt_request o) w v res f rs c.attestation_log_path
          (halted o w v code res e) signing ef intact same absent fresh in
      (
        steps,
        valid_record res,
        printed,
        check_valid c res.made.id v res single asked no_key format found,
        render_verified_lines ws (valid_record res) steps (ap sort_items listed) 0,
        refl,
        refl,
      )
