-- ===== src/Cli/Exit.antt =====
-- The exit codes of cli.py, and what they say of the operation that ran.
use halt_proof.Base.{
  ℕ, String, ◌≡◌, ◌≢◌, ◌↔◌, refl, sym, ap, ap₂, ◌∙◌, Bool, true, false, not, Option, none, some,
  List, ◌++◌, length, map, arith,
}
use halt_proof.Base.Results.{Result, ok, err}
use halt_proof.Errors.{HaltFault, attestation_error, empty_file}
use halt_proof.Platform.{Platform, IsLawful}
use halt_proof.Exec.{Exec, pure, reads, ◌>>=◌, Returns, >>=-Returns, pure-Returns}
use halt_proof.Host.{Host, Call}
use halt_proof.World.{World, log_lines, log_at}
use halt_proof.Guarded.{guarded, guarded-Returns, caught}
use halt_proof.Attestation.{AttestationRecord, dicts}
use halt_proof.Attestation.Codec.{normalise}
use halt_proof.Attestation.Log.{LogFile, load_record_from_file, last_line}
use halt_proof.Attestation.Log.Written.{FileHolds, read_all-FileHolds}
use halt_proof.Attestation.Chain.{Break, verify_chain, verify_log, sorted_by_seq}
use halt_proof.Attestation.Chain.Intact.{IsIntact, verify_chain-iff-IsIntact}
use halt_proof.Backend.{StepResult, step_dict}
use halt_proof.Backend.Executed.{IsAnswering, Account}
use halt_proof.Core.{ChainReport, chosen, run_verify, run_verify_chain, referenced, non_empty}
use halt_proof.Core.Halt.{HaltResult, Setup, run_halt}
use halt_proof.Core.Halt.Executed.{NoneFailed, run_halt_executed}
use halt_proof.Core.Halt.Verified.{length-map}
use halt_proof.Cli.{
  FormatOptions, Format, exits, whole_chain, resolve_format, exit_code, finish, is_refused,
  HaltOptions, VerifyOptions, halt_request, halt, verify, check_chain, check_record,
}

finish-exits :
    {A : Type 0} (o : FormatOptions) (failed : A → Bool) (r : Result HaltFault A) (code : ℕ)
    (shown : Format) (a : A)
    → finish o failed r ≡ exits code shown a
    → (r ≡ ok a) × (exit_code (failed a) ≡ code)
unfolding finish
finish-exits o failed (ok b) code shown a e =
    let same : b ≡ a = cc in (ap ok same, ap (λ x. exit_code (failed x)) (sym same) ∙ cc)
finish-exits o failed (err f) code shown a e = cc

-- What a guarded operation returned, where its command ends with an exit code.
pub finish-Returns :
    {S A : Type 0} (o : FormatOptions) (failed : A → Bool) (m : Exec S A) (s : S) {code : ℕ}
    {shown : Format} {a : A} {t : S}
    → Returns (guarded m >>= λ r. pure (finish o failed r)) s (exits code shown a) t
    → Returns m s a t × (exit_code (failed a) ≡ code)
finish-Returns o failed m s {code} {shown} {a} {t} e =
    let (r, s₁, e₁, k₁) = >>=-Returns _ _ s e in
    let (ended, same) = pure-Returns _ s₁ k₁ in
    let (found, coded) = finish-exits o failed r code shown a ended in
    (guarded-Returns m s a t (e₁ ∙ ap₂ (λ x y. (ok x, y)) found same), coded)

exit_code_iff :
    (b : Bool) (code : ℕ) (steps : List StepResult)
    → exit_code b ≡ code
    → ((b ≡ false) ↔ NoneFailed steps)
    → (code ≡ 0) ↔ NoneFailed steps
unfolding exit_code
exit_code_iff true code steps coded iff = ground (arith, iff)
exit_code_iff false code steps coded iff = ground (arith, iff)

exit_code-valid :
    (v : Bool × Option Break)
    → ((v.0 ≡ false) ↔ (v.1 ≢ none))
    → (exit_code (not v.0) ≡ 0) ↔ (v ≡ (true, none))
unfolding exit_code
exit_code-valid v h = ground arith

module _ (p : Platform) (h : Host) (u : Setup) where
  -- If no call ends in an exception that the runner does not catch, and `haltproof halt --confirm`
  -- ends with an exit code, then this is 0 exactly if none of the steps failed that account for the
  -- commands that it started and that the printed record holds.
  pub halt_exit_code :
      (o : HaltOptions) (w v : World p) (code : ℕ) (shown : Format) (res : HaltResult)
      → IsAnswering h
      → o.confirm ≡ true
      → Returns (halt p h u o) w (exits code shown res) v
      → (steps : List StepResult) × (started : List Call) × (res.made.steps
          ≡ dicts (map step_dict steps))
        × (v.trace.calls ≡ w.trace.calls ++ started)
        × Account steps started
        × ((code ≡ 0) ↔ NoneFailed steps)
  unfolding halt halt_request
  halt_exit_code o w v code shown res answers confirmed e =
      let (ran, coded) = finish-Returns o.format _ (run_halt p h u (halt_request o)) w e in
      let (steps, started, listed, failures, called, account) =
        run_halt_executed p h u (halt_request o) w v res answers confirmed ran in
      (
        steps,
        started,
        listed,
        called,
        account,
        exit_code_iff res.any_failures code steps coded failures,
      )

  chain_report :
      IsLawful p
      → (path : Option String) (w : World p) (f : LogFile p) (rs : List AttestationRecord)
      → log_at p (chosen path none u.default_log) w ≡ ok f
      → FileHolds p f rs
      → let verdict = verify_chain p (map normalise rs) in
        run_verify_chain p u.default_log w path
        ≡ ok (record {
          valid = verdict.0;
          error = verdict.1;
          record_count = length (map normalise rs);
          attestation_log_path = chosen path none u.default_log;
        })
  unfolding run_verify_chain verify_log
  chain_report L path w f rs found holds = rw (found, read_all-FileHolds p L f rs holds) refl

  -- Let a log hold records. `haltproof verify --chain` ends with an exit code and prints the number
  -- of the records. The code is 0 exactly if the records, as they are read back and in the order of
  -- their numbers, form an intact chain.
  pub verify_chain_exit_code :
      IsLawful p
      → (o : VerifyOptions) (w : World p) (f : LogFile p) (rs : List AttestationRecord)
      → o.chain_mode ≡ true
      → log_at p (chosen o.attestation_log_path none u.default_log) w ≡ ok f
      → FileHolds p f rs
      → (code : ℕ) × (report : ChainReport) × Returns
          (verify p h u o)
          w
          (exits code (resolve_format o.format) (whole_chain report))
          w
        × (report.record_count ≡ length rs)
        × ((code ≡ 0) ↔ IsIntact p (sorted_by_seq (map normalise rs)))
  unfolding verify check_chain finish is_refused ◌>>=◌ reads pure
  verify_chain_exit_code L o w f rs chain found holds =
      let verdict = verify_chain p (map normalise rs) in
      let (iff, _, reasons) = verify_chain-iff-IsIntact p (map normalise rs) in
      (
        exit_code (not verdict.0),
        record {
          valid = verdict.0;
          error = verdict.1;
          record_count = length (map normalise rs);
          attestation_log_path = chosen o.attestation_log_path none u.default_log;
        },
        rw (chain, chain_report L o.attestation_log_path w f rs found holds) refl,
        length-map normalise rs,
        ground (arith, exit_code-valid verdict reasons, iff),
      )

  log_at_empty :
      (ref : String) (w : World p) (lines : List (Option p.Text))
      → w.files ref ≡ some (log_lines lines)
      → log_at p ref w ≡ ok (some lines)
  unfolding log_at
  log_at_empty ref w lines found = rw (found, log_at) refl

  load_empty :
      (lines : List (Option p.Text))
      → last_line p none lines ≡ none
      → load_record_from_file p (some lines) ≡ err (attestation_error empty_file)
  unfolding load_record_from_file
  load_empty lines blank = rw (blank, load_record_from_file) refl

  referenced_empty :
      (ref : String) (log_path : Option String) (w : World p) (lines : List (Option p.Text))
      → w.files ref ≡ some (log_lines lines)
      → last_line p none lines ≡ none
      → referenced p u.default_log w ref log_path ≡ err (attestation_error empty_file)
  unfolding referenced
  referenced_empty ref log_path w lines found blank =
      rw (found, referenced) (rw (log_at_empty ref w lines found, load_empty lines blank) refl)

  run_verify_empty :
      (ref : String) (log_path key : Option String) (w : World p) (lines : List (Option p.Text))
      → w.files ref ≡ some (log_lines lines)
      → last_line p none lines ≡ none
      → run_verify p u.default_log w ref log_path key ≡ err (attestation_error empty_file)
  unfolding run_verify
  run_verify_empty ref log_path key w lines found blank =
      rw (referenced_empty ref log_path w lines found blank, run_verify) refl

  check_record_empty :
      (o : VerifyOptions) (ref : String) (w : World p)
      → run_verify p u.default_log w ref o.attestation_log_path o.trusted_key_path
        ≡ err (attestation_error empty_file)
      → check_record p h u o ref w ≡ (err (attestation_error empty_file), w)
  unfolding check_record guarded caught ◌>>=◌ reads pure
  check_record_empty o ref w found = rw found refl

  pub verify_single :
      (o : VerifyOptions) (ref : String)
      → o.chain_mode ≡ false
      → non_empty o.attestation_ref ≡ some ref
      → verify p h u o ≡ check_record p h u o ref
  unfolding verify
  verify_single o ref single named = rw (single, named) refl

  -- A file with no line that is not blank is at the path that `haltproof verify` is given. It
  -- raises `AttestationError`, which is no `HaltProofError`, so that nothing is printed in its
  -- place.
  pub verify_empty_file :
      (o : VerifyOptions) (ref : String) (w : World p) (lines : List (Option p.Text))
      → o.chain_mode ≡ false
      → non_empty o.attestation_ref ≡ some ref
      → w.files ref ≡ some (log_lines lines)
      → last_line p none lines ≡ none
      → verify p h u o w ≡ (err (attestation_error empty_file), w)
  verify_empty_file o ref w lines single named found blank =
      ap (λ m. m w) (verify_single o ref single named)
      ∙ check_record_empty o ref w
          (run_verify_empty ref o.attestation_log_path o.trusted_key_path w lines found blank)
