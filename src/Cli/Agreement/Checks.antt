-- ===== src/Cli/Agreement/Checks.antt =====
-- The commands `verify` and `keygen` of cli.py, and the tools `verify`, `verify_chain` and `keygen`
-- of mcp_server.py.
use halt_proof.Base.{ℕ, String, ◌≡◌, ◌≢◌, refl, ap, ◌∙◌, Bool, true, false, Option, some}
use halt_proof.Base.Results
use halt_proof.Base.Results.{Result, ok, err}
use halt_proof.Base.TextOrder.{not_equal}
use halt_proof.Errors.{Exn, HaltFault, haltproof_error}
use halt_proof.Platform.{Platform}
use halt_proof.Exec.{Exec, pure, reads, ◌>>=◌, resume}
use halt_proof.Host.{Host}
use halt_proof.World.{World, Mode}
use halt_proof.Guarded.{guarded, caught}
use halt_proof.Attestation.Passing.{IsPassing, run_verify_chain-IsPassing}
use halt_proof.Core.{run_verify, run_verify_chain, non_empty}
use halt_proof.Core.Halt.{Setup}
use halt_proof.Cli.{
  FormatOptions, Ended, finish, KeygenOptions, VerifyOptions, Checked, one_record, whole_chain,
  is_refused, check_chain, check_record,
}
use halt_proof.Cli
use halt_proof.Cli.Exit.{verify_single}
use halt_proof.Cli.Agreement.{as_command, bind_finish}
use halt_proof.Mcp

-- A tool's dict as that of the command `verify`.
abbrev pub as_checked :
    {S A : Type 0} → (A → Checked) → Exec S (Result HaltFault A) → Exec S (Result HaltFault Checked)
as_checked f tool s = (
  Results.◌>>=◌ (tool s).0
      (λ r. ok (elim r as (λ _. Result HaltFault Checked) [ ok v ↦ ok (f v) | err e ↦ err e ])),
  (tool s).1,
)

-- The options of `verify` for the arguments of the tools.
abbrev pub verify_options :
    Option String → Option String → Option String → Bool → FormatOptions → VerifyOptions
verify_options ref log_path key_path chain o = record {
  attestation_ref = ref;
  attestation_log_path = log_path;
  trusted_key_path = key_path;
  chain_mode = chain;
  format = o;
}

module _ {S A : Type 0} (o : FormatOptions) (f : A → Checked) where
  -- What a guarded operation leaves, as `verify` goes on with it.
  after_guard :
      (r : Result Exn (Result HaltFault A)) (s : S)
      → resume r
          (λ result. pure (
            finish o is_refused
              (elim result as (λ _. Result HaltFault Checked) [ ok v ↦ ok (f v) | err e ↦ err e ])))
          s
        ≡ as_command o is_refused (as_checked f (λ t. (r, t))) s
  unfolding pure
  after_guard (ok (ok v)) s = refl
  after_guard (ok (err e)) s = refl
  after_guard (err e) s = refl

  -- The same without a guard, where there is nothing to catch.
  without_guard :
      (r : Result Exn A) (s : S)
      → IsPassing r
      → resume r (λ v. pure (finish o is_refused (ok (f v)))) s
        ≡ as_command o is_refused (as_checked f (λ t. (caught r, t))) s
  unfolding pure caught
  without_guard (ok v) s h = refl
  without_guard (err (haltproof_error e)) s h = absurd h
  without_guard (err e) s h = refl

given : (ref : String) → ref ≢ "" → non_empty (some ref) ≡ some ref
given ref named = rw (not_equal ref "" named) refl

module _ (p : Platform) (h : Host) (u : Setup) where
  check_record_agrees :
      (ref : String) (log_path key_path : Option String) (o : FormatOptions) (w : World p)
      → check_record p h u (verify_options (some ref) log_path key_path false o) ref w
        ≡ as_command o is_refused (as_checked one_record (Mcp.verify p h u ref log_path key_path)) w
  unfolding check_record Mcp.verify guarded ◌>>=◌ reads
  check_record_agrees ref log_path key_path o w =
      after_guard o one_record (caught (run_verify p u.default_log w ref log_path key_path)) w

  check_chain_agrees :
      (log_path ref key_path : Option String) (o : FormatOptions) (w : World p)
      → check_chain p h u (verify_options ref log_path key_path true o) w
        ≡ as_command o is_refused (as_checked whole_chain (Mcp.verify_chain p h u log_path)) w
  unfolding check_chain Mcp.verify_chain guarded ◌>>=◌ reads
  check_chain_agrees log_path ref key_path o w =
      without_guard o whole_chain (run_verify_chain p u.default_log w log_path) w
        (run_verify_chain-IsPassing p u.default_log w log_path)

  chosen_chain :
      (log_path ref key_path : Option String) (o : FormatOptions)
      → Cli.verify p h u (verify_options ref log_path key_path true o)
        ≡ check_chain p h u (verify_options ref log_path key_path true o)
  unfolding Cli.verify
  chosen_chain log_path ref key_path o = refl

  -- For a reference that is not empty, the command `verify` does what the tool `verify` does with
  -- the same arguments, and with `--chain` what the tool `verify_chain` does; `keygen` does what
  -- the tool `keygen` does. The same world is left, the same result is printed, with the exit code
  -- 1 exactly if it is not valid and 0 for `keygen`, the same `HaltProofError` becomes a
  -- `ClickException`, and other exceptions pass. The code guards `run_verify_chain` only in the
  -- tool, which makes no difference.
  pub check_tools_agree :
      (ref : String) (chain_ref log_path key_path output_path : Option String) (force : Bool)
      (umask : Mode) (generate : ℕ → p.PrivateKey) (o : FormatOptions) (w : World p)
      → ref ≢ ""
      → (Cli.verify p h u (verify_options (some ref) log_path key_path false o) w
          ≡ as_command o is_refused
              (as_checked one_record (Mcp.verify p h u ref log_path key_path))
              w)
        × (Cli.verify p h u (verify_options chain_ref log_path key_path true o) w
            ≡ as_command o is_refused (as_checked whole_chain (Mcp.verify_chain p h u log_path)) w)
        × (Cli.keygen p h u umask generate
              (record { output_path = output_path; force = force; format = o })
              w
            ≡ as_command o (λ _. false) (Mcp.keygen p h u umask generate output_path force) w)
  unfolding Cli.keygen Mcp.keygen
  check_tools_agree ref chain_ref log_path key_path output_path force umask generate o w named = (
    ap (λ m. m w)
          (verify_single p h u (verify_options (some ref) log_path key_path false o) ref refl
            (given ref named))
        ∙ check_record_agrees ref log_path key_path o w,
    ap (λ m. m w) (chosen_chain log_path chain_ref key_path o)
        ∙ check_chain_agrees log_path chain_ref key_path o w,
    bind_finish o (λ _. false) _ w,
  )
