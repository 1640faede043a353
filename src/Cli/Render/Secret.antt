-- ===== src/Cli/Render/Secret.antt =====
-- What `keygen` of cli.py prints, and what the tool `keygen` of mcp_server.py returns, says nothing
-- of the private key.
use halt_proof.Base.{ℕ, String, ◌≡◌, refl, ap, Bool, false, ◌∙◌, sym, Option, none, List, []}
use halt_proof.Base.Results
use halt_proof.Base.Results.{Result, ok, err}
use halt_proof.Errors.{Exn}
use halt_proof.Platform.{Platform}
use halt_proof.Exec.{Exec, pure, reads, modify, ◌>>=◌, resume}
use halt_proof.Host.{Host}
use halt_proof.World.{World, Mode}
use halt_proof.Guarded.{guarded, caught}
use halt_proof.Keys.{generate_keypair, fresh_key}
use halt_proof.Core.{chosen}
use halt_proof.Core.Halt.{Setup}
use halt_proof.Core.Keygen.{KeygenResult, check_absent, run_keygen}
use halt_proof.Cli.{KeygenOptions, Ended, finish, keygen}
use halt_proof.Cli.Layout.{Words}
use halt_proof.Cli.Dicts.{keygen_dict}
use halt_proof.Cli.Render.{Outcome, render_keygen, print_ended}
use halt_proof.Cli.Agreement.{bind_finish}
use halt_proof.Mcp

-- What a command prints, in either format.
abbrev pub printed :
    Words → Result Exn (Ended KeygenResult) → Result Exn (Result Exn Outcome × List String)
printed ws r = Results.◌>>=◌ r (λ ended. ok (print_ended ws keygen_dict render_keygen ended []))

module _ (p : Platform) (umask : Mode) where
  -- What follows the check.
  abbrev generated : (ℕ → p.PrivateKey) → String → Exec (World p) KeygenResult
  generated generate path = generate_keypair p umask generate path >>= λ public_key_path.
      pure (record {
        private_key_path = path;
        public_key_path = public_key_path;
        private_key_permissions = "0600";
      })

  checked_generated :
      (generate other : ℕ → p.PrivateKey) (path : String) (r : Result Exn (Unit {0})) (w : World p)
      → (resume r (λ _. generated generate path) w).0 ≡ (resume r (λ _. generated other path) w).0
  unfolding generate_keypair fresh_key ◌>>=◌ modify pure
  checked_generated generate other path (ok a) w = refl
  checked_generated generate other path (err e) w = refl

  run_keygen_same :
      (generate other : ℕ → p.PrivateKey) (default_key : String) (path : Option String)
      (force : Bool) (w : World p)
      → (run_keygen p umask generate default_key path force w).0
        ≡ (run_keygen p umask other default_key path force w).0
  unfolding run_keygen check_absent ◌>>=◌ reads
  run_keygen_same generate other default_key path force w =
      checked_generated generate other (chosen path none default_key)
        (check_absent p umask generate (chosen path none default_key) force w) w

module _ (p : Platform) (h : Host) (u : Setup) (umask : Mode) where
  guarded_same :
      {S A : Type 0} (m n : Exec S A) (s : S)
      → (m s).0 ≡ (n s).0
      → (guarded m s).0 ≡ (guarded n s).0
  unfolding guarded
  guarded_same m n s e = ap caught e

  -- Whatever private key is generated, the tool `keygen` returns the same, and the command `keygen`
  -- prints the same and ends in the same way, in both formats.
  pub keygen_secret :
      (ws : Words) (generate other : ℕ → p.PrivateKey) (o : KeygenOptions) (w : World p)
      → ((Mcp.keygen p h u umask generate o.output_path o.force w).0
          ≡ (Mcp.keygen p h u umask other o.output_path o.force w).0)
        × (printed ws (keygen p h u umask generate o w).0
            ≡ printed ws (keygen p h u umask other o w).0)
  unfolding keygen Mcp.keygen
  keygen_secret ws generate other o w =
      let same =
        guarded_same (run_keygen p umask generate u.default_key o.output_path o.force)
          (run_keygen p umask other u.default_key o.output_path o.force) w
          (run_keygen_same p umask generate other u.default_key o.output_path o.force w) in
      let ended : (g : ℕ → p.PrivateKey) → (keygen p h u umask g o w).0 ≡ _ = λ g.
        ap (λ x. x.0)
          (bind_finish o.format (λ _. false)
            (guarded (run_keygen p umask g u.default_key o.output_path o.force)) w) in
      (
        same,
        ap (printed ws) (
            ended generate
            ∙ ap (λ r. Results.◌>>=◌ r (λ x. ok (finish o.format (λ _. false) x))) same
            ∙ sym (ended other)),
      )
