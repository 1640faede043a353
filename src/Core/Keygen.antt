-- ===== src/Core/Keygen.antt =====
-- `run_keygen` of core.py.
pub mod Private
pub mod Pair
use halt_proof.Base.{
  String, ◌<>◌, ◌==◌, eq_iff, eq_refl, ℕ, ◌≡◌, ◌≢◌, refl, sym, ap, ◌∙◌, Bool, true, false, not,
  ◌&&◌, Option, none, some, List, [], ◌∷◌, if◌then◌else◌, arith, Option-cases, inl, inr,
}
use halt_proof.Base.Results.{Result, ok, err}
use halt_proof.Errors.{Exn, haltproof_error, already_exists}
use halt_proof.Platform.{Platform}
use halt_proof.Exec.{Exec, pure, raise, reads, lift, modify, ◌>>=◌, ◌>>◌, Returns}
use halt_proof.World.{
  World, Content, Mode, private_pem, public_pem, load_private_key, load_public_key,
}
use halt_proof.Keys.{public_path, private_key_mode, public_key_mode, generate_keypair}
use halt_proof.Core.{chosen}

-- The dict that is returned.
pub record KeygenResult : Type 0 where
  pub private_key_path : String
  pub public_key_path : String
  pub private_key_permissions : String

module _ (p : Platform) (umask : Mode) (generate : ℕ → p.PrivateKey) where
  -- `if key_path.exists() and not force: raise`
  unfoldable pub check_absent : String → Bool → World p → Result Exn (Unit {0})
  check_absent path force w = elim (w.files path) [
    | none ↦ ok tt
    | some c ↦ if force then ok tt else err (haltproof_error (already_exists path))
  ]

  -- `run_keygen`
  unfoldable pub run_keygen : String → Option String → Bool → Exec (World p) KeygenResult
  run_keygen default_key output_path force =
      let key_path = chosen output_path none default_key in
      do
        reads (check_absent key_path force)
        public_key_path ← generate_keypair p umask generate key_path
        pure (record {
          private_key_path = key_path;
          public_key_path = public_key_path;
          private_key_permissions = "0600";
        })

  check_absent-kept :
      (path : String) (c : Content p) (w : World p)
      → w.files path ≡ some c
      → check_absent path false w ≡ err (haltproof_error (already_exists path))
  unfolding check_absent
  check_absent-kept path c w e = rw (e, check_absent) refl

  -- A key that is there meets, without `force`, an error, and nothing at all is changed.
  pub run_keygen-kept :
      (default_key : String) (output_path : Option String) (c : Content p) (w : World p)
      → w.files (chosen output_path none default_key) ≡ some c
      → run_keygen default_key output_path false w
        ≡ (err (haltproof_error (already_exists (chosen output_path none default_key))), w)
  unfolding run_keygen ◌>>=◌ reads
  run_keygen-kept default_key output_path c w e =
      rw (check_absent-kept (chosen output_path none default_key) c w e) refl
