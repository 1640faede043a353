-- ===== src/Core/Halt/Unrecorded.antt =====
-- `run_halt` looks for the signing key after the commands: what is left when it is not there.
use halt_proof.Base.{String, ◌≡◌, refl, ◌∙◌, sym, ap, false, not, Option, none}
use halt_proof.Base.Results.{Result, ok, err}
use halt_proof.Errors.{Exn, haltproof_error, key_not_found}
use halt_proof.Platform.{Platform}
use halt_proof.Exec.{
  Exec, lift, reads, ◌>>=◌, Returns, Keeps, Keeps-lift, Keeps-bind, Keeps-pure, resume,
}
use halt_proof.Host.{Host}
use halt_proof.World.{World, on_trace}
use halt_proof.Config.{setting}
use halt_proof.Attestation.{AttestationRecord}
use halt_proof.Core.{chosen}
use halt_proof.Core.Halt.{
  Request, Setup, Plan, plan, all_steps, signing_key, sign_step, execute, run_halt,
}
use halt_proof.Core.Halt.Chained.{
  files_of, on_trace-KeepsFiles, plan-KeepsFiles, make_record-KeepsFiles, sign_step-KeepsFiles,
}
use halt_proof.Core.Halt.DryRun.{
  calls, make_record-KeepsCalls, sign_step-KeepsCalls, append_step-KeepsCalls, post_step-KeepsCalls,
}

-- `m` raises in `s` and keeps what `f` reads.
pub record Stops {S A X : Type 0} (f : S → X) (m : Exec S A) (s : S) : Type 0 where
  pub exception : Exn
  pub raised : (m s).0 ≡ err exception
  pub kept : f (m s).1 ≡ f s

module _ {S A B X : Type 0} {f : S → X} where
  -- The first part stops.
  pub bind_stopped : (m : Exec S A) (k : A → Exec S B) (s : S) → Stops f m s → Stops f (m >>= k) s
  unfolding ◌>>=◌
  bind_stopped m k s h = record {
    exception = h.exception;
    raised = rw h.raised refl;
    kept = rw h.raised h.kept;
  }

  -- The first part keeps what is read, and what follows stops wherever it is reached.
  pub bind-Stops :
      (m : Exec S A) (k : A → Exec S B) (s : S)
      → Keeps f m
      → ((a : A) (u : S) → f u ≡ f s → Stops f (k a) u)
      → Stops f (m >>= k) s
  unfolding ◌>>=◌
  bind-Stops m k s km h =
      let (e, raised, kept) = resumed (m s).0 (m s).1 (km.at s) in
      record { exception = e; raised = raised; kept = kept }
    where
      resumed :
          (r : Result Exn A) (u : S)
          → f u ≡ f s
          → (e : Exn) × ((resume r k u).0 ≡ err e) × (f (resume r k u).1 ≡ f s)
      resumed (ok a) u e = let d = h a u e in (d.exception, d.raised, d.kept ∙ e)
      resumed (err x) u e = (x, refl, e)

  -- What follows the first part keeps what is read.
  bind_rest :
      (m : Exec S A) (k : A → Exec S B) (s : S)
      → ((a : A) → Keeps f (k a))
      → f ((m >>= k) s).1 ≡ f (m s).1
  unfolding ◌>>=◌
  bind_rest m k s h = resumed (m s).0 (m s).1
    where
      resumed : (r : Result Exn A) (u : S) → f (resume r k u).1 ≡ f u
      resumed (ok a) u = (h a).at u
      resumed (err x) u = refl

module _ (p : Platform) (h : Host) (u : Setup) where
  -- Whether or not it returns, `execute` starts the commands of the three operations and no other.
  pub execute-calls :
      (q : Request) (s : Plan p h u) (w : World p)
      → calls (execute p h u q s w).1
        ≡ calls (on_trace p (all_steps h s.backend s.node_list (not q.confirm) q.reason) w).1
  unfolding execute
  execute-calls q s w = bind_rest _ _ w λ steps. Keeps-bind _ _ (Keeps-lift _) λ configured.
      Keeps-bind _ _ (Keeps-lift _) λ configured_log.
        Keeps-bind _ _ (make_record-KeepsCalls p h u q s _ _ steps) λ made.
          Keeps-bind _ _ (sign_step-KeepsCalls p h u q s made) λ signed.
            Keeps-bind _ _ (append_step-KeepsCalls p h u _ signed)
              λ _. Keeps-bind _ _ (post_step-KeepsCalls p h u q s signed) λ remote. Keeps-pure _

  sign_step-Stops :
      (q : Request) (s : Plan p h u) (r : AttestationRecord) (c : Option String) (w : World p)
      → q.no_sign ≡ false
      → setting "attestation_key_path" s.config ≡ ok c
      → w.files (chosen q.attestation_key_path c u.default_key) ≡ none
      → Stops (files_of p h u) (sign_step p h u q s r) w
  unfolding sign_step ◌>>=◌ lift reads signing_key
  sign_step-Stops q s r c w e ec ek = record {
    exception = haltproof_error (key_not_found (chosen q.attestation_key_path c u.default_key));
    raised = rw (e, ec, ek) refl;
    kept = (sign_step-KeepsFiles p h u q s r).at w;
  }

  execute-Stops :
      (q : Request) (s : Plan p h u) (c : Option String) (w : World p)
      → q.no_sign ≡ false
      → setting "attestation_key_path" s.config ≡ ok c
      → w.files (chosen q.attestation_key_path c u.default_key) ≡ none
      → Stops (files_of p h u) (execute p h u q s) w
  unfolding execute
  execute-Stops q s c w e ec ek = bind-Stops _ _ w (on_trace-KeepsFiles p h u _) λ steps w₁ f₁.
      bind-Stops _ _ w₁ (Keeps-lift _) λ configured w₂ f₂.
        bind-Stops _ _ w₂ (Keeps-lift _) λ configured_log w₃ f₃.
          bind-Stops _ _ w₃ (make_record-KeepsFiles p h u q s _ _ steps) λ made w₄ f₄.
            bind_stopped _ _ w₄ (
              sign_step-Stops q s made c w₄ e ec (
                ap (λ (fs : String → Option _). fs (chosen q.attestation_key_path c u.default_key))
                  (f₄ ∙ f₃ ∙ f₂ ∙ f₁)
                ∙ ek))

  -- Where what comes first returned and the rest stops, `run_halt` does what the rest does.
  pub run_halt-Stops :
      (q : Request) (s : Plan p h u) (w v : World p)
      → Returns (plan p h u q) w s v
      → Stops (files_of p h u) (execute p h u q s) v
      → (e : Exn) × ((run_halt p h u q w).0 ≡ err e)
        × ((run_halt p h u q w).1.files ≡ w.files)
        × (calls (run_halt p h u q w).1
            ≡ calls (on_trace p (all_steps h s.backend s.node_list (not q.confirm) q.reason) v).1)
  unfolding run_halt ◌>>=◌
  run_halt-Stops q s w v ep d =
      let kept : v.files ≡ w.files =
        ap (λ x. x.1.files) (sym ep) ∙ (plan-KeepsFiles p h u q).at w in
      (d.exception, rw ep d.raised, rw ep (d.kept ∙ kept), rw ep (execute-calls q s v))

  -- If the nodes and the backend are settled and a signature is asked for, but there is no file at
  -- the path of the key, then the commands of the three operations are started all the same, and
  -- `run_halt` raises with no file changed, so that no record of them is made.
  pub run_halt_unrecorded :
      (q : Request) (s : Plan p h u) (c : Option String) (w v : World p)
      → Returns (plan p h u q) w s v
      → q.no_sign ≡ false
      → setting "attestation_key_path" s.config ≡ ok c
      → v.files (chosen q.attestation_key_path c u.default_key) ≡ none
      → (e : Exn) × ((run_halt p h u q w).0 ≡ err e)
        × ((run_halt p h u q w).1.files ≡ w.files)
        × (calls (run_halt p h u q w).1
            ≡ calls (on_trace p (all_steps h s.backend s.node_list (not q.confirm) q.reason) v).1)
  run_halt_unrecorded q s c w v ep e ec ek =
      run_halt-Stops q s w v ep (execute-Stops q s c v e ec ek)
