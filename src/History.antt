-- ===== src/History.antt =====
-- Sequences of operations of core.py on one world, by any users on any hosts: what every state that
-- they can reach has in common.
use halt_proof.Base.{
  String, ◌≡◌, ◌≢◌, refl, ◌∙◌, sym, ap, subst, ℕ, Bool, true, false, Option, none, [], length,
}
use halt_proof.Base.Results.{ok}
use halt_proof.Platform.{Platform, IsLawful}
use halt_proof.Host.{Host}
use halt_proof.World.{World, Mode, log_at}
use halt_proof.Keys.{public_path}
use halt_proof.Core.{chosen, run_verify_chain}
use halt_proof.Core.Halt.{Request, Setup, run_halt}
use halt_proof.Core.Halt.Log.{IsIntactAt, run_halt-IsIntactAt}
use halt_proof.Core.Halt.Verified.{run_verify_chain-IsIntactLog}
use halt_proof.Core.Status.{StatusRequest, run_status, run_status-lasting}
use halt_proof.Core.Keygen.{run_keygen}
use halt_proof.Core.Keygen.Pair.{run_keygen-others}

module _ (p : Platform) (path : String) where
  -- One operation, whether it returns or raises. A halt signs; a key is made at another path than
  -- the log's. `run_verify` and `run_verify_chain` only read, so they make no step.
  pub data Step : World p → World p → Type 0 where
    halt :
        (h : Host) (u : Setup) (q : Request) (w v : World p)
        → q.no_sign ≡ false
        → v ≡ (run_halt p h u q w).1
        → Step w v
    status :
        (h : Host) (home : String) (q : StatusRequest) (w v : World p)
        → v ≡ (run_status p h home q w).1
        → Step w v
    keygen :
        (umask : Mode) (generate : ℕ → p.PrivateKey) (default_key : String)
        (output_path : Option String) (force : Bool) (w v : World p)
        → path ≢ chosen output_path none default_key
        → path ≢ public_path (chosen output_path none default_key)
        → v ≡ (run_keygen p umask generate default_key output_path force w).1
        → Step w v

  pub data Reach (w : World p) : World p → Type 0 where
    start : Reach w w
    later : {u v : World p} → Reach w u → Step u v → Reach w v

  IsIntactAt-view :
      (v w : World p)
      → log_at p path v ≡ log_at p path w
      → IsIntactAt p path w
      → IsIntactAt p path v
  IsIntactAt-view v w e i = record {
    log = i.log;
    records = i.records;
    found = e ∙ i.found;
    intact = i.intact;
  }

  log_at-view : (v w : World p) → v.files path ≡ w.files path → log_at p path v ≡ log_at p path w
  unfolding log_at
  log_at-view v w e = rw (e, log_at) refl

  -- Every operation keeps the log intact.
  pub Step-IsIntactAt :
      {w v : World p} → IsLawful p → Step w v → IsIntactAt p path w → IsIntactAt p path v
  Step-IsIntactAt L (halt h u q w v signing e) i =
      subst (IsIntactAt p path) (sym e) (run_halt-IsIntactAt p h u path L q w signing i)
  Step-IsIntactAt L (status h home q w v e) i =
      IsIntactAt-view v w
        (log_at-view v w (
          ap (λ (x : World p). x.files path) e
          ∙ ap (λ x. x.0 path) (run_status-lasting p h home q w)))
        i
  Step-IsIntactAt L (keygen umask generate default_key output_path force w v a b e) i =
      IsIntactAt-view v w
        (log_at-view v w (
          ap (λ (x : World p). x.files path) e
          ∙ ap (λ x. x.0)
              (run_keygen-others p umask generate default_key output_path force w path a b)))
        i

  Reach-IsIntactAt :
      {w v : World p} → IsLawful p → Reach w v → IsIntactAt p path w → IsIntactAt p path v
  Reach-IsIntactAt L start i = i
  Reach-IsIntactAt L (later r s) i = Step-IsIntactAt L s (Reach-IsIntactAt L r i)

  absent-IsIntactAt : (w : World p) → w.files path ≡ none → IsIntactAt p path w
  unfolding log_at
  absent-IsIntactAt w e = record {
    log = none;
    records = [];
    found = rw (e, log_at) refl;
    intact = record { holds = refl; intact = record { signed = tt; starts = tt; linked = tt } };
  }

  -- Start with no file at the log's path. After any number of signing halts, status requests and
  -- new keys at other paths, by any users and with any errors among them, `run_verify_chain` of the
  -- log returns and reports a valid chain.
  pub reached_log_verifies :
      {w v : World p} (default_log : String) (log_path : Option String)
      → IsLawful p
      → chosen log_path none default_log ≡ path
      → w.files path ≡ none
      → Reach w v
      → (count : ℕ) × (run_verify_chain p default_log v log_path
          ≡ ok (record {
            valid = true;
            error = none;
            record_count = count;
            attestation_log_path = chosen log_path none default_log;
          }))
  reached_log_verifies {w} {v} default_log log_path L same absent r =
      let i = Reach-IsIntactAt L r (absent-IsIntactAt w absent) in
      (
        length i.records,
        run_verify_chain-IsIntactLog p L default_log log_path v i.log i.records
            (ap (λ x. log_at p x v) same ∙ i.found) i.intact,
      )
