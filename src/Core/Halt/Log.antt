-- ===== src/Core/Halt/Log.antt =====
-- `run_halt` and any log, whether it returns or raises.
use halt_proof.Base.{String, ◌≡◌, ◌≢◌, refl, ◌∙◌, sym, ap, subst, false, List, [], ◌∷◌, ◌++◌}
use halt_proof.Base.TextOrder.{String_discrete, not_equal}
use halt_proof.Base.Results.{Result, ok, err}
use halt_proof.Errors.{Exn}
use halt_proof.Platform.{Platform, IsLawful}
use halt_proof.Exec.{
  Exec, reads, modify, resume, ◌>>=◌, Returns, Keeps, Keeps-lift, Keeps-pure, Keeps-bind,
  Keeps-Returns, reads-Returns,
}
use halt_proof.Host.{Host}
use halt_proof.World.{World, Content, write_file, log_at}
use halt_proof.Attestation.{AttestationRecord, sign_record}
use halt_proof.Attestation.Log.{LogFile, append}
use halt_proof.Attestation.Log.Written.{state_after, chain_state-FileHolds}
use halt_proof.Attestation.Chain.Extended.{IsIntactLog, append-IsIntactLog}
use halt_proof.Core.{chosen}
use halt_proof.Core.Halt.{Request, Setup, Plan, append_step, execute, run_halt}
use halt_proof.Core.Halt.Chained.{
  files_of, on_trace-KeepsFiles, plan-KeepsFiles, make_record-KeepsFiles, sign_step-KeepsFiles,
  post_step-KeepsFiles, log_at-files, log_at-append_step, made_record, signed_record,
}

-- What holds wherever `m` ends: after its first part, which keeps it, and after what follows.
pub bind_ends :
    {S A B : Type 0} (R : S → Type 0) (m : Exec S A) (k : A → Exec S B) (s : S)
    → R (m s).1
    → ((a : A) (t : S) → Returns m s a t → R (k a t).1)
    → R ((m >>= k) s).1
unfolding ◌>>=◌
bind_ends {S} {A} {B} R m k s stopped went = ended (m s).0 refl
  where
    ended : (r : Result Exn A) → (m s).0 ≡ r → R (resume r k (m s).1).1
    ended (ok a) e = went a (m s).1 (ap (λ r. (r, (m s).1)) e)
    ended (err x) e = stopped

module _ (p : Platform) (path : String) where
  -- The file at the path is a log that holds an intact chain, or is not there.
  pub record IsIntactAt (w : World p) : Type 0 where
    pub log : LogFile p
    pub records : List AttestationRecord
    pub found : log_at p path w ≡ ok log
    pub intact : IsIntactLog p log records

module _ (p : Platform) (h : Host) (u : Setup) (path : String) where
  log_at-write_elsewhere :
      (target : String) (x : Content p) (t : World p)
      → path ≢ target
      → log_at p path (write_file p target x t) ≡ log_at p path t
  unfolding log_at write_file
  log_at-write_elsewhere target x t other = rw (not_equal path target other, log_at) refl

  IsIntactAt-files : (v w : World p) → v.files ≡ w.files → IsIntactAt p path w → IsIntactAt p path v
  IsIntactAt-files v w e i = record {
    log = i.log;
    records = i.records;
    found = log_at-files p h u path v w e ∙ i.found;
    intact = i.intact;
  }

  append_step_elsewhere :
      (target : String) (r : AttestationRecord) (w : World p)
      → path ≢ target
      → log_at p path (append_step p h u target r w).1 ≡ log_at p path w
  unfolding append_step reads modify
  append_step_elsewhere target r w other =
      bind_ends (λ v. log_at p path v ≡ log_at p path w) _ _ w refl
        λ f t e.
          log_at-write_elsewhere target _ t other
          ∙ ap (log_at p path) (sym (reads-Returns (log_at p target) w e).1)

  module _ (f : LogFile p) (rs : List AttestationRecord) (c : IsIntactLog p f rs) where
    -- The log as it was is intact.
    unchanged : (v : World p) → log_at p path v ≡ ok f → IsIntactAt p path v
    unchanged v e = record { log = f; records = rs; found = e; intact = c }

    -- A first part that keeps the files.
    bind_kept :
        {A B : Type 0} (m : Exec (World p) A) (k : A → Exec (World p) B) (w : World p)
        → Keeps (files_of p h u) m
        → log_at p path w ≡ ok f
        → ((a : A) (t : World p)
            → Returns m w a t
            → log_at p path t ≡ ok f
            → IsIntactAt p path (k a t).1)
        → IsIntactAt p path ((m >>= k) w).1
    bind_kept m k w kept e went =
        bind_ends (IsIntactAt p path) m k w
          (unchanged (m w).1 (log_at-files p h u path (m w).1 w (kept.at w) ∙ e))
          λ a t r.
            went a t r (log_at-files p h u path t w (Keeps-Returns (files_of p h u) m w kept r) ∙ e)

    append_ends :
        IsLawful p
        → (target : String) (r : AttestationRecord) (k : p.PrivateKey) (w : World p)
        → (path ≡ target → (r.seq ≡ (state_after p rs).0) × (r.prev_hash ≡ (state_after p rs).1))
        → log_at p path w ≡ ok f
        → IsIntactAt p path (append_step p h u target (sign_record p r k) w).1
    append_ends L target r k w next e = elim (String_discrete path target) [
      | yes same ↦ record {
        log = append p f (sign_record p r k);
        records = rs ++ sign_record p r k ∷ [];
        found =
            ap (λ x. log_at p x (append_step p h u target (sign_record p r k) w).1) same
            ∙ log_at-append_step p h u target (sign_record p r k) f w
                (ap (λ x. log_at p x w) (sym same) ∙ e);
        intact = append-IsIntactLog p L f rs r k c (next same).0 (next same).1;
      }
      | no other ↦ unchanged _ (append_step_elsewhere target (sign_record p r k) w other ∙ e)
    ]

    execute_ends :
        IsLawful p
        → (q : Request) (s : Plan p h u) (w : World p) → q.no_sign ≡ false
        → log_at p path w ≡ ok f
        → IsIntactAt p path (execute p h u q s w).1
    unfolding execute
    execute_ends L q s w signing e =
        bind_kept _ _ w (on_trace-KeepsFiles p h u _) e λ steps w₁ _ e₁.
          bind_kept _ _ w₁ (Keeps-lift _) e₁ λ configured w₂ _ e₂.
            bind_kept _ _ w₂ (Keeps-lift _) e₂ λ configured_log w₃ _ e₃.
              bind_kept _ _ w₃ (make_record-KeepsFiles p h u q s _ _ steps) e₃ λ made w₄ r₄ e₄.
                bind_kept _ _ w₄ (sign_step-KeepsFiles p h u q s made) e₄ λ signed w₅ r₅ e₅.
                  let (k, same) = signed_record p h u q s made w₄ w₅ signing r₅ in
                  let target = chosen q.attestation_log_path configured_log u.default_log in
                  let appended =
                    subst (λ x. IsIntactAt p path (append_step p h u target x w₅).1) (sym same)
                      (append_ends L target made k w₅
                        (λ here.
                          made_record p h u q s _ _ steps f (state_after p rs) w₃ w₄
                            (ap (λ x. log_at p x w₃) (sym here) ∙ e₃)
                            (chain_state-FileHolds p L f rs c.holds) r₄)
                        e₅) in
                  bind_ends (IsIntactAt p path) _ _ w₅ appended λ _ w₆ r₆.
                    IsIntactAt-files _ w₆
                      ((Keeps-bind _ _ (post_step-KeepsFiles p h u q s signed)
                          (λ remote. Keeps-pure _)).at
                        w₆)
                      (subst (IsIntactAt p path) (ap (λ x. x.1) r₆) appended)

  -- A signing `run_halt` leaves every log that holds an intact chain, or is not there yet, with an
  -- intact chain, at whichever path it writes and whether it returns or raises.
  pub run_halt-IsIntactAt :
      IsLawful p
      → (q : Request) (w : World p) → q.no_sign ≡ false
      → IsIntactAt p path w
      → IsIntactAt p path (run_halt p h u q w).1
  unfolding run_halt
  run_halt-IsIntactAt L q w signing i =
      bind_kept i.log i.records i.intact _ _ w (plan-KeepsFiles p h u q) i.found
        λ s w₁ _ e₁. execute_ends i.log i.records i.intact L q s w₁ signing e₁
