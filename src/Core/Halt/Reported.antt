-- ===== src/Core/Halt/Reported.antt =====
-- The collector hears only of records that are in the log, however `run_halt` ends.
use halt_proof.Base.{
  String, ◌≡◌, refl, ◌∙◌, sym, ap, subst, Option, none, some, List, [], ◌∷◌, ◌++◌, ◌⊎◌, inl, inr,
}
use halt_proof.Base.Results.{Result, ok, err}
use halt_proof.Errors.{Exn}
use halt_proof.Platform.{Platform}
use halt_proof.Exec.{Exec, ◌>>=◌, resume, lift, reads, modify, pure, Keeps, Keeps-lift, keeps_rules}
use halt_proof.Host.{Host}
use halt_proof.World.{World, log_at, write_file, log_content}
use halt_proof.Attestation.{AttestationRecord, to_dict}
use halt_proof.Attestation.Log.{LogFile, append}
use halt_proof.Backend.{StepResult}
use halt_proof.Core.Status.{lasting, on_trace-lasting}
use halt_proof.Core.Halt.{
  Request, Setup, HaltResult, Plan, plan, post, request_sent, make_record, sign_step, append_step,
  send, post_step, execute, run_halt,
}
use halt_proof.Core.Halt.Chained.{log_at-files, log_at-append_step}

-- What holds of the state however the first part ends, and however the second does, holds of the
-- end of both.
bind_ends :
    {S A B : Type 0} (m : Exec S A) (k : A → Exec S B) (s : S) (Q : S → Type 0)
    → Q (m s).1
    → ((a : A) → Q (k a (m s).1).1)
    → Q ((m >>= k) s).1
unfolding ◌>>=◌
bind_ends m k s Q raised went_on = resumed (m s).0
  where
    resumed : (r : Result Exn _) → Q (resume r k (m s).1).1
    resumed (ok a) = went_on a
    resumed (err e) = raised

Result-cases : {A : Type 0} (r : Result Exn A) → ((a : A) × (r ≡ ok a)) ⊎ ((e : Exn) × (r ≡ err e))
Result-cases (ok a) = inl (a, refl)
Result-cases (err e) = inr (e, refl)

module _ (p : Platform) (h : Host) (u : Setup) where
  -- The dict of this record was sent, and the record joined the log.
  pub record IsRecorded (w v : World p) : Type 0 where
    pub url : String
    pub reported : AttestationRecord
    pub path : String
    pub log : LogFile p
    pub sent : v.posts ≡ w.posts ++ (url, to_dict reported) ∷ []
    pub before : log_at p path w ≡ ok log
    pub after : log_at p path v ≡ ok (append p log reported)

  -- Nothing was sent, or one record that was written before.
  abbrev pub Told : World p → World p → Type 0
  Told w v = (v.posts ≡ w.posts) ⊎ IsRecorded w v

  kept-Told : (w v : World p) → lasting p h v ≡ lasting p h w → Told w v
  kept-Told w v e = inl (ap (λ x. x.1) e)

  -- A part that keeps the files and the requests, and what follows it.
  bind_kept :
      {A B : Type 0} (m : Exec (World p) A) (k : A → Exec (World p) B) (w v : World p)
      → lasting p h v ≡ lasting p h w
      → Keeps (lasting p h) m
      → ((a : A) (x : World p) → lasting p h x ≡ lasting p h w → Told w (k a x).1)
      → Told w ((m >>= k) v).1
  bind_kept m k w v e kept rest =
      bind_ends m k v (Told w) (kept-Told w (m v).1 (kept.at v ∙ e))
        λ a. rest a (m v).1 (kept.at v ∙ e)

  plan-lasting : (q : Request) → Keeps (lasting p h) (plan p h u q)
  unfolding plan
  plan-lasting q = search keeps_rules depth 9

  make_record-lasting :
      (q : Request) (s : Plan p h u) (operator path : String) (steps : List StepResult)
      → Keeps (lasting p h) (make_record p h u q s operator path steps)
  unfolding make_record
  make_record-lasting q s operator path steps = search (keeps_rules, on_trace-lasting) depth 9

  sign_step-lasting :
      (q : Request) (s : Plan p h u) (r : AttestationRecord)
      → Keeps (lasting p h) (sign_step p h u q s r)
  unfolding sign_step
  sign_step-lasting q s r = search keeps_rules depth 9

  -- Behind the append, nothing or the record is sent.
  module _ (w : World p) (path : String) (f : LogFile p) (r : AttestationRecord) where
    sent_by_post :
        (url : String) (v : World p)
        → v.posts ≡ w.posts
        → log_at p path w ≡ ok f
        → log_at p path v ≡ ok (append p f r)
        → IsRecorded w (post p h u url (to_dict r) v).1
    unfolding post request_sent ◌>>=◌ modify lift
    sent_by_post url v quiet before after = record {
      url = url;
      reported = r;
      path = path;
      log = f;
      sent = ap (λ posts. posts ++ (url, to_dict r) ∷ []) quiet;
      before = before;
      after = log_at-files p h u path _ v refl ∙ after;
    }

    send-Told :
        (o : Option String) (v : World p)
        → v.posts ≡ w.posts
        → log_at p path w ≡ ok f
        → log_at p path v ≡ ok (append p f r)
        → Told w (send p h u o r v).1
    unfolding send pure
    send-Told none v quiet before after = inl quiet
    send-Told (some url) v quiet before after =
        let told = sent_by_post url v quiet before after in
        bind_ends _ _ v (Told w) (inr told) λ answer. inr told

    post_step-Told :
        (q : Request) (s : Plan p h u) (v : World p)
        → v.posts ≡ w.posts
        → log_at p path w ≡ ok f
        → log_at p path v ≡ ok (append p f r)
        → Told w (post_step p h u q s r v).1
    unfolding post_step lift
    post_step-Told q s v quiet before after =
        bind_ends _ _ v (Told w) (inl quiet) λ configured. send-Told _ v quiet before after

  append_step-posts :
      (path : String) (r : AttestationRecord) (v : World p)
      → (append_step p h u path r v).1.posts ≡ v.posts
  unfolding append_step ◌>>=◌ reads modify write_file
  append_step-posts path r v = ended (log_at p path v)
    where
      ended :
          (f : Result Exn (LogFile p))
          → (resume f (λ g. modify (write_file p path (log_content p (append p g r)))) v).1.posts
            ≡ v.posts
      ended (ok f) = refl
      ended (err e) = refl

  appended_then :
      (w : World p) (path : String) (f : LogFile p) (q : Request) (s : Plan p h u)
      (r : AttestationRecord) (k : Option String → Exec (World p) HaltResult) (v : World p)
      → lasting p h v ≡ lasting p h w
      → ((a : Option String) (x : World p) → (k a x).1 ≡ x)
      → log_at p path v ≡ ok f
      → Told w ((append_step p h u path r >>= λ _. (post_step p h u q s r >>= k)) v).1
  appended_then w path f q s r k v e quiet found =
      let posts : (append_step p h u path r v).1.posts ≡ w.posts =
        append_step-posts path r v ∙ ap (λ x. x.1) e in
      bind_ends _ _ v (Told w) (inl posts) λ _.
        let told =
          post_step-Told w path f r q s (append_step p h u path r v).1 posts
            (log_at-files p h u path w v (ap (λ x. x.0) (sym e)) ∙ found)
            (log_at-append_step p h u path r f v found) in
        bind_ends _ _ _ (Told w) told λ a. subst (Told w) (sym (quiet a _)) told

  append_raised :
      (path : String) (r : AttestationRecord) (v : World p) (x : Exn)
      → log_at p path v ≡ err x
      → append_step p h u path r v ≡ (err x, v)
  unfolding append_step ◌>>=◌ reads
  append_raised path r v x e = rw e refl

  append_step-Told :
      (w : World p) (path : String) (q : Request) (s : Plan p h u) (r : AttestationRecord)
      (k : Option String → Exec (World p) HaltResult) (v : World p)
      → lasting p h v ≡ lasting p h w
      → ((a : Option String) (x : World p) → (k a x).1 ≡ x)
      → Told w ((append_step p h u path r >>= λ _. (post_step p h u q s r >>= k)) v).1
  unfolding ◌>>=◌
  append_step-Told w path q s r k v e quiet = elim (Result-cases (log_at p path v)) [
    | inl (f, found) ↦ appended_then w path f q s r k v e quiet found
    | inr (x, raised) ↦ rw (append_raised path r v x raised) (kept-Told w v e)
  ]

  execute-Told :
      (q : Request) (s : Plan p h u) (w v : World p)
      → lasting p h v ≡ lasting p h w
      → Told w (execute p h u q s v).1
  unfolding execute pure
  execute-Told q s w v e = bind_kept _ _ w v e (on_trace-lasting p h _) λ steps w₁ e₁.
      bind_kept _ _ w w₁ e₁ (Keeps-lift _) λ configured w₂ e₂.
        bind_kept _ _ w w₂ e₂ (Keeps-lift _) λ configured_log w₃ e₃.
          bind_kept _ _ w w₃ e₃ (make_record-lasting q s _ _ steps) λ made w₄ e₄.
            bind_kept _ _ w w₄ e₄ (sign_step-lasting q s made)
              λ signed w₅ e₅. append_step-Told w _ q s signed _ w₅ e₅ λ a x. refl

  -- However `run_halt` ends, by returning or by an exception, either no request was sent to the
  -- collector, or exactly one was. In that case the request holds the dict of a record, and a log
  -- holds that record behind what it held before: nothing is reported that is not on disk, whatever
  -- the collector answers.
  pub run_halt-Told : (q : Request) (w : World p) → Told w (run_halt p h u q w).1
  unfolding run_halt
  run_halt-Told q w = bind_kept _ _ w w refl (plan-lasting q) λ s v e. execute-Told q s w v e
