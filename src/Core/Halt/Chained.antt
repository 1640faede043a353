-- ===== src/Core/Halt/Chained.antt =====
-- `run_halt`, when it returns, and the log.
use halt_proof.Base.{
  String, ◌≡◌, refl, ◌∙◌, sym, ap, Bool, true, false, Option, none, some, List, [], ◌∷◌, ◌++◌,
  eq_refl, if◌then◌else◌,
}
use halt_proof.Base.Int.{ℤ}
use halt_proof.Base.Results.{ok, ok_injective}
use halt_proof.Platform.{Platform, IsLawful}
use halt_proof.Exec.{
  Exec, ◌>>=◌, Returns, Leads, >>=-Leads, pure-Leads, >>=-Returns, Keeps-Returns, reads-Returns,
  pure-Returns, Keeps, Keeps-pure, Keeps-lift, Keeps-modify, Keeps-bind, keeps_rules,
}
use halt_proof.Host.{Host, Trace}
use halt_proof.World.{World, Content, on_trace, write_file, log_at, log_content, log_lines}
use halt_proof.Attestation.{AttestationRecord, build_record, sign_record}
use halt_proof.Attestation.Log.{LogFile, chain_state, append}
use halt_proof.Attestation.Log.Written.{state_after, chain_state-FileHolds}
use halt_proof.Attestation.Chain.{verify_log}
use halt_proof.Attestation.Chain.Extended.{IsIntactLog, append-IsIntactLog, verify_log-IsIntactLog}
use halt_proof.Backend.{StepResult}
use halt_proof.Core.Halt.{
  Request, Setup, HaltResult, Plan, plan, post, request_sent, read_state, make_record, sign_step,
  append_step, send, post_step, execute, run_halt,
}

pub else_branch {ℓ} : {A : Type ℓ} {b : Bool} (x y : A) → b ≡ false → (if b then x else y) ≡ y
else_branch {b = false} x y e = refl
else_branch {b = true} x y e = cc

module _ (p : Platform) (h : Host) (u : Setup) where
  abbrev pub files_of : World p → String → Option (Content p)
  files_of w = w.files

  abbrev KeepsFiles : {A : Type 0} → Exec (World p) A → Type 0
  KeepsFiles m = Keeps files_of m

  pub on_trace-KeepsFiles : {A : Type 0} (m : Exec Trace A) → KeepsFiles (on_trace p m)
  unfolding on_trace
  on_trace-KeepsFiles m = record { at = λ w. refl }

  pub plan-KeepsFiles : (q : Request) → KeepsFiles (plan p h u q)
  unfolding plan
  plan-KeepsFiles q = search keeps_rules depth 9

  pub make_record-KeepsFiles :
      (q : Request) (s : Plan p h u) (operator log_path : String) (steps : List StepResult)
      → KeepsFiles (make_record p h u q s operator log_path steps)
  unfolding make_record
  make_record-KeepsFiles q s operator log_path steps =
      search (keeps_rules, on_trace-KeepsFiles) depth 9

  pub sign_step-KeepsFiles :
      (q : Request) (s : Plan p h u) (r : AttestationRecord) → KeepsFiles (sign_step p h u q s r)
  unfolding sign_step
  sign_step-KeepsFiles q s r = search keeps_rules depth 9

  send-KeepsFiles : (o : Option String) (r : AttestationRecord) → KeepsFiles (send p h u o r)
  unfolding send post request_sent
  send-KeepsFiles none r = search keeps_rules
  send-KeepsFiles (some url) r =
      Keeps-bind _ _ (Keeps-bind _ _ (Keeps-modify _ (λ w. refl)) (λ _. Keeps-lift _))
        (λ answer. Keeps-pure _)

  pub post_step-KeepsFiles :
      (q : Request) (s : Plan p h u) (r : AttestationRecord) → KeepsFiles (post_step p h u q s r)
  unfolding post_step
  post_step-KeepsFiles q s r = search (keeps_rules, send-KeepsFiles)

  -- The state of the log only depends on the files.
  pub log_at-files :
      (path : String) (v w : World p) → v.files ≡ w.files → log_at p path v ≡ log_at p path w
  unfolding log_at
  log_at-files path v w e = ap (λ (fs : String → _). log_at p path (record w { files = fs })) e

  log_at-write_file :
      (path : String) (lines : List _) (w : World p)
      → log_at p path (write_file p path (log_lines lines) w) ≡ ok (some lines)
  unfolding write_file log_at
  log_at-write_file path lines w = rw (eq_refl path, log_at) refl

  pub log_at-append_step :
      (path : String) (r : AttestationRecord) (f : LogFile p) (w : World p)
      → log_at p path w ≡ ok f
      → log_at p path (append_step p h u path r w).1 ≡ ok (append p f r)
  unfolding append_step ◌>>=◌ log_content append
  log_at-append_step path r none w e = rw e (log_at-write_file path _ w)
  log_at-append_step path r (some lines) w e = rw e (log_at-write_file path _ w)

  read_state-eq-ok :
      (path : String) (f : LogFile p) (state : ℤ × String) (w : World p)
      → log_at p path w ≡ ok f
      → chain_state p f ≡ ok state
      → read_state p h u path w ≡ ok state
  unfolding read_state
  read_state-eq-ok path f state w ef es = rw ef es

  pub made_record :
      (q : Request) (s : Plan p h u) (operator path : String) (steps : List StepResult)
      (f : LogFile p) (state : ℤ × String) (w v : World p) {r : AttestationRecord}
      → log_at p path w ≡ ok f
      → chain_state p f ≡ ok state
      → Returns (make_record p h u q s operator path steps) w r v
      → (r.seq ≡ state.0) × (r.prev_hash ≡ state.1)
  unfolding make_record build_record
  made_record q s operator path steps f state w v {r} ef es e =
      let (a, w₁, e₁, k₁) = >>=-Returns _ _ w e in
      let (id, w₂, e₂, k₂) = >>=-Returns _ _ w₁ k₁ in
      let (now, w₃, e₃, k₃) = >>=-Returns _ _ w₂ k₂ in
      let same : state ≡ a =
        ok_injective (sym (read_state-eq-ok path f state w ef es) ∙ (reads-Returns _ w e₁).0) in
      let made = (pure-Returns _ w₃ k₃).0 in
      (
        ap (λ (x : AttestationRecord). x.seq) (sym made) ∙ ap (λ x. x.0) (sym same),
        ap (λ (x : AttestationRecord). x.prev_hash) (sym made) ∙ ap (λ x. x.1) (sym same),
      )

  pub signed_record :
      (q : Request) (s : Plan p h u) (r : AttestationRecord) (w v : World p) {t : AttestationRecord}
      → q.no_sign ≡ false
      → Returns (sign_step p h u q s r) w t v
      → (k : p.PrivateKey) × (t ≡ sign_record p r k)
  unfolding sign_step
  signed_record q s r w v {t} e et =
      let (c, w₁, e₁, k₁) =
        >>=-Returns _ _ w
          (ap (λ (m : Exec (World p) AttestationRecord). m w) (sym (else_branch _ _ e)) ∙ et) in
      let (k, w₂, e₂, k₂) = >>=-Returns _ _ w₁ k₁ in (k, sym (pure-Returns _ w₂ k₂).0)

module _ (p : Platform) (L : IsLawful p) (h : Host) (u : Setup) where
  -- The log at the path that the result names holds an intact chain with the result's record at its
  -- end.
  abbrev Joined : World p → List AttestationRecord → HaltResult → World p → Type 0
  Joined w rs res v =
      (f : LogFile p)
      → log_at p res.attestation_log_path w ≡ ok f
      → IsIntactLog p f rs
      → (g : LogFile p) × (log_at p res.attestation_log_path v ≡ ok g)
        × IsIntactLog p g (rs ++ res.made ∷ [])

  joined_by_append :
      (path : String) (w v x : World p) (r s : AttestationRecord) (f : LogFile p)
      (rs : List AttestationRecord) (k : p.PrivateKey)
      → v.files ≡ w.files
      → log_at p path w ≡ ok f
      → IsIntactLog p f rs
      → r.seq ≡ (state_after p rs).0
      → r.prev_hash ≡ (state_after p rs).1
      → s ≡ sign_record p r k
      → x.files ≡ (append_step p h u path s v).1.files
      → (g : LogFile p) × (log_at p path x ≡ ok g) × IsIntactLog p g (rs ++ s ∷ [])
  joined_by_append path w v x r s f rs k ev ef c es eh ek ex = (
    append p f s,
    log_at-files p h u path x _ ex
        ∙ log_at-append_step p h u path s f v (log_at-files p h u path v w ev ∙ ef),
    rw ek (append-IsIntactLog p L f rs r k c es eh),
  )

  execute_joins :
      (q : Request) (s : Plan p h u) (w : World p) (rs : List AttestationRecord)
      → q.no_sign ≡ false
      → Leads (execute p h u q s) w (Joined w rs)
  unfolding execute
  execute_joins q s w rs signing = >>=-Leads _ _ w λ steps w₁ e₁.
      >>=-Leads _ _ w₁ λ configured w₂ e₂. >>=-Leads _ _ w₂ λ configured_log w₃ e₃.
        >>=-Leads _ _ w₃ λ made w₄ e₄. >>=-Leads _ _ w₄ λ signed w₅ e₅. >>=-Leads _ _ w₅ λ _ w₆ e₆.
          >>=-Leads _ _ w₆ λ remote w₇ e₇. pure-Leads (Joined w rs) _ w₇ λ f ef c.
            let kept₃ =
              Keeps-Returns (files_of p h u) _ w₂ (Keeps-lift _) e₃
              ∙ Keeps-Returns (files_of p h u) _ w₁ (Keeps-lift _) e₂
              ∙ Keeps-Returns (files_of p h u) _ w (on_trace-KeepsFiles p h u _) e₁ in
            let kept₅ =
              Keeps-Returns (files_of p h u) _ w₄ (sign_step-KeepsFiles p h u q s made) e₅
              ∙ Keeps-Returns (files_of p h u) _ w₃ (make_record-KeepsFiles p h u q s _ _ steps) e₄
              ∙ kept₃ in
            let (es, eh) =
              made_record p h u q s _ _ steps f (state_after p rs) w₃ w₄
                (log_at-files p h u _ w₃ w kept₃ ∙ ef) (chain_state-FileHolds p L f rs c.holds)
                e₄ in
            let (k, ek) = signed_record p h u q s made w₄ w₅ signing e₅ in
            joined_by_append _ w w₅ w₇ made signed f rs k kept₅ ef c es eh ek (
              Keeps-Returns (files_of p h u) _ w₆ (post_step-KeepsFiles p h u q s signed) e₇
              ∙ ap (λ x. x.1.files) (sym e₆))

  -- Let `run_halt`, asked to sign, return. If the log at the path that it names held an intact
  -- chain of records before, or did not exist, it now holds those and then the returned record,
  -- this chain is intact too, and `AttestationLog.verify_chain` accepts it.
  pub run_halt_chained :
      (q : Request) (w v : World p) (res : HaltResult) (f : LogFile p) (rs : List AttestationRecord)
      → Returns (run_halt p h u q) w res v
      → q.no_sign ≡ false
      → log_at p res.attestation_log_path w ≡ ok f
      → IsIntactLog p f rs
      → (g : LogFile p) × (log_at p res.attestation_log_path v ≡ ok g)
        × IsIntactLog p g (rs ++ res.made ∷ [])
        × (verify_log p g ≡ ok (true, none))
  unfolding run_halt
  run_halt_chained q w v res f rs e signing ef c =
      let (s, w₁, e₁, k₁) = >>=-Returns _ _ w e in
      let kept = Keeps-Returns (files_of p h u) _ w (plan-KeepsFiles p h u q) e₁ in
      let (g, eg, d) =
        execute_joins q s w₁ rs signing res v k₁ f (log_at-files p h u _ w₁ w kept ∙ ef) c in
      (g, eg, d, verify_log-IsIntactLog p L g (rs ++ res.made ∷ []) d)
