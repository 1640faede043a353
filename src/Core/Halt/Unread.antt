-- ===== src/Core/Halt/Unread.antt =====
-- `run_halt` reads the log only after the commands: what is left when its last line is no JSON, as
-- after a write that was cut short.
use halt_proof.Base.{
  String, ◌≡◌, refl, ◌∙◌, sym, ap, subst, not, ◌≢◌, Option, none, some, List, [], ◌∷◌, All,
}
use halt_proof.Base.Results.{Result, ok, err}
use halt_proof.Base.TextOrder.{not_equal}
use halt_proof.Operator.{or_else}
use halt_proof.Errors.{Exn, json_decode_error}
use halt_proof.Platform.{Platform}
use halt_proof.Exec.{Exec, lift, reads, ◌>>=◌, Returns, Keeps-lift}
use halt_proof.Host.{Host}
use halt_proof.World.{World, Content, log_lines, log_at, on_trace}
use halt_proof.Config.{setting}
use halt_proof.Attestation.Log.{Line, chain_state, last_record, last_line, load_value}
use halt_proof.Backend.{StepResult}
use halt_proof.Core.{chosen}
use halt_proof.Core.Halt.{
  Request, Setup, HaltResult, Plan, plan, all_steps, read_state, make_record, execute, run_halt,
}
use halt_proof.Core.Halt.Chained.{
  files_of, plan-KeepsFiles, on_trace-KeepsFiles, make_record-KeepsFiles,
}
use halt_proof.Core.Halt.DryRun.{calls}
use halt_proof.Core.Halt.Unrecorded.{Stops, bind_stopped, bind-Stops, run_halt-Stops}

-- A value that is there.
lift-Stops :
    {S A B X : Type 0} {f : S → X} (r : Result Exn A) (k : A → Exec S B) (s : S) {a : A}
    → r ≡ ok a
    → Stops f (k a) s
    → Stops f (lift r >>= k) s
unfolding lift ◌>>=◌
lift-Stops r k s e h = rw e h

module _ (p : Platform) (h : Host) (u : Setup) where
  -- The file is a log whose last line that is not blank is no JSON.
  pub record IsTorn (file : Option (Content p)) : Type 0 where
    pub lines : List (Line p)
    pub found : file ≡ some (log_lines lines)
    pub torn : p.Text
    pub last : last_line p none lines ≡ some torn
    pub unreadable : p.loads torn ≡ none

  log_at_torn :
      (path : String) (w : World p) (t : IsTorn (w.files path))
      → log_at p path w ≡ ok (some t.lines)
  unfolding log_at
  log_at_torn path w t = rw (t.found, log_at) refl

  -- No state can be read from it.
  last_record_torn :
      {file : Option (Content p)} (t : IsTorn file)
      → last_record p (some t.lines) ≡ err json_decode_error
  unfolding last_record load_value
  last_record_torn t = rw (t.last, last_record, t.unreadable, load_value) refl

  read_state_torn :
      (path : String) (w : World p)
      → IsTorn (w.files path)
      → read_state p h u path w ≡ err json_decode_error
  unfolding read_state chain_state
  read_state_torn path w t = rw (log_at_torn path w t) (rw (last_record_torn t) refl)

  make_record-Stops :
      (q : Request) (s : Plan p h u) (operator path : String) (steps : List StepResult)
      (w : World p)
      → IsTorn (w.files path)
      → Stops (files_of p h u) (make_record p h u q s operator path steps) w
  unfolding make_record ◌>>=◌ reads
  make_record-Stops q s operator path steps w t = record {
    exception = json_decode_error;
    raised = rw (read_state_torn path w t) refl;
    kept = (make_record-KeepsFiles p h u q s operator path steps).at w;
  }

  execute-Stops :
      (q : Request) (s : Plan p h u) (c : Option String) (w : World p)
      → setting "attestation_log_path" s.config ≡ ok c
      → IsTorn (w.files (chosen q.attestation_log_path c u.default_log))
      → Stops (files_of p h u) (execute p h u q s) w
  unfolding execute
  execute-Stops q s c w ec t = bind-Stops _ _ w (on_trace-KeepsFiles p h u _) λ steps w₁ f₁.
      bind-Stops _ _ w₁ (Keeps-lift _) λ configured w₂ f₂.
        lift-Stops (setting "attestation_log_path" s.config) _ w₂ ec (
          bind_stopped _ _ w₂ (
            make_record-Stops q s _ (chosen q.attestation_log_path c u.default_log) steps w₂ (
              subst
                (λ (fs : String → Option (Content p)).
                  IsTorn (fs (chosen q.attestation_log_path c u.default_log)))
                (sym (f₂ ∙ f₁)) t)))

  -- If the nodes and the backend are settled, but the last line of the log that is not blank is no
  -- JSON, as a write that was cut short leaves it, then the commands of the three operations are
  -- started all the same, and `run_halt` raises with no file changed, so that no record of them is
  -- made and the log stays as it is.
  pub run_halt_torn :
      (q : Request) (s : Plan p h u) (c : Option String) (w v : World p)
      → Returns (plan p h u q) w s v
      → setting "attestation_log_path" s.config ≡ ok c
      → IsTorn (v.files (chosen q.attestation_log_path c u.default_log))
      → (e : Exn) × ((run_halt p h u q w).0 ≡ err e)
        × ((run_halt p h u q w).1.files ≡ w.files)
        × (calls (run_halt p h u q w).1
            ≡ calls (on_trace p (all_steps h s.backend s.node_list (not q.confirm) q.reason) v).1)
  run_halt_torn q s c w v ep ec t = run_halt-Stops p h u q s w v ep (execute-Stops q s c v ec t)

  or_else_given :
      (path : String) (b : Option String) → path ≢ "" → or_else (some path) b ≡ some path
  unfolding or_else
  or_else_given path b named = rw (not_equal path "" named) refl

  chosen_given :
      (given configured : Option String) (path default : String)
      → given ≡ some path
      → path ≢ ""
      → chosen given configured default ≡ path
  unfolding chosen
  chosen_given given configured path default e named =
      ap (λ g. chosen g configured default) e
      ∙ ap (λ o. elim o as (λ _. String) [ none ↦ default | some s ↦ s ])
          (or_else_given path (or_else configured (some default)) named)

  run_halt_blocked :
      (q : Request) (path : String) (w : World p)
      → q.attestation_log_path ≡ some path
      → path ≢ ""
      → IsTorn (w.files path)
      → Stops (files_of p h u) (run_halt p h u q) w
  unfolding run_halt execute
  run_halt_blocked q path w e named t = bind-Stops _ _ w (plan-KeepsFiles p h u q) λ s v f.
      bind-Stops _ _ v (on_trace-KeepsFiles p h u _) λ steps w₁ f₁.
        bind-Stops _ _ w₁ (Keeps-lift _) λ configured w₂ f₂.
          bind-Stops _ _ w₂ (Keeps-lift _) λ c w₃ f₃. bind_stopped _ _ w₃ (
            make_record-Stops q s _ (chosen q.attestation_log_path c u.default_log) steps w₃ (
              subst (λ x. IsTorn (w₃.files x))
                (sym (chosen_given q.attestation_log_path c path u.default_log e named))
                (subst (λ (fs : String → Option (Content p)). IsTorn (fs path))
                  (sym (f₃ ∙ f₂ ∙ f₁ ∙ f)) t)))

  -- One halt after the other, whatever each ends with.
  unfoldable pub run_halts : List Request → World p → List (Result Exn HaltResult) × World p
  run_halts [] w = ([], w)
  run_halts (q ∷ qs) w =
      let one = run_halt p h u q w in let rest = run_halts qs one.1 in (one.0 ∷ rest.0, rest.1)

  abbrev pub Raised : Result Exn HaltResult → Type 0
  Raised r = (e : Exn) × (r ≡ err e)

  -- Once the last line of a log is no JSON, every later `run_halt` that is given this log raises,
  -- in any number and with any other arguments, and no file is changed: the log takes no record any
  -- more.
  pub run_halts_torn :
      (qs : List Request) (path : String) (w : World p)
      → All (λ q. q.attestation_log_path ≡ some path) qs
      → path ≢ ""
      → IsTorn (w.files path)
      → All Raised (run_halts qs w).0 × ((run_halts qs w).1.files ≡ w.files)
  unfolding run_halts
  run_halts_torn [] path w given named t = (tt, refl)
  run_halts_torn (q ∷ qs) path w (e, given) named t =
      let d = run_halt_blocked q path w e named t in
      let (raised, kept) =
        run_halts_torn qs path (run_halt p h u q w).1 given named
          (subst (λ (fs : String → Option (Content p)). IsTorn (fs path)) (sym d.kept) t) in
      (((d.exception, d.raised), raised), kept ∙ d.kept)
