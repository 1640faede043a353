-- ===== src/Cli/Render/Timeline.antt =====
-- The lines that cli.py prints for steps that a backend reported: as `halt` prints them, and as
-- `verify` does when the record was written and read back.
use halt_proof.Base.{
  String, ◌<>◌, ◌≡◌, refl, sym, ap, ◌∙◌, List, [], ◌∷◌, ◌++◌, map, append_assoc, append-nil,
}
use halt_proof.Base.Results.{Result, ok}
use halt_proof.Errors.{Exn}
use halt_proof.Json.{
  Json, arr, obj, Items, nil, cons, strings, get, truthy, sort_keys, sort_items, sort_fields,
}
use halt_proof.Json.Sort.{sort_items-strings}
use halt_proof.Exec.{pure, lift, ◌>>=◌}
use halt_proof.Attestation.{dicts}
use halt_proof.Backend.{StepResult, step_dict, value}
use halt_proof.Cli.Layout.{
  Words, padded, join, texts, joined, item, command_text, padded_value, shown, upper_value, columns,
  halt_line, timeline_line,
}
use halt_proof.Cli.Render.{echo, echo_items}

texts-strings : (ss : List String) → texts (strings ss) ≡ ok ss
unfolding texts strings
texts-strings [] = refl
texts-strings (s ∷ ss) = rw (texts-strings ss) refl

-- The command, or what stands for one.
abbrev pub command_line : List String → String
command_line [] = "(no command)"
command_line (s ∷ ss) = join " " (s ∷ ss)

command_text-strings : (ss : List String) → command_text (arr (strings ss)) ≡ ok (command_line ss)
unfolding command_text joined truthy
command_text-strings [] = unfold strings in refl
command_text-strings (s ∷ ss) = unfold strings texts in rw (texts-strings ss) refl

-- Each item has its line.
abbrev pub Lines : (Json → Result Exn String) → Items → List String → Type 0
Lines line nil [] = Unit
Lines line nil (t ∷ ts) = ⊥
Lines line (cons v vs) [] = ⊥
Lines line (cons v vs) (t ∷ ts) = (line v ≡ ok t) × Lines line vs ts

-- The lines are printed behind what was printed before.
pub echo_items-Lines :
    (line : Json → Result Exn String) (vs : Items) (ts out : List String)
    → Lines line vs ts
    → echo_items line vs out ≡ (ok tt, out ++ ts)
unfolding echo_items echo pure lift ◌>>=◌
echo_items-Lines line nil [] out h = ap (λ x. (ok tt, x)) (sym (append-nil out))
echo_items-Lines line nil (t ∷ ts) out h = absurd h
echo_items-Lines line (cons v vs) [] out h = absurd h
echo_items-Lines line (cons v vs) (t ∷ ts) out h = rw h.0 (
    echo_items-Lines line vs ts (out ++ t ∷ []) h.1
    ∙ ap (λ x. (ok tt, x)) (append_assoc out (t ∷ []) ts))

module _ (ws : Words) where
  -- The four columns.
  abbrev pub step_columns : StepResult → String
  step_columns s =
      "["
      <> (padded 8 (ws.upper (value s.status))
          <> ("] "
              <> (padded 20 s.node
                  <> (" " <> (padded 16 s.operation <> (" " <> command_line s.command))))))

  abbrev pub step_line : StepResult → String
  step_line s = "  " <> step_columns s

  abbrev pub timed_line : StepResult → String
  timed_line s = "    " <> (s.timestamp <> ("  " <> step_columns s))

  halt_line-step_dict : (s : StepResult) → halt_line ws (obj (step_dict s)) ≡ ok (step_line s)
  unfolding halt_line columns item get upper_value padded_value step_dict
  halt_line-step_dict s = rw (command_text-strings s.command) refl

  timeline_line-sort_fields :
      (s : StepResult) → timeline_line ws (obj (sort_fields (step_dict s))) ≡ ok (timed_line s)
  unfolding timeline_line columns item get upper_value padded_value step_dict sort_keys shown
  timeline_line-sort_fields s =
      rw (sort_items-strings s.command, command_text-strings s.command) refl

  pub halt_line-Lines :
      (steps : List StepResult)
      → Lines (halt_line ws) (dicts (map step_dict steps)) (map step_line steps)
  unfolding dicts
  halt_line-Lines [] = tt
  halt_line-Lines (s ∷ steps) = (halt_line-step_dict s, halt_line-Lines steps)

  pub timeline_line-Lines :
      (steps : List StepResult)
      → Lines (timeline_line ws) (sort_items (dicts (map step_dict steps))) (map timed_line steps)
  unfolding dicts sort_keys
  timeline_line-Lines [] = tt
  timeline_line-Lines (s ∷ steps) = (timeline_line-sort_fields s, timeline_line-Lines steps)
