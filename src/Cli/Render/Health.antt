-- ===== src/Cli/Render/Health.antt =====
-- What `haltproof status` prints for people.
use halt_proof.Base.{
  ℕ, String, ◌<>◌, ◌≡◌, refl, sym, ap, ap₂, ◌∙◌, Bool, false, Option, none, some, List, [], ◌∷◌,
  ◌++◌, map, append_assoc, append-nil, if◌then◌else◌,
}
use halt_proof.Base.Results.{ok}
use halt_proof.Base.Text.{or_text}
use halt_proof.Json.{obj, get, truthy}
use halt_proof.Platform.{Platform}
use halt_proof.Exec.{pure, ◌>>=◌, Returns}
use halt_proof.Host.{Host}
use halt_proof.World.{World}
use halt_proof.Attestation.{dicts}
use halt_proof.Backend.{NodeStatus, node_dict}
use halt_proof.Backend.Detect.{detect_available_backends, detect_backend}
use halt_proof.Config.{HaltProofConfig, load_config}
use halt_proof.Core.Status.Nodes.{AsksFor, run_status-Reports}
use halt_proof.Backend.Health.{names_of}
use halt_proof.Core.Halt.{Setup}
use halt_proof.Core.Status.{StatusRequest, StatusReport, run_status}
use halt_proof.Cli.{human, exits, StatusOptions, status}
use halt_proof.Cli.Nodes.{node_list}
use halt_proof.Cli.Exit.{finish-Returns}
use halt_proof.Cli.Layout.{Words, padded, item, padded_value, node_line}
use halt_proof.Cli.Dicts.{status_dict, str_option}
use halt_proof.Cli.Render.{
  echo, presence_lines, node_lines, render_status, exited, emit, print_ended,
}
use halt_proof.Cli.Render.Timeline.{Lines, echo_items-Lines}

-- The line of a node.
abbrev pub health_line : NodeStatus → String
health_line n =
    "  "
    <> (padded 20 n.node
        <> (" "
            <> (padded 12 n.state
                <> (" " <> (if n.reachable then "reachable" else "unreachable")))))

node_line-node_dict : (n : NodeStatus) → node_line (obj (node_dict n)) ≡ ok (health_line n)
unfolding node_line item get padded_value truthy node_dict
node_line-node_dict n = refl

node_line-Lines :
    (ns : List NodeStatus) → Lines node_line (dicts (map node_dict ns)) (map health_line ns)
unfolding dicts
node_line-Lines [] = tt
node_line-Lines (n ∷ ns) = (node_line-node_dict n, node_line-Lines ns)

abbrev pub presence_line : String × Bool → String
presence_line (name, b) =
    "  " <> (padded 12 name <> (" " <> (if b then "available" else "not found")))

presence_lines-map :
    (bs : List (String × Bool)) (out : List String)
    → presence_lines bs out ≡ (ok tt, out ++ map presence_line bs)
unfolding presence_lines echo pure ◌>>=◌
presence_lines-map [] out = ap (λ x. (ok tt, x)) (sym (append-nil out))
presence_lines-map ((name, b) ∷ bs) out =
    presence_lines-map bs (out ++ presence_line (name, b) ∷ [])
    ∙ ap (λ x. (ok tt, x)) (append_assoc out (presence_line (name, b) ∷ []) (map presence_line bs))

-- The heading of the nodes, where there are any, and their lines.
abbrev pub health_lines : Option String → List NodeStatus → List String
health_lines active [] = []
health_lines active (n ∷ ns) =
    ("Node status (" <> (str_option active <> "):")) ∷ map health_line (n ∷ ns)

node_lines-map :
    (report : StatusReport) (ns : List NodeStatus) (out : List String)
    → node_lines report (map node_dict ns) out
      ≡ (ok tt, out ++ health_lines report.active_backend ns)
unfolding node_lines echo pure ◌>>=◌
node_lines-map report [] out = ap (λ x. (ok tt, x)) (sym (append-nil out))
node_lines-map report (n ∷ ns) out =
    let heading : String = "Node status (" <> (str_option report.active_backend <> "):") in
    echo_items-Lines node_line (dicts (map node_dict (n ∷ ns))) (map health_line (n ∷ ns))
      (out ++ heading ∷ []) (node_line-Lines (n ∷ ns))
    ∙ ap (λ x. (ok tt, x)) (append_assoc out (heading ∷ []) (map health_line (n ∷ ns)))

abbrev pub found_line : Option String → String
found_line detected =
    "Auto-detected backend: " <> elim detected [ none ↦ "none" | some b ↦ or_text b "none" ]

-- All that is printed.
abbrev pub all_lines :
    List (String × Bool) → Option String → Option String → List NodeStatus → List String
all_lines backends detected active ns =
    "Backend availability:"
    ∷ (map presence_line backends ++ found_line detected ∷ health_lines active ns)

module _ (ws : Words) where
  render_status_lines :
      (report : StatusReport) (ns : List NodeStatus)
      → report.nodes ≡ map node_dict ns
      → (code : ℕ)
      → print_ended ws status_dict render_status (exits code human report) [] ≡ (
        ok (exited code),
        all_lines report.available_backends report.auto_detected_backend report.active_backend ns,
      )
  unfolding print_ended emit render_status echo ◌>>=◌ pure
  render_status_lines report ns listed code =
      rw (presence_lines-map report.available_backends ("Backend availability:" ∷ [])) (
        rw
          (
            listed,
            node_lines-map report ns (
                ("Backend availability:" ∷ map presence_line report.available_backends)
                ++ found_line report.auto_detected_backend ∷ []),
          )
          (ap (λ ls. (ok (exited code), "Backend availability:" ∷ ls))
            (append_assoc (map presence_line report.available_backends)
              (found_line report.auto_detected_backend ∷ [])
              (health_lines report.active_backend ns))))

-- What `status` passes on.
abbrev pub asked : StatusOptions → StatusRequest
asked o = record {
  backend_name = o.backend_name;
  nodes = node_list o.nodes;
  target_group = o.target_group;
  config_path = o.config_path;
}

module _ (p : Platform) (h : Host) where
  -- If `haltproof status` ends with an exit code and its format is the one for people, then the
  -- settings were read, and these and the options ask for certain nodes: the names that
  -- `node_list` reads from `--nodes` where it is given and not empty, or else those of the
  -- group of `--group` in the settings, or else none. The report has one entry for each of
  -- them, in their order. Printing raises nothing. It prints whether the tool of each known
  -- backend was found, which backend was detected, and, if there are such nodes, a heading and
  -- one line for each entry in the same order.
  pub status_prints :
      (ws : Words) (u : Setup) (o : StatusOptions) (w v : World p) (code : ℕ)
      (report : StatusReport)
      → Returns (status p h u o) w (exits code human report) v
      → (config : HaltProofConfig) × (nodes : List String) × (found : List NodeStatus)
        × (load_config p h u.home o.config_path w ≡ ok config)
        × AsksFor (asked o) config nodes
        × (names_of found ≡ nodes)
        × (report.nodes ≡ map node_dict found)
        × (print_ended ws status_dict render_status (exits code human report) [] ≡ (
          ok (exited code),
          all_lines (detect_available_backends h) (detect_backend h) report.active_backend found,
        ))
  unfolding status
  status_prints ws u o w v code report e =
      let (ran, _) = finish-Returns o.format (λ _. false) (run_status p h u.home (asked o)) w e in
      let says = run_status-Reports p h u.home (asked o) w report v ran in
      let (found, listed, same) = says.listed in
      (
        says.config,
        says.asked,
        found,
        says.loaded,
        says.asks,
        same,
        listed,
        render_status_lines ws report found listed code
            ∙ ap₂ (λ bs b. (ok (exited code), all_lines bs b report.active_backend found))
                says.available says.detected,
      )
