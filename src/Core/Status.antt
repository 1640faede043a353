-- ===== src/Core/Status.antt =====
-- `run_status` of core.py.
pub mod Nodes
use halt_proof.Base.{◌≡◌, refl, String, Bool, Option, none, some, List, [], ◌∷◌, map}
use halt_proof.Base.Results.{Result, ok}
use halt_proof.Errors.{Exn}
use halt_proof.Json.{Fields}
use halt_proof.Platform.{Platform}
use halt_proof.Exec.{
  Exec, pure, lift, reads, ◌>>=◌, Keeps, Keeps-pure, Keeps-lift, Keeps-reads, Keeps-bind,
}
use halt_proof.Host.{Host, Trace}
use halt_proof.World.{World, Content, on_trace}
use halt_proof.Config.{HaltProofConfig, resolve_group, load_config}
use halt_proof.Backend.{node_dict}
use halt_proof.Backend.Clusters.{status}
use halt_proof.Backend.Detect.{detect_available_backends, detect_backend}
use halt_proof.Core.{build_backend, resolve_backend_name, non_empty}

-- The keyword arguments.
pub record StatusRequest : Type 0 where
  pub backend_name : Option String
  pub nodes : Option (List String)
  pub target_group : Option String
  pub config_path : Option String

-- The dict that is returned.
pub record StatusReport : Type 0 where
  pub available_backends : List (String × Bool)
  pub auto_detected_backend : Option String
  pub active_backend : Option String
  pub nodes : List Fields

-- The given nodes, or those of the group where one is given and not empty.
unfoldable pub status_nodes :
    Option (List String) → Option String → HaltProofConfig → Result Exn (Option (List String))
status_nodes (some ns) target_group config = ok (some ns)
status_nodes none target_group config = elim (non_empty target_group) [
  | none ↦ ok none
  | some group ↦ resolve_group group config
]

module _ (p : Platform) (h : Host) where
  -- The block under `if node_list`: the active backend and the dicts of the nodes.
  unfoldable pub health :
      Option String
      → HaltProofConfig
      → Option (List String)
      → Exec (World p) (Option String × List Fields)
  health backend_name config none = pure (none, [])
  health backend_name config (some []) = pure (none, [])
  health backend_name config (some (n ∷ ns)) = do
    name ← lift (resolve_backend_name h backend_name config)
    backend ← lift (build_backend name config)
    statuses ← on_trace p (status h backend (n ∷ ns))
    pure (some name, map node_dict statuses)

  -- `run_status`
  unfoldable pub run_status : String → StatusRequest → Exec (World p) StatusReport
  unfolding health status_nodes
  run_status home q = do
    config ← reads (load_config p h home q.config_path)
    node_list ← lift (status_nodes q.nodes q.target_group config)
    found ← health q.backend_name config node_list
    pure (record {
      available_backends = detect_available_backends h;
      auto_detected_backend = detect_backend h;
      active_backend = found.0;
      nodes = found.1;
    })

  -- The files and the posted requests.
  abbrev pub lasting : World p → (String → Option (Content p)) × List (String × Fields)
  lasting w = (w.files, w.posts)

  pub on_trace-lasting : {A : Type 0} (m : Exec Trace A) → Keeps lasting (on_trace p m)
  unfolding on_trace
  on_trace-lasting m = record { at = λ w. refl }

  health-lasting :
      (backend_name : Option String) (config : HaltProofConfig) (o : Option (List String))
      → Keeps lasting (health backend_name config o)
  unfolding health
  health-lasting backend_name config none = Keeps-pure _
  health-lasting backend_name config (some []) = Keeps-pure _
  health-lasting backend_name config (some (n ∷ ns)) = Keeps-bind _ _ (Keeps-lift _) λ name.
      Keeps-bind _ _ (Keeps-lift _)
        λ backend. Keeps-bind _ _ (on_trace-lasting _) λ statuses. Keeps-pure _

  -- `run_status` changes no file and posts nothing, whether it returns or raises.
  pub run_status-lasting :
      (home : String) (q : StatusRequest) (w : World p)
      → lasting (run_status home q w).1 ≡ lasting w
  unfolding run_status
  run_status-lasting home q w =
      (Keeps-bind _ _ (Keeps-reads _) λ config. Keeps-bind _ _ (Keeps-lift _) λ node_list.
          Keeps-bind _ _ (health-lasting q.backend_name config node_list) λ found. Keeps-pure _).at
        w
