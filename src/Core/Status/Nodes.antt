-- ===== src/Core/Status/Nodes.antt =====
-- The nodes that `run_status` reports are those that it was asked for.
use halt_proof.Base.{
  String, ◌==◌, ◌≡◌, ◌≢◌, refl, sym, ap, subst, ◌∙◌, true, false, false≢true, Bool-cases, inl, inr,
  Option, none, some, List, [], ◌∷◌, map, eq_iff,
}
use halt_proof.Base.Results.{Result, ok, ok_injective}
use halt_proof.Errors.{Exn}
use halt_proof.Json.{Fields}
use halt_proof.Platform.{Platform}
use halt_proof.Exec.{Leads, >>=-Leads, pure-Leads, reads-Returns, lift-Returns}
use halt_proof.Host.{Host}
use halt_proof.World.{World, on_trace}
use halt_proof.Config.{HaltProofConfig, resolve_group, load_config}
use halt_proof.Backend.{NodeStatus, node_dict}
use halt_proof.Backend.Clusters.{ClusterBackend, status}
use halt_proof.Backend.Health.{names_of, status-IsOf}
use halt_proof.Backend.Detect.{detect_available_backends, detect_backend}
use halt_proof.Core.Status.{StatusRequest, StatusReport, status_nodes, health, run_status}

-- Which nodes a request asks for: those that it lists; without a list, those of its group in the
-- settings; and none if the settings have no such group, or if neither is given.
pub data AsksFor (q : StatusRequest) (config : HaltProofConfig) : List String → Type 0 where
  by_list : (nodes : List String) → q.nodes ≡ some nodes → AsksFor q config nodes
  by_group :
      (group : String) (nodes : List String)
      → q.nodes ≡ none
      → q.target_group ≡ some group
      → group ≢ ""
      → resolve_group group config ≡ ok (some nodes)
      → AsksFor q config nodes
  no_group :
      (group : String)
      → q.nodes ≡ none
      → q.target_group ≡ some group
      → group ≢ ""
      → resolve_group group config ≡ ok none
      → AsksFor q config []
  no_name : q.nodes ≡ none → q.target_group ≡ none → AsksFor q config []
  empty_name : q.nodes ≡ none → q.target_group ≡ some "" → AsksFor q config []

-- The nodes of a list that may not be there.
abbrev or_empty : Option (List String) → List String
or_empty none = []
or_empty (some nodes) = nodes

group-AsksFor :
    (q : StatusRequest) (config : HaltProofConfig) (group : String) (o : Option (List String))
    → q.nodes ≡ none
    → q.target_group ≡ some group
    → group ≢ ""
    → resolve_group group config ≡ ok o
    → AsksFor q config (or_empty o)
group-AsksFor q config group none e g named r = no_group group e g named r
group-AsksFor q config group (some nodes) e g named r = by_group group nodes e g named r

blank_group :
    (group : String) (config : HaltProofConfig)
    → (group == "") ≡ true
    → status_nodes none (some group) config ≡ ok none
unfolding status_nodes
blank_group group config e = rw (e, status_nodes) refl

named_group :
    (group : String) (config : HaltProofConfig)
    → (group == "") ≡ false
    → status_nodes none (some group) config ≡ resolve_group group config
unfolding status_nodes
named_group group config e = rw (e, status_nodes) refl

module _ (q : StatusRequest) (config : HaltProofConfig) (o : Option (List String)) where
  -- What is made of an answer that is known.
  answered :
      (known : Option (List String))
      → ◌≡◌ {A = Result Exn (Option (List String))} (ok known) (ok o)
      → AsksFor q config (or_empty known)
      → AsksFor q config (or_empty o)
  answered known e = subst (λ x. AsksFor q config (or_empty x)) (ok_injective e)

  split-AsksFor :
      (nodes : Option (List String)) (group : Option String)
      → q.nodes ≡ nodes
      → q.target_group ≡ group
      → status_nodes nodes group config ≡ ok o
      → AsksFor q config (or_empty o)
  split-AsksFor (some nodes) group en eg e =
      answered (some nodes) (unfold status_nodes in e) (by_list nodes en)
  split-AsksFor none none en eg e = answered none (unfold status_nodes in e) (no_name en eg)
  split-AsksFor none (some group) en eg e = elim (Bool-cases (group == "")) [
    | inl blank ↦
        answered none (sym (blank_group group config blank) ∙ e)
          (empty_name en (eg ∙ ap some ((eq_iff group "").0 blank)))
    | inr named ↦
        group-AsksFor q config group o en eg
          (λ same. false≢true (sym named ∙ (eq_iff group "").1 same))
          (sym (named_group group config named) ∙ e)
  ]

  status_nodes-AsksFor :
      status_nodes q.nodes q.target_group config ≡ ok o → AsksFor q config (or_empty o)
  status_nodes-AsksFor = split-AsksFor q.nodes q.target_group refl refl

module _ (p : Platform) (h : Host) where
  -- One entry for each of these nodes, in their order.
  abbrev pub AreListed : List Fields → List String → Type 0
  AreListed ms nodes =
      (found : List NodeStatus) × (ms ≡ map node_dict found) × (names_of found ≡ nodes)

  on_trace-Leads :
      (b : ClusterBackend) (nodes : List String) (w : World p)
      → Leads (on_trace p (status h b nodes)) w (λ found v. names_of found ≡ nodes)
  unfolding on_trace
  on_trace-Leads b nodes w found v e =
      status-IsOf h b nodes w.trace found v.trace (ap (λ x. (x.0, x.1.trace)) e)

  health-AreListed :
      (backend_name : Option String) (config : HaltProofConfig) (o : Option (List String))
      (w : World p)
      → Leads (health p h backend_name config o) w (λ found v. AreListed found.1 (or_empty o))
  unfolding health
  health-AreListed backend_name config none w =
      pure-Leads (λ found v. AreListed found.1 []) _ w ([], refl, refl)
  health-AreListed backend_name config (some []) w =
      pure-Leads (λ found v. AreListed found.1 []) _ w ([], refl, refl)
  health-AreListed backend_name config (some (n ∷ ns)) w = >>=-Leads _ _ w λ name w₁ e₁.
      >>=-Leads _ _ w₁ λ backend w₂ e₂. >>=-Leads _ _ w₂ λ statuses w₃ e₃.
        pure-Leads (λ found v. AreListed found.1 (n ∷ ns)) _ w₃
          (statuses, refl, on_trace-Leads backend (n ∷ ns) w₂ statuses w₃ e₃)

  -- What a report says: the nodes that were asked for, and which backends there are.
  pub record Reports (home : String) (q : StatusRequest) (w : World p) (report : StatusReport)
      : Type 0 where
    pub config : HaltProofConfig
    pub loaded : load_config p h home q.config_path w ≡ ok config
    pub asked : List String
    pub asks : AsksFor q config asked
    pub listed : AreListed report.nodes asked
    pub available : report.available_backends ≡ detect_available_backends h
    pub detected : report.auto_detected_backend ≡ detect_backend h

  pub run_status-Reports :
      (home : String) (q : StatusRequest) (w : World p)
      → Leads (run_status p h home q) w (λ report v. Reports home q w report)
  unfolding run_status
  run_status-Reports home q w = >>=-Leads _ _ w λ config w₁ e₁. >>=-Leads _ _ w₁ λ o w₂ e₂.
      >>=-Leads _ _ w₂ λ found w₃ e₃.
        pure-Leads (λ report v. Reports home q w report) _ w₃
          (record {
            config = config;
            loaded = (reads-Returns _ w e₁).0;
            asked = or_empty o;
            asks = status_nodes-AsksFor q config o (lift-Returns _ w₁ e₂);
            listed = health-AreListed q.backend_name config o w₂ found w₃ e₃;
            available = refl;
            detected = refl;
          })
