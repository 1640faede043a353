-- ===== src/Backend/Health.antt =====
-- The operation `status` of the three backends: one entry for each node, in the order of the nodes.
use halt_proof.Base.{
  String, ◌≡◌, refl, ap, ap₂, ◌∙◌, Option, Bool, true, false, List, [], ◌∷◌, ◌++◌, map,
  if◌then◌else◌,
}
use halt_proof.Base.Results.{Result, ok, err}
use halt_proof.Base.Int.{pos, eqb_ℤ}
use halt_proof.Exec.{Exec, pure, raise, collect, ◌>>=◌, Leads, >>=-Leads, pure-Leads}
use halt_proof.Host.{Host, Trace, Outcome, completed, not_found, timed_out, raised}
use halt_proof.Json.{Json}
use halt_proof.Errors.{Exn}
use halt_proof.Backend.{NodeStatus}
use halt_proof.Backend.Clusters.{ClusterBackend, kubernetes, slurm, ipmi, status}
use halt_proof.Backend.Kubernetes
use halt_proof.Backend.Slurm
use halt_proof.Backend.Ipmi

abbrev pub names_of : List NodeStatus → List String
names_of = map (λ n. n.node)

-- Where it returns, it returns the entries of these nodes.
abbrev pub IsOf : Exec Trace (List NodeStatus) → List String → Type 0
IsOf m nodes = (t : Trace) → Leads m t (λ found u. names_of found ≡ nodes)

pure-IsOf : (found : List NodeStatus) → IsOf (pure found) (names_of found)
pure-IsOf found t = pure-Leads (λ l u. names_of l ≡ names_of found) found t refl

raise-IsOf : (e : Exn) (nodes : List String) → IsOf (raise e) nodes
unfolding raise
raise-IsOf e nodes t found u h = cc

if-IsOf :
    (b : Bool) (m n : Exec Trace (List NodeStatus)) (nodes : List String)
    → IsOf m nodes
    → IsOf n nodes
    → IsOf (if b then m else n) nodes
if-IsOf true m n nodes h g = h
if-IsOf false m n nodes h g = g

result-IsOf :
    (r : Result String Json) (f : String → Exec Trace (List NodeStatus))
    (g : Json → Exec Trace (List NodeStatus)) (nodes : List String)
    → ((text : String) → IsOf (f text) nodes)
    → ((v : Json) → IsOf (g v) nodes)
    → IsOf (elim r as (λ _. Exec Trace (List NodeStatus)) [ err text ↦ f text | ok v ↦ g v ]) nodes
result-IsOf (err text) f g nodes h k = h text
result-IsOf (ok v) f g nodes h k = k v

names_of-append : (a b : List NodeStatus) → names_of (a ++ b) ≡ names_of a ++ names_of b
names_of-append [] b = refl
names_of-append (x ∷ a) b = ap (λ l. x.node ∷ l) (names_of-append a b)

-- The entries of two parts, one after the other.
append-IsOf :
    (m rest : Exec Trace (List NodeStatus)) (front back : List String)
    → IsOf m front
    → IsOf rest back
    → IsOf (m >>= λ found. rest >>= λ later. pure (found ++ later)) (front ++ back)
append-IsOf m rest front back h g t = >>=-Leads m _ t λ found u e. >>=-Leads rest _ u λ later v k.
    pure-Leads (λ l _. names_of l ≡ front ++ back) (found ++ later) v
      (names_of-append found later ∙ ap₂ ◌++◌ (h t found u e) (g u later v k))

collect-IsOf :
    (check : String → Exec Trace (List NodeStatus))
    → ((n : String) → IsOf (check n) (n ∷ []))
    → (nodes : List String) → IsOf (collect check nodes) nodes
unfolding collect
collect-IsOf check one [] = pure-IsOf []
collect-IsOf check one (n ∷ nodes) =
    append-IsOf (check n) (collect check nodes) (n ∷ []) nodes (one n)
      (collect-IsOf check one nodes)

-- The call, and what is made of its outcome.
checked-IsOf :
    (m : Exec Trace Outcome) (k : Outcome → Exec Trace (List NodeStatus)) (nodes : List String)
    → ((o : Outcome) → IsOf (k o) nodes)
    → IsOf (m >>= k) nodes
checked-IsOf m k nodes h t = >>=-Leads m k t λ o u e. h o u

module _ (h : Host) where
  Slurm-IsOf : (node : String) (o : Outcome) → IsOf (Slurm.node_status h node o) (node ∷ [])
  unfolding Slurm.node_status
  Slurm-IsOf node (not_found text) = pure-IsOf _
  Slurm-IsOf node (timed_out seconds text) = raise-IsOf _ _
  Slurm-IsOf node (raised e) = raise-IsOf _ _
  Slurm-IsOf node (completed r) =
      if-IsOf (eqb_ℤ r.returncode (pos 0)) _ _ _ (pure-IsOf _) (pure-IsOf _)

  Ipmi-IsOf :
      (node : String) (user : Option String) (interface : String) (o : Outcome)
      → IsOf (Ipmi.node_status h user interface node o) (node ∷ [])
  unfolding Ipmi.node_status
  Ipmi-IsOf node user interface (not_found text) = pure-IsOf _
  Ipmi-IsOf node user interface (timed_out seconds text) = raise-IsOf _ _
  Ipmi-IsOf node user interface (raised e) = raise-IsOf _ _
  Ipmi-IsOf node user interface (completed r) =
      if-IsOf (eqb_ℤ r.returncode (pos 0)) _ _ _ (pure-IsOf _) (pure-IsOf _)

  Kubernetes-IsOf :
      (namespace group node : String) (o : Outcome)
      → IsOf (Kubernetes.node_status h namespace group node o) (node ∷ [])
  unfolding Kubernetes.node_status
  Kubernetes-IsOf namespace group node (not_found text) = pure-IsOf _
  Kubernetes-IsOf namespace group node (timed_out seconds text) = raise-IsOf _ _
  Kubernetes-IsOf namespace group node (raised e) = raise-IsOf _ _
  Kubernetes-IsOf namespace group node (completed r) =
      if-IsOf (eqb_ℤ r.returncode (pos 0)) _ _ _
        (result-IsOf (h.parse_json r.stdout) _ _ _ (λ text. pure-IsOf _)
          λ v t. >>=-Leads _ _ t λ state u e. pure-IsOf _ u)
        (pure-IsOf _)

  -- `status` of a backend, where it returns, has one entry for each node, in their order.
  pub status-IsOf : (b : ClusterBackend) (nodes : List String) → IsOf (status h b nodes) nodes
  unfolding status Kubernetes.status Kubernetes.check_node Slurm.status Slurm.check_node Ipmi.status
      Ipmi.check_node
  status-IsOf (kubernetes namespace group) nodes =
      collect-IsOf _ (λ n. checked-IsOf _ _ _ (Kubernetes-IsOf namespace group n)) nodes
  status-IsOf slurm nodes = collect-IsOf _ (λ n. checked-IsOf _ _ _ (Slurm-IsOf n)) nodes
  status-IsOf (ipmi user interface) nodes =
      collect-IsOf _ (λ n. checked-IsOf _ _ _ (Ipmi-IsOf n user interface)) nodes
