-- ===== src/Backend/Clusters.antt =====
-- `ClusterBackend` of backends/base.py as the three classes that implement it, with the dispatch of
-- its four operations.
use halt_proof.Base.{String, ◌==◌, Bool, Option, none, some, List, if◌then◌else◌}
use halt_proof.Base.Results.{Result, ok, err}
use halt_proof.Errors.{Exn, type_error, value_error}
use halt_proof.Backend.Detect.{is_one_of, known_backend_names}
use halt_proof.Exec.{Exec}
use halt_proof.Host.{Host, Trace}
use halt_proof.Backend.{StepResult, NodeStatus}
use halt_proof.Backend.Kubernetes
use halt_proof.Backend.Slurm
use halt_proof.Backend.Ipmi

-- Each class with the attributes that its constructor sets.
pub data ClusterBackend : Type 0 where
  kubernetes : String → String → ClusterBackend
  slurm : ClusterBackend
  ipmi : Option String → String → ClusterBackend

-- The keyword arguments for a constructor, those that are given.
pub record Arguments : Type 0 where
  pub namespace : Option String
  pub user : Option String

-- A constructor raises for an argument that it does not have.
unfoldable pub construct : String → Arguments → Result Exn ClusterBackend
construct name a =
    if name == "kubernetes"
    then elim a.user [
      | some user ↦ err type_error
      | none ↦ ok (kubernetes (elim a.namespace [ none ↦ "default" | some ns ↦ ns ]) "haltproof")
    ]
    else elim a.namespace [
      | some ns ↦ err type_error
      | none ↦
          if name == "ipmi"
          then ok (ipmi a.user "lanplus")
          else elim a.user [ some user ↦ err type_error | none ↦ ok slurm ]
    ]

-- `get_backend` of backends/detect.py
unfoldable pub get_backend : String → Arguments → Result Exn ClusterBackend
unfolding construct is_one_of
get_backend name a =
    if is_one_of name known_backend_names then construct name a else err (value_error name)

module _ (h : Host) where
  unfoldable pub drain : ClusterBackend → List String → Bool → String → Exec Trace (List StepResult)
  drain (kubernetes namespace group) nodes dry_run reason =
      Kubernetes.drain h namespace group nodes dry_run
  drain slurm nodes dry_run reason = Slurm.drain h nodes dry_run reason
  drain (ipmi user interface) nodes dry_run reason = Ipmi.drain h user interface nodes dry_run

  unfoldable pub isolate_network :
      ClusterBackend → List String → Bool → Exec Trace (List StepResult)
  isolate_network (kubernetes namespace group) nodes dry_run =
      Kubernetes.isolate_network h namespace group nodes dry_run
  isolate_network slurm nodes dry_run = Slurm.isolate_network h nodes dry_run
  isolate_network (ipmi user interface) nodes dry_run =
      Ipmi.isolate_network h user interface nodes dry_run

  unfoldable pub power_fence : ClusterBackend → List String → Bool → Exec Trace (List StepResult)
  power_fence (kubernetes namespace group) nodes dry_run =
      Kubernetes.power_fence h namespace group nodes dry_run
  power_fence slurm nodes dry_run = Slurm.power_fence h nodes dry_run
  power_fence (ipmi user interface) nodes dry_run = Ipmi.power_fence h user interface nodes dry_run

  unfoldable pub status : ClusterBackend → List String → Exec Trace (List NodeStatus)
  status (kubernetes namespace group) nodes = Kubernetes.status h namespace group nodes
  status slurm nodes = Slurm.status h nodes
  status (ipmi user interface) nodes = Ipmi.status h user interface nodes
