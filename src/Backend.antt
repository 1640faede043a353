-- ===== src/Backend.antt =====
-- backends/base.py: the outcome of one operation on one node, and its dict.
pub mod Runner
pub mod Kubernetes
pub mod Slurm
pub mod Ipmi
pub mod Detect
pub mod Clusters
pub mod DryRun
pub mod Executed
pub mod Health
use halt_proof.Base.{String, Bool, List}
use halt_proof.Json.{Json, str, bool, arr, Fields, end, field, strings}

pub data StepStatus : Type 0 where
  planned success failure skipped : StepStatus

-- `status.value`
unfoldable pub value : StepStatus → String
value planned = "planned"
value success = "success"
value failure = "failure"
value skipped = "skipped"

pub record StepResult : Type 0 where
  pub node : String
  pub operation : String
  pub command : List String
  pub status : StepStatus
  pub detail : String
  pub timestamp : String

-- `StepResult.to_dict`
unfoldable pub step_dict : StepResult → Fields
unfolding value strings
step_dict s = field "node" (str s.node) (
    field "operation" (str s.operation) (
      field "command" (arr (strings s.command)) (
        field "status" (str (value s.status))
          (field "detail" (str s.detail) (field "timestamp" (str s.timestamp) end)))))

pub record NodeStatus : Type 0 where
  pub node : String
  pub reachable : Bool
  pub state : String
  pub detail : String

-- `NodeStatus.to_dict`
unfoldable pub node_dict : NodeStatus → Fields
node_dict n = field "node" (str n.node) (
    field "reachable" (bool n.reachable)
      (field "state" (str n.state) (field "detail" (str n.detail) end)))
