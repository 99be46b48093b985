-- ===== src/Rpc.antt =====
-- src/rpc: the messages of rpc_models.rs, and the types that its callers and openraft share.
pub mod Peer
pub mod Server
pub mod Client
pub mod Wire
use replicat.Prelude.{ℕ, String, Bool, Option, List}
use replicat.Sql.{Bytes}

-- the messages on the wire
pub record Node : Type 0 where
  pub id : ℕ
  pub rpc_addr : String

pub record RpcResponse : Type 0 where
  pub error : ℕ
  pub leader : Option Node
  pub message : String
  pub additional_data : Bytes

pub record Vote : Type 0 where
  pub term : ℕ
  pub node_id : ℕ
  pub committed : Bool

pub record LogId : Type 0 where
  pub term : ℕ
  pub node_id : ℕ
  pub index : ℕ

pub record AppendEntriesRequest : Type 0 where
  pub vote : Option Vote
  pub prev_log_id : Option LogId
  pub entries : Bytes
  pub leader_commit : Option LogId

pub record InstallSnapshotRequest : Type 0 where
  pub vote : Option Vote
  pub meta : Bytes
  pub offset : ℕ
  pub data' : Bytes
  pub done : Bool

pub record VoteRequest : Type 0 where
  pub vote : Option Vote
  pub last_log_id : Option LogId

pub record ChangeMembershipRequest : Type 0 where
  pub members : List ℕ

pub data MetricsRequest : Type 0 where
  metrics_request : MetricsRequest

pub record MutateRequest : Type 0 where
  pub sql : String
  pub parameters : Bytes

pub data RpcError : Type 0 where
  no_error forward_to_leader change_membership fatal network snapshot_mismatch : RpcError

-- `as i32`
unfoldable pub error_code : RpcError → ℕ
error_code no_error = 0
error_code forward_to_leader = 1
error_code change_membership = 2
error_code fatal = 3
error_code network = 4
error_code snapshot_mismatch = 5

unfoldable pub as_str_name : RpcError → String
as_str_name no_error = "None"
as_str_name forward_to_leader = "ForwardToLeader"
as_str_name change_membership = "ChangeMembership"
as_str_name fatal = "Fatal"
as_str_name network = "Network"
as_str_name snapshot_mismatch = "SnapshotMismatch"
