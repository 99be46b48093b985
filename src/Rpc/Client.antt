-- ===== src/Rpc/Client.antt =====
-- src/rpc/client.rs: the calls of `RpcClient`. The connection to a server is a parameter.
pub mod Answers
pub mod Delivery
pub mod Mutate
pub mod Members
use replicat.Prelude.{ℕ, String, Option, none, some, List, ◌==◌, if◌then◌else◌}
use replicat.Exec.{Result, ok, err, Exec, pure, lift, map_err, with_err, ◌>>=◌}
use replicat.Params.{TransportableParam}
use replicat.Openraft as Openraft
use replicat.Sql.{Bytes}
use replicat.Env.{Codec}
use replicat.Library as Library
use replicat.Rpc.{
  Node, RpcResponse, Vote, LogId, AppendEntriesRequest, InstallSnapshotRequest, VoteRequest,
  ChangeMembershipRequest, MutateRequest, forward_to_leader, error_code,
}
use replicat.Rpc.Peer.{Peer, Append, Install, Ballot}
use replicat.Rpc.Server.{map_option}

-- `Error`; what the library's errors say is left out
pub data Error : Type 0 where
  network_error serialization_error deserialization_error : Error
  update_leader : Node → Error
  unknown_leader : Error

-- An error, or the panic of an `unwrap`.
pub data Failure : Type 0 where
  failed : Error → Failure
  panicked : Failure

-- `ClusterRpcClient` of tonic; a call of it fails with a status.
pub record Transport (S : Type 0) : Type 0 where
  pub append_entries : AppendEntriesRequest → Exec S Unit RpcResponse
  pub install_snapshot : InstallSnapshotRequest → Exec S Unit RpcResponse
  pub vote : VoteRequest → Exec S Unit RpcResponse
  pub add_learner : Node → Exec S Unit RpcResponse
  pub change_membership : ChangeMembershipRequest → Exec S Unit RpcResponse
  pub get_metrics : Exec S Unit RpcResponse
  pub mutate_state : MutateRequest → Exec S Unit RpcResponse

abbrev pub to_vote : Openraft.Vote → Vote
to_vote vote = record { term = vote.term; node_id = vote.node_id; committed = vote.committed }

abbrev pub to_log_id : Openraft.LogId → LogId
to_log_id log_id = record {
  term = log_id.leader_id.term;
  node_id = log_id.leader_id.node_id;
  index = log_id.index;
}

-- `to_bytes(..)?` and `from_bytes(..)?`
abbrev pub to_bytes : {A : Type 0} → Codec A → A → Result Failure Bytes
to_bytes codec a = map_err (λ _. failed serialization_error) (Library.to_bytes codec a)

abbrev pub from_bytes : {A : Type 0} → Codec A → Bytes → Result Failure A
from_bytes codec b = map_err (λ _. failed deserialization_error) (Library.from_bytes codec b)

-- `.await?` on a call
abbrev pub sent : {S : Type 0} → Exec S Unit RpcResponse → Exec S Failure RpcResponse
sent call = with_err (λ _. failed network_error) call

-- the answer to `mutate_state`
abbrev leader_or_panic : Option Node → Result Failure Unit
leader_or_panic none = err panicked
leader_or_panic (some leader) = err (failed (update_leader leader))

unfoldable pub mutate_answer : RpcResponse → Result Failure Unit
unfolding error_code
mutate_answer resp =
    if resp.error == error_code forward_to_leader then leader_or_panic resp.leader else ok tt

module _ (peer : Peer) {S : Type 0} (client : Transport S) where
  unfoldable pub append_entries : Append peer.Membership → Exec S Failure peer.Appended
  append_entries req = do
    entries ← lift (to_bytes peer.entries_codec req.entries)
    let message : AppendEntriesRequest = record {
      vote = some (to_vote req.vote);
      prev_log_id = map_option to_log_id req.prev_log_id;
      entries = entries;
      leader_commit = map_option to_log_id req.leader_commit;
    }
    resp ← sent (client.append_entries message)
    lift (from_bytes peer.appended_codec resp.additional_data)

  unfoldable pub install_snapshot : Install peer.Meta → Exec S Failure peer.Installed
  install_snapshot req = do
    metadata ← lift (to_bytes peer.meta_codec req.meta)
    let message : InstallSnapshotRequest = record {
      vote = some (to_vote req.vote);
      meta = metadata;
      offset = req.offset;
      data' = req.data';
      done = req.done;
    }
    resp ← sent (client.install_snapshot message)
    lift (from_bytes peer.installed_codec resp.additional_data)

  unfoldable pub vote : Ballot → Exec S Failure peer.Voted
  vote req = do
    let message : VoteRequest = record {
      vote = some (to_vote req.vote);
      last_log_id = map_option to_log_id req.last_log_id;
    }
    resp ← sent (client.vote message)
    lift (from_bytes peer.voted_codec resp.additional_data)

  unfoldable pub add_learner : ℕ → String → Exec S Failure peer.Added
  add_learner node_id addr = do
    resp ← sent (client.add_learner (record { id = node_id; rpc_addr = addr }))
    lift (from_bytes peer.added_codec resp.additional_data)

  unfoldable pub change_membership : List ℕ → Exec S Failure Unit
  change_membership members = do
    resp ← sent (client.change_membership (record { members = members }))
    pure tt

  unfoldable pub get_metrics : Exec S Failure peer.Metrics
  get_metrics = do
    resp ← sent client.get_metrics
    lift (from_bytes peer.metrics_codec resp.additional_data)

  unfoldable pub mutate_state : String → List TransportableParam → Exec S Failure Unit
  unfolding mutate_answer
  mutate_state sql params = do
    parameters ← lift (to_bytes peer.params_codec params)
    resp ← sent (client.mutate_state (record { sql = sql; parameters = parameters }))
    lift (mutate_answer resp)
