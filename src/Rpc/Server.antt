-- ===== src/Rpc/Server.antt =====
-- src/rpc/server.rs: the handlers of `RpcServer`. A handler fails with a status, or panics.
use replicat.Prelude.{ℕ, String, true, false, Option, none, some, []}
use replicat.Exec.{Result, ok, err, Exec, lift, map_err, ◌>>=◌}
use replicat.Openraft as Openraft
use replicat.Sql.{Bytes}
use replicat.Env.{Codec}
use replicat.Library as Library
use replicat.Rpc.{
  Node, RpcResponse, Vote, LogId, AppendEntriesRequest, InstallSnapshotRequest, VoteRequest,
  ChangeMembershipRequest, MutateRequest, RpcError, no_error, forward_to_leader, change_membership,
  fatal, network, snapshot_mismatch, error_code,
}
use replicat.Rpc.Peer.{
  Peer, Append, Install, Ballot, BasicNode, ForwardToLeader, InstallError, AddLearnerError,
  ClientWriteError,
}

-- `Status` with `Code::Internal`, or the panic of an `unwrap`
pub data Failure : Type 0 where
  internal panicked : Failure

unfoldable pub vote_from : Vote → Openraft.Vote
vote_from vote = record { term = vote.term; node_id = vote.node_id; committed = vote.committed }

unfoldable pub log_id_from : LogId → Openraft.LogId
log_id_from log_id = record {
  leader_id = record { term = log_id.term; node_id = log_id.node_id };
  index = log_id.index;
}

-- `Option::map`
abbrev pub map_option : {A B : Type 0} → (A → B) → Option A → Option B
map_option f none = none
map_option f (some a) = some (f a)

abbrev pub unwrap : {A : Type 0} → Option A → Result Failure A
unwrap none = err panicked
unwrap (some a) = ok a

-- `to_bytes` and `from_bytes`, with their errors as a status
abbrev pub to_bytes : {A : Type 0} → Codec A → A → Result Failure Bytes
to_bytes codec a = map_err (λ _. internal) (Library.to_bytes codec a)

abbrev pub from_bytes : {A : Type 0} → Codec A → Bytes → Result Failure A
from_bytes codec b = map_err (λ _. internal) (Library.from_bytes codec b)

-- a response without a leader, if its data can be encoded
abbrev pub with_data : {A : Type 0} → RpcError → String → Codec A → A → Result Failure RpcResponse
with_data error message codec a = elim (to_bytes codec a) [
  | err e ↦ err e
  | ok data' ↦ ok (record {
    error = error_code error;
    leader = none;
    message = message;
    additional_data = data';
  })
]

-- `RpcResponse::ok`
unfoldable pub response_ok : {A : Type 0} → Codec A → A → Result Failure RpcResponse
unfolding error_code
response_ok codec v = with_data no_error "Request OK" codec v

abbrev pub leader_of : Option ℕ → Option BasicNode → Option Node
leader_of (some id) (some node) = some (record { id = id; rpc_addr = node.addr })
leader_of (some _) none = none
leader_of none _ = none

unfoldable pub forward_to_leader_resp : ForwardToLeader → Result Failure RpcResponse
unfolding error_code
forward_to_leader_resp leader = ok (record {
  error = error_code forward_to_leader;
  leader = leader_of leader.leader_id leader.leader_node;
  message = "Forward request to leader node.";
  additional_data = [];
})

module _ (peer : Peer) where
  open peer use {Raft, Fatal, NetworkError, ChangeError, Mismatch}

  unfoldable pub change_membership_resp : ChangeError → Result Failure RpcResponse
  unfolding error_code
  change_membership_resp error =
      with_data change_membership "Change the Raft membership." peer.change_error_codec error

  unfoldable pub network_error_resp : NetworkError → Result Failure RpcResponse
  unfolding error_code
  network_error_resp error =
      with_data network "A network error has occurred." peer.network_error_codec error

  unfoldable pub fatal_resp : Fatal → Result Failure RpcResponse
  unfolding error_code
  fatal_resp error = with_data fatal "Fatal error has occurred." peer.fatal_codec error

  unfoldable pub client_write_resp : ClientWriteError ChangeError Fatal → Result Failure RpcResponse
  unfolding forward_to_leader_resp change_membership_resp fatal_resp
  client_write_resp (ClientWriteError.forward_to_leader leader) = forward_to_leader_resp leader
  client_write_resp (ClientWriteError.change_membership error) = change_membership_resp error
  client_write_resp (ClientWriteError.fatal error) = fatal_resp error

  -- the answer to what the node returned, on the state that the call left
  abbrev pub respond :
      {E A : Type 0}
      → Codec A
      → (E → Result Failure RpcResponse)
      → Exec Raft E A
      → Exec Raft Failure RpcResponse
  respond codec on_error call raft =
      let (res, raft') = call raft in
      elim res [ ok v ↦ (response_ok codec v, raft') | err e ↦ (on_error e, raft') ]

  unfoldable pub handle_append_entries : AppendEntriesRequest → Exec Raft Failure RpcResponse
  unfolding response_ok fatal_resp vote_from log_id_from
  handle_append_entries request = do
    vote ← lift (unwrap request.vote)
    entries ← lift (from_bytes peer.entries_codec request.entries)
    let rpc : Append peer.Membership = record {
      vote = vote_from vote;
      prev_log_id = map_option log_id_from request.prev_log_id;
      entries = entries;
      leader_commit = map_option log_id_from request.leader_commit;
    }
    respond peer.appended_codec fatal_resp (peer.append_entries rpc)

  abbrev pub install_error : InstallError Mismatch Fatal → Result Failure RpcResponse
  install_error (InstallError.snapshot_mismatch error) =
      with_data snapshot_mismatch "The provided snapshot does not match." peer.mismatch_codec error
  install_error (InstallError.fatal error) = fatal_resp error

  unfoldable pub handle_install_snapshot : InstallSnapshotRequest → Exec Raft Failure RpcResponse
  unfolding response_ok fatal_resp vote_from error_code
  handle_install_snapshot request = do
    vote ← lift (unwrap request.vote)
    metadata ← lift (from_bytes peer.meta_codec request.meta)
    let rpc : Install peer.Meta = record {
      vote = vote_from vote;
      meta = metadata;
      offset = request.offset;
      data' = request.data';
      done = request.done;
    }
    respond peer.installed_codec install_error (peer.install_snapshot rpc)

  unfoldable pub handle_vote : VoteRequest → Exec Raft Failure RpcResponse
  unfolding response_ok fatal_resp vote_from log_id_from
  handle_vote request = do
    vote ← lift (unwrap request.vote)
    let rpc : Ballot = record {
      vote = vote_from vote;
      last_log_id = map_option log_id_from request.last_log_id;
    }
    respond peer.voted_codec fatal_resp (peer.vote rpc)

  abbrev pub add_learner_error : AddLearnerError NetworkError Fatal → Result Failure RpcResponse
  add_learner_error (AddLearnerError.forward_to_leader leader) = forward_to_leader_resp leader
  add_learner_error (AddLearnerError.network_error error) = network_error_resp error
  add_learner_error (AddLearnerError.fatal error) = fatal_resp error

  unfoldable pub handle_add_learner : Node → Exec Raft Failure RpcResponse
  unfolding response_ok fatal_resp forward_to_leader_resp network_error_resp
  handle_add_learner node =
      respond peer.added_codec add_learner_error
        (peer.add_learner node.id (record { addr = node.rpc_addr }) false)

  unfoldable pub handle_change_membership : ChangeMembershipRequest → Exec Raft Failure RpcResponse
  unfolding response_ok client_write_resp
  handle_change_membership request =
      respond peer.written_codec client_write_resp
        (peer.change_membership request.members true true)

  unfoldable pub handle_get_metrics : Exec Raft Failure RpcResponse
  unfolding response_ok
  handle_get_metrics raft = (response_ok peer.metrics_codec (peer.metrics raft), raft)

  unfoldable pub handle_mutate_state : MutateRequest → Exec Raft Failure RpcResponse
  unfolding response_ok client_write_resp
  handle_mutate_state request = do
    params ← lift (from_bytes peer.params_codec request.parameters)
    respond peer.written_codec client_write_resp
        (peer.client_write (Openraft.Request.execute request.sql params))
