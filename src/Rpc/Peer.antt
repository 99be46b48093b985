-- ===== src/Rpc/Peer.antt =====
-- What src/rpc calls: a node of openraft, and rmp_serde at the types that are sent.
use replicat.Prelude.{ℕ, String, Bool, Option, List}
use replicat.Exec.{Exec}
use replicat.Openraft as Openraft
use replicat.Params.{TransportableParam}
use replicat.Sql.{Bytes}
use replicat.Env.{Codec, IsRoundTrip}

-- openraft::raft::AppendEntriesRequest, InstallSnapshotRequest and VoteRequest
pub record Append (Membership : Type 0) : Type 0 where
  pub vote : Openraft.Vote
  pub prev_log_id : Option Openraft.LogId
  pub entries : List (Openraft.Entry Membership)
  pub leader_commit : Option Openraft.LogId

pub record Install (Meta : Type 0) : Type 0 where
  pub vote : Openraft.Vote
  pub meta : Meta
  pub offset : ℕ
  pub data' : Bytes
  pub done : Bool

pub record Ballot : Type 0 where
  pub vote : Openraft.Vote
  pub last_log_id : Option Openraft.LogId

pub record BasicNode : Type 0 where
  pub addr : String

pub record ForwardToLeader : Type 0 where
  pub leader_id : Option ℕ
  pub leader_node : Option BasicNode

-- `AppendEntriesError` and `VoteError` are a `Fatal`.
pub data InstallError (Mismatch Fatal : Type 0) : Type 0 where
  snapshot_mismatch : Mismatch → InstallError Mismatch Fatal
  fatal : Fatal → InstallError Mismatch Fatal

pub data AddLearnerError (NetworkError Fatal : Type 0) : Type 0 where
  forward_to_leader : ForwardToLeader → AddLearnerError NetworkError Fatal
  network_error : NetworkError → AddLearnerError NetworkError Fatal
  fatal : Fatal → AddLearnerError NetworkError Fatal

pub data ClientWriteError (ChangeError Fatal : Type 0) : Type 0 where
  forward_to_leader : ForwardToLeader → ClientWriteError ChangeError Fatal
  change_membership : ChangeError → ClientWriteError ChangeError Fatal
  fatal : Fatal → ClientWriteError ChangeError Fatal

pub record Peer : Type 1 where
  -- the state of a node, and what it may answer
  pub Raft : Type 0
  pub Membership : Type 0
  pub Meta : Type 0
  pub Fatal : Type 0
  pub Mismatch : Type 0
  pub NetworkError : Type 0
  pub ChangeError : Type 0
  pub Appended : Type 0
  pub Installed : Type 0
  pub Voted : Type 0
  pub Added : Type 0
  pub Written : Type 0
  pub Metrics : Type 0
  -- the calls on a node
  pub append_entries : Append Membership → Exec Raft Fatal Appended
  pub install_snapshot : Install Meta → Exec Raft (InstallError Mismatch Fatal) Installed
  pub vote : Ballot → Exec Raft Fatal Voted
  pub add_learner : ℕ → BasicNode → Bool → Exec Raft (AddLearnerError NetworkError Fatal) Added
  pub change_membership :
      List ℕ → Bool → Bool → Exec Raft (ClientWriteError ChangeError Fatal) Written
  pub metrics : Raft → Metrics
  pub client_write : Openraft.Request → Exec Raft (ClientWriteError ChangeError Fatal) Written
  -- rmp_serde
  pub entries_codec : Codec (List (Openraft.Entry Membership))
  pub meta_codec : Codec Meta
  pub params_codec : Codec (List TransportableParam)
  pub fatal_codec : Codec Fatal
  pub mismatch_codec : Codec Mismatch
  pub network_error_codec : Codec NetworkError
  pub change_error_codec : Codec ChangeError
  pub appended_codec : Codec Appended
  pub installed_codec : Codec Installed
  pub voted_codec : Codec Voted
  pub added_codec : Codec Added
  pub written_codec : Codec Written
  pub metrics_codec : Codec Metrics

pub record RoundTrips (peer : Peer) : Type 0 where
  pub entries_ok : IsRoundTrip peer.entries_codec
  pub meta_ok : IsRoundTrip peer.meta_codec
  pub params_ok : IsRoundTrip peer.params_codec
  pub appended_ok : IsRoundTrip peer.appended_codec
  pub installed_ok : IsRoundTrip peer.installed_codec
  pub voted_ok : IsRoundTrip peer.voted_codec
  pub added_ok : IsRoundTrip peer.added_codec
