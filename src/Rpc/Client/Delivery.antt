-- ===== src/Rpc/Client/Delivery.antt =====
-- `RpcClient` of src/rpc/client.rs over `RpcServer` of src/rpc/server.rs.
use replicat.Prelude.{◌≡◌, refl, arith, Option, none, some}
use replicat.Exec.{Result, ok, err, with_err}
use replicat.Rpc.{RpcResponse, snapshot_mismatch, fatal}
use replicat.Openraft as Openraft
use replicat.Sql.{Bytes}
use replicat.Rpc.Peer.{Peer, RoundTrips, Append, Install, Ballot, InstallError}
use replicat.Rpc.Server.{
  install_error, Failure as ServerFailure, vote_from, log_id_from, map_option, response_ok,
  fatal_resp, handle_append_entries, handle_install_snapshot, handle_vote, handle_add_learner,
  handle_change_membership, handle_get_metrics, handle_mutate_state,
}
use replicat.Rpc.Client.Answers.{
  arrived, misread, heard, read_data, read_data-arrived, read_data-misread, read_data-heard,
}
use replicat.Rpc.Client.{Failure, Transport, to_log_id, append_entries, install_snapshot, vote}

-- A connection that loses nothing: what the server answers is what arrives, and a panic or a status
-- is an error of the call.
abbrev pub direct : (peer : Peer) → Transport peer.Raft
direct peer = record {
  append_entries = λ m. with_err (λ _. tt) (handle_append_entries peer m);
  install_snapshot = λ m. with_err (λ _. tt) (handle_install_snapshot peer m);
  vote = λ m. with_err (λ _. tt) (handle_vote peer m);
  add_learner = λ m. with_err (λ _. tt) (handle_add_learner peer m);
  change_membership = λ m. with_err (λ _. tt) (handle_change_membership peer m);
  get_metrics = with_err (λ _. tt) (handle_get_metrics peer);
  mutate_state = λ m. with_err (λ _. tt) (handle_mutate_state peer m);
}

-- What a caller of `install_snapshot` hears.
abbrev pub installed :
    (peer : Peer)
    → Result (InstallError peer.Mismatch peer.Fatal) peer.Installed
    → Result Failure peer.Installed
installed peer (ok res) = arrived peer.installed_codec res
installed peer (err (InstallError.snapshot_mismatch x)) =
    misread peer.mismatch_codec peer.installed_codec x
installed peer (err (InstallError.fatal x)) = misread peer.fatal_codec peer.installed_codec x

log_id_from-to_log_id :
    (o : Option Openraft.LogId) → map_option log_id_from (map_option to_log_id o) ≡ o
unfolding log_id_from
log_id_from-to_log_id none = refl
log_id_from-to_log_id (some id) = refl

module _ (peer : Peer) (law : RoundTrips peer) where
  open peer use {Raft}

  abbrev install_answer :
      Result (InstallError peer.Mismatch peer.Fatal) peer.Installed
      → Result ServerFailure RpcResponse
  install_answer (ok res) = response_ok peer.installed_codec res
  install_answer (err x) = install_error peer x

  read_data-installed :
      (r : Result (InstallError peer.Mismatch peer.Fatal) peer.Installed)
      → read_data peer.installed_codec (install_answer r) ≡ installed peer r
  unfolding fatal_resp
  read_data-installed (ok res) = read_data-arrived peer.installed_codec law.installed_ok res
  read_data-installed (err (InstallError.snapshot_mismatch x)) =
      read_data-misread peer.installed_codec peer.mismatch_codec snapshot_mismatch _ x
  read_data-installed (err (InstallError.fatal x)) =
      read_data-misread peer.installed_codec peer.fatal_codec fatal _ x

  -- Where the entries of a request have an encoding, the node gets the request that the caller gave,
  -- and the caller hears of what it returns.
  pub append_entries-heard :
      (req : Append peer.Membership) (raft : Raft) (b : Bytes)
      → peer.entries_codec.to_vec req.entries ≡ ok b
      → let (r, raft') = peer.append_entries req raft in
        append_entries peer (direct peer) req raft ≡ (heard peer peer.appended_codec r, raft')
  unfolding append_entries handle_append_entries response_ok fatal_resp vote_from
  append_entries-heard req raft b enc = ground (
    arith,
    law.entries_ok.decode req.entries b enc,
    read_data-heard peer.appended_codec peer law.appended_ok (peer.append_entries req raft).0,
    log_id_from-to_log_id req.prev_log_id,
    log_id_from-to_log_id req.leader_commit,
  )

  -- The same for `install_snapshot`: the chunk, its place and its metadata arrive as they were sent.
  pub install_snapshot-heard :
      (req : Install peer.Meta) (raft : Raft) (b : Bytes)
      → peer.meta_codec.to_vec req.meta ≡ ok b
      → let (r, raft') = peer.install_snapshot req raft in
        install_snapshot peer (direct peer) req raft ≡ (installed peer r, raft')
  unfolding install_snapshot handle_install_snapshot vote_from
  install_snapshot-heard req raft b enc = ground (
    arith,
    law.meta_ok.decode req.meta b enc,
    read_data-installed (peer.install_snapshot req raft).0,
  )

  -- The same for `vote`.
  pub vote-heard :
      (req : Ballot) (raft : Raft)
      → let (r, raft') = peer.vote req raft in
        vote peer (direct peer) req raft ≡ (heard peer peer.voted_codec r, raft')
  unfolding vote handle_vote response_ok fatal_resp vote_from
  vote-heard req raft = ground (
    arith,
    read_data-heard peer.voted_codec peer law.voted_ok (peer.vote req raft).0,
    log_id_from-to_log_id req.last_log_id,
  )
