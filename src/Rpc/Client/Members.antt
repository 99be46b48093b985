-- ===== src/Rpc/Client/Members.antt =====
-- `add_learner` and `change_membership` of the client against the server's, on every answer of the
-- node.
use replicat.Prelude.{ℕ, String, ◌≡◌, refl, arith, true, false, List, []}
use replicat.Exec.{Result, ok, err}
use replicat.Env.{Codec}
use replicat.Rpc.{RpcResponse, RpcError, no_error, fatal, network}
use replicat.Rpc.Peer.{Peer, RoundTrips, AddLearnerError, ClientWriteError}
use replicat.Rpc.Server.{
  Failure as ServerFailure, with_data, response_ok, fatal_resp, forward_to_leader_resp,
  network_error_resp, change_membership_resp, client_write_resp, add_learner_error,
  handle_add_learner, handle_change_membership,
}
use replicat.Rpc.Client.{Failure, failed, network_error, from_bytes, add_learner, change_membership}
use replicat.Rpc.Client.Answers.{arrived, misread, read_data, read_data-arrived, read_data-misread}
use replicat.Rpc.Client.Delivery.{direct}
use replicat.Rpc.Client.Mutate.{hidden}

-- What a caller of `add_learner` is told: a leader to turn to is dropped, and what is left of that
-- answer is an encoding without bytes.
abbrev pub learned :
    (peer : Peer)
    → Result (AddLearnerError peer.NetworkError peer.Fatal) peer.Added
    → Result Failure peer.Added
learned peer (ok res) = arrived peer.added_codec res
learned peer (err (AddLearnerError.forward_to_leader _)) = from_bytes peer.added_codec []
learned peer (err (AddLearnerError.network_error x)) =
    misread peer.network_error_codec peer.added_codec x
learned peer (err (AddLearnerError.fatal x)) = misread peer.fatal_codec peer.added_codec x

-- What a caller of `change_membership` is told: all but an answer that has no encoding is a success.
abbrev pub granted :
    (peer : Peer)
    → Result (ClientWriteError peer.ChangeError peer.Fatal) peer.Written
    → Result Failure Unit
granted peer (ok res) = hidden peer.written_codec res
granted peer (err (ClientWriteError.forward_to_leader _)) = ok tt
granted peer (err (ClientWriteError.change_membership x)) = hidden peer.change_error_codec x
granted peer (err (ClientWriteError.fatal x)) = hidden peer.fatal_codec x

module _ (peer : Peer) (law : RoundTrips peer) where
  open peer use {Raft}

  abbrev added_answer :
      Result (AddLearnerError peer.NetworkError peer.Fatal) peer.Added
      → Result ServerFailure RpcResponse
  added_answer (ok res) = response_ok peer.added_codec res
  added_answer (err x) = add_learner_error peer x

  read_data-learned :
      (r : Result (AddLearnerError peer.NetworkError peer.Fatal) peer.Added)
      → read_data peer.added_codec (added_answer r) ≡ learned peer r
  unfolding fatal_resp forward_to_leader_resp network_error_resp
  read_data-learned (ok res) = read_data-arrived peer.added_codec law.added_ok res
  read_data-learned (err (AddLearnerError.forward_to_leader f)) = refl
  read_data-learned (err (AddLearnerError.network_error x)) =
      read_data-misread peer.added_codec peer.network_error_codec network _ x
  read_data-learned (err (AddLearnerError.fatal x)) =
      read_data-misread peer.added_codec peer.fatal_codec fatal _ x

  abbrev read_written : Result ServerFailure RpcResponse → Result Failure Unit
  read_written (ok _) = ok tt
  read_written (err _) = err (failed network_error)

  abbrev written_answer :
      Result (ClientWriteError peer.ChangeError peer.Fatal) peer.Written
      → Result ServerFailure RpcResponse
  written_answer (ok res) = response_ok peer.written_codec res
  written_answer (err x) = client_write_resp peer x

  data-granted :
      {A : Type 0} (codec : Codec A) (error : RpcError) (message : String) (a : A)
      → read_written (with_data error message codec a) ≡ hidden codec a
  data-granted codec error message a = ground arith

  read_written-granted :
      (r : Result (ClientWriteError peer.ChangeError peer.Fatal) peer.Written)
      → read_written (written_answer r) ≡ granted peer r
  unfolding response_ok client_write_resp forward_to_leader_resp change_membership_resp fatal_resp
  read_written-granted (ok res) = data-granted peer.written_codec no_error _ res
  read_written-granted (err (ClientWriteError.forward_to_leader f)) = refl
  read_written-granted (err (ClientWriteError.change_membership x)) =
      data-granted peer.change_error_codec RpcError.change_membership _ x
  read_written-granted (err (ClientWriteError.fatal x)) = data-granted peer.fatal_codec fatal _ x

  -- The node gets the id and the address of the caller, and the call is not blocking.
  pub add_learner-learned :
      (node_id : ℕ) (addr : String) (raft : Raft)
      → let (r, raft') = peer.add_learner node_id (record { addr = addr }) false raft in
        add_learner peer (direct peer) node_id addr raft ≡ (learned peer r, raft')
  unfolding add_learner handle_add_learner response_ok fatal_resp forward_to_leader_resp
      network_error_resp
  add_learner-learned node_id addr raft =
      ground
        (arith, read_data-learned (peer.add_learner node_id (record { addr = addr }) false raft).0)

  -- The node gets the members of the caller.
  pub change_membership-granted :
      (members : List ℕ) (raft : Raft)
      → let (r, raft') = peer.change_membership members true true raft in
        change_membership peer (direct peer) members raft ≡ (granted peer r, raft')
  unfolding change_membership handle_change_membership response_ok client_write_resp
      forward_to_leader_resp change_membership_resp fatal_resp
  change_membership-granted members raft =
      ground (arith, read_written-granted (peer.change_membership members true true raft).0)
