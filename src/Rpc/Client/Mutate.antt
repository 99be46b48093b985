-- ===== src/Rpc/Client/Mutate.antt =====
-- `mutate_state` of the client against the server's, on every answer of the node.
use replicat.Prelude.{String, ◌≡◌, ◌≢◌, refl, arith, Option, none, some, List}
use replicat.Exec.{Result, ok, err}
use replicat.Params.{TransportableParam}
use replicat.Openraft as Openraft
use replicat.Sql.{Bytes}
use replicat.Env.{Codec}
use replicat.Rpc.{
  Node, RpcResponse, RpcError, no_error, forward_to_leader, change_membership, fatal, error_code,
}
use replicat.Rpc.Peer.{Peer, RoundTrips, ClientWriteError}
use replicat.Rpc.Server.{
  Failure as ServerFailure, with_data, leader_of, response_ok, fatal_resp, forward_to_leader_resp,
  change_membership_resp, client_write_resp, handle_mutate_state,
}
use replicat.Rpc.Client.{
  Failure, failed, panicked, network_error, update_leader, mutate_answer, mutate_state,
}
use replicat.Rpc.Client.Delivery.{direct}

-- What a caller is told: an error whose encoding fails is a status, and one that has an encoding is
-- no error at all.
abbrev pub hidden : {A : Type 0} → Codec A → A → Result Failure Unit
hidden codec a = elim (codec.to_vec a) [ ok _ ↦ ok tt | err _ ↦ err (failed network_error) ]

abbrev redirected : Option Node → Result Failure Unit
redirected none = err panicked
redirected (some leader) = err (failed (update_leader leader))

abbrev pub told :
    (peer : Peer)
    → Result (ClientWriteError peer.ChangeError peer.Fatal) peer.Written
    → Result Failure Unit
told peer (ok res) = hidden peer.written_codec res
told peer (err (ClientWriteError.forward_to_leader f)) =
    redirected (leader_of f.leader_id f.leader_node)
told peer (err (ClientWriteError.change_membership x)) = hidden peer.change_error_codec x
told peer (err (ClientWriteError.fatal x)) = hidden peer.fatal_codec x

module _ (peer : Peer) (law : RoundTrips peer) where
  open peer use {Raft}

  -- the answer to what the node returned, as the client reads it
  abbrev read_answer : Result ServerFailure RpcResponse → Result Failure Unit
  read_answer (ok resp) = mutate_answer resp
  read_answer (err _) = err (failed network_error)

  abbrev write_answer :
      Result (ClientWriteError peer.ChangeError peer.Fatal) peer.Written
      → Result ServerFailure RpcResponse
  write_answer (ok res) = response_ok peer.written_codec res
  write_answer (err x) = client_write_resp peer x

  data-hidden :
      {A : Type 0} (codec : Codec A) (error : RpcError) (message : String) (a : A)
      → ◌≢◌ (error_code error) (error_code forward_to_leader)
      → read_answer (with_data error message codec a) ≡ hidden codec a
  unfolding mutate_answer error_code
  data-hidden codec error message a other = ground arith

  read_answer-told :
      (r : Result (ClientWriteError peer.ChangeError peer.Fatal) peer.Written)
      → read_answer (write_answer r) ≡ told peer r
  unfolding response_ok client_write_resp mutate_answer forward_to_leader_resp
      change_membership_resp fatal_resp error_code
  read_answer-told (ok res) = data-hidden peer.written_codec no_error _ res (λ e. omega (arith, e))
  read_answer-told (err (ClientWriteError.forward_to_leader f)) =
      elim (leader_of f.leader_id f.leader_node) [ none ↦ refl | some n ↦ refl ]
  read_answer-told (err (ClientWriteError.change_membership x)) =
      data-hidden peer.change_error_codec change_membership _ x (λ e. omega (arith, e))
  read_answer-told (err (ClientWriteError.fatal x)) =
      data-hidden peer.fatal_codec fatal _ x (λ e. omega (arith, e))

  -- Where the parameters have an encoding, the node gets the statement and the parameters of the
  -- caller, and the caller is told of a leader to turn to, or panics where the node knows none; a
  -- fatal error, a refused change of membership and a success are told alike.
  pub mutate_state-told :
      (sql : String) (params : List TransportableParam) (raft : Raft) (b : Bytes)
      → peer.params_codec.to_vec params ≡ ok b
      → let (r, raft') = peer.client_write (Openraft.Request.execute sql params) raft in
        mutate_state peer (direct peer) sql params raft ≡ (told peer r, raft')
  unfolding mutate_state handle_mutate_state
  mutate_state-told sql params raft b enc =
      let call = peer.client_write (Openraft.Request.execute sql params) raft in
      ground (arith, law.params_ok.decode params b enc, read_answer-told call.0)
