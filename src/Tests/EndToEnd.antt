-- ===== src/Tests/EndToEnd.antt =====
-- Calls of a client through the generated code, to the node of Tests/Peers.antt.
use replicat.Prelude.{ℕ, ◌≡◌, refl, arith, none, some, [], ◌∷◌}
use replicat.Exec.{Exec, ok, err}
use replicat.Params.{TransportableParam}
use replicat.Rpc.{RpcResponse}
use replicat.Rpc.Server.{
  Failure, handle_append_entries, handle_add_learner, handle_change_membership, handle_mutate_state,
  network_error_resp, change_membership_resp, response_ok, vote_from, log_id_from,
  client_write_resp, forward_to_leader_resp,
}
use replicat.Rpc.Client.{
  Transport, failed, update_leader, append_entries, add_learner, change_membership, mutate_state,
}
use replicat.Rpc.Wire.EndToEnd.{
  append_message, mutate_message, ResponseDecodes, wired, append_entries-wired, add_learner-wired,
  change_membership-wired, mutate_state-wired,
}
use replicat.Tests.Peers.{peer, peer-RoundTrips, one_append}
use replicat.Tests.Wire.{grpc, prost, grpc-IsGrpc, open_channel}

-- the one response that a call returns decodes
one-decodes :
    (call : Exec ℕ Failure RpcResponse) (s : ℕ) (resp : RpcResponse)
    → (call s).0 ≡ ok resp
    → prost.rpc_response.decode (prost.rpc_response.encode resp) ≡ some resp
    → ResponseDecodes prost call s
one-decodes call s resp e d resp' e' = ground (arith, e, d, e')

append-decodes :
    ResponseDecodes prost
      (handle_append_entries peer (append_message one_append (1 ∷ 7 ∷ 1 ∷ [])))
      4
unfolding handle_append_entries response_ok vote_from log_id_from
append-decodes =
    one-decodes (handle_append_entries peer (append_message one_append (1 ∷ 7 ∷ 1 ∷ []))) 4
      (record { error = 0; leader = none; message = "Request OK"; additional_data = 1 ∷ [] }) refl
      refl

mutate-decodes :
    ResponseDecodes prost (handle_mutate_state peer (mutate_message "DELETE FROM t" (0 ∷ []))) 4
unfolding handle_mutate_state client_write_resp forward_to_leader_resp
mutate-decodes =
    one-decodes (handle_mutate_state peer (mutate_message "DELETE FROM t" (0 ∷ []))) 4
      (record {
        error = 1;
        leader = some (record { id = 2; rpc_addr = "b:80" });
        message = "Forward request to leader node.";
        additional_data = [];
      })
      refl refl

learner-decodes :
    ResponseDecodes prost (handle_add_learner peer (record { id = 0; rpc_addr = "c:80" })) 4
unfolding handle_add_learner network_error_resp
learner-decodes =
    one-decodes (handle_add_learner peer (record { id = 0; rpc_addr = "c:80" })) 4
      (record {
        error = 4;
        leader = none;
        message = "A network error has occurred.";
        additional_data = 8 ∷ [];
      })
      refl refl

change-decodes : ResponseDecodes prost (handle_change_membership peer (record { members = [] })) 4
unfolding handle_change_membership client_write_resp change_membership_resp
change-decodes =
    one-decodes (handle_change_membership peer (record { members = [] })) 4
      (record {
        error = 2;
        leader = none;
        message = "Change the Raft membership.";
        additional_data = 6 ∷ [];
      })
      refl refl

abbrev to_peer : Transport ℕ
to_peer = wired grpc prost grpc-IsGrpc peer peer-RoundTrips [] (1 ∷ []) open_channel

append_entries-wired_example : append_entries peer to_peer one_append 4 ≡ (ok 1, 5)
append_entries-wired_example =
    append_entries-wired grpc prost grpc-IsGrpc peer peer-RoundTrips [] (1 ∷ []) open_channel
      one_append 4 4 (1 ∷ 7 ∷ 1 ∷ []) refl refl refl append-decodes

mutate_state-wired_example :
    mutate_state peer to_peer "DELETE FROM t" (TransportableParam.null ∷ []) 4
    ≡ (err (failed (update_leader (record { id = 2; rpc_addr = "b:80" }))), 4)
mutate_state-wired_example =
    mutate_state-wired grpc prost grpc-IsGrpc peer peer-RoundTrips [] (1 ∷ []) open_channel
      "DELETE FROM t" (TransportableParam.null ∷ []) 4 4 (0 ∷ []) refl refl refl mutate-decodes

-- the network error 8 is read as the answer 8
add_learner-wired_example : add_learner peer to_peer 0 "c:80" 4 ≡ (ok 8, 4)
add_learner-wired_example =
    add_learner-wired grpc prost grpc-IsGrpc peer peer-RoundTrips [] (1 ∷ []) open_channel 0 "c:80"
      4 4 refl refl learner-decodes

-- a membership that the node refuses is a success
change_membership-wired_example : change_membership peer to_peer [] 4 ≡ (ok tt, 4)
change_membership-wired_example =
    change_membership-wired grpc prost grpc-IsGrpc peer peer-RoundTrips [] (1 ∷ []) open_channel []
      4 4 refl refl change-decodes
