-- ===== src/Rpc/Wire/EndToEnd.antt =====
-- `RpcClient` of src/rpc/client.rs over the generated client, the generated service and `RpcServer`
-- of src/rpc/server.rs.
use replicat.Prelude.{ℕ, String, true, false, ◌≡◌, arith, some, List}
use replicat.Exec.{ok, Exec, with_err}
use replicat.Params.{TransportableParam}
use replicat.Openraft as Openraft
use replicat.Sql.{Bytes}
use replicat.Rpc.{RpcResponse, AppendEntriesRequest, MetricsRequest, MutateRequest}
use replicat.Rpc.Peer.{Peer, RoundTrips, Append}
use replicat.Rpc.Server.{
  map_option, handle_append_entries, handle_add_learner, handle_change_membership,
  handle_mutate_state,
}
use replicat.Rpc.Client.{
  Transport, to_vote, to_log_id, append_entries, add_learner, change_membership, mutate_state,
}
use replicat.Rpc.Client.Answers.{heard}
use replicat.Rpc.Client.Delivery.{append_entries-heard}
use replicat.Rpc.Client.Members.{learned, granted, add_learner-learned, change_membership-granted}
use replicat.Rpc.Client.Mutate.{told, mutate_state-told}
use replicat.Rpc.Wire.{ProstCodec, Prost, Grpc, IsGrpc, ClusterRpcClient}
use replicat.Rpc.Wire as Generated
use replicat.Rpc.Wire.Service.{ClusterRpcServer, rpc_server}
use replicat.Rpc.Wire.Routes.{
  Call, append_entries_call, add_learner_call, change_membership_call, mutate_state_call,
  to_service, stub, handler, MessageDecodes, stub-handler,
}

-- The generated client as `RpcClient` holds it; a status is an error of the call.
abbrev pub generated :
    (grpc : Grpc) (prost : Prost) {S : Type 0} → ClusterRpcClient grpc S → Transport S
generated grpc prost client = record {
  append_entries = λ m. with_err (λ _. tt) (Generated.append_entries grpc prost client m);
  install_snapshot = λ m. with_err (λ _. tt) (Generated.install_snapshot grpc prost client m);
  vote = λ m. with_err (λ _. tt) (Generated.vote grpc prost client m);
  add_learner = λ m. with_err (λ _. tt) (Generated.add_learner grpc prost client m);
  change_membership = λ m. with_err (λ _. tt) (Generated.change_membership grpc prost client m);
  get_metrics =
      with_err (λ _. tt) (Generated.get_metrics grpc prost client MetricsRequest.metrics_request);
  mutate_state = λ m. with_err (λ _. tt) (Generated.mutate_state grpc prost client m);
}

-- the message of a request, when its entries are encoded
abbrev pub append_message : {Membership : Type 0} → Append Membership → Bytes → AppendEntriesRequest
append_message req b = record {
  vote = some (to_vote req.vote);
  prev_log_id = map_option to_log_id req.prev_log_id;
  entries = b;
  leader_commit = map_option to_log_id req.leader_commit;
}

abbrev pub mutate_message : String → Bytes → MutateRequest
mutate_message sql b = record { sql = sql; parameters = b }

-- prost decodes the responses that a handler returns in a state
abbrev pub ResponseDecodes : {S E : Type 0} → Prost → Exec S E RpcResponse → S → Type 0
ResponseDecodes prost call s =
    (resp : RpcResponse)
    → (call s).0 ≡ ok resp
    → prost.rpc_response.decode (prost.rpc_response.encode resp) ≡ some resp

module _ (grpc : Grpc) (prost : Prost) (wire : IsGrpc grpc) (peer : Peer) (law : RoundTrips peer)
    (accepted used : grpc.EnabledCompressionEncodings) (ready : Exec peer.Raft String Unit) where
  open peer use {Raft}

  -- a server, whatever compression it was built with
  abbrev server : ClusterRpcServer grpc Raft
  server = record {
    inner = rpc_server peer;
    accept_compression_encodings = accepted;
    send_compression_encodings = used;
  }

  abbrev pub wired : Transport Raft
  wired = generated grpc prost (to_service grpc prost server ready)

  -- over a connection that is ready, a call of the stub is the handler's
  opened-handler :
      (c : Call) (raft raft' : Raft)
      → ready raft ≡ (ok tt, raft')
      → MessageDecodes grpc prost server c
      → ResponseDecodes prost (handler grpc prost server c) raft'
      → with_err (λ _. tt) (stub grpc prost server ready c) raft
        ≡ with_err (λ _. tt) (handler grpc prost server c) raft'
  opened-handler c raft raft' opened sent back =
      let back' : ResponseDecodes prost (handler grpc prost server c) (ready raft).1 =
        λ resp e. back resp (ground (arith, opened, e)) in
      ground (arith, opened, stub-handler grpc prost server wire ready c raft sent back')

  -- `append_entries` of a client, over a connection of the generated code that is ready, gives the
  -- node the request of the caller, where its entries have an encoding and prost decodes the message
  -- and the response. The caller gets the node's answer, where it has an encoding; a fatal error is
  -- read as if its encoding were an answer's.
  pub append_entries-wired :
      (req : Append peer.Membership) (raft raft' : Raft) (b : Bytes)
      → ready raft ≡ (ok tt, raft')
      → peer.entries_codec.to_vec req.entries ≡ ok b
      → MessageDecodes grpc prost server (append_entries_call (append_message req b))
      → ResponseDecodes prost (handle_append_entries peer (append_message req b)) raft'
      → let (r, raft'') = peer.append_entries req raft' in
        append_entries peer wired req raft ≡ (heard peer peer.appended_codec r, raft'')
  unfolding append_entries
  append_entries-wired req raft raft' b opened enc sent back = ground (
    arith,
    opened-handler (append_entries_call (append_message req b)) raft raft' opened sent back,
    append_entries-heard peer law req raft' b enc,
  )

  -- `mutate_state` of a client, over a connection that is ready, gives the node the statement and the
  -- parameters of the caller, where the parameters have an encoding and prost decodes the message and
  -- the response. The caller is told of a leader to turn to, or panics where the node names none; a
  -- success, a refused change of membership and a fatal error are each told as a success where they
  -- have an encoding, and as a network error where they have none.
  pub mutate_state-wired :
      (sql : String) (params : List TransportableParam) (raft raft' : Raft) (b : Bytes)
      → ready raft ≡ (ok tt, raft')
      → peer.params_codec.to_vec params ≡ ok b
      → MessageDecodes grpc prost server (mutate_state_call (mutate_message sql b))
      → ResponseDecodes prost (handle_mutate_state peer (mutate_message sql b)) raft'
      → let (r, raft'') = peer.client_write (Openraft.Request.execute sql params) raft' in
        mutate_state peer wired sql params raft ≡ (told peer r, raft'')
  unfolding mutate_state
  mutate_state-wired sql params raft raft' b opened enc sent back = ground (
    arith,
    opened-handler (mutate_state_call (mutate_message sql b)) raft raft' opened sent back,
    mutate_state-told peer law sql params raft' b enc,
  )

  -- `add_learner` of a client, over a connection that is ready, gives the node the id and the address
  -- of the caller. The caller gets the node's answer, where it has an encoding; a leader to turn to is
  -- dropped, and any other error is read as if its encoding were an answer's.
  pub add_learner-wired :
      (node_id : ℕ) (addr : String) (raft raft' : Raft)
      → ready raft ≡ (ok tt, raft')
      → MessageDecodes grpc prost server
          (add_learner_call (record { id = node_id; rpc_addr = addr }))
      → ResponseDecodes prost
          (handle_add_learner peer (record { id = node_id; rpc_addr = addr }))
          raft'
      → let (r, raft'') = peer.add_learner node_id (record { addr = addr }) false raft' in
        add_learner peer wired node_id addr raft ≡ (learned peer r, raft'')
  unfolding add_learner
  add_learner-wired node_id addr raft raft' opened sent back = ground (
    arith,
    opened-handler (add_learner_call (record { id = node_id; rpc_addr = addr })) raft raft' opened
        sent back,
    add_learner-learned peer law node_id addr raft',
  )

  -- `change_membership` of a client, over a connection that is ready, gives the node the members of
  -- the caller, who is told of a success whatever the node answers, if the answer has an encoding.
  pub change_membership-wired :
      (members : List ℕ) (raft raft' : Raft)
      → ready raft ≡ (ok tt, raft')
      → MessageDecodes grpc prost server (change_membership_call (record { members = members }))
      → ResponseDecodes prost (handle_change_membership peer (record { members = members })) raft'
      → let (r, raft'') = peer.change_membership members true true raft' in
        change_membership peer wired members raft ≡ (granted peer r, raft'')
  unfolding change_membership
  change_membership-wired members raft raft' opened sent back = ground (
    arith,
    opened-handler (change_membership_call (record { members = members })) raft raft' opened sent
        back,
    change_membership-granted peer law members raft',
  )
