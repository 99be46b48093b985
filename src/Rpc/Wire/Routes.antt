-- ===== src/Rpc/Wire/Routes.antt =====
-- The generated client of src/rpc/rpc_models.rs over its generated service.
use replicat.Prelude.{String, ◌≡◌, ◌≢◌, refl, inl, inr, arith, some, List, [], ◌∷◌, eq_iff}
use replicat.Exec.{ok, err, Exec, Result-cases, with_err, ◌>>◌}
use replicat.Rpc.{
  Node, RpcResponse, AppendEntriesRequest, InstallSnapshotRequest, VoteRequest,
  ChangeMembershipRequest, MetricsRequest, MutateRequest,
}
use replicat.Rpc.Server.{Failure}
use replicat.Rpc.Wire.{
  ProstCodec, Prost, Grpc, IsGrpc, Channel, ClusterRpcClient, new, Status, not_ready, unimplemented,
  append_entries, install_snapshot, vote, add_learner, change_membership, get_metrics, mutate_state,
}
use replicat.Rpc.Wire.Service.{
  ClusterRpcServer, call, unimplemented_response, append_entries_svc, install_snapshot_svc,
  vote_svc, add_learner_svc, change_membership_svc, get_metrics_svc, mutate_state_svc,
}

-- a call of one of the methods
pub data Call : Type 0 where
  append_entries_call : AppendEntriesRequest → Call
  install_snapshot_call : InstallSnapshotRequest → Call
  vote_call : VoteRequest → Call
  add_learner_call : Node → Call
  change_membership_call : ChangeMembershipRequest → Call
  get_metrics_call : MetricsRequest → Call
  mutate_state_call : MutateRequest → Call

abbrev pub paths : List String
paths =
    "/rpc_models.ClusterRpc/append_entries" ∷ "/rpc_models.ClusterRpc/install_snapshot"
    ∷ "/rpc_models.ClusterRpc/vote" ∷ "/rpc_models.ClusterRpc/add_learner"
    ∷ "/rpc_models.ClusterRpc/change_membership" ∷ "/rpc_models.ClusterRpc/get_metrics"
    ∷ "/rpc_models.ClusterRpc/mutate_state" ∷ []

-- a path that is none of a list
abbrev pub OutOf : String → List String → Type 0
OutOf path [] = Unit
OutOf path (p ∷ ps) = (path ≢ p) × OutOf path ps

abbrev Decodes : {A : Type 0} → ProstCodec A → A → Type 0
Decodes codec a = codec.decode (codec.encode a) ≡ some a

module _ (grpc : Grpc) (prost : Prost) {S : Type 0} (server : ClusterRpcServer grpc S) where
  -- a connection to the service
  abbrev pub connection : Exec S String Unit → Channel grpc.Request grpc.Response S
  connection ready = record {
    ready = ready;
    send = λ req s. let (resp, s') = call grpc S prost server req s in (ok resp, s');
  }

  -- a client of it
  abbrev pub to_service : Exec S String Unit → ClusterRpcClient grpc S
  unfolding new
  to_service ready = new grpc S (connection ready)

  -- the stub, the handler and the message of a call
  abbrev pub stub : Exec S String Unit → Call → Exec S Status RpcResponse
  stub ready (append_entries_call m) = append_entries grpc prost (to_service ready) m
  stub ready (install_snapshot_call m) = install_snapshot grpc prost (to_service ready) m
  stub ready (vote_call m) = vote grpc prost (to_service ready) m
  stub ready (add_learner_call m) = add_learner grpc prost (to_service ready) m
  stub ready (change_membership_call m) = change_membership grpc prost (to_service ready) m
  stub ready (get_metrics_call m) = get_metrics grpc prost (to_service ready) m
  stub ready (mutate_state_call m) = mutate_state grpc prost (to_service ready) m

  abbrev pub handler : Call → Exec S Failure RpcResponse
  handler (append_entries_call m) = server.inner.append_entries m
  handler (install_snapshot_call m) = server.inner.install_snapshot m
  handler (vote_call m) = server.inner.vote m
  handler (add_learner_call m) = server.inner.add_learner m
  handler (change_membership_call m) = server.inner.change_membership m
  handler (get_metrics_call m) = server.inner.get_metrics m
  handler (mutate_state_call m) = server.inner.mutate_state m

  abbrev pub MessageDecodes : Call → Type 0
  MessageDecodes (append_entries_call m) = Decodes prost.append_entries_request m
  MessageDecodes (install_snapshot_call m) = Decodes prost.install_snapshot_request m
  MessageDecodes (vote_call m) = Decodes prost.vote_request m
  MessageDecodes (add_learner_call m) = Decodes prost.node m
  MessageDecodes (change_membership_call m) = Decodes prost.change_membership_request m
  MessageDecodes (get_metrics_call m) = Decodes prost.metrics_request m
  MessageDecodes (mutate_state_call m) = Decodes prost.mutate_request m

  module _ (law : IsGrpc grpc) where
    -- one method, at the end of its route
    module _ {A : Type 0} (ca : ProstCodec A) (method : A → Exec S Failure RpcResponse)
        (path : String) (a : A) (ready : Exec S String Unit) where
      abbrev sent_call : Exec S Status RpcResponse
      sent_call =
          grpc.client_unary S A RpcResponse (to_service ready).inner ca prost.rpc_response path a

      abbrev served : S → grpc.Response × S
      served =
          grpc.server_unary S A RpcResponse ca prost.rpc_response
            server.accept_compression_encodings server.send_compression_encodings method
            (grpc.request_of A ca path a)

      sent_call-method :
          (s : S)
          → call grpc S prost server (grpc.request_of A ca path a) s ≡ served s
          → Decodes ca a
          → ((resp : RpcResponse) → (method a s).0 ≡ ok resp → Decodes prost.rpc_response resp)
          → sent_call s ≡ with_err grpc.failure_status (method a) s
      unfolding new
      sent_call-method s reach sent back =
          let accept = server.accept_compression_encodings in
          let send = server.send_compression_encodings in
          let cb = prost.rpc_response in
          let answer = law.client_unary_ok S A RpcResponse (connection ready) ca cb path a s in
          let state = law.method_state S A RpcResponse ca cb accept send method path a s sent in
          elim (Result-cases (method a s).0) [
            | inl (resp, e) ↦
                let back_ok = back resp e in
                ground (
                  arith,
                  answer,
                  law.method_ok S A RpcResponse ca cb accept send method path a s resp sent e
                      back_ok,
                )
            | inr (x, e) ↦ ground (
              arith,
              answer,
              law.method_err S A RpcResponse ca cb accept send method path a s x sent e,
            )
          ]

      -- the same behind the test that the connection is ready
      stub-method :
          (s : S)
          → ((s : S) → call grpc S prost server (grpc.request_of A ca path a) s ≡ served s)
          → Decodes ca a
          → ((resp : RpcResponse)
              → (method a (ready s).1).0 ≡ ok resp
              → Decodes prost.rpc_response resp)
          → (with_err not_ready (grpc.client_ready S (to_service ready).inner) >> sent_call) s
            ≡ (with_err not_ready ready >> with_err grpc.failure_status (method a)) s
      unfolding new
      stub-method s reach sent back = elim (Result-cases (ready s).0) [
        | inl (_, e) ↦ ground (
          arith,
          law.client_ready_ok S (connection ready) s,
          sent_call-method (ready s).1 (reach (ready s).1) sent back,
        )
        | inr (x, e) ↦ ground (arith, law.client_ready_ok S (connection ready) s)
      ]

    -- Each call of the generated client, over a connection to the generated service, is the call of
    -- the method of the same name on the message that was given, and no other, once the connection
    -- is ready, and otherwise the status `Unknown`; it holds for a message and a response that prost
    -- decodes from their own encoding.
    pub stub-handler :
        (ready : Exec S String Unit) (c : Call) (s : S)
        → MessageDecodes c
        → ((resp : RpcResponse)
            → (handler c (ready s).1).0 ≡ ok resp
            → Decodes prost.rpc_response resp)
        → stub ready c s ≡ (with_err not_ready ready >> with_err grpc.failure_status (handler c)) s
    unfolding call append_entries install_snapshot vote add_learner change_membership get_metrics
        mutate_state append_entries_svc install_snapshot_svc vote_svc add_learner_svc
        change_membership_svc get_metrics_svc mutate_state_svc
    stub-handler ready (append_entries_call m) s sent back =
        stub-method prost.append_entries_request server.inner.append_entries
          "/rpc_models.ClusterRpc/append_entries" m ready s
          (λ s.
            rw
              (law.uri_path_ok _ prost.append_entries_request
                "/rpc_models.ClusterRpc/append_entries" m)
              refl)
          sent back
    stub-handler ready (install_snapshot_call m) s sent back =
        stub-method prost.install_snapshot_request server.inner.install_snapshot
          "/rpc_models.ClusterRpc/install_snapshot" m ready s
          (λ s.
            rw
              (law.uri_path_ok _ prost.install_snapshot_request
                "/rpc_models.ClusterRpc/install_snapshot" m)
              refl)
          sent back
    stub-handler ready (vote_call m) s sent back =
        stub-method prost.vote_request server.inner.vote "/rpc_models.ClusterRpc/vote" m ready s
          (λ s. rw (law.uri_path_ok _ prost.vote_request "/rpc_models.ClusterRpc/vote" m) refl) sent
          back
    stub-handler ready (add_learner_call m) s sent back =
        stub-method prost.node server.inner.add_learner "/rpc_models.ClusterRpc/add_learner" m ready
          s (λ s. rw (law.uri_path_ok _ prost.node "/rpc_models.ClusterRpc/add_learner" m) refl)
          sent back
    stub-handler ready (change_membership_call m) s sent back =
        stub-method prost.change_membership_request server.inner.change_membership
          "/rpc_models.ClusterRpc/change_membership" m ready s
          (λ s.
            rw
              (law.uri_path_ok _ prost.change_membership_request
                "/rpc_models.ClusterRpc/change_membership" m)
              refl)
          sent back
    stub-handler ready (get_metrics_call m) s sent back =
        stub-method prost.metrics_request server.inner.get_metrics
          "/rpc_models.ClusterRpc/get_metrics" m ready s
          (λ s.
            rw (law.uri_path_ok _ prost.metrics_request "/rpc_models.ClusterRpc/get_metrics" m)
              refl)
          sent back
    stub-handler ready (mutate_state_call m) s sent back =
        stub-method prost.mutate_request server.inner.mutate_state
          "/rpc_models.ClusterRpc/mutate_state" m ready s
          (λ s.
            rw (law.uri_path_ok _ prost.mutate_request "/rpc_models.ClusterRpc/mutate_state" m)
              refl)
          sent back

    -- A request to any other path is answered with the status `Unimplemented`, and the node is left
    -- as it was.
    pub call-unimplemented :
        {A B : Type 0} (ca : ProstCodec A) (cb : ProstCodec B) (path : String) (a : A)
        (ready : Exec S String Unit) (s : S)
        → OutOf path paths
        → grpc.client_unary S A B (to_service ready).inner ca cb path a s
          ≡ (err (record { code = unimplemented; message = "" }), s)
    unfolding call unimplemented_response new
    call-unimplemented {A} {B} ca cb path a ready s out = ground (
      arith,
      law.client_unary_ok S A B (connection ready) ca cb path a s,
      law.uri_path_ok A ca path a,
      law.unimplemented_ok B cb,
      eq_iff path "/rpc_models.ClusterRpc/append_entries",
      eq_iff path "/rpc_models.ClusterRpc/install_snapshot",
      eq_iff path "/rpc_models.ClusterRpc/vote",
      eq_iff path "/rpc_models.ClusterRpc/add_learner",
      eq_iff path "/rpc_models.ClusterRpc/change_membership",
      eq_iff path "/rpc_models.ClusterRpc/get_metrics",
      eq_iff path "/rpc_models.ClusterRpc/mutate_state",
    )
