-- ===== src/Rpc/Wire/Service.antt =====
-- src/rpc/rpc_models.rs: the generated trait `ClusterRpc` and its service `ClusterRpcServer`; and
-- `impl ClusterRpc for RpcServer` of src/rpc/server.rs.
use replicat.Prelude.{String, Bool, if◌then◌else◌, str_eq, [], ◌∷◌}
use replicat.Exec.{Exec, pure}
use replicat.Rpc.{
  Node, RpcResponse, AppendEntriesRequest, InstallSnapshotRequest, VoteRequest,
  ChangeMembershipRequest, MetricsRequest, MutateRequest,
}
use replicat.Rpc.Peer.{Peer}
use replicat.Rpc.Server.{
  Failure, handle_append_entries, handle_install_snapshot, handle_vote, handle_add_learner,
  handle_change_membership, handle_get_metrics, handle_mutate_state,
}
use replicat.Rpc.Wire.{ProstCodec, Grpc, Prost}

-- the trait; its state `S` is what the handlers share
pub record ClusterRpc (S : Type 0) : Type 0 where
  pub append_entries : AppendEntriesRequest → Exec S Failure RpcResponse
  pub install_snapshot : InstallSnapshotRequest → Exec S Failure RpcResponse
  pub vote : VoteRequest → Exec S Failure RpcResponse
  pub add_learner : Node → Exec S Failure RpcResponse
  pub change_membership : ChangeMembershipRequest → Exec S Failure RpcResponse
  pub get_metrics : MetricsRequest → Exec S Failure RpcResponse
  pub mutate_state : MutateRequest → Exec S Failure RpcResponse

abbrev pub rpc_server : (peer : Peer) → ClusterRpc peer.Raft
rpc_server peer = record {
  append_entries = handle_append_entries peer;
  install_snapshot = handle_install_snapshot peer;
  vote = handle_vote peer;
  add_learner = handle_add_learner peer;
  change_membership = handle_change_membership peer;
  get_metrics = λ _. handle_get_metrics peer;
  mutate_state = handle_mutate_state peer;
}

-- `NamedService::NAME`
abbrev pub service_name : String
service_name = "rpc_models.ClusterRpc"

module _ (grpc : Grpc) (S : Type 0) where
  pub record ClusterRpcServer : Type 0 where
    pub inner : ClusterRpc S
    pub accept_compression_encodings : grpc.EnabledCompressionEncodings
    pub send_compression_encodings : grpc.EnabledCompressionEncodings

  unfoldable pub new_server : ClusterRpc S → ClusterRpcServer
  new_server inner = record {
    inner = inner;
    accept_compression_encodings = grpc.no_encodings;
    send_compression_encodings = grpc.no_encodings;
  }

  unfoldable pub with_interceptor :
      ClusterRpc S → grpc.Interceptor → grpc.InterceptedService ClusterRpcServer
  unfolding new_server
  with_interceptor inner interceptor =
      grpc.intercept ClusterRpcServer (new_server inner) interceptor

  unfoldable pub accept_compressed : grpc.CompressionEncoding → ClusterRpcServer → ClusterRpcServer
  accept_compressed encoding server = record server {
    accept_compression_encodings = grpc.enable encoding server.accept_compression_encodings;
  }

  unfoldable pub send_compressed : grpc.CompressionEncoding → ClusterRpcServer → ClusterRpcServer
  send_compressed encoding server = record server {
    send_compression_encodings = grpc.enable encoding server.send_compression_encodings;
  }

  -- `Clone`: the handlers are shared, the compressions are copied
  unfoldable pub clone_server : ClusterRpcServer → ClusterRpcServer
  clone_server server = record {
    inner = server.inner;
    accept_compression_encodings = server.accept_compression_encodings;
    send_compression_encodings = server.send_compression_encodings;
  }

  -- a service is always ready
  unfoldable pub poll_ready : ClusterRpcServer → Exec S ⊥ Unit
  poll_ready server = pure tt

  module _ (prost : Prost) (server : ClusterRpcServer) where
    abbrev unary :
        {A : Type 0}
        → ProstCodec A
        → (A → Exec S Failure RpcResponse)
        → grpc.Request
        → S
        → grpc.Response × S
    unary {A} codec method =
        grpc.server_unary S A RpcResponse codec prost.rpc_response
          server.accept_compression_encodings server.send_compression_encodings method

    -- `append_entriesSvc`
    unfoldable pub append_entries_svc : grpc.Request → S → grpc.Response × S
    append_entries_svc = unary prost.append_entries_request server.inner.append_entries

    -- `install_snapshotSvc`
    unfoldable pub install_snapshot_svc : grpc.Request → S → grpc.Response × S
    install_snapshot_svc = unary prost.install_snapshot_request server.inner.install_snapshot

    -- `voteSvc`
    unfoldable pub vote_svc : grpc.Request → S → grpc.Response × S
    vote_svc = unary prost.vote_request server.inner.vote

    -- `add_learnerSvc`
    unfoldable pub add_learner_svc : grpc.Request → S → grpc.Response × S
    add_learner_svc = unary prost.node server.inner.add_learner

    -- `change_membershipSvc`
    unfoldable pub change_membership_svc : grpc.Request → S → grpc.Response × S
    change_membership_svc = unary prost.change_membership_request server.inner.change_membership

    -- `get_metricsSvc`
    unfoldable pub get_metrics_svc : grpc.Request → S → grpc.Response × S
    get_metrics_svc = unary prost.metrics_request server.inner.get_metrics

    -- `mutate_stateSvc`
    unfoldable pub mutate_state_svc : grpc.Request → S → grpc.Response × S
    mutate_state_svc = unary prost.mutate_request server.inner.mutate_state

    unfoldable pub unimplemented_response : grpc.Response
    unimplemented_response =
        grpc.build_response 200 (("grpc-status", "12") ∷ ("content-type", "application/grpc") ∷ [])

    abbrev at : grpc.Request → String → Bool
    at req path = str_eq (grpc.uri_path req) path

    unfoldable pub call : grpc.Request → S → grpc.Response × S
    unfolding unimplemented_response append_entries_svc install_snapshot_svc vote_svc
        add_learner_svc change_membership_svc get_metrics_svc mutate_state_svc
    call req s =
        if at req "/rpc_models.ClusterRpc/append_entries"
        then append_entries_svc req s
        else if at req "/rpc_models.ClusterRpc/install_snapshot"
        then install_snapshot_svc req s
        else if at req "/rpc_models.ClusterRpc/vote"
        then vote_svc req s
        else if at req "/rpc_models.ClusterRpc/add_learner"
        then add_learner_svc req s
        else if at req "/rpc_models.ClusterRpc/change_membership"
        then change_membership_svc req s
        else if at req "/rpc_models.ClusterRpc/get_metrics"
        then get_metrics_svc req s
        else if at req "/rpc_models.ClusterRpc/mutate_state"
        then mutate_state_svc req s
        else (unimplemented_response, s)
