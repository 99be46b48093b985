-- ===== src/Rpc/Wire.antt =====
-- src/rpc/rpc_models.rs: the generated client `ClusterRpcClient`. tonic and prost are parameters.
pub mod Service
pub mod Routes
pub mod EndToEnd
use Prim.Native.String.{◌++◌}
use replicat.Prelude.{ℕ, String, ◌≡◌, Option, none, some, List, [], ◌∷◌}
use replicat.Exec.{Result, ok, err, Exec, map_err, pure, with_err, ◌>>◌, ◌>>=◌}
use replicat.Sql.{Bytes}
use replicat.Rpc.{
  Node, RpcResponse, AppendEntriesRequest, InstallSnapshotRequest, VoteRequest,
  ChangeMembershipRequest, MetricsRequest, MutateRequest,
}
use replicat.Rpc.Server.{Failure}

-- `tonic::Status`; a code is its number
pub record Status : Type 0 where
  pub code : ℕ
  pub message : String

abbrev unknown : ℕ
unknown = 2

abbrev pub unimplemented : ℕ
unimplemented = 12

-- `ProstCodec` at a message
pub record ProstCodec (A : Type 0) : Type 0 where
  pub encode : A → Bytes
  pub decode : Bytes → Option A

-- what prost derives for the messages
pub record Prost : Type 0 where
  pub append_entries_request : ProstCodec AppendEntriesRequest
  pub install_snapshot_request : ProstCodec InstallSnapshotRequest
  pub vote_request : ProstCodec VoteRequest
  pub node : ProstCodec Node
  pub change_membership_request : ProstCodec ChangeMembershipRequest
  pub metrics_request : ProstCodec MetricsRequest
  pub mutate_request : ProstCodec MutateRequest
  pub rpc_response : ProstCodec RpcResponse

-- A connection of tonic: it may not be ready, and what is sent over it is answered or lost.
pub record Channel (Request Response S : Type 0) : Type 0 where
  pub ready : Exec S String Unit
  pub send : Request → Exec S Status Response

-- tonic, on HTTP messages and sets of compressions that are its own
pub record Grpc : Type 1 where
  pub Request : Type 0
  pub Response : Type 0
  pub CompressionEncoding : Type 0
  pub EnabledCompressionEncodings : Type 0
  pub no_encodings : EnabledCompressionEncodings
  pub enable : CompressionEncoding → EnabledCompressionEncodings → EnabledCompressionEncodings
  pub uri_path : Request → String
  -- `http::Uri` and an interceptor; `Endpoint::new` and `Endpoint::connect`; `InterceptedService::new`
  pub Uri : Type 0
  pub Interceptor : Type 0
  pub connect_endpoint : (S : Type 0) → String → Exec S Unit (Channel Request Response S)
  pub intercepted :
      (S : Type 0) → Channel Request Response S → Interceptor → Channel Request Response S
  pub InterceptedService : Type 0 → Type 0
  pub intercept : (T : Type 0) → T → Interceptor → InterceptedService T
  -- `client::Grpc`
  pub Client : Type 0 → Type 0
  pub client_new : (S : Type 0) → Channel Request Response S → Client S
  pub client_with_origin : (S : Type 0) → Channel Request Response S → Uri → Client S
  pub client_send_compressed : (S : Type 0) → CompressionEncoding → Client S → Client S
  pub client_accept_compressed : (S : Type 0) → CompressionEncoding → Client S → Client S
  pub client_ready : (S : Type 0) → Client S → Exec S String Unit
  -- what a client without compression sends, and how it reads the answer
  pub request_of : (A : Type 0) → ProstCodec A → String → A → Request
  pub read_response : (A : Type 0) → ProstCodec A → Response → Result Status A
  -- `client::Grpc::unary` and `server::Grpc::unary`
  pub client_unary :
      (S A B : Type 0) → Client S → ProstCodec A → ProstCodec B → String → A → Exec S Status B
  pub server_unary :
      (S A B : Type 0)
      → ProstCodec A
      → ProstCodec B
      → EnabledCompressionEncodings
      → EnabledCompressionEncodings
      → (A → Exec S Failure B)
      → Request
      → S
      → Response × S
  -- the status that a client sees of a handler that failed or panicked
  pub failure_status : Failure → Status
  -- a response that is built by hand, without a body
  pub build_response : ℕ → List (String × String) → Response

-- the answer to a call that was sent
abbrev pub read_answer :
    {Response S B : Type 0}
    → (Response → Result Status B)
    → Exec S Status Response
    → Exec S Status B
read_answer read call s =
    let (r, s') = call s in elim r [ ok resp ↦ (read resp, s') | err e ↦ (err e, s') ]

-- What tonic documents: a client is ready when its channel is; its call sends one request, which names the path; a service decodes
-- it, runs its method once and answers with what the method returned; a status travels as headers.
pub record IsGrpc (grpc : Grpc) : Type 1 where
  pub client_ready_ok :
      (S : Type 0) (inner : Channel grpc.Request grpc.Response S) (s : S)
      → grpc.client_ready S (grpc.client_new S inner) s ≡ inner.ready s
  pub client_unary_ok :
      (S A B : Type 0) (inner : Channel grpc.Request grpc.Response S) (ca : ProstCodec A)
      (cb : ProstCodec B) (path : String) (a : A) (s : S)
      → grpc.client_unary S A B (grpc.client_new S inner) ca cb path a s
        ≡ read_answer (grpc.read_response B cb) (inner.send (grpc.request_of A ca path a)) s
  pub uri_path_ok :
      (A : Type 0) (ca : ProstCodec A) (path : String) (a : A)
      → grpc.uri_path (grpc.request_of A ca path a) ≡ path
  pub method_state :
      (S A B : Type 0) (ca : ProstCodec A) (cb : ProstCodec B)
      (accept sent : grpc.EnabledCompressionEncodings) (method : A → Exec S Failure B)
      (path : String) (a : A) (s : S)
      → ca.decode (ca.encode a) ≡ some a
      → (grpc.server_unary S A B ca cb accept sent method (grpc.request_of A ca path a) s).1
        ≡ (method a s).1
  pub method_ok :
      (S A B : Type 0) (ca : ProstCodec A) (cb : ProstCodec B)
      (accept sent : grpc.EnabledCompressionEncodings) (method : A → Exec S Failure B)
      (path : String) (a : A) (s : S) (b : B)
      → ca.decode (ca.encode a) ≡ some a
      → (method a s).0 ≡ ok b
      → cb.decode (cb.encode b) ≡ some b
      → grpc.read_response B cb
          (grpc.server_unary S A B ca cb accept sent method (grpc.request_of A ca path a) s).0
        ≡ ok b
  pub method_err :
      (S A B : Type 0) (ca : ProstCodec A) (cb : ProstCodec B)
      (accept sent : grpc.EnabledCompressionEncodings) (method : A → Exec S Failure B)
      (path : String) (a : A) (s : S) (e : Failure)
      → ca.decode (ca.encode a) ≡ some a
      → (method a s).0 ≡ err e
      → grpc.read_response B cb
          (grpc.server_unary S A B ca cb accept sent method (grpc.request_of A ca path a) s).0
        ≡ err (grpc.failure_status e)
  pub unimplemented_ok :
      (B : Type 0) (cb : ProstCodec B)
      → grpc.read_response B cb (
          grpc.build_response 200
            (("grpc-status", "12") ∷ ("content-type", "application/grpc") ∷ []))
        ≡ err (record { code = unimplemented; message = "" })

abbrev pub not_ready : String → Status
not_ready e = record { code = unknown; message = "Service was not ready: " ++ e }

module _ (grpc : Grpc) (S : Type 0) where
  abbrev Inner : Type 0
  Inner = Channel grpc.Request grpc.Response S

  pub record ClusterRpcClient : Type 0 where
    pub inner : grpc.Client S

  unfoldable pub new : Inner → ClusterRpcClient
  new inner = record { inner = grpc.client_new S inner }

  unfoldable pub connect : String → Exec S Unit ClusterRpcClient
  unfolding new
  connect dst = do conn ← grpc.connect_endpoint S dst; pure (new conn)

  unfoldable pub with_origin : Inner → grpc.Uri → ClusterRpcClient
  with_origin inner origin = record { inner = grpc.client_with_origin S inner origin }

  unfoldable pub with_interceptor : Inner → grpc.Interceptor → ClusterRpcClient
  unfolding new
  with_interceptor inner interceptor = new (grpc.intercepted S inner interceptor)

  unfoldable pub send_compressed : grpc.CompressionEncoding → ClusterRpcClient → ClusterRpcClient
  send_compressed encoding client = record client {
    inner = grpc.client_send_compressed S encoding client.inner;
  }

  unfoldable pub accept_compressed : grpc.CompressionEncoding → ClusterRpcClient → ClusterRpcClient
  accept_compressed encoding client = record client {
    inner = grpc.client_accept_compressed S encoding client.inner;
  }

module _ (grpc : Grpc) (prost : Prost) {S : Type 0} (client : ClusterRpcClient grpc S) where
  abbrev ready : Exec S Status Unit
  ready = with_err not_ready (grpc.client_ready S client.inner)

  unfoldable pub append_entries : AppendEntriesRequest → Exec S Status RpcResponse
  append_entries request =
      ready
      >> grpc.client_unary S AppendEntriesRequest RpcResponse client.inner
          prost.append_entries_request prost.rpc_response "/rpc_models.ClusterRpc/append_entries"
          request

  unfoldable pub install_snapshot : InstallSnapshotRequest → Exec S Status RpcResponse
  install_snapshot request =
      ready
      >> grpc.client_unary S InstallSnapshotRequest RpcResponse client.inner
          prost.install_snapshot_request prost.rpc_response
          "/rpc_models.ClusterRpc/install_snapshot" request

  unfoldable pub vote : VoteRequest → Exec S Status RpcResponse
  vote request =
      ready
      >> grpc.client_unary S VoteRequest RpcResponse client.inner prost.vote_request
          prost.rpc_response "/rpc_models.ClusterRpc/vote" request

  unfoldable pub add_learner : Node → Exec S Status RpcResponse
  add_learner request =
      ready
      >> grpc.client_unary S Node RpcResponse client.inner prost.node prost.rpc_response
          "/rpc_models.ClusterRpc/add_learner" request

  unfoldable pub change_membership : ChangeMembershipRequest → Exec S Status RpcResponse
  change_membership request =
      ready
      >> grpc.client_unary S ChangeMembershipRequest RpcResponse client.inner
          prost.change_membership_request prost.rpc_response
          "/rpc_models.ClusterRpc/change_membership" request

  unfoldable pub get_metrics : MetricsRequest → Exec S Status RpcResponse
  get_metrics request =
      ready
      >> grpc.client_unary S MetricsRequest RpcResponse client.inner prost.metrics_request
          prost.rpc_response "/rpc_models.ClusterRpc/get_metrics" request

  unfoldable pub mutate_state : MutateRequest → Exec S Status RpcResponse
  mutate_state request =
      ready
      >> grpc.client_unary S MutateRequest RpcResponse client.inner prost.mutate_request
          prost.rpc_response "/rpc_models.ClusterRpc/mutate_state" request
