-- ===== src/Tests/Wire.antt =====
-- The generated gRPC code, over a tonic whose messages are a path and a body.
use replicat.Prelude.{
  ℕ, zero, suc, ◌++◌, String, ◌≡◌, refl, arith, true, Option, none, some, List, [], ◌∷◌,
  if◌then◌else◌, str_eq, ◌==◌, ◌&&◌,
}
use replicat.Exec.{Result, ok, err, Exec, with_err}
use replicat.Sql.{Bytes}
use replicat.Rpc.{
  Node, RpcResponse, Vote, LogId, AppendEntriesRequest, ChangeMembershipRequest, MutateRequest,
  VoteRequest,
}
use replicat.Rpc.Server.{Failure, handle_vote, response_ok, vote_from, log_id_from}
use replicat.Rpc.Wire.{Channel, Status, ProstCodec, Prost, Grpc, IsGrpc, read_answer}
use replicat.Rpc.Wire.Service.{ClusterRpcServer, rpc_server, new_server, accept_compressed}
use replicat.Rpc.Wire.Routes.{vote_call, stub, stub-handler}
use replicat.Tests.Peers.{peer}

pub data Response : Type 0 where
  body : Bytes → Response
  trailers : Status → Response

abbrev status : ℕ → Status
status code = record { code = code; message = "" }

abbrev read : {A : Type 0} → ProstCodec A → Response → Result Status A
read codec (trailers st) = err st
read codec (body b) = elim (codec.decode b) [ some a ↦ ok a | none ↦ err (status 13) ]

abbrev failure_status : Failure → Status
failure_status Failure.internal = status 13
failure_status Failure.panicked = status 1

abbrev respond : {B : Type 0} → ProstCodec B → Result Failure B → Response
respond cb (ok b) = body (cb.encode b)
respond cb (err e) = trailers (failure_status e)

abbrev decoded :
    {S A B : Type 0} → ProstCodec B → (A → Exec S Failure B) → Option A → S → Response × S
decoded cb method none s = (trailers (status 13), s)
decoded cb method (some a) s = let (r, s') = method a s in (respond cb r, s')

abbrev header_status : List (String × String) → Status
header_status ((name, code) ∷ _) =
    if str_eq name "grpc-status" && str_eq code "12" then status 12 else status 2
header_status [] = status 2

abbrev pub grpc : Grpc
grpc = record {
  Request = String × Bytes;
  Response = Response;
  CompressionEncoding = ℕ;
  EnabledCompressionEncodings = List ℕ;
  no_encodings = [];
  enable = λ e es. e ∷ es;
  uri_path = λ req. req.0;
  Uri = String;
  Interceptor = Unit;
  connect_endpoint = λ S dst s. (err tt, s);
  intercepted = λ S inner interceptor. inner;
  InterceptedService = λ T. T;
  intercept = λ T inner interceptor. inner;
  Client = Channel (String × Bytes) Response;
  client_new = λ S inner. inner;
  client_with_origin = λ S inner origin. inner;
  client_send_compressed = λ S encoding client. client;
  client_accept_compressed = λ S encoding client. client;
  client_ready = λ S client. client.ready;
  request_of = λ A ca path a. (path, ca.encode a);
  read_response = λ A ca resp. read ca resp;
  client_unary = λ S A B inner ca cb path a. read_answer (read cb) (inner.send (path, ca.encode a));
  server_unary = λ S A B ca cb accept sent method req s. decoded cb method (ca.decode req.1) s;
  failure_status = failure_status;
  build_response = λ code headers. trailers (header_status headers);
}

pub grpc-IsGrpc : IsGrpc grpc
grpc-IsGrpc = record {
  client_ready_ok = λ S inner s. refl;
  client_unary_ok = λ S A B inner ca cb path a s. refl;
  uri_path_ok = λ A ca path a. refl;
  method_state = λ S A B ca cb accept sent method path a s e. ground (arith, e);
  method_ok = λ S A B ca cb accept sent method path a s b e f g. ground (arith, e, f, g);
  method_err = λ S A B ca cb accept sent method path a s x e f. ground (arith, e, f);
  unimplemented_ok = λ B cb. refl;
}

abbrev no_codec : {A : Type 0} → ProstCodec A
no_codec = record { encode = λ a. []; decode = λ b. none }

abbrev vote_numbers : Option Vote → Bytes
vote_numbers (some v) = v.term ∷ v.node_id ∷ (if v.committed then 1 else 0) ∷ []
vote_numbers none = []

abbrev read_vote_request : Bytes → Option VoteRequest
read_vote_request (term ∷ node ∷ committed ∷ []) = some (record {
  vote = some (record { term = term; node_id = node; committed = committed == 1 });
  last_log_id = none;
})
read_vote_request _ = none

-- A leader is sent as its number; there is one address.
abbrev leader_numbers : Option Node → Bytes
leader_numbers none = []
leader_numbers (some node) = node.id ∷ []

abbrev read_rpc_response : Bytes → Option RpcResponse
read_rpc_response (zero ∷ b) =
    some (record { error = 0; leader = none; message = "Request OK"; additional_data = b })
read_rpc_response (suc zero ∷ id ∷ b) = some (record {
  error = 1;
  leader = some (record { id = id; rpc_addr = "b:80" });
  message = "Forward request to leader node.";
  additional_data = b;
})
read_rpc_response (suc (suc zero) ∷ b) = some (record {
  error = 2;
  leader = none;
  message = "Change the Raft membership.";
  additional_data = b;
})
read_rpc_response (suc (suc (suc (suc zero))) ∷ b) = some (record {
  error = 4;
  leader = none;
  message = "A network error has occurred.";
  additional_data = b;
})
read_rpc_response _ = none

abbrev read_append : Bytes → Option AppendEntriesRequest
read_append (term ∷ node ∷ committed ∷ term' ∷ node' ∷ index ∷ b) = some (record {
  vote = some (record { term = term; node_id = node; committed = committed == 1 });
  prev_log_id = none;
  entries = b;
  leader_commit = some (record { term = term'; node_id = node'; index = index });
})
read_append _ = none

abbrev commit_numbers : Option LogId → Bytes
commit_numbers none = []
commit_numbers (some id) = id.term ∷ id.node_id ∷ id.index ∷ []

-- one statement is sent, with any parameters
abbrev read_mutate : Bytes → Option MutateRequest
read_mutate b = some (record { sql = "DELETE FROM t"; parameters = b })

-- learners have one address too
abbrev read_node : Bytes → Option Node
read_node (id ∷ []) = some (record { id = id; rpc_addr = "c:80" })
read_node _ = none

abbrev read_members : Bytes → Option ChangeMembershipRequest
read_members b = some (record { members = b })

abbrev pub prost : Prost
prost = record {
  append_entries_request = record {
    encode = λ m. vote_numbers m.vote ++ (commit_numbers m.leader_commit ++ m.entries);
    decode = read_append;
  };
  install_snapshot_request = no_codec;
  vote_request = record { encode = λ m. vote_numbers m.vote; decode = read_vote_request };
  node = record { encode = λ m. m.id ∷ []; decode = read_node };
  change_membership_request = record { encode = λ m. m.members; decode = read_members };
  metrics_request = no_codec;
  mutate_request = record { encode = λ m. m.parameters; decode = read_mutate };
  rpc_response = record {
    encode = λ m. m.error ∷ (leader_numbers m.leader ++ m.additional_data);
    decode = read_rpc_response;
  };
}

abbrev ballot : VoteRequest
ballot = record {
  vote = some (record { term = 3; node_id = 7; committed = true });
  last_log_id = none;
}

abbrev answer : RpcResponse
answer = record { error = 0; leader = none; message = "Request OK"; additional_data = 3 ∷ [] }

-- a service that takes compressed requests
abbrev server : ClusterRpcServer grpc ℕ
unfolding new_server accept_compressed
server = accept_compressed grpc ℕ 1 (new_server grpc ℕ (rpc_server peer))

abbrev pub open_channel : Exec ℕ String Unit
open_channel s = (ok tt, s)

ballot-answer : handle_vote peer ballot 4 ≡ (ok answer, 5)
unfolding handle_vote response_ok vote_from log_id_from
ballot-answer = refl

answer-decodes :
    (resp : RpcResponse)
    → (handle_vote peer ballot 4).0 ≡ ok resp
    → prost.rpc_response.decode (prost.rpc_response.encode resp) ≡ some resp
answer-decodes resp e = ground (arith, ballot-answer, e)

stub-handler_example :
    stub grpc prost server open_channel (vote_call ballot) 4
    ≡ with_err failure_status (handle_vote peer ballot) 4
unfolding server
stub-handler_example =
    stub-handler grpc prost server grpc-IsGrpc open_channel (vote_call ballot) 4 refl answer-decodes
