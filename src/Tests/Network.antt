-- ===== src/Tests/Network.antt =====
-- The cached clients, and a client that follows a leader.
use replicat.Prelude.{ℕ, ◌+◌, ◌≡◌, refl, String, str_eq, if◌then◌else◌, none, some, List, [], ◌∷◌}
use replicat.Exec.{ok, err, Exec}
use replicat.Params.{TransportableParam, to_params}
use replicat.Rpc.{RpcResponse, MutateRequest, error_code}
use replicat.Rpc.Client.{Transport, mutate_state, mutate_answer}
use replicat.Rpc.Client.Delivery.{direct}
use replicat.Network.{Tonic, RpcClient, ReplicatNetwork, connect, get_or_connect_client}
use replicat.Network.Cache.{visits, get_or_connect_client-cached}
use replicat.Client.{Cluster, execute, execute_loop, attempt, get_leader_client}
use replicat.Tests.Data.{log_handle}
use replicat.Tests.Peers.{peer}

abbrev pub tonic : Tonic
tonic = record {
  Uri = String;
  Channel = String;
  parse_uri = λ u. if str_eq u "http://" then err tt else ok u;
  connect_lazy = λ u. u;
}

abbrev pub no_clients : ReplicatNetwork tonic
no_clients = record { clients = λ _. none }

abbrev pub client_of : String → RpcClient tonic
client_of u = record { channel = u }

-- Node 2 moves, after calls for two other nodes and for itself.
abbrev between : List (ℕ × String)
between = (3, "c:80") ∷ (2, "b:80") ∷ (4, "") ∷ []

get_or_connect_client-cached_example :
    let later = visits tonic between (get_or_connect_client tonic 2 "a:80" no_clients).1 in
    get_or_connect_client tonic 2 "d:80" later ≡ (ok (client_of "http://a:80"), later)
unfolding get_or_connect_client connect
get_or_connect_client-cached_example =
    get_or_connect_client-cached tonic 2 "a:80" "d:80" between no_clients (client_of "http://a:80")
      refl

-- Node 1 says that node 2 leads, and node 2 agrees. The nodes count the statements they get.
abbrev pub answer : String → MutateRequest → Exec ℕ Unit RpcResponse
answer channel req nodes =
    if str_eq channel "http://a:80"
    then (
      ok (record {
        error = 1;
        leader = some (record { id = 2; rpc_addr = "b:80" });
        message = "";
        additional_data = [];
      }),
      nodes + 1,
    )
    else (ok (record { error = 0; leader = none; message = ""; additional_data = [] }), nodes + 1)

abbrev pub transport : String → Transport ℕ
transport channel = record (direct peer) { mutate_state = answer channel }

abbrev pub cluster : Cluster tonic ℕ
cluster = record {
  client = record { leader = (1, "a:80"); network = no_clients; local_data = log_handle };
  nodes = 0;
}

abbrev pub as_param : TransportableParam → TransportableParam
as_param p = p

execute_follows :
    let (r, s') = execute tonic peer transport as_param "DELETE FROM t" [] cluster in
    (r ≡ ok tt) × (s'.nodes ≡ 2) × (s'.client.leader ≡ (2, "b:80"))
unfolding execute execute_loop attempt get_leader_client get_or_connect_client connect mutate_state
    mutate_answer error_code to_params
execute_follows = (refl, refl, refl)
