-- ===== src/Tests/Agreed.antt =====
-- A client of a cluster in which node 2 leads, and the other nodes say so.
use replicat.Prelude.{
  ℕ, zero, suc, ◌≡◌, refl, arith, ◌==◌, if◌then◌else◌, str_eq, String, some, [], ◌∷◌,
}
use replicat.Exec.{ok, err, Exec}
use replicat.Params.{TransportableParam, to_params}
use replicat.Openraft as Openraft
use replicat.Rpc.{Node}
use replicat.Rpc.Peer.{Peer, RoundTrips, ClientWriteError}
use replicat.Network.{ReplicatNetwork, connect, get_or_connect_client}
use replicat.Client.{Cluster, execute}
use replicat.Client.Agreed.{to_nodes, IsAgreed, TakenOnce, execute-TakenOnce}
use replicat.Tests.Data.{log_handle}
use replicat.Tests.Peers.{peer, peer-RoundTrips}
use replicat.Tests.Network.{tonic, client_of, no_clients, as_param}

-- A node is 0 where it follows, and else counts the statements that it took.
abbrev client_write : Openraft.Request → Exec ℕ (ClientWriteError ℕ ℕ) ℕ
client_write req zero = (
  err (
      ClientWriteError.forward_to_leader
        (record { leader_id = some 2; leader_node = some (record { addr = "b:80" }) })),
  0,
)
client_write req (suc n) = (ok n, suc (suc n))

abbrev voter : Peer
voter = record peer { client_write = client_write }

voter-RoundTrips : RoundTrips voter
voter-RoundTrips = record {
  entries_ok = peer-RoundTrips.entries_ok;
  meta_ok = peer-RoundTrips.meta_ok;
  params_ok = peer-RoundTrips.params_ok;
  appended_ok = peer-RoundTrips.appended_ok;
  installed_ok = peer-RoundTrips.installed_ok;
  voted_ok = peer-RoundTrips.voted_ok;
  added_ok = peer-RoundTrips.added_ok;
}

abbrev place : String → ℕ
place channel = if str_eq channel "http://b:80" then 2 else 1

abbrev nodes : ℕ → ℕ
nodes i = if i == 2 then 5 else 0

abbrev cluster : Cluster tonic (ℕ → ℕ)
cluster = record {
  client = record { leader = (1, "a:80"); network = no_clients; local_data = log_handle };
  nodes = nodes;
}

abbrev leader : Node
leader = record { id = 2; rpc_addr = "b:80" }

abbrev connected : ReplicatNetwork tonic
connected = (get_or_connect_client tonic 1 "a:80" no_clients).1

params-encoded :
    voter.params_codec.to_vec (to_params as_param (TransportableParam.null ∷ [])) ≡ ok (0 ∷ [])
unfolding to_params
params-encoded = refl

nodes-IsAgreed :
    IsAgreed tonic voter voter-RoundTrips place "DELETE FROM t"
      (to_params as_param (TransportableParam.null ∷ []))
      (0 ∷ [])
      params-encoded
      leader
      2
      nodes
      6
nodes-IsAgreed = record {
  redirects = λ i away. ground (arith, away);
  written = 4;
  accepts = refl;
  encoded = 4 ∷ [];
  encodes = refl;
}

execute-TakenOnce_example :
    let params = TransportableParam.null ∷ [] in
    let (r, s') =
      execute tonic voter (to_nodes tonic voter place) as_param "DELETE FROM t" params cluster in
    (r ≡ ok tt)
    × TakenOnce tonic voter voter-RoundTrips place "DELETE FROM t"
        (to_params as_param params)
        (0 ∷ [])
        params-encoded
        2
        nodes
        6
        s'.nodes
unfolding get_or_connect_client connect
execute-TakenOnce_example =
    execute-TakenOnce tonic voter voter-RoundTrips place as_param "DELETE FROM t"
      (TransportableParam.null ∷ []) (0 ∷ []) params-encoded leader 2 6 cluster
      (client_of "http://a:80") (client_of "http://b:80") connected
      (get_or_connect_client tonic 2 "b:80" connected).1 nodes-IsAgreed refl refl refl
