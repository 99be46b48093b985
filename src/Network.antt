-- ===== src/Network.antt =====
-- src/rpc/raft.rs: `ReplicatNetwork`, the clients of the other nodes; and `RpcClient::connect` of
-- src/rpc/client.rs. The parser of URIs and the channels are tonic's.
pub mod Cache
use Prim.Native.String.{◌++◌}
use replicat.Prelude.{ℕ, String, Option, none, some, ◌==◌, if◌then◌else◌, str_eq}
use replicat.Exec.{Result, ok, err, Exec, pure, with_err, ◌>>=◌}
use replicat.Rpc.Peer.{Peer, Append, Install, Ballot}
use replicat.Rpc.Client as Client
use replicat.Rpc.Client.{Transport}

-- tonic's part: a URI is parsed, and its channel connects when it is first used
pub record Tonic : Type 1 where
  pub Uri : Type 0
  pub Channel : Type 0
  pub parse_uri : String → Result Unit Uri
  pub connect_lazy : Uri → Channel

pub record RpcClient (tonic : Tonic) : Type 0 where
  pub channel : tonic.Channel

pub record ReplicatNetwork (tonic : Tonic) : Type 0 where
  pub clients : ℕ → Option (String × RpcClient tonic)

module _ (tonic : Tonic) where
  unfoldable pub connect : String → Result Unit (RpcClient tonic)
  connect addr = elim (tonic.parse_uri ("http://" ++ addr)) [
    | err e ↦ err e
    | ok uri ↦ ok (record { channel = tonic.connect_lazy uri })
  ]

  -- `HashMap::insert`
  abbrev pub insert : ℕ → String × RpcClient tonic → ReplicatNetwork tonic → ReplicatNetwork tonic
  insert node_id v net = record { clients = λ n. if node_id == n then some v else net.clients n }

  abbrev pub connect_new : ℕ → String → Exec (ReplicatNetwork tonic) Unit (RpcClient tonic)
  connect_new node_id addr net = elim (connect addr) [
    | err e ↦ (err e, net)
    | ok client ↦ (ok client, insert node_id (addr, client) net)
  ]

  -- In the source, the pattern that takes the entry apart binds `addr` once more, so that the test
  -- compares the entry's address with itself.
  unfoldable pub get_or_connect_client :
      ℕ → String → Exec (ReplicatNetwork tonic) Unit (RpcClient tonic)
  unfolding connect
  get_or_connect_client node_id addr net = elim (net.clients node_id) [
    | none ↦ connect_new node_id addr net
    | some (cached, client) ↦
        if str_eq cached cached then (ok client, net) else connect_new node_id addr net
  ]

  pub record NetworkConnection : Type 0 where
    pub node_id : ℕ
    pub client : RpcClient tonic

  unfoldable pub new_client : ℕ → String → Exec (ReplicatNetwork tonic) Unit NetworkConnection
  unfolding get_or_connect_client
  new_client node_id addr = do
    client ← get_or_connect_client node_id addr
    pure (record { node_id = node_id; client = client })

  -- Any error of a call is `RPCError::Network`. None of the three calls panics.
  module _ (peer : Peer) {S : Type 0} (transport : tonic.Channel → Transport S) where
    unfoldable pub send_append_entries :
        NetworkConnection → Append peer.Membership → Exec S Unit peer.Appended
    send_append_entries c rpc =
        with_err (λ _. tt) (Client.append_entries peer (transport c.client.channel) rpc)

    unfoldable pub send_install_snapshot :
        NetworkConnection → Install peer.Meta → Exec S Unit peer.Installed
    send_install_snapshot c rpc =
        with_err (λ _. tt) (Client.install_snapshot peer (transport c.client.channel) rpc)

    unfoldable pub send_vote : NetworkConnection → Ballot → Exec S Unit peer.Voted
    send_vote c rpc = with_err (λ _. tt) (Client.vote peer (transport c.client.channel) rpc)
