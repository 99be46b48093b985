-- ===== src/Client/Agreed.antt =====
-- `execute` of src/client.rs, over the client and the server of src/rpc, in a cluster whose nodes
-- agree on their leader.
use native.Nat.{ℕᴺ_discrete}
use replicat.Prelude.{ℕ, zero, suc, fun_ext, String, ◌≡◌, ◌≢◌, refl, arith, some, List}
use replicat.Exec.{ok, err, Exec}
use replicat.Params.{TransportableParam, to_params}
use replicat.Openraft as Openraft
use replicat.Sql.{Bytes}
use replicat.Handle.{set_at}
use replicat.Rpc.{Node}
use replicat.Rpc.Peer.{Peer, RoundTrips, ClientWriteError}
use replicat.Rpc.Client.{Transport, failed, update_leader, mutate_state}
use replicat.Rpc.Client.Delivery.{direct}
use replicat.Rpc.Client.Mutate.{told, mutate_state-told}
use replicat.Network.{Tonic, RpcClient, ReplicatNetwork, get_or_connect_client}
use replicat.Client.{Cluster, set_leader, attempt, get_leader_client, execute_loop, execute}

-- a call on one of many nodes
abbrev at_node : {S E A : Type 0} → ℕ → Exec S E A → Exec (ℕ → S) E A
at_node i call nodes = let (r, node) = call (nodes i) in (r, set_at nodes i node)

abbrev node_transport : {S : Type 0} → ℕ → Transport S → Transport (ℕ → S)
node_transport i t = record {
  append_entries = λ m. at_node i (t.append_entries m);
  install_snapshot = λ m. at_node i (t.install_snapshot m);
  vote = λ m. at_node i (t.vote m);
  add_learner = λ m. at_node i (t.add_learner m);
  change_membership = λ m. at_node i (t.change_membership m);
  get_metrics = at_node i t.get_metrics;
  mutate_state = λ m. at_node i (t.mutate_state m);
}

set_at-same : {A : Type 0} (f : ℕ → A) (i : ℕ) → set_at f i (f i) ≡ f
set_at-same f i = fun_ext (λ j. ground arith)

-- The channels lead to nodes, and nothing is lost.
abbrev pub to_nodes :
    (tonic : Tonic) (peer : Peer) → (tonic.Channel → ℕ) → tonic.Channel → Transport (ℕ → peer.Raft)
to_nodes tonic peer place channel = node_transport (place channel) (direct peer)

module _ (tonic : Tonic) (peer : Peer) (law : RoundTrips peer) (place : tonic.Channel → ℕ)
    (sql : String) (params : List TransportableParam) (b : Bytes)
    (enc : peer.params_codec.to_vec params ≡ ok b) where
  open peer use {Raft}

  abbrev transport : tonic.Channel → Transport (ℕ → Raft)
  transport = to_nodes tonic peer place

  abbrev write : Exec Raft (ClientWriteError peer.ChangeError peer.Fatal) peer.Written
  write = peer.client_write (Openraft.Request.execute sql params)

  mutate_state-at_node :
      (channel : tonic.Channel) (nodes : ℕ → Raft)
      → let i = place channel in
        let (r, node) = write (nodes i) in
        mutate_state peer (transport channel) sql params nodes ≡ (told peer r, set_at nodes i node)
  unfolding mutate_state
  mutate_state-at_node channel nodes =
      ground (arith, enc, mutate_state-told peer law sql params (nodes (place channel)) b enc)

  attempt-told :
      (s : Cluster tonic (ℕ → Raft)) (rpc : RpcClient tonic) (network : ReplicatNetwork tonic)
      → get_or_connect_client tonic s.client.leader.0 s.client.leader.1 s.client.network
        ≡ (ok rpc, network)
      → let i = place rpc.channel in
        let (r, node) = write (s.nodes i) in
        attempt tonic peer transport sql params s ≡ (
          told peer r,
          record s {
            client = record s.client { network = network };
            nodes = set_at s.nodes i node;
          },
        )
  unfolding attempt get_leader_client
  attempt-told s rpc network c = ground (arith, c, mutate_state-at_node rpc.channel s.nodes)

  -- The nodes of a cluster agree on their leader, and on where it is: the others name it, and it
  -- takes the statement, with an answer that has an encoding.
  pub record IsAgreed (leader : Node) (l : ℕ) (nodes : ℕ → Raft) (node : Raft) : Type 0 where
    pub redirects :
        (i : ℕ)
        → i ≢ l
        → write (nodes i) ≡ (
          err (
              ClientWriteError.forward_to_leader (record {
                leader_id = some leader.id;
                leader_node = some (record { addr = leader.rpc_addr });
              })),
          nodes i,
        )
    pub written : peer.Written
    pub accepts : write (nodes l) ≡ (ok written, node)
    pub encoded : Bytes
    pub encodes : peer.written_codec.to_vec written ≡ ok encoded

  -- the leader has taken the statement, and no other node has changed
  abbrev pub TakenOnce : ℕ → (ℕ → Raft) → Raft → (ℕ → Raft) → Type 0
  TakenOnce l nodes node nodes' = (nodes' l ≡ node) × ((i : ℕ) → i ≢ l → nodes' i ≡ nodes i)

  module _ {leader : Node} {l : ℕ} {node : Raft} (s : Cluster tonic (ℕ → Raft))
      (agreed : IsAgreed leader l s.nodes node) (rpc : RpcClient tonic)
      (network : ReplicatNetwork tonic)
      (cached : get_or_connect_client tonic s.client.leader.0 s.client.leader.1 s.client.network
        ≡ (ok rpc, network)) where
    abbrev begun : Cluster tonic (ℕ → Raft)
    begun = record s { client = record s.client { network = network } }

    attempt-leader :
        place rpc.channel ≡ l
        → attempt tonic peer transport sql params s
          ≡ (ok tt, record begun { nodes = set_at s.nodes l node })
    attempt-leader at =
        ground (arith, at, attempt-told s rpc network cached, agreed.accepts, agreed.encodes)

    attempt-other :
        place rpc.channel ≢ l
        → attempt tonic peer transport sql params s ≡ (err (failed (update_leader leader)), begun)
    attempt-other away = ground (
      arith,
      attempt-told s rpc network cached,
      agreed.redirects (place rpc.channel) away,
      set_at-same s.nodes (place rpc.channel),
    )

    execute_loop-leader :
        (n : ℕ)
        → place rpc.channel ≡ l
        → execute_loop tonic peer transport n sql params s
          ≡ (ok tt, record begun { nodes = set_at s.nodes l node })
    unfolding execute_loop
    execute_loop-leader zero at = ground (arith, attempt-leader at)
    execute_loop-leader (suc n) at = ground (arith, attempt-leader at)

    execute_loop-other :
        (n : ℕ)
        → place rpc.channel ≢ l
        → execute_loop tonic peer transport (suc n) sql params s
          ≡ execute_loop tonic peer transport n sql params
              (set_leader tonic peer transport leader begun)
    unfolding execute_loop
    execute_loop-other n away = ground (arith, attempt-other away)

  written-TakenOnce :
      (l : ℕ) (nodes : ℕ → Raft) (node : Raft) → TakenOnce l nodes node (set_at nodes l node)
  written-TakenOnce l nodes node = (ground arith, λ i away. ground (arith, away))

  loop-takes :
      (leader : Node) (l : ℕ) (node : Raft) (s : Cluster tonic (ℕ → Raft))
      (rpc rpc' : RpcClient tonic) (network network' : ReplicatNetwork tonic) (n : ℕ)
      → IsAgreed leader l s.nodes node
      → get_or_connect_client tonic s.client.leader.0 s.client.leader.1 s.client.network
        ≡ (ok rpc, network)
      → get_or_connect_client tonic leader.id leader.rpc_addr network ≡ (ok rpc', network')
      → place rpc'.channel ≡ l
      → let (r, s') = execute_loop tonic peer transport (suc n) sql params s in
        (r ≡ ok tt) × TakenOnce l s.nodes node s'.nodes
  loop-takes leader l node s rpc rpc' network network' n agreed cached named at =
      elim (ℕᴺ_discrete (place rpc.channel) l) [
        | yes here ↦
            rw (execute_loop-leader s agreed rpc network cached (suc n) here)
              (refl, written-TakenOnce l s.nodes node)
        | no away ↦
            let next = set_leader tonic peer transport leader (begun s agreed rpc network cached) in
            rw (execute_loop-other s agreed rpc network cached n away) (
              rw (execute_loop-leader next agreed rpc' network' named n at)
                (refl, written-TakenOnce l s.nodes node))
      ]

-- In a cluster whose nodes agree on their leader, `execute` succeeds, whichever node the client
-- takes for the leader: the leader takes the statement once, and no other node changes. The
-- parameters and the leader's answer have an encoding, and the client can connect to the node that
-- it begins with and to the leader.
pub execute-TakenOnce {ℓ} :
    (tonic : Tonic) (peer : Peer) (law : RoundTrips peer) (place : tonic.Channel → ℕ) {P : Type ℓ}
    (into : P → TransportableParam) (sql : String) (params : List P) (b : Bytes)
    (enc : peer.params_codec.to_vec (to_params into params) ≡ ok b) (leader : Node) (l : ℕ)
    (node : peer.Raft) (s : Cluster tonic (ℕ → peer.Raft)) (rpc rpc' : RpcClient tonic)
    (network network' : ReplicatNetwork tonic)
    → IsAgreed tonic peer law place sql (to_params into params) b enc leader l s.nodes node
    → get_or_connect_client tonic s.client.leader.0 s.client.leader.1 s.client.network
      ≡ (ok rpc, network)
    → get_or_connect_client tonic leader.id leader.rpc_addr network ≡ (ok rpc', network')
    → place rpc'.channel ≡ l
    → let (r, s') = execute tonic peer (to_nodes tonic peer place) into sql params s in
      (r ≡ ok tt)
      × TakenOnce tonic peer law place sql (to_params into params) b enc l s.nodes node s'.nodes
unfolding execute
execute-TakenOnce tonic peer law place into sql params b enc leader l node s rpc rpc' network
      network' agreed cached named at =
    loop-takes tonic peer law place sql (to_params into params) b enc leader l node s rpc rpc'
      network network' 1 agreed cached named at
