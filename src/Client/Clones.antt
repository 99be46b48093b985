-- ===== src/Client/Clones.antt =====
-- Several clones of a `ReplicatClient` of src/client.rs, each in a call of `execute`. They share the
-- leader, the network and the nodes; what one clone does between two of its steps, others may
-- interrupt.
pub mod Ends
pub mod Leader
pub mod Led
use replicat.Prelude.{
  ℕ, zero, suc, ◌+◌, ◌==◌, if◌then◌else◌, String, str_eq, Option, none, some, List, [], ◌∷◌,
}
use replicat.Exec.{Result, ok, err}
use replicat.Params.{TransportableParam}
use replicat.Handle.{set_at}
use replicat.Rpc.{Node}
use replicat.Rpc.Peer.{Peer}
use replicat.Rpc.Client.{Transport, Failure, failed, unknown_leader, network_error, mutate_state}
use replicat.Network.{Tonic, RpcClient, connect, insert}
use replicat.Client.{Cluster, redirect_of, set_leader}

-- Where a clone stands in the loop of `execute`, with the tries that are left after this one: before
-- it reads the leader, before it looks into the map of connections, before it writes a connection that
-- it made into the map, before it sends the statement, before it writes the leader that the answer
-- named, and at the end.
pub data Phase (tonic : Tonic) : Type 0 where
  reads : ℕ → Phase tonic
  connects : ℕ → ℕ → String → Phase tonic
  inserts : ℕ → ℕ → String → RpcClient tonic → Phase tonic
  sends : ℕ → RpcClient tonic → Phase tonic
  redirected : ℕ → Node → Phase tonic
  ended : Result Failure Unit → Phase tonic

pub record System (tonic : Tonic) (S : Type 0) : Type 0 where
  pub cluster : Cluster tonic S
  pub phases : ℕ → Phase tonic

abbrev pub is_sending : {tonic : Tonic} → Phase tonic → ℕ
is_sending (sends _ _) = 1
is_sending _ = 0

-- how often a clone moves
unfoldable pub moves : ℕ → List ℕ → ℕ
moves i [] = 0
moves i (j ∷ schedule) = (if i == j then 1 else 0) + moves i schedule

module _ (tonic : Tonic) (peer : Peer) {S : Type 0} (transport : tonic.Channel → Transport S) where
  abbrev pub connected : ℕ → ℕ → String → Result Unit (RpcClient tonic) → Phase tonic
  connected n node_id addr (ok rpc) = inserts n node_id addr rpc
  connected n node_id addr (err _) = ended (err (failed network_error))

  -- `get_or_connect_client` up to the lock that it writes under; the test is the source's, which
  -- compares an address with itself
  abbrev pub existing : ℕ → ℕ → String → Option (String × RpcClient tonic) → Phase tonic
  existing n node_id addr none = connected n node_id addr (connect tonic addr)
  existing n node_id addr (some (cached, rpc)) =
      if str_eq cached cached then sends n rpc else connected n node_id addr (connect tonic addr)

  abbrev pub answered : ℕ → Result Failure Unit → Option Node → Phase tonic
  answered n result none = ended result
  answered n result (some leader) = redirected n leader

  -- one step of a clone; the locks are held for no longer
  unfoldable pub move :
      String
      → List TransportableParam
      → Phase tonic
      → Cluster tonic S
      → Phase tonic × Cluster tonic S
  move sql params (reads n) c = (connects n c.client.leader.0 c.client.leader.1, c)
  move sql params (connects n node_id addr) c =
      (existing n node_id addr (c.client.network.clients node_id), c)
  move sql params (inserts n node_id addr rpc) c =
      let network = insert tonic node_id (addr, rpc) c.client.network in
      (sends n rpc, record c { client = record c.client { network = network } })
  move sql params (sends n rpc) c =
      let (result, nodes) = mutate_state peer (transport rpc.channel) sql params c.nodes in
      (answered n result (redirect_of result), record c { nodes = nodes })
  move sql params (redirected zero leader) c =
      (ended (err (failed unknown_leader)), set_leader tonic peer transport leader c)
  move sql params (redirected (suc n) leader) c =
      (reads n, set_leader tonic peer transport leader c)
  move sql params (ended result) c = (ended result, c)

  -- the statement of each clone
  module _ (sql : ℕ → String) (params : ℕ → List TransportableParam) where
    unfoldable pub move_at : ℕ → System tonic S → System tonic S
    unfolding move
    move_at i s =
        let (phase, cluster) = move (sql i) (params i) (s.phases i) s.cluster in
        record { cluster = cluster; phases = set_at s.phases i phase }

    -- a schedule: which clone makes the next step
    unfoldable pub run : List ℕ → System tonic S → System tonic S
    unfolding move_at
    run [] s = s
    run (i ∷ schedule) s = run schedule (move_at i s)

    -- how often a clone sends its statement
    unfoldable pub tries : ℕ → List ℕ → System tonic S → ℕ
    unfolding move_at
    tries i [] s = 0
    tries i (j ∷ schedule) s =
        (if i == j then is_sending (s.phases i) else 0) + tries i schedule (move_at j s)
