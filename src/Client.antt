-- ===== src/Client.antt =====
-- src/client.rs: `ReplicatClient`, which sends a statement to the leader and follows it when it
-- has moved.
pub mod Rounds
pub mod Agreed
pub mod Clones
use replicat.Prelude.{ℕ, zero, suc, String, Option, none, some, List}
use replicat.Exec.{Result, ok, err, Exec, pure, raise, map_err, modify, gets, with_err, ◌>>=◌, ◌>>◌}
use replicat.Params.{TransportableParam, to_params}
use replicat.Sql.{Param, Row, Sql, client}
use replicat.Env.{Env, SqlError}
use replicat.Handle.{World, StorageHandle, fetch_one, fetch_all}
use replicat.Rpc.{Node}
use replicat.Rpc.Peer.{Peer}
use replicat.Rpc.Client.{
  Transport, Failure, failed, panicked, update_leader, unknown_leader, network_error, mutate_state,
}
use replicat.Network.{Tonic, RpcClient, ReplicatNetwork, get_or_connect_client}

-- The leader and the network, which the clones of a client share, and the local data.
pub record ReplicatClient (tonic : Tonic) : Type 0 where
  pub leader : ℕ × String
  pub network : ReplicatNetwork tonic
  pub local_data : StorageHandle

-- a client and the nodes that it can reach
pub record Cluster (tonic : Tonic) (S : Type 0) : Type 0 where
  pub client : ReplicatClient tonic
  pub nodes : S

unfoldable pub new :
    {tonic : Tonic} → ℕ → String → ReplicatNetwork tonic → StorageHandle → ReplicatClient tonic
new leader_id leader_addr network local_data = record {
  leader = (leader_id, leader_addr);
  network = network;
  local_data = local_data;
}

module _ (env : Env) {A : Type 0} (from_row : Row → Result SqlError A) (c : StorageHandle) where
  -- reads are local: `fetch_one` and `fetch_all` of a client whose local data is `c`
  unfoldable pub fetch_one_local : String → List Param → Exec (World env) SqlError (Option A)
  fetch_one_local sql params = fetch_one env c from_row (client sql) params

  unfoldable pub fetch_all_local : String → List Param → Exec (World env) SqlError (List A)
  fetch_all_local sql params = fetch_all env c from_row (client sql) params

-- the leader in an `Err(UpdateLeader(leader))`
abbrev pub redirect_of : Result Failure Unit → Option Node
redirect_of (err (failed (update_leader leader))) = some leader
redirect_of _ = none

module _ (tonic : Tonic) (peer : Peer) {S : Type 0} (transport : tonic.Channel → Transport S) where
  abbrev pub Call : Type 0 → Type 0
  Call A = Exec (Cluster tonic S) Failure A

  unfoldable pub get_leader_client : Call (RpcClient tonic)
  get_leader_client s =
      let (node_id, addr) = s.client.leader in
      let (r, network) = get_or_connect_client tonic node_id addr s.client.network in
      (
        map_err (λ _. failed network_error) r,
        record s { client = record s.client { network = network } },
      )

  abbrev on_nodes : {A : Type 0} → Exec S Failure A → Call A
  on_nodes m s = let (r, nodes) = m s.nodes in (r, record s { nodes = nodes })

  abbrev pub set_leader : Node → Cluster tonic S → Cluster tonic S
  set_leader leader s = record s {
    client = record s.client { leader = (leader.id, leader.rpc_addr) };
  }

  -- one round of the loop, up to the match on its result
  unfoldable pub attempt : String → List TransportableParam → Call Unit
  unfolding get_leader_client
  attempt sql params = do
    rpc ← get_leader_client
    on_nodes (mutate_state peer (transport rpc.channel) sql params)

  -- The loop with `n_retry` at `n + 1`: a redirect brings it to `n`, and at 0 the loop ends.
  unfoldable pub execute_loop : ℕ → String → List TransportableParam → Call Unit
  unfolding attempt
  execute_loop zero sql params s =
      let (result, s') = attempt sql params s in
      elim (redirect_of result) [
        | none ↦ (result, s')
        | some leader ↦ (err (failed unknown_leader), set_leader leader s')
      ]
  execute_loop (suc n) sql params s =
      let (result, s') = attempt sql params s in
      elim (redirect_of result) [
        | none ↦ (result, s')
        | some leader ↦ execute_loop n sql params (set_leader leader s')
      ]

  -- `n_retry` starts at 3
  unfoldable pub execute {ℓ} : {P : Type ℓ} → (P → TransportableParam) → String → List P → Call Unit
  unfolding execute_loop to_params
  execute into sql params = execute_loop 2 sql (to_params into params)
