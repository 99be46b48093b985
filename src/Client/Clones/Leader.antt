-- ===== src/Client/Clones/Leader.antt =====
-- The leader that the clones of a client share.
use replicat.Prelude.{
  ℕ, zero, suc, ◌≡◌, refl, inl, inr, String, str_eq, Option, none, some, List, [], ◌∷◌, Bool-cases,
  ◌==◌,
}
use replicat.Exec.{Result, ok, err}
use replicat.Params.{TransportableParam}
use replicat.Handle.{set_at}
use replicat.Rpc.{Node}
use replicat.Rpc.Peer.{Peer}
use replicat.Rpc.Client.{Transport, Failure, mutate_state}
use replicat.Network.{Tonic, RpcClient, connect}
use replicat.Client.{Cluster, redirect_of}
use replicat.Client.Clones.{
  Phase, reads, connects, inserts, sends, existing, redirected, ended, System, connected, answered,
  move, move_at, run,
}

module _ (tonic : Tonic) (peer : Peer) {S : Type 0} (transport : tonic.Channel → Transport S)
    (sql : ℕ → String) (params : ℕ → List TransportableParam) (P : ℕ × String → Type 0) where
  -- the leader that a clone has read, or is about to write
  abbrev pub Held : Phase tonic → Type 0
  Held (reads _) = Unit
  Held (connects _ node_id addr) = P (node_id, addr)
  Held (inserts _ _ _ _) = Unit
  Held (sends _ _) = Unit
  Held (redirected _ leader) = P (leader.id, leader.rpc_addr)
  Held (ended _) = Unit

  pub record IsNamed (s : System tonic S) : Type 0 where
    pub shared : P s.cluster.client.leader
    pub held : (i : ℕ) → Held (s.phases i)

  connected-Held :
      (n id : ℕ) (addr : String) (r : Result Unit (RpcClient tonic))
      → Held (connected tonic peer transport n id addr r)
  connected-Held n id addr (ok rpc) = tt
  connected-Held n id addr (err _) = tt

  existing-Held :
      (n id : ℕ) (addr : String) (o : Option (String × RpcClient tonic))
      → Held (existing tonic peer transport n id addr o)
  existing-Held n id addr none = connected-Held n id addr (connect tonic addr)
  existing-Held n id addr (some (cached, rpc)) = elim (Bool-cases (str_eq cached cached)) [
    | inl e ↦ rw e tt
    | inr e ↦ rw e (connected-Held n id addr (connect tonic addr))
  ]

  answered-Held :
      (n : ℕ) (result : Result Failure Unit) (o : Option Node)
      → ((leader : Node) → o ≡ some leader → P (leader.id, leader.rpc_addr))
      → Held (answered tonic peer transport n result o)
  answered-Held n result none named = tt
  answered-Held n result (some leader) named = named leader refl

  module _
      (named : (i : ℕ) (channel : tonic.Channel) (nodes : S) (leader : Node)
        → redirect_of (mutate_state peer (transport channel) (sql i) (params i) nodes).0
          ≡ some leader
        → P (leader.id, leader.rpc_addr)) where
    move-IsNamed :
        (i : ℕ) (p : Phase tonic) (c : Cluster tonic S)
        → P c.client.leader
        → Held p
        → let (p', c') = move tonic peer transport (sql i) (params i) p c in
          P c'.client.leader × Held p'
    unfolding move
    move-IsNamed i (reads n) c l h = (l, l)
    move-IsNamed i (connects n id addr) c l h =
        (l, existing-Held n id addr (c.client.network.clients id))
    move-IsNamed i (inserts n id addr rpc) c l h = (l, tt)
    move-IsNamed i (sends n rpc) c l h =
        let result = (mutate_state peer (transport rpc.channel) (sql i) (params i) c.nodes).0 in
        (l, answered-Held n result (redirect_of result) (named i rpc.channel c.nodes))
    move-IsNamed i (redirected zero leader) c l h = (h, tt)
    move-IsNamed i (redirected (suc n) leader) c l h = (h, tt)
    move-IsNamed i (ended result) c l h = (l, tt)

    set_at-Held :
        (i j : ℕ) (p : Phase tonic) (phases : ℕ → Phase tonic)
        → Held p
        → Held (phases j)
        → Held (set_at phases i p j)
    set_at-Held i j p phases h h' = elim (Bool-cases (i == j)) [ inl e ↦ rw e h | inr e ↦ rw e h' ]

    -- Whatever the interleaving of the clones' calls, the leader that they share, and each leader that
    -- a clone has read or is about to write, is the first one or one that an answer has named: it has
    -- every property that the first leader and the leaders in the nodes' answers have.
    pub run-IsNamed :
        (schedule : List ℕ) (s : System tonic S)
        → IsNamed s
        → IsNamed (run tonic peer transport sql params schedule s)
    unfolding run move_at
    run-IsNamed [] s k = k
    run-IsNamed (i ∷ schedule) s k =
        let (l, h) = move-IsNamed i (s.phases i) s.cluster k.shared (k.held i) in
        run-IsNamed schedule (move_at tonic peer transport sql params i s)
          (record { shared = l; held = λ j. set_at-Held i j _ s.phases h (k.held j) })
