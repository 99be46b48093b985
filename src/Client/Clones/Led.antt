-- ===== src/Client/Clones/Led.antt =====
-- The clones of a `ReplicatClient` of src/client.rs, in a cluster whose leader stays the leader.
use replicat.Prelude.{
  ℕ, zero, suc, ◌≤◌, ◌≡◌, refl, sym, ap, subst, ◌⊎◌, inl, inr, arith, String, some, List, [], ◌∷◌,
  Bool-cases, Option-cases, ◌∙◌, ◌==◌, eq_iff,
}
use replicat.Exec.{Result, ok, err}
use replicat.Params.{TransportableParam}
use replicat.Handle.{set_at}
use replicat.Rpc.{Node}
use replicat.Rpc.Peer.{Peer}
use replicat.Rpc.Client.{Transport, Failure, failed, update_leader, mutate_state}
use replicat.Network.{Tonic, RpcClient, ReplicatNetwork, connect}
use replicat.Network.Cache.{with_client}
use replicat.Client.{Cluster, redirect_of}
use replicat.Client.Clones.Ends.{run-ended}
use replicat.Client.Clones.{
  moves, Phase, reads, connects, inserts, sends, existing, redirected, ended, System, connected,
  answered, move, move_at, run,
}

module _ (tonic : Tonic) (peer : Peer) {S : Type 0} (transport : tonic.Channel → Transport S)
    (sql : ℕ → String) (params : ℕ → List TransportableParam) (first : ℕ × String) (leader : Node)
    (Leads : tonic.Channel → Type 0) (Stays : S → Type 0) where
  abbrev write : ℕ → tonic.Channel → S → Result Failure Unit × S
  write i channel nodes = mutate_state peer (transport channel) (sql i) (params i) nodes

  abbrev named : ℕ × String
  named = (leader.id, leader.rpc_addr)

  -- A node takes a statement, or names the leader; one that is the leader takes it, and stays it. The
  -- client can connect to the leader, and to the node that it begins with.
  pub record IsLed : Type 0 where
    pub answers :
        (i : ℕ) (channel : tonic.Channel) (nodes : S)
        → Stays nodes
        → ((write i channel nodes).0 ≡ ok tt)
          ⊎ ((write i channel nodes).0 ≡ err (failed (update_leader leader)))
    pub takes :
        (i : ℕ) (channel : tonic.Channel) (nodes : S)
        → Stays nodes
        → Leads channel
        → (write i channel nodes).0 ≡ ok tt
    pub stays :
        (i : ℕ) (channel : tonic.Channel) (nodes : S)
        → Stays nodes
        → Stays (write i channel nodes).1
    pub first_client : RpcClient tonic
    pub connects_first : connect tonic first.1 ≡ ok first_client
    pub first_leads : first.0 ≡ leader.id → Leads first_client.channel
    pub leader_client : RpcClient tonic
    pub connects_leader : connect tonic leader.rpc_addr ≡ ok leader_client
    pub leader_leads : Leads leader_client.channel

  -- a client that is cached for the leader leads to it
  abbrev pub Links : ReplicatNetwork tonic → Type 0
  Links net =
      (addr : String) (rpc : RpcClient tonic)
      → net.clients leader.id ≡ some (addr, rpc)
      → Leads rpc.channel

  abbrev pub Known : ℕ × String → Type 0
  Known l = (l ≡ first) ⊎ (l ≡ named)

  -- where a clone stands, beside the leader that is shared: before its last try it knows the leader
  abbrev pub Fine : ℕ × String → Phase tonic → Type 0
  Fine shared (reads n) = (1 ≤ n) ⊎ (shared ≡ named)
  Fine shared (connects n id addr) = Known (id, addr) × ((1 ≤ n) ⊎ ((id, addr) ≡ named))
  Fine shared (inserts n id addr rpc) =
      (id ≡ leader.id → Leads rpc.channel) × ((1 ≤ n) ⊎ Leads rpc.channel)
  Fine shared (sends n rpc) = (1 ≤ n) ⊎ Leads rpc.channel
  Fine shared (redirected n l) = (1 ≤ n) × (l ≡ leader)
  Fine shared (ended r) = r ≡ ok tt

  pub record Sound (c : Cluster tonic S) : Type 0 where
    pub known : Known c.client.leader
    pub links : Links c.client.network
    pub nodes : Stays c.nodes

  with_client-Links :
      (id : ℕ) (addr : String) (rpc : RpcClient tonic) (net : ReplicatNetwork tonic)
      → (id ≡ leader.id → Leads rpc.channel)
      → Links net
      → Links (with_client tonic id addr rpc net)
  with_client-Links id addr rpc net leads links a r e = elim (Bool-cases (id == leader.id)) [
    | inl same ↦
        let here : rpc ≡ r = ground (arith, same, e) in
        let own : id ≡ leader.id = ground (arith, same) in
        subst (λ r. Leads r.channel) here (leads own)
    | inr away ↦ links a r (ground (arith, away, e))
  ]

  module _ (led : IsLed) where
    -- a client for a node that the clones know
    find_client :
        (l : ℕ × String)
        → Known l
        → (rpc : RpcClient tonic) × (connect tonic l.1 ≡ ok rpc)
          × (l.0 ≡ leader.id → Leads rpc.channel)
    find_client l (inl e) = (
      led.first_client,
      rw e led.connects_first,
      λ same. led.first_leads (sym (ap (λ l. l.0) e) ∙ same),
    )
    find_client l (inr e) = (led.leader_client, rw e led.connects_leader, λ same. led.leader_leads)

    abbrev Kept : ℕ × String → ℕ × String → Type 0
    Kept l l' = (l' ≡ l) ⊎ (l' ≡ named)

    connected-Fine :
        (l : ℕ × String) (n id : ℕ) (addr : String) (rpc : RpcClient tonic)
        (r : Result Unit (RpcClient tonic))
        → r ≡ ok rpc
        → Fine l (inserts n id addr rpc)
        → Fine l (connected tonic peer transport n id addr r)
    connected-Fine l n id addr rpc r o h =
        subst (λ r. Fine l (connected tonic peer transport n id addr r)) (sym o) h

    -- what a look into the map leads to
    existing-Fine :
        (l : ℕ × String) (n id : ℕ) (addr : String) (net : ReplicatNetwork tonic)
        → Links net
        → Known (id, addr)
        → (1 ≤ n) ⊎ ((id, addr) ≡ named)
        → Fine l (existing tonic peer transport n id addr (net.clients id))
    existing-Fine l n id addr net links known h =
        let ready : (rpc : RpcClient tonic)
            → (id ≡ leader.id → Leads rpc.channel)
            → (1 ≤ n) ⊎ Leads rpc.channel =
          λ rpc leads. elim h [ inl more ↦ inl more | inr e ↦ inr (leads (ap (λ l. l.0) e)) ] in
        elim (Option-cases (net.clients id)) [
          | inl e ↦
              let (rpc, c, leads) = find_client (id, addr) known in
              rw e (connected-Fine l n id addr rpc (connect tonic addr) c (leads, ready rpc leads))
          | inr ((a, rpc), e) ↦
              let leads : id ≡ leader.id → Leads rpc.channel =
                λ same. links a rpc (sym (ap net.clients same) ∙ e) in
              rw (e, (eq_iff a a).1 refl) (ready rpc leads)
        ]

    answered-Fine :
        (l : ℕ × String) (n : ℕ) (r : Result Failure Unit)
        → (r ≡ ok tt) ⊎ ((1 ≤ n) × (r ≡ err (failed (update_leader leader))))
        → Fine l (answered tonic peer transport n r (redirect_of r))
    answered-Fine l n r (inl o) =
        subst (λ r. Fine l (answered tonic peer transport n r (redirect_of r))) (sym o) refl
    answered-Fine l n r (inr (more, o)) =
        subst (λ r. Fine l (answered tonic peer transport n r (redirect_of r))) (sym o) (more, refl)

    -- what a try comes back with
    tried :
        (i n : ℕ) (channel : tonic.Channel) (nodes : S)
        → Stays nodes
        → (1 ≤ n) ⊎ Leads channel
        → let r = (write i channel nodes).0 in
          (r ≡ ok tt) ⊎ ((1 ≤ n) × (r ≡ err (failed (update_leader leader))))
    tried i n channel nodes stays (inl more) = elim (led.answers i channel nodes stays) [
      | inl o ↦ inl o
      | inr o ↦ inr (more, o)
    ]
    tried i n channel nodes stays (inr leads) = inl (led.takes i channel nodes stays leads)

    move-Fine :
        (i : ℕ) (p : Phase tonic) (c : Cluster tonic S)
        → Sound c
        → Fine c.client.leader p
        → let (p', c') = move tonic peer transport (sql i) (params i) p c in
          Sound c' × Fine c'.client.leader p' × Kept c.client.leader c'.client.leader
    unfolding move
    move-Fine i (reads n) c sound h = (sound, (sound.known, h), inl refl)
    move-Fine i (connects n id addr) c sound (known, h) = (
      sound,
      existing-Fine c.client.leader n id addr c.client.network sound.links known h,
      inl refl,
    )
    move-Fine i (inserts n id addr rpc) c sound (leads, h) = (
      record {
        known = sound.known;
        links = with_client-Links id addr rpc c.client.network leads sound.links;
        nodes = sound.nodes;
      },
      h,
      inl refl,
    )
    move-Fine i (sends n rpc) c sound h = (
      record {
        known = sound.known;
        links = sound.links;
        nodes = led.stays i rpc.channel c.nodes sound.nodes;
      },
      answered-Fine c.client.leader n _ (tried i n rpc.channel c.nodes sound.nodes h),
      inl refl,
    )
    move-Fine i (redirected zero l) c sound (more, _) = absurd (omega arith)
    move-Fine i (redirected (suc n) l) c sound (more, e) =
        let now : (l.id, l.rpc_addr) ≡ named = ap (λ l. (l.id, l.rpc_addr)) e in
        (record { known = inr now; links = sound.links; nodes = sound.nodes }, inr now, inr now)
    move-Fine i (ended r) c sound h = (sound, h, inl refl)

    -- the other clones stand as they stood
    Kept-Fine : (l l' : ℕ × String) (p : Phase tonic) → Kept l l' → Fine l p → Fine l' p
    Kept-Fine l l' p (inl e) h = subst (λ l. Fine l p) (sym e) h
    Kept-Fine l l' (reads n) (inr e) h = inr e
    Kept-Fine l l' (connects n id addr) (inr e) h = h
    Kept-Fine l l' (inserts n id addr rpc) (inr e) h = h
    Kept-Fine l l' (sends n rpc) (inr e) h = h
    Kept-Fine l l' (redirected n _) (inr e) h = h
    Kept-Fine l l' (ended r) (inr e) h = h

    set_at-Fine :
        (l : ℕ × String) (i j : ℕ) (p : Phase tonic) (phases : ℕ → Phase tonic)
        → Fine l p
        → Fine l (phases j)
        → Fine l (set_at phases i p j)
    set_at-Fine l i j p phases h h' = elim (Bool-cases (i == j)) [
      | inl e ↦ rw e h
      | inr e ↦ rw e h'
    ]

    run-Fine :
        (schedule : List ℕ) (s : System tonic S)
        → Sound s.cluster
        → ((j : ℕ) → Fine s.cluster.client.leader (s.phases j))
        → let s' = run tonic peer transport sql params schedule s in
          (j : ℕ) → Fine s'.cluster.client.leader (s'.phases j)
    unfolding run move_at
    run-Fine [] s sound fine = fine
    run-Fine (i ∷ schedule) s sound fine =
        let (sound', own, kept) = move-Fine i (s.phases i) s.cluster sound (fine i) in
        run-Fine schedule (move_at tonic peer transport sql params i s) sound'
          (λ j. set_at-Fine _ i j _ s.phases own (Kept-Fine _ _ (s.phases j) kept (fine j)))

    ended-ok :
        (l : ℕ × String) (p : Phase tonic) (r : Result Failure Unit)
        → p ≡ ended r
        → Fine l p
        → p ≡ ended (ok tt)
    ended-ok l p r e h = let done : r ≡ ok tt = subst (Fine l) e h in e ∙ ap (λ r. ended r) done

    -- In a cluster whose leader stays the leader, each of the clones that call `execute` succeeds: a
    -- clone that has made fifteen steps has ended with success, whatever the others do between its steps,
    -- if the clones begin with a leader that they know, and no cached client of the leader's number
    -- leads elsewhere.
    pub run-succeeds :
        (i : ℕ) (schedule : List ℕ) (s : System tonic S)
        → Sound s.cluster
        → ((j : ℕ) → s.phases j ≡ reads 2)
        → 15 ≤ moves i schedule
        → (run tonic peer transport sql params schedule s).phases i ≡ ended (ok tt)
    run-succeeds i schedule s sound begins enough =
        let s' = run tonic peer transport sql params schedule s in
        let ((r, e), _) =
          run-ended tonic peer transport sql params i schedule s (begins i) enough in
        let fine : (j : ℕ) → Fine s.cluster.client.leader (s.phases j) =
          λ j. subst (Fine s.cluster.client.leader) (sym (begins j)) (inl (omega arith)) in
        ended-ok s'.cluster.client.leader (s'.phases i) r e (run-Fine schedule s sound fine i)
