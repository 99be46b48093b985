-- ===== src/Network/Cache.antt =====
-- The map of clients in `ReplicatNetwork`, src/rpc/raft.rs.
use replicat.Prelude.{
  subst, sym, true, false, Bool-cases, ℕ, String, ◌≡◌, refl, inl, inr, arith, some, Option, none,
  ◌==◌, if◌then◌else◌, Option-cases, eq_iff, List, [], ◌∷◌,
}
use replicat.Exec.{err, Result-cases, ok}
use replicat.Network.{
  Tonic, RpcClient, ReplicatNetwork, connect, connect_new, get_or_connect_client,
}

module _ (tonic : Tonic) where
  -- An entry whose client was made for the address beside it.
  abbrev MadeFor : Option (String × RpcClient tonic) → Type 0
  MadeFor none = Unit
  MadeFor (some (addr, client)) = connect tonic addr ≡ ok client

  abbrev pub IsConnected : ReplicatNetwork tonic → Type 0
  IsConnected net = (n : ℕ) → MadeFor (net.clients n)

  connect_new-MadeFor :
      (n m : ℕ) (addr : String) (net : ReplicatNetwork tonic)
      → MadeFor (net.clients m)
      → MadeFor ((connect_new tonic n addr net).1.clients m)
  connect_new-MadeFor n m addr net h = elim (Result-cases (connect tonic addr)) [
    | inr (x, o) ↦ subst MadeFor (sym (left_alone x o)) h
    | inl (client, o) ↦ elim (Bool-cases (n == m)) [
      | inl here ↦ subst MadeFor (sym (entry client o here)) o
      | inr there ↦ subst MadeFor (sym (others client o there)) h
    ]
  ]
    where
      left_alone :
          (x : Unit)
          → connect tonic addr ≡ err x
          → (connect_new tonic n addr net).1.clients m ≡ net.clients m
      left_alone x o = ground arith

      entry :
          (client : RpcClient tonic)
          → connect tonic addr ≡ ok client
          → (n == m) ≡ true
          → (connect_new tonic n addr net).1.clients m ≡ some (addr, client)
      entry client o here = ground arith

      others :
          (client : RpcClient tonic)
          → connect tonic addr ≡ ok client
          → (n == m) ≡ false
          → (connect_new tonic n addr net).1.clients m ≡ net.clients m
      others client o there = ground arith

  -- A call keeps every client in the map beside the address that it was made for.
  pub get_or_connect_client-IsConnected :
      (n : ℕ) (addr : String) (net : ReplicatNetwork tonic)
      → IsConnected net
      → IsConnected (get_or_connect_client tonic n addr net).1
  unfolding get_or_connect_client
  get_or_connect_client-IsConnected n addr net h m = elim (Option-cases (net.clients n)) [
    | inl none_yet ↦
        let same : get_or_connect_client tonic n addr net ≡ connect_new tonic n addr net =
          ground arith in
        subst (λ z. MadeFor (z.1.clients m)) (sym same) (connect_new-MadeFor n m addr net (h m))
    | inr ((cached, client), held) ↦
        let same : (get_or_connect_client tonic n addr net).1 ≡ net =
          ground (arith, (eq_iff cached cached).1 refl) in
        subst (λ z. MadeFor (z.clients m)) (sym same) (h m)
  ]

  -- the call on a node that is cached, and on one that is not
  pub cached-client :
      (id : ℕ) (addr a : String) (rpc : RpcClient tonic) (net : ReplicatNetwork tonic)
      → net.clients id ≡ some (a, rpc)
      → get_or_connect_client tonic id addr net ≡ (ok rpc, net)
  unfolding get_or_connect_client
  cached-client id addr a rpc net e = ground (arith, e, eq_iff a a)

  abbrev pub with_client :
      ℕ → String → RpcClient tonic → ReplicatNetwork tonic → ReplicatNetwork tonic
  with_client id addr rpc net = record {
    clients = λ n. if id == n then some (addr, rpc) else net.clients n;
  }

  pub new-client :
      (id : ℕ) (addr : String) (rpc : RpcClient tonic) (net : ReplicatNetwork tonic)
      → net.clients id ≡ none
      → connect tonic addr ≡ ok rpc
      → get_or_connect_client tonic id addr net ≡ (ok rpc, with_client id addr rpc net)
  unfolding get_or_connect_client
  new-client id addr rpc net e c = ground (arith, e, c)

  -- the network after a sequence of calls, each for a node and an address, whether they succeed or
  -- fail
  unfoldable pub visits : List (ℕ × String) → ReplicatNetwork tonic → ReplicatNetwork tonic
  visits [] net = net
  visits ((m, addr) ∷ calls) net = visits calls (get_or_connect_client tonic m addr net).1

  connect_new-others :
      (n m : ℕ) (addr a : String) (net : ReplicatNetwork tonic) (client : RpcClient tonic)
      → net.clients n ≡ some (a, client)
      → net.clients m ≡ none
      → (connect_new tonic m addr net).1.clients n ≡ some (a, client)
  connect_new-others n m addr a net client held none_yet =
      elim (Result-cases (connect tonic addr)) [
        | inr (x, o) ↦ ground arith
        | inl (made, o) ↦ elim (Bool-cases (m == n)) [
          | inl here ↦ ground arith
          | inr there ↦ ground arith
        ]
      ]

  -- a call for any node, with any address, keeps the client of each node that has one
  get_or_connect_client-keeps :
      (n m : ℕ) (addr a : String) (net : ReplicatNetwork tonic) (client : RpcClient tonic)
      → net.clients n ≡ some (a, client)
      → (get_or_connect_client tonic m addr net).1.clients n ≡ some (a, client)
  unfolding get_or_connect_client
  get_or_connect_client-keeps n m addr a net client held = elim (Option-cases (net.clients m)) [
    | inl none_yet ↦ ground (arith, connect_new-others n m addr a net client held none_yet)
    | inr ((cached, other), there) ↦ ground (arith, (eq_iff cached cached).1 refl)
  ]

  visits-keeps :
      (n : ℕ) (a : String) (client : RpcClient tonic) (calls : List (ℕ × String))
      (net : ReplicatNetwork tonic)
      → net.clients n ≡ some (a, client)
      → (visits calls net).clients n ≡ some (a, client)
  unfolding visits
  visits-keeps n a client [] net held = held
  visits-keeps n a client ((m, addr) ∷ calls) net held =
      visits-keeps n a client calls (get_or_connect_client tonic m addr net).1
        (get_or_connect_client-keeps n m addr a net client held)

  -- the client that a call returned is in the map
  get_or_connect_client-held :
      (n : ℕ) (addr : String) (net : ReplicatNetwork tonic) (client : RpcClient tonic)
      → (get_or_connect_client tonic n addr net).0 ≡ ok client
      → (a : String) × ((get_or_connect_client tonic n addr net).1.clients n ≡ some (a, client))
  unfolding get_or_connect_client
  get_or_connect_client-held n addr net client o = elim (Option-cases (net.clients n)) [
    | inl none_yet ↦ (addr, ground arith)
    | inr ((cached, held_client), held) ↦ (cached, ground (arith, (eq_iff cached cached).1 refl))
  ]

  -- Once a call for a node has returned a client, every later call for that node returns this client
  -- and changes nothing, whatever address it gives, and whatever calls for this and for other nodes
  -- came between: a node that moved is not connected to again.
  pub get_or_connect_client-cached :
      (n : ℕ) (addr moved : String) (calls : List (ℕ × String)) (net : ReplicatNetwork tonic)
      (client : RpcClient tonic)
      → (get_or_connect_client tonic n addr net).0 ≡ ok client
      → let later = visits calls (get_or_connect_client tonic n addr net).1 in
        get_or_connect_client tonic n moved later ≡ (ok client, later)
  get_or_connect_client-cached n addr moved calls net client o =
      let (a, held) = get_or_connect_client-held n addr net client o in
      let net' = (get_or_connect_client tonic n addr net).1 in
      cached-client n moved a client (visits calls net') (visits-keeps n a client calls net' held)
