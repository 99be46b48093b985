-- ===== src/Client/Clones/Ends.antt =====
-- How the calls of several clones end.
use Prim.Native.Nat.{◌*◌}
use replicat.Prelude.{
  ℕ, zero, suc, ◌+◌, ◌-◌, ◌≤◌, ◌≡◌, refl, ap, ◌∙◌, arith, inl, inr, Bool-cases, true, false, str_eq,
  ◌==◌, String, Option, none, some, List, [], ◌∷◌,
}
use replicat.Exec.{Result, ok, err}
use replicat.Params.{TransportableParam}
use replicat.Handle.Effects.{set_at_lem}
use replicat.Rpc.{Node}
use replicat.Rpc.Peer.{Peer}
use replicat.Rpc.Client.{Transport, Failure, mutate_state}
use replicat.Network.{Tonic, RpcClient, connect}
use replicat.Client.{Cluster, redirect_of}
use replicat.Client.Clones.{
  Phase, reads, connects, inserts, sends, existing, redirected, ended, System, connected, answered,
  move, move_at, run, is_sending, tries, moves,
}

-- the tries and the steps that are left
abbrev pub tries_left : {tonic : Tonic} → Phase tonic → ℕ
tries_left (reads n) = suc n
tries_left (connects n _ _) = suc n
tries_left (inserts n _ _ _) = suc n
tries_left (sends n _) = suc n
tries_left (redirected n _) = n
tries_left (ended _) = 0

abbrev pub steps_left : {tonic : Tonic} → Phase tonic → ℕ
steps_left (reads n) = 5 * n + 5
steps_left (connects n _ _) = 5 * n + 4
steps_left (inserts n _ _ _) = 5 * n + 3
steps_left (sends n _) = 5 * n + 2
steps_left (redirected n _) = 5 * n + 1
steps_left (ended _) = 0

module _ (tonic : Tonic) (peer : Peer) {S : Type 0} (transport : tonic.Channel → Transport S) where
  -- what a step leaves of them
  abbrev Fewer : Phase tonic → Phase tonic → Type 0
  Fewer p p' = (steps_left p' ≤ steps_left p - 1) × (is_sending p + tries_left p' ≤ tries_left p)

  connected-Fewer :
      (n id : ℕ) (addr : String) (r : Result Unit (RpcClient tonic))
      → Fewer (connects n id addr) (connected tonic peer transport n id addr r)
  connected-Fewer n id addr (ok rpc) = (omega arith, omega arith)
  connected-Fewer n id addr (err _) = (omega arith, omega arith)

  existing-Fewer :
      (n id : ℕ) (addr : String) (o : Option (String × RpcClient tonic))
      → Fewer (connects n id addr) (existing tonic peer transport n id addr o)
  existing-Fewer n id addr none = connected-Fewer n id addr (connect tonic addr)
  existing-Fewer n id addr (some (cached, rpc)) = elim (Bool-cases (str_eq cached cached)) [
    | inl e ↦ rw e (omega arith, omega arith)
    | inr e ↦ rw e (connected-Fewer n id addr (connect tonic addr))
  ]

  answered-Fewer :
      (n : ℕ) (rpc : RpcClient tonic) (result : Result Failure Unit) (o : Option Node)
      → Fewer (sends n rpc) (answered tonic peer transport n result o)
  answered-Fewer n rpc result none = (omega arith, omega arith)
  answered-Fewer n rpc result (some leader) = (omega arith, omega arith)

  move-Fewer :
      (sql : String) (params : List TransportableParam) (p : Phase tonic) (c : Cluster tonic S)
      → Fewer p (move tonic peer transport sql params p c).0
  unfolding move
  move-Fewer sql params (reads n) c = (omega arith, omega arith)
  move-Fewer sql params (connects n id addr) c =
      existing-Fewer n id addr (c.client.network.clients id)
  move-Fewer sql params (inserts n id addr rpc) c = (omega arith, omega arith)
  move-Fewer sql params (sends n rpc) c =
      let result = (mutate_state peer (transport rpc.channel) sql params c.nodes).0 in
      answered-Fewer n rpc result (redirect_of result)
  move-Fewer sql params (redirected zero leader) c = (omega arith, omega arith)
  move-Fewer sql params (redirected (suc n) leader) c = (omega arith, omega arith)
  move-Fewer sql params (ended result) c = (omega arith, omega arith)

  module _ (sql : ℕ → String) (params : ℕ → List TransportableParam) where
    abbrev after : ℕ → System tonic S → System tonic S
    after = move_at tonic peer transport sql params

    move_at-own :
        (i j : ℕ) (s : System tonic S)
        → (i == j) ≡ true
        → (after j s).phases i
          ≡ (move tonic peer transport (sql i) (params i) (s.phases i) s.cluster).0
    unfolding move_at
    move_at-own i j s e =
        let same : j ≡ i = ground (arith, e) in
        ap (λ k. (after k s).phases i) same
        ∙ set_at_lem s.phases i
            (move tonic peer transport (sql i) (params i) (s.phases i) s.cluster).0

    move_at-other :
        (i j : ℕ) (s : System tonic S) → (i == j) ≡ false → (after j s).phases i ≡ s.phases i
    unfolding move_at
    move_at-other i j s e = ground (arith, e)

    run-left :
        (i : ℕ) (schedule : List ℕ) (s : System tonic S)
        → let s' = run tonic peer transport sql params schedule s in
          (steps_left (s'.phases i) ≤ steps_left (s.phases i) - moves i schedule)
          × (tries tonic peer transport sql params i schedule s + tries_left (s'.phases i)
              ≤ tries_left (s.phases i))
    unfolding run tries moves
    run-left i [] s = (omega arith, omega arith)
    run-left i (j ∷ schedule) s =
        let (steps, left) = run-left i schedule (after j s) in
        elim (Bool-cases (i == j)) [
          | inl e ↦
              let own = move_at-own i j s e in
              let (fewer, less) = move-Fewer (sql i) (params i) (s.phases i) s.cluster in
              rw e (
                omega (arith, steps, fewer, ap steps_left own),
                omega (arith, left, less, ap tries_left own),
              )
          | inr e ↦
              let other = move_at-other i j s e in
              rw e (
                omega (arith, steps, ap steps_left other),
                omega (arith, left, ap tries_left other),
              )
        ]

    is_ended : (p : Phase tonic) → steps_left p ≤ 0 → (r : Result Failure Unit) × (p ≡ ended r)
    is_ended (reads n) h = absurd (omega arith)
    is_ended (connects n _ _) h = absurd (omega arith)
    is_ended (inserts n _ _ _) h = absurd (omega arith)
    is_ended (sends n _) h = absurd (omega arith)
    is_ended (redirected n _) h = absurd (omega arith)
    is_ended (ended r) h = (r, refl)

    -- Whatever other clones do between its steps, a clone that begins a call of `execute` sends its
    -- statement at most three times, and its call has ended once it has made fifteen steps.
    pub run-ended :
        (i : ℕ) (schedule : List ℕ) (s : System tonic S)
        → s.phases i ≡ reads 2
        → 15 ≤ moves i schedule
        → let s' = run tonic peer transport sql params schedule s in
          ((r : Result Failure Unit) × (s'.phases i ≡ ended r))
          × (tries tonic peer transport sql params i schedule s ≤ 3)
    run-ended i schedule s begins enough =
        let (steps, left) = run-left i schedule s in
        (
          is_ended ((run tonic peer transport sql params schedule s).phases i)
              (omega (arith, steps, enough, ap steps_left begins)),
          omega (arith, left, ap tries_left begins),
        )
