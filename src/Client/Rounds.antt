-- ===== src/Client/Rounds.antt =====
-- The loop of `execute` as a sequence of rounds.
use replicat.Prelude.{ℕ, suc, ◌≤◌, String, ◌≡◌, ◌⊎◌, Option, none, some, List}
use replicat.Exec.{Result, err}
use replicat.Params.{TransportableParam}
use replicat.Rpc.{Node}
use replicat.Rpc.Peer.{Peer}
use replicat.Rpc.Client.{Transport, Failure, failed, unknown_leader}
use replicat.Network.{Tonic}
use replicat.Client.{Cluster, attempt, set_leader, redirect_of}

module _ (tonic : Tonic) (peer : Peer) {S : Type 0} (transport : tonic.Channel → Transport S)
    (sql : String) (params : List TransportableParam) where
  abbrev State : Type 0
  State = Cluster tonic S

  abbrev try_once : State → Result Failure Unit × State
  try_once = attempt tonic peer transport sql params

  abbrev redirected : State → Option Node
  redirected s = redirect_of (try_once s).0

  -- Some rounds, each answered by another leader, and each sent to the leader that the one before
  -- it named.
  pub data Redirects : ℕ → State → State → Type 0 where
    stay : {s : State} → Redirects 0 s s
    follow :
        {n : ℕ} {s s' : State} (leader : Node)
        → redirected s ≡ some leader
        → Redirects n (set_leader tonic peer transport leader (try_once s).1) s'
        → Redirects (suc n) s s'

  -- How a call that may be redirected `n` times and once more ends: with the result of the first
  -- round that names no other leader, or with `UnknownLeader` after `n + 1` redirects.
  pub record Ended (n : ℕ) (s : State) (end : Result Failure Unit × State) : Type 0 where
    pub rounds : ℕ
    pub last : State
    pub redirects : Redirects rounds s last
    pub result :
        ((rounds ≤ n) × (redirected last ≡ none) × (end ≡ try_once last))
        ⊎ ((rounds ≡ suc n) × (end ≡ (err (failed unknown_leader), last)))
