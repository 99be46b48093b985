-- ===== src/Tests/Clones.antt =====
-- Two clones of a client that send to a leader which has moved.
use replicat.Prelude.{
  ℕ, ◌≡◌, refl, arith, inl, inr, Bool-cases, str_eq, false, String, List, [], ◌∷◌, ◌++◌,
}
use replicat.Exec.{ok}
use replicat.Params.{TransportableParam}
use replicat.Rpc.{Node, error_code}
use replicat.Rpc.Client.{mutate_state, mutate_answer}
use replicat.Network.{connect, get_or_connect_client}
use replicat.Client.Clones.{System, reads, ended, run, move_at, move, moves}
use replicat.Client.Clones.Led.{IsLed, Sound, run-succeeds}
use replicat.Tests.Peers.{peer}
use replicat.Tests.Network.{tonic, transport, cluster, client_of}

abbrev begun : System tonic ℕ
begun = record { cluster = cluster; phases = λ i. reads 2 }

abbrev sql : ℕ → String
sql i = "DELETE FROM t"

abbrev params : ℕ → List TransportableParam
params i = []

abbrev turns : List ℕ
turns = 0 ∷ 1 ∷ 0 ∷ 1 ∷ []

abbrev schedule : List ℕ
schedule = turns ++ (turns ++ (turns ++ (turns ++ (turns ++ (turns ++ (turns ++ turns))))))

-- Both send the statement to the old leader and then to the new one.
both_follow :
    let s = run tonic peer transport sql params schedule begun in
    (s.cluster.nodes ≡ 4) × (s.cluster.client.leader ≡ (2, "b:80")) × (s.phases 0 ≡ ended (ok tt))
unfolding run move_at move get_or_connect_client connect mutate_state mutate_answer error_code
both_follow = (refl, refl, refl)

-- the node at "a:80" follows, and all others lead
abbrev Leads : String → Type 0
Leads channel = str_eq channel "http://a:80" ≡ false

abbrev Stays : ℕ → Type 0
Stays nodes = Unit

abbrev leader : Node
leader = record { id = 2; rpc_addr = "b:80" }

cluster-IsLed : IsLed tonic peer transport sql params (1, "a:80") leader Leads Stays
unfolding mutate_state mutate_answer error_code connect
cluster-IsLed = record {
  answers = λ i channel nodes _. elim (Bool-cases (str_eq channel "http://a:80")) [
    | inl e ↦ inr (ground (arith, e))
    | inr e ↦ inl (ground (arith, e))
  ];
  takes = λ i channel nodes _ e. ground (arith, e);
  stays = λ i channel nodes _. tt;
  first_client = client_of "http://a:80";
  connects_first = refl;
  first_leads = λ same. absurd (omega (arith, same));
  leader_client = client_of "http://b:80";
  connects_leader = refl;
  leader_leads = refl;
}

cluster-Sound : Sound tonic peer transport sql params (1, "a:80") leader Leads Stays cluster
cluster-Sound = record { known = inl refl; links = λ addr rpc e. ground (arith, e); nodes = tt }

run-succeeds_example : (run tonic peer transport sql params schedule begun).phases 1 ≡ ended (ok tt)
unfolding moves
run-succeeds_example =
    run-succeeds tonic peer transport sql params (1, "a:80") leader Leads Stays cluster-IsLed 1
      schedule begun cluster-Sound (λ j. refl) (omega arith)
