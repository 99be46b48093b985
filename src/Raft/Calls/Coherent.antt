-- ===== src/Raft/Calls/Coherent.antt =====
-- What is in memory and what is in the database, under the calls of openraft.
use replicat.Prelude.{List, [], ◌∷◌, ◌≡◌, refl, sym, ap, ◌∙◌}
use replicat.Exec.{ok}
use replicat.Openraft.{Entry}
use replicat.Sql.{u64, delete_logs_since}
use replicat.Env.{Env, IsFaithful}
use replicat.Raft.{System, StateMachine, vote_key}
use replicat.Raft.Store.{save_vote, read_vote, set_vote, get_vote}
use replicat.Raft.Log.{delete_conflict_logs_since}
use replicat.Raft.Machine.{apply_to_state_machine, last_applied_state}
use replicat.Raft.Machine.Coherent.{AllHarmless, apply_to_state_machine-IsCoherent}
use replicat.Raft.Machine.Restart.{create_state_machine-Matches}
use replicat.Raft.Open.{create_state_machine}
use replicat.Raft.Snapshots.{begin_receiving_snapshot}
use replicat.Raft.Calls.Handles.{apply_to_state_machine-HasHandles}
use replicat.Raft.Calls.{
  Called, saves_vote, reads_vote, appends, deletes, purges, reads_state, reads_log, applies,
  reads_applied, builds, reads_snapshot, begins, Calls, none_made, one_more,
}
use replicat.Raft.Calls.Settled.{
  IsSettled, put-IsSettled, get-IsSettled, execute-IsSettled, appends-IsSettled,
  reads_log-IsSettled, purges-IsSettled, reads_state-IsSettled,
}
use replicat.Raft.Calls.Builds.{builds-IsSettled, reads_snapshot-IsSettled}

module _ (env : Env) (law : IsFaithful env) where
  applies-IsSettled :
      (es : List (Entry env.Membership)) (s : System env)
      → AllHarmless env es
      → IsSettled s
      → IsSettled (apply_to_state_machine env es s).1
  applies-IsSettled es s harmless k =
      let (log, live) =
        apply_to_state_machine-HasHandles env s.raft.log s.raft.state_machine.data' es s
          (refl, refl) in
      record {
        apart = λ e. k.apart (sym (ap (λ h. h.tx) live) ∙ e ∙ ap (λ h. h.tx) log);
        coherent = apply_to_state_machine-IsCoherent env law es s harmless k.coherent;
      }

  -- Each call but `install_snapshot`, whether it succeeds or fails, keeps the values in memory and
  -- those in the database in agreement.
  Called-IsSettled : {s s' : System env} → Called env s s' → IsSettled s → IsSettled s'
  unfolding save_vote read_vote set_vote get_vote delete_conflict_logs_since last_applied_state
      begin_receiving_snapshot
  Called-IsSettled {s} (saves_vote vote) k = put-IsSettled env law s k env.vote_codec vote_key vote
  Called-IsSettled {s} reads_vote k = get-IsSettled env law s k env.vote_codec vote_key
  Called-IsSettled {s} (appends es) k = appends-IsSettled env law s k es
  Called-IsSettled {s} (deletes id) k =
      execute-IsSettled env law s k delete_logs_since (u64 id.index ∷ [])
  Called-IsSettled {s} (purges id) k = purges-IsSettled env law id s k
  Called-IsSettled {s} reads_state k = reads_state-IsSettled env law s k
  Called-IsSettled {s} (reads_log range) k = reads_log-IsSettled env law s k range
  Called-IsSettled {s} (applies es harmless) k = applies-IsSettled es s harmless k
  Called-IsSettled {s} reads_applied k = k
  Called-IsSettled {s} builds k = builds-IsSettled env law s k
  Called-IsSettled {s} reads_snapshot k = reads_snapshot-IsSettled env law s k
  Called-IsSettled {s} begins k = k

  pub Calls-IsSettled : {s s' : System env} → Calls env s s' → IsSettled s → IsSettled s'
  Calls-IsSettled none_made k = k
  Calls-IsSettled (one_more c cs) k = Calls-IsSettled cs (Called-IsSettled c k)

  -- Whatever calls but `install_snapshot` openraft makes, in whatever order, and whether they succeed
  -- or fail: the store can be stopped after any of them, and a state machine that is made again from
  -- its live database has the last applied id and the membership that were in memory, if memory and
  -- database agreed at first, the live database is not the log's, and no client's statement writes the
  -- two values.
  pub Calls-recovers :
      {s s' : System env} (m : StateMachine env)
      → Calls env s s'
      → IsSettled s
      → (create_state_machine env s'.raft.state_machine.data' s'.world).0 ≡ ok m
      → (m.last_applied_log ≡ s'.raft.state_machine.last_applied_log)
        × (m.last_membership ≡ s'.raft.state_machine.last_membership)
  Calls-recovers {s' = s'} m cs k o =
      let (applied, effective, _) =
        create_state_machine-Matches env law s'.raft.state_machine.data' s'.world
          s'.raft.state_machine m (Calls-IsSettled cs k).coherent o in
      (applied, effective)
