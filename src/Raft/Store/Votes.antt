-- ===== src/Raft/Store/Votes.antt =====
-- The vote in the log's database.
use replicat.Prelude.{◌≡◌, ap, ◌∙◌, Option, some, List}
use replicat.Exec.{ok}
use replicat.Openraft.{Vote, Entry}
use replicat.Env.{Env, IsFaithful}
use replicat.Handle.Effects.{views}
use replicat.Kv.Effects.{Keeps, kv_put-views, kv_get-Keeps, stored-at}
use replicat.Raft.{System, vote_key, store_read_error, store_write_error}
use replicat.Raft.Store.{save_vote, read_vote}
use replicat.Raft.Log.{append_to_log}
use replicat.Raft.Log.Writes.{log_tables, Refines}
use replicat.Raft.Log.Append.{append_to_log-Appended}

module _ (env : Env) (law : IsFaithful env) where
  open env use {Membership, vote_codec}

  save_vote-Keeps :
      (vote : Vote) (s : System env)
      → (save_vote env vote s).0 ≡ ok tt
      → Keeps vote_codec ((log_tables (save_vote env vote s).1).kv vote_key) (some vote)
  unfolding save_vote
  save_vote-Keeps vote s e =
      let (b, g, v) =
        kv_put-views env law vote_codec store_write_error s.raft.log vote_key s.world vote e in
      (
        b,
        g,
        ap (λ f. (f s.raft.log.tx).kv vote_key) v
            ∙ ap (λ t. t.kv vote_key) (stored-at (views s.world) s.raft.log.tx vote_key b),
      )

  read_vote-Keeps :
      (held : Option Vote) (s : System env) (r : Option Vote)
      → Keeps vote_codec ((log_tables s).kv vote_key) held
      → (read_vote env s).0 ≡ ok r
      → r ≡ held
  unfolding read_vote
  read_vote-Keeps held s r k e =
      kv_get-Keeps env law vote_codec store_read_error s.raft.log vote_key s.world law.vote_ok held
        r k e

  -- A vote that was saved is the vote that is read, whatever entries were appended in between and
  -- whether or not that succeeded.
  pub save_vote-read_vote :
      (vote : Vote) (es log : List (Entry Membership)) (s : System env) (r : Option Vote)
      → (save_vote env vote s).0 ≡ ok tt
      → Refines (save_vote env vote s).1 log
      → (read_vote env (append_to_log env es (save_vote env vote s).1).1).0 ≡ ok r
      → r ≡ some vote
  unfolding append_to_log
  save_vote-read_vote vote es log s r e a o =
      let s1 = (save_vote env vote s).1 in
      let kept = (append_to_log-Appended env law es s1 log a).kv in
      read_vote-Keeps (some vote) (append_to_log env es s1).1 r (rw kept (save_vote-Keeps vote s e))
        o
