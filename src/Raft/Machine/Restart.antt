-- ===== src/Raft/Machine/Restart.antt =====
-- `create_state_machine` after `apply_to_state_machine`.
use replicat.Prelude.{◌≡◌, refl, inl, inr, ◌∙◌, ap, arith, sym, Option, none, some, List, []}
use replicat.Exec.{ok, Exec, settled_same, pure, ◌>>=◌, >>=-eq-ok}
use replicat.Openraft.{LogId, Entry}
use replicat.Sql.{Value, create_kv_table}
use replicat.Sql.Tables.{meaning}
use replicat.Env.{Env, IsFaithful}
use replicat.Handle.{StorageHandle, World, execute_or}
use replicat.Handle.Effects.{views, execute_or-at}
use replicat.Kv.{kv_get}
use replicat.Kv.Effects.{Keeps, kv_get-views, kv_get-Keeps}
use replicat.Raft.{System, StateMachine, last_log_key, last_membership_key}
use replicat.Raft.Machine.{apply_to_state_machine}
use replicat.Raft.Machine.Coherent.{
  KeepsMembership, Matches, IsCoherent, AllHarmless, apply_to_state_machine-IsCoherent,
}
use replicat.Raft.Open.{create_state_machine, or_default}

module _ (env : Env) (law : IsFaithful env) where
  open env use {Membership, EffectiveMembership, log_id_codec, membership_codec}

  -- CREATE TABLE IF NOT EXISTS keeps the rows
  create-tables :
      (h : StorageHandle) (w : World env)
      → views (execute_or env tt h create_kv_table [] w).1 h.tx ≡ views w h.tx
  unfolding meaning
  create-tables h w =
      execute_or-at env law h create_kv_table [] w tt (views w h.tx) [] refl
      ∙ settled_same (execute_or env tt h create_kv_table [] w).0 (views w h.tx)

  default-effective :
      (cell : Option Value) (m : EffectiveMembership) (r : Option EffectiveMembership)
      → KeepsMembership env cell m
      → ((held : Option EffectiveMembership) → Keeps membership_codec cell held → r ≡ held)
      → or_default env r ≡ m
  default-effective cell m r (inl (empty, same)) read =
      ap (or_default env) (read none empty) ∙ sym same
  default-effective cell m r (inr k) read = ap (or_default env) (read (some m) k)

  -- the calls of `create_state_machine`
  abbrev pub create : StorageHandle → Exec (World env) Unit Unit
  create h = execute_or env tt h create_kv_table []

  abbrev pub read_log : StorageHandle → Exec (World env) Unit (Option LogId)
  read_log h = kv_get env log_id_codec tt h last_log_key

  abbrev pub read_membership : StorageHandle → Exec (World env) Unit (Option EffectiveMembership)
  read_membership h = kv_get env membership_codec tt h last_membership_key

  abbrev pub machine_of :
      StorageHandle → Option LogId → Option EffectiveMembership → StateMachine env
  machine_of h last mem = record {
    last_applied_log = last;
    last_membership = or_default env mem;
    data' = h;
  }

  abbrev pub with_membership :
      StorageHandle → Option LogId → Exec (World env) Unit (StateMachine env)
  with_membership h last = read_membership h >>= λ mem. pure (machine_of h last mem)

  abbrev pub read_both : StorageHandle → Exec (World env) Unit (StateMachine env)
  read_both h = read_log h >>= with_membership h

  -- A state machine that is made from tables has the values of any state machine whose values those
  -- tables hold.
  pub create_state_machine-Matches :
      (h : StorageHandle) (w : World env) (m m' : StateMachine env)
      → Matches m (views w h.tx)
      → (create_state_machine env h w).0 ≡ ok m'
      → (m'.last_applied_log ≡ m.last_applied_log)
        × (m'.last_membership ≡ m.last_membership)
        × (m'.data' ≡ h)
  unfolding create_state_machine
  create_state_machine-Matches h w m m' k e =
      let (_, _, e1, _) = >>=-eq-ok (create h) (λ _. read_both h) w m' e in
      let w1 = (create h w).1 in
      let (last, o1, e2, _) = >>=-eq-ok (read_log h) (with_membership h) w1 m' e1 in
      let w2 = (read_log h w1).1 in
      let (mem, o2, e3, _) =
        >>=-eq-ok (read_membership h) (λ x. pure (machine_of h last x)) w2 m' e2 in
      let t1 = create-tables h w in
      let t2 = ap (λ f. f h.tx) (kv_get-views env law log_id_codec tt h last_log_key w1) ∙ t1 in
      let first =
        kv_get-Keeps env law log_id_codec tt h last_log_key w1 law.log_id_ok m.last_applied_log last
          (rw t1 k.applied) o1 in
      let second =
        default-effective ((views w2 h.tx).kv last_membership_key) m.last_membership mem
          (rw t2 k.effective)
          λ held kept.
            kv_get-Keeps env law membership_codec tt h last_membership_key w2 law.membership_ok held
              mem kept o2 in
      ground (arith, first, second)

  -- After `apply_to_state_machine`, however it ended, a restart on the same database finds the last
  -- applied id and the membership that were in memory, if they agreed before and no client's
  -- statement writes them.
  pub restart-recovers :
      (es : List (Entry Membership)) (s : System env) (m' : StateMachine env)
      → AllHarmless env es
      → IsCoherent s
      → let s' = (apply_to_state_machine env es s).1 in
        (create_state_machine env s'.raft.state_machine.data' s'.world).0 ≡ ok m'
        → (m'.last_applied_log ≡ s'.raft.state_machine.last_applied_log)
          × (m'.last_membership ≡ s'.raft.state_machine.last_membership)
  restart-recovers es s m' h c o =
      let s' = (apply_to_state_machine env es s).1 in
      let (applied, effective, _) =
        create_state_machine-Matches s'.raft.state_machine.data' s'.world s'.raft.state_machine m'
          (apply_to_state_machine-IsCoherent env law es s h c) o in
      (applied, effective)
