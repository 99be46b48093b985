-- ===== src/Raft/Machine/Coherent.antt =====
-- The two values that `StateMachine` keeps in memory, beside those in its database.
use replicat.Prelude.{
  String, ◌≡◌, refl, ◌⊎◌, inl, inr, ◌∙◌, ap, sym, subst, Option, none, some, List, [], ◌∷◌,
}
use replicat.Exec.{ok, err, Result-cases, modify, pure, ◌>>◌, ◌>>=◌, >>=-keeps, >>=-ok, >>=-err}
use replicat.Openraft.{LogId, Entry, EntryPayload, StorageError, Request, blank, normal, membership}
use replicat.Sql.{Bytes, Value, client}
use replicat.Sql.Tables.{Tables}
use replicat.Env.{Env, IsFaithful, Codec}
use replicat.Handle.Effects.{views, execute_or-conn}
use replicat.Kv.{kv_put}
use replicat.Kv.Effects.{Keeps, with_value, stored-at, kv_put-views, kv_put-views_err}
use replicat.Raft.{
  System, StateMachine, Storage, on_world, last_log_key, last_membership_key, store_write_error,
}
use replicat.Raft.Machine.{
  in_machine, set_last_applied_log, set_last_membership, execute_request, apply_payload,
  apply_entry, apply_to_state_machine, bound,
}

-- The tables of the live database.
abbrev pub data_tables : {env : Env} → System env → Tables
data_tables s = views s.world s.raft.state_machine.data'.tx

-- The membership that a cell stands for: the default one while none was stored.
abbrev pub KeepsMembership : (env : Env) → Option Value → env.EffectiveMembership → Type 0
KeepsMembership env cell m =
    ((cell ≡ none) × (m ≡ env.effective_default)) ⊎ Keeps env.membership_codec cell (some m)

-- The values of a state machine are those in the tables.
pub record Matches {env : Env} (m : StateMachine env) (t : Tables) : Type 0 where
  pub applied : Keeps env.log_id_codec (t.kv last_log_key) m.last_applied_log
  pub effective : KeepsMembership env (t.kv last_membership_key) m.last_membership

abbrev pub IsCoherent : {env : Env} → System env → Type 0
IsCoherent s = Matches s.raft.state_machine (data_tables s)

module _ (env : Env) where
  open env use {Membership}

  -- A client's statement leaves the two values alone.
  abbrev pub Harmless : Request → Type 0
  Harmless (Request.execute sql params) =
      (c : env.Conn)
      → let after = env.tables (env.run_execute c (client sql) (bound env params)).1 in
        (after.kv last_log_key ≡ (env.tables c).kv last_log_key)
        × (after.kv last_membership_key ≡ (env.tables c).kv last_membership_key)

  abbrev pub HarmlessPayload : EntryPayload Membership → Type 0
  HarmlessPayload blank = Unit
  HarmlessPayload (normal req) = Harmless req
  HarmlessPayload (membership _) = Unit

  abbrev pub AllHarmless : List (Entry Membership) → Type 0
  AllHarmless [] = Unit
  AllHarmless (e ∷ es) = HarmlessPayload e.payload × AllHarmless es

module _ (env : Env) (law : IsFaithful env) where
  open env use {Membership, EffectiveMembership, log_id_codec, membership_codec}

  -- one value written to the live database
  abbrev pub put_data : {A : Type 0} → Codec A → String → A → Storage env Unit
  put_data codec k a s =
      on_world (kv_put env codec store_write_error s.raft.state_machine.data' k a) s

  pub put_data-ok :
      {A : Type 0} (codec : Codec A) (k : String) (a : A) (s : System env)
      → (put_data codec k a s).0 ≡ ok tt
      → (b : Bytes) × (codec.to_vec a ≡ ok b)
        × (data_tables (put_data codec k a s).1 ≡ with_value (data_tables s) k b)
  put_data-ok codec k a s o =
      let h = s.raft.state_machine.data' in
      let (b, g, v) = kv_put-views env law codec store_write_error h k s.world a o in
      (b, g, ap (λ f. f h.tx) v ∙ stored-at (views s.world) h.tx k b)

  pub put_data-err :
      {A : Type 0} (codec : Codec A) (k : String) (a : A) (s : System env) (x : StorageError)
      → (put_data codec k a s).0 ≡ err x
      → data_tables (put_data codec k a s).1 ≡ data_tables s
  put_data-err codec k a s x o =
      let h = s.raft.state_machine.data' in
      ap (λ f. f h.tx) (kv_put-views_err env law codec store_write_error h k s.world a x o)

  -- the database first, and then the value in memory
  abbrev set_value :
      {A : Type 0} → Codec A → String → A → (StateMachine env → StateMachine env) → Storage env Unit
  set_value codec k a f = put_data codec k a >> modify (in_machine env f)

  -- What holds before a write and in both places after it holds however the write ends.
  set_value-keeps :
      {A : Type 0} (codec : Codec A) (k : String) (a : A) (f : StateMachine env → StateMachine env)
      (P : StateMachine env → Tables → Type 0) (s : System env)
      → (f s.raft.state_machine).data' ≡ s.raft.state_machine.data'
      → P s.raft.state_machine (data_tables s)
      → ((b : Bytes)
          → codec.to_vec a ≡ ok b
          → P (f s.raft.state_machine) (with_value (data_tables s) k b))
      → let s' = (set_value codec k a f s).1 in P s'.raft.state_machine (data_tables s')
  set_value-keeps codec k a f P s same p q = elim (Result-cases (put_data codec k a s).0) [
    | inr (x, o) ↦
        rw (>>=-err (put_data codec k a) (λ _. modify (in_machine env f)) s x o)
          (rw (put_data-err codec k a s x o) p)
    | inl (_, o) ↦
        let (b, g, v) = put_data-ok codec k a s o in
        rw (>>=-ok (put_data codec k a) (λ _. modify (in_machine env f)) s tt o) (
          subst (P (f s.raft.state_machine))
            (sym (ap (λ h. views (put_data codec k a s).1.world h.tx) same ∙ v)) (q b g))
  ]

  pub set_last_applied_log-IsCoherent :
      (id : LogId) (s : System env) → IsCoherent s → IsCoherent (set_last_applied_log env id s).1
  unfolding set_last_applied_log
  set_last_applied_log-IsCoherent id s c =
      set_value-keeps log_id_codec last_log_key id (λ m. record m { last_applied_log = some id })
        Matches s refl c (λ b g. record { applied = (b, g, refl); effective = c.effective })

  pub set_last_membership-IsCoherent :
      (m : EffectiveMembership) (s : System env)
      → IsCoherent s
      → IsCoherent (set_last_membership env m s).1
  unfolding set_last_membership
  set_last_membership-IsCoherent m s c =
      set_value-keeps membership_codec last_membership_key m
        (λ sm. record sm { last_membership = m }) Matches s refl c
        (λ b g. record { applied = c.applied; effective = inr (b, g, refl) })

  pub execute_request-IsCoherent :
      (req : Request) (s : System env)
      → Harmless env req
      → IsCoherent s
      → IsCoherent (execute_request env req s).1
  unfolding execute_request
  execute_request-IsCoherent (Request.execute sql params) s h c =
      let d = s.raft.state_machine.data' in
      let (applied, effective) = h (s.world.conns d.tx) in
      subst (Matches s.raft.state_machine)
        (sym (execute_or-conn env store_write_error d (client sql) (bound env params) s.world))
        (record { applied = rw applied c.applied; effective = rw effective c.effective })

  apply_payload-IsCoherent :
      (id : LogId) (p : EntryPayload Membership) (s : System env)
      → HarmlessPayload env p
      → IsCoherent s
      → IsCoherent (apply_payload env id p s).1
  unfolding apply_payload
  apply_payload-IsCoherent id blank s h c = c
  apply_payload-IsCoherent id (normal req) s h c =
      let after = execute_request-IsCoherent req s h c in
      >>=-keeps IsCoherent (execute_request env req) (λ _. pure (record {})) s after (λ _ _. after)
  apply_payload-IsCoherent id (membership m) s h c =
      let set = set_last_membership env (env.effective_new (some id) m) in
      let after = set_last_membership-IsCoherent (env.effective_new (some id) m) s c in
      >>=-keeps IsCoherent set (λ _. pure (record {})) s after (λ _ _. after)

  apply_entry-IsCoherent :
      (e : Entry Membership) (s : System env)
      → HarmlessPayload env e.payload
      → IsCoherent s
      → IsCoherent (apply_entry env e s).1
  unfolding apply_entry
  apply_entry-IsCoherent e s h c =
      let after = set_last_applied_log-IsCoherent e.log_id s c in
      >>=-keeps IsCoherent (set_last_applied_log env e.log_id)
        (λ _. apply_payload env e.log_id e.payload) s after
        (λ _ _. apply_payload-IsCoherent e.log_id e.payload _ h after)

  -- However `apply_to_state_machine` ends, the values in memory are those in the database, if they
  -- were before and no client's statement writes them.
  pub apply_to_state_machine-IsCoherent :
      (es : List (Entry Membership)) (s : System env)
      → AllHarmless env es
      → IsCoherent s
      → IsCoherent (apply_to_state_machine env es s).1
  unfolding apply_to_state_machine
  apply_to_state_machine-IsCoherent [] s h c = c
  apply_to_state_machine-IsCoherent (e ∷ es) s (h, hs) c =
      let after = apply_entry-IsCoherent e s h c in
      let done = apply_to_state_machine-IsCoherent es (apply_entry env e s).1 hs after in
      >>=-keeps IsCoherent (apply_entry env e)
        (λ r. apply_to_state_machine env es >>= λ res. pure (r ∷ res)) s after
        λ r _.
          >>=-keeps IsCoherent (apply_to_state_machine env es) (λ res. pure (r ∷ res))
            (apply_entry env e s).1 done (λ _ _. done)
