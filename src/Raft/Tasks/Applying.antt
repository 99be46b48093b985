-- ===== src/Raft/Tasks/Applying.antt =====
-- Where the task that applies entries stands, and the last applied id in memory and in the database.
use replicat.Prelude.{◌≤◌, ◌≡◌, ◌≢◌, refl, inr, arith, Option, none, some, List, [], ◌∷◌}
use replicat.Openraft.{LogId, Entry, EntryPayload, Request, Response, blank, normal, membership}
use replicat.Sql.Tables.{Tables}
use replicat.Env.{Env, IsFaithful}
use replicat.Kv.Effects.{Keeps, with_value}
use replicat.Raft.{System, StateMachine, last_log_key, last_membership_key}
use replicat.Raft.Machine.{execute_request}
use replicat.Raft.Machine.Coherent.{
  data_tables, Matches, AllHarmless, HarmlessPayload, put_data-ok, put_data-err,
  execute_request-IsCoherent,
}
use replicat.Raft.Tasks.{
  Applier, applies, stored, executes, stored_membership, applied, failed, responded, goes_on,
  put_last_applied, put_membership, execute_payload, applier_move,
}
use replicat.Raft.Tasks.Steps.{SameValues, goes_on-keeps}

-- The order of ids, by their index; no id comes before every other.
abbrev pub NotAfter : Option LogId → Option LogId → Type 0
NotAfter none _ = Unit
NotAfter (some _) none = ⊥
NotAfter (some a) (some b) = a.index ≤ b.index

pub NotAfter-refl : (a : Option LogId) → NotAfter a a
NotAfter-refl none = tt
NotAfter-refl (some a) = omega arith

pub NotAfter-trans : (a b c : Option LogId) → NotAfter a b → NotAfter b c → NotAfter a c
NotAfter-trans none b c h k = tt
NotAfter-trans (some a) none c h k = absurd h
NotAfter-trans (some a) (some b) none h k = absurd k
NotAfter-trans (some a) (some b) (some c) h k = omega arith

-- the entries come in the order of their ids, after an id
abbrev pub Ascending : {M : Type 0} → Option LogId → List (Entry M) → Type 0
Ascending last [] = Unit
Ascending last (e ∷ es) = NotAfter last (some e.log_id) × Ascending (some e.log_id) es

module _ (env : Env) where
  open env use {Membership, EffectiveMembership}

  -- The state machine and its tables, where the task stands. Between the two parts of a setter the
  -- tables have the new value, and the memory the old one.
  abbrev pub Fits : StateMachine env → Tables → Applier env → Type 0
  Fits m t (applies es _) = Matches m t × Ascending m.last_applied_log es × AllHarmless env es
  Fits m t (stored e es _) =
      Matches (record m { last_applied_log = some e.log_id }) t
      × NotAfter m.last_applied_log (some e.log_id)
      × Ascending (some e.log_id) es
      × HarmlessPayload env e.payload
      × AllHarmless env es
  Fits m t (executes e es _) =
      Matches m t
      × (m.last_applied_log ≡ some e.log_id)
      × Ascending (some e.log_id) es
      × HarmlessPayload env e.payload
      × AllHarmless env es
  Fits m t (stored_membership effective es _) =
      Matches (record m { last_membership = effective }) t
      × Ascending m.last_applied_log es
      × AllHarmless env es
  Fits m t (applied _) = Matches m t

  Matches-same :
      (m : StateMachine env) (t t' : Tables) → SameValues t t' → Matches m t → Matches m t'
  Matches-same m t t' (a, e) k = record { applied = rw a k.applied; effective = rw e k.effective }

  -- what another task writes elsewhere in the tables
  pub Fits-same :
      (m : StateMachine env) (t t' : Tables) (a : Applier env)
      → SameValues t t'
      → Fits m t a
      → Fits m t' a
  Fits-same m t t' (applies es res) same (k, asc, safe) = (Matches-same m t t' same k, asc, safe)
  Fits-same m t t' (stored e es res) same (k, later, asc, own, safe) =
      (Matches-same _ t t' same k, later, asc, own, safe)
  Fits-same m t t' (executes e es res) same (k, now, asc, own, safe) =
      (Matches-same m t t' same k, now, asc, own, safe)
  Fits-same m t t' (stored_membership eff es res) same (k, asc, safe) =
      (Matches-same _ t t' same k, asc, safe)
  Fits-same m t t' (applied r) same k = Matches-same m t t' same k

  -- The values in the tables: those in memory, but for the one that a setter has stored and not yet
  -- written to memory.
  abbrev pub durable : StateMachine env → Applier env → StateMachine env
  durable m (applies _ _) = m
  durable m (stored e _ _) = record m { last_applied_log = some e.log_id }
  durable m (executes _ _ _) = m
  durable m (stored_membership effective _ _) = record m { last_membership = effective }
  durable m (applied _) = m

  pub Fits-Matches :
      (m : StateMachine env) (t : Tables) (a : Applier env) → Fits m t a → Matches (durable m a) t
  Fits-Matches m t (applies es res) fits = fits.0
  Fits-Matches m t (stored e es res) fits = fits.0
  Fits-Matches m t (executes e es res) fits = fits.0
  Fits-Matches m t (stored_membership eff es res) fits = fits.0
  Fits-Matches m t (applied r) k = k

  -- The tables hold the id in memory, or a later one.
  pub Fits-held :
      (m : StateMachine env) (t : Tables) (a : Applier env)
      → Fits m t a
      → (held : Option LogId) × Keeps env.log_id_codec (t.kv last_log_key) held
        × NotAfter m.last_applied_log held
  Fits-held m t (applies es res) (k, _, _) =
      (m.last_applied_log, k.applied, NotAfter-refl m.last_applied_log)
  Fits-held m t (stored e es res) (k, later, _, _, _) = (some e.log_id, k.applied, later)
  Fits-held m t (executes e es res) (k, _, _, _, _) =
      (m.last_applied_log, k.applied, NotAfter-refl m.last_applied_log)
  Fits-held m t (stored_membership eff es res) (k, _, _) =
      (m.last_applied_log, k.applied, NotAfter-refl m.last_applied_log)
  Fits-held m t (applied r) k = (m.last_applied_log, k.applied, NotAfter-refl m.last_applied_log)

  -- a state in which the task stands
  pub record Stands (s : System env) (a : Applier env) : Type 0 where
    pub apart : s.raft.state_machine.data'.tx ≢ s.raft.log.tx
    pub fits : Fits s.raft.state_machine (data_tables s) a

  -- a step leads to a state in which the task stands, and the id in memory does not go back
  abbrev pub Advances : System env → Applier env → System env → Type 0
  Advances s a' s' =
      Stands s' a'
      × NotAfter s.raft.state_machine.last_applied_log s'.raft.state_machine.last_applied_log

module _ (env : Env) (law : IsFaithful env) where
  open env use {Membership, log_id_codec, membership_codec}

  store_id-Advances :
      (e : Entry Membership) (es : List (Entry Membership)) (res : List Response) (s : System env)
      → Stands env s (applies (e ∷ es) res)
      → let (a', s') =
          goes_on env (λ _. stored e es res) (failed env) (put_last_applied env e.log_id) s in
        Advances env s a' s'
  store_id-Advances e es res s stands =
      let (k, (later, asc), (own, safe)) = stands.fits in
      let last = s.raft.state_machine.last_applied_log in
      goes_on-keeps (λ a' s'. Advances env s a' s') (λ _. stored e es res) (failed env)
        (put_last_applied env e.log_id) s
        (λ _ o.
          let (b, g, v) = put_data-ok env law log_id_codec last_log_key e.log_id s o in
          let held : Matches (record s.raft.state_machine { last_applied_log = some e.log_id })
              (with_value (data_tables s) last_log_key b) =
            record { applied = (b, g, refl); effective = k.effective } in
          (
            record { apart = stands.apart; fits = (rw v held, later, asc, own, safe) },
            NotAfter-refl last,
          ))
        (λ x o. (
          record {
            apart = stands.apart;
            fits = rw (put_data-err env law log_id_codec last_log_key e.log_id s x o) k;
          },
          NotAfter-refl last,
        ))

  -- the task goes on behind the entry, or ends
  abbrev next : List (Entry Membership) → List Response → Applier env
  next es res = applies es (responded env res)

  execute_payload-Advances :
      (id : LogId) (p : EntryPayload Membership) (es : List (Entry Membership))
      (res : List Response) (s : System env)
      → s.raft.state_machine.data'.tx ≢ s.raft.log.tx
      → Matches s.raft.state_machine (data_tables s)
      → s.raft.state_machine.last_applied_log ≡ some id
      → Ascending (some id) es
      → HarmlessPayload env p
      → AllHarmless env es
      → let (a', s') = execute_payload env id p es res s in Advances env s a' s'
  unfolding execute_payload execute_request
  execute_payload-Advances id blank es res s apart k now asc own safe = (
    record { apart = apart; fits = (k, rw now asc, safe) },
    NotAfter-refl s.raft.state_machine.last_applied_log,
  )
  execute_payload-Advances id (normal (Request.execute sql params)) es res s apart k now asc own
        safe =
      let req = Request.execute sql params in
      let last = s.raft.state_machine.last_applied_log in
      let after = execute_request-IsCoherent env law req s own k in
      goes_on-keeps (λ a' s'. Advances env s a' s') (λ _. next es res) (failed env)
        (execute_request env req) s
        (λ _ o. (record { apart = apart; fits = (after, rw now asc, safe) }, NotAfter-refl last))
        (λ x o. (record { apart = apart; fits = after }, NotAfter-refl last))
  execute_payload-Advances id (membership mem) es res s apart k now asc own safe =
      let eff = env.effective_new (some id) mem in
      let last = s.raft.state_machine.last_applied_log in
      goes_on-keeps (λ a' s'. Advances env s a' s') (λ _. stored_membership eff es res) (failed env)
        (put_membership env eff) s
        (λ _ o.
          let (b, g, v) = put_data-ok env law membership_codec last_membership_key eff s o in
          let held : Matches (record s.raft.state_machine { last_membership = eff })
              (with_value (data_tables s) last_membership_key b) =
            record { applied = k.applied; effective = inr (b, g, refl) } in
          (record { apart = apart; fits = (rw v held, rw now asc, safe) }, NotAfter-refl last))
        (λ x o. (
          record {
            apart = apart;
            fits = rw (put_data-err env law membership_codec last_membership_key eff s x o) k;
          },
          NotAfter-refl last,
        ))

  pub applier_move-Advances :
      (a : Applier env) (s : System env)
      → Stands env s a
      → let (a', s') = applier_move env a s in Advances env s a' s'
  unfolding applier_move
  applier_move-Advances (applies [] res) s stands = (
    record { apart = stands.apart; fits = stands.fits.0 },
    NotAfter-refl s.raft.state_machine.last_applied_log,
  )
  applier_move-Advances (applies (e ∷ es) res) s stands = store_id-Advances e es res s stands
  applier_move-Advances (stored e es res) s stands =
      let (k, later, asc, own, safe) = stands.fits in
      (record { apart = stands.apart; fits = (k, refl, asc, own, safe) }, later)
  applier_move-Advances (executes e es res) s stands =
      let (k, now, asc, own, safe) = stands.fits in
      execute_payload-Advances e.log_id e.payload es res s stands.apart k now asc own safe
  applier_move-Advances (stored_membership eff es res) s stands =
      let (k, asc, safe) = stands.fits in
      (
        record { apart = stands.apart; fits = (k, asc, safe) },
        NotAfter-refl s.raft.state_machine.last_applied_log,
      )
  applier_move-Advances (applied r) s stands =
      (stands, NotAfter-refl s.raft.state_machine.last_applied_log)
