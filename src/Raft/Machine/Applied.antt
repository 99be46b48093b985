-- ===== src/Raft/Machine/Applied.antt =====
-- What `apply_to_state_machine` does to the values in memory, entry by entry.
use replicat.Prelude.{
  sym, suc, ◌≡◌, refl, ◌⊎◌, inl, inr, ◌∙◌, ap, arith, some, List, [], ◌∷◌, ◌++◌, length,
}
use replicat.Exec.{
  map_ok, Result, ok, err, Result-cases, pure, ◌>>=◌, >>=-ok, >>=-err, >>=-eq-ok, >>=-pure,
}
use replicat.Openraft.{
  LogId, Entry, EntryPayload, Request, Response, StorageError, blank, normal, membership,
}
use replicat.Env.{Env}
use replicat.Raft.{System, StateMachine, Storage}
use replicat.Raft.Machine.{
  set_last_applied_log, set_last_membership, execute_request, apply_payload, apply_entry,
  apply_to_state_machine,
}

module _ (env : Env) where
  open env use {Membership, EffectiveMembership, effective_new}

  abbrev machine : System env → StateMachine env
  machine s = s.raft.state_machine

  abbrev final : {A : Type 0} → Result StorageError A × System env → StateMachine env
  final (_, s) = machine s

  abbrev marked : LogId → StateMachine env → StateMachine env
  marked id m = record m { last_applied_log = some id }

  abbrev after_payload : LogId → EntryPayload Membership → StateMachine env → StateMachine env
  after_payload id blank m = m
  after_payload id (normal req) m = m
  after_payload id (membership mem) m = record m { last_membership = effective_new (some id) mem }

  abbrev after_entry : Entry Membership → StateMachine env → StateMachine env
  after_entry e m = after_payload e.log_id e.payload (marked e.log_id m)

  -- The values in memory after some entries: the id of the last one, and the membership of the last
  -- one that has one.
  abbrev pub machine_after : List (Entry Membership) → StateMachine env → StateMachine env
  machine_after [] m = m
  machine_after (e ∷ es) m = machine_after es (after_entry e m)

  set_last_applied_log-ok :
      (id : LogId) (s : System env)
      → (set_last_applied_log env id s).0 ≡ ok tt
      → machine (set_last_applied_log env id s).1 ≡ marked id (machine s)
  unfolding set_last_applied_log
  set_last_applied_log-ok id s o = ground arith

  set_last_applied_log-err :
      (id : LogId) (s : System env) (x : StorageError)
      → (set_last_applied_log env id s).0 ≡ err x
      → machine (set_last_applied_log env id s).1 ≡ machine s
  unfolding set_last_applied_log
  set_last_applied_log-err id s x o = ground arith

  apply_payload-ok :
      (id : LogId) (p : EntryPayload Membership) (s : System env) (r : Response)
      → (apply_payload env id p s).0 ≡ ok r
      → machine (apply_payload env id p s).1 ≡ after_payload id p (machine s)
  unfolding apply_payload set_last_membership execute_request
  apply_payload-ok id blank s r o = refl
  apply_payload-ok id (normal (Request.execute sql params)) s r o = ground arith
  apply_payload-ok id (membership mem) s r o = ground arith

  apply_payload-err :
      (id : LogId) (p : EntryPayload Membership) (s : System env) (x : StorageError)
      → (apply_payload env id p s).0 ≡ err x
      → machine (apply_payload env id p s).1 ≡ machine s
  unfolding apply_payload set_last_membership execute_request
  apply_payload-err id blank s x o = refl
  apply_payload-err id (normal (Request.execute sql params)) s x o = ground arith
  apply_payload-err id (membership mem) s x o = ground arith

  apply_entry-ok :
      (e : Entry Membership) (s : System env) (r : Response)
      → (apply_entry env e s).0 ≡ ok r
      → machine (apply_entry env e s).1 ≡ after_entry e (machine s)
  unfolding apply_entry
  apply_entry-ok e s r o =
      let set = set_last_applied_log env e.log_id in
      let (_, o1, o2, same) = >>=-eq-ok set (λ _. apply_payload env e.log_id e.payload) s r o in
      ap final same
      ∙ apply_payload-ok e.log_id e.payload (set s).1 r o2
      ∙ ap (after_payload e.log_id e.payload) (set_last_applied_log-ok e.log_id s o1)

  apply_entry-err :
      (e : Entry Membership) (s : System env) (x : StorageError)
      → (apply_entry env e s).0 ≡ err x
      → (machine (apply_entry env e s).1 ≡ machine s)
        ⊎ (machine (apply_entry env e s).1 ≡ marked e.log_id (machine s))
  unfolding apply_entry
  apply_entry-err e s x o =
      let set = set_last_applied_log env e.log_id in
      let payload = λ (_ : Unit {0}). apply_payload env e.log_id e.payload in
      elim (Result-cases (set s).0) [
        | inr (y, o1) ↦
            inl (ap final (>>=-err set payload s y o1) ∙ set_last_applied_log-err e.log_id s y o1)
        | inl (_, o1) ↦
            let step = >>=-ok set payload s tt o1 in
            inr (
              ap final step
              ∙ apply_payload-err e.log_id e.payload (set s).1 x (ap (λ p. p.0) (sym step) ∙ o)
              ∙ set_last_applied_log-ok e.log_id s o1)
      ]

  -- the loop after its first round
  abbrev with_rest : List (Entry Membership) → Response → Storage env (List Response)
  with_rest es r = apply_to_state_machine env es >>= λ res. pure (r ∷ res)

  -- On success all entries count, with one response each.
  abbrev Completed :
      List (Entry Membership)
      → StateMachine env
      → StateMachine env
      → Result StorageError (List Response)
      → Type 0
  Completed es m m' (ok res) = (m' ≡ machine_after es m) × (length res ≡ length es)
  Completed es m m' (err _) = Unit

  one_more :
      (e : Entry Membership) (es : List (Entry Membership)) (m m1 m' : StateMachine env)
      (r : Response) (q : Result StorageError (List Response))
      → m1 ≡ after_entry e m
      → Completed es m1 m' q
      → Completed (e ∷ es) m m' (map_ok (λ l. r ∷ l) q)
  one_more e es m m1 m' r (ok res) first (values, count) =
      (values ∙ ap (machine_after es) first, ap suc count)
  one_more e es m m1 m' r (err x) first c = tt

  -- What `apply_to_state_machine` has done, however it ended: the values in memory are those after
  -- a first part of the entries, or in addition the id of the entry that failed; if it succeeded,
  -- all entries count, with one response each.
  pub record Applied (es : List (Entry Membership)) (m m' : StateMachine env)
      (r : Result StorageError (List Response)) : Type 0 where
    pub done : List (Entry Membership)
    pub rest : List (Entry Membership)
    pub parts : done ++ rest ≡ es
    pub values :
        (m' ≡ machine_after done m)
        ⊎ ((e : Entry Membership) × (others : List (Entry Membership)) × (rest ≡ e ∷ others)
            × (m' ≡ marked e.log_id (machine_after done m)))
    pub complete : Completed es m m' r

  -- However `apply_to_state_machine` ends, the values in memory count a first part of the entries.
  -- An entry whose payload failed may be counted as applied too.
  pub apply_to_state_machine-Applied :
      (es : List (Entry Membership)) (s : System env)
      → let (r, s') = apply_to_state_machine env es s in Applied es (machine s) (machine s') r
  unfolding apply_to_state_machine
  apply_to_state_machine-Applied [] s = record {
    done = [];
    rest = [];
    parts = refl;
    values = inl refl;
    complete = (refl, refl);
  }
  apply_to_state_machine-Applied (e ∷ es) s = elim (Result-cases (apply_entry env e s).0) [
    | inr (x, o) ↦ rw (>>=-err (apply_entry env e) (with_rest es) s x o) (record {
      done = [];
      rest = e ∷ es;
      parts = refl;
      values = elim (apply_entry-err e s x o) [ inl p ↦ inl p | inr p ↦ inr (e, es, refl, p) ];
      complete = tt;
    })
    | inl (r, o) ↦
        let s1 = (apply_entry env e s).1 in
        let first = apply_entry-ok e s r o in
        let more = apply_to_state_machine-Applied es s1 in
        let tail = apply_to_state_machine env es in
        rw (>>=-ok (apply_entry env e) (with_rest es) s r o, >>=-pure tail (λ res. r ∷ res) s1)
          (record {
            done = e ∷ more.done;
            rest = more.rest;
            parts = ap (λ l. e ∷ l) more.parts;
            values = rw first at more.values;
            complete = one_more e es (machine s) (machine s1) _ r (tail s1).0 first more.complete;
          })
  ]
