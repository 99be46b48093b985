-- ===== src/Raft/Tasks/Payloads.antt =====
-- The task that applies entries, from where a payload is next, when no other task interrupts it.
use mathlib.Core.List.{append-nil, append_assoc}
use Prim.Native.Nat.{◌*◌}
use replicat.Prelude.{
  ℕ, zero, suc, ◌+◌, ◌≤◌, ◌≡◌, refl, ap, inl, inr, arith, some, List, [], ◌∷◌, ◌++◌, length,
}
use replicat.Exec.{Result, ok, err, map_ok, Result-cases, pure, ◌>>=◌}
use replicat.Openraft.{
  Entry, Response, StorageError, EntryPayload, Request, blank, normal, membership,
}
use replicat.Env.{Env}
use replicat.Raft.{System}
use replicat.Raft.Machine.{
  in_machine, set_last_membership, apply_payload, apply_to_state_machine, execute_request,
}
use replicat.Raft.Tasks.{
  Applier, Builder, applies, stored_membership, applied, put_membership, responded, execute_payload,
  applier_move, Tasks, Turn, applying, move, run,
}

abbrev pub applying_turns : ℕ → List Turn
applying_turns zero = []
applying_turns (suc n) = applying ∷ applying_turns n

module _ (env : Env) where
  -- how `apply_to_state_machine` ends, behind the responses to earlier entries
  abbrev pub Behind : List Response → Result StorageError (List Response) → Applier env
  Behind res r = applied (map_ok (λ rest. res ++ rest) r)

  pub run-applied :
      (n : ℕ) (t : Tasks env) (r : Result StorageError (List Response))
      → t.applier ≡ applied r
      → run env (applying_turns n) t ≡ t
  unfolding run move applier_move
  run-applied zero t r e = refl
  run-applied (suc n) t r e = ground (arith, e, run-applied n t r e)

  Behind-next :
      (res : List Response) (r : Result StorageError (List Response))
      → Behind (responded env res) r ≡ Behind res (map_ok (λ rest. record {} ∷ rest) r)
  Behind-next res (ok rest) = ap (λ l. applied (ok l)) (append_assoc res (record {} ∷ []) rest)
  Behind-next res (err x) = refl

  pub map_ok_same : (r : Result StorageError (List Response)) → map_ok (λ rest. [] ++ rest) r ≡ r
  map_ok_same (ok rest) = refl
  map_ok_same (err x) = refl

  -- the entries are applied from one state, and from then on the task has ended
  abbrev pub Applies :
      ℕ → List (Entry env.Membership) → List Response → System env → Builder env → Type 0
  Applies n es res s b =
      run env (applying_turns n) (record { system = s; applier = applies es res; builder = b })
      ≡ record {
        system = (apply_to_state_machine env es s).1;
        applier = Behind res (apply_to_state_machine env es s).0;
        builder = b;
      }

  pub run-none :
      (n : ℕ) (res : List Response) (s : System env) (b : Builder env) → Applies (suc n) [] res s b
  unfolding run move applier_move apply_to_state_machine
  run-none n res s b =
      rw (append-nil res) (
        run-applied n (record { system = s; applier = applied (ok res); builder = b }) (ok res)
          refl)

  module _ (m : ℕ) (e : Entry env.Membership) (es : List (Entry env.Membership))
      (res : List Response) (b : Builder env)
      (ih : (n : ℕ) (res : List Response) (s : System env)
        → 4 * length es + 1 ≤ n
        → Applies n es res s b)
      (h : 4 * length es + 1 ≤ m) where
    run-stored :
        (n : ℕ) (effective : env.EffectiveMembership) (s : System env)
        → run env
            (applying_turns (suc n))
            (record { system = s; applier = stored_membership effective es res; builder = b })
          ≡ run env (applying_turns n) (record {
            system = in_machine env (λ m. record m { last_membership = effective }) s;
            applier = applies es (responded env res);
            builder = b;
          })
    unfolding run move applier_move
    run-stored n effective s = refl

    -- a membership is stored in two steps
    membership-ok :
        (mem : env.Membership) (s : System env)
        → let effective = env.effective_new (some e.log_id) mem in
          let s1 = (put_membership env effective s).1 in
          (put_membership env effective s).0 ≡ ok tt
          → (execute_payload env e.log_id (membership mem) es res s
              ≡ (stored_membership effective es res, s1))
            × (apply_payload env e.log_id (membership mem) s ≡ (
              ok (record {}),
              in_machine env (λ m. record m { last_membership = effective }) s1,
            ))
    unfolding execute_payload apply_payload set_last_membership
    membership-ok mem s o = (ground (arith, o), ground (arith, o))

    membership-err :
        (mem : env.Membership) (s : System env) (x : StorageError)
        → let effective = env.effective_new (some e.log_id) mem in
          let s1 = (put_membership env effective s).1 in
          (put_membership env effective s).0 ≡ err x
          → (execute_payload env e.log_id (membership mem) es res s ≡ (applied (err x), s1))
            × (apply_payload env e.log_id (membership mem) s ≡ (err x, s1))
    unfolding execute_payload apply_payload set_last_membership
    membership-err mem s x o = (ground (arith, o), ground (arith, o))

    -- the entries behind, as they are applied
    abbrev pub behind :
        EntryPayload env.Membership → System env → Result StorageError (List Response) × System env
    behind p s =
        (apply_payload env e.log_id p >>= λ r.
        apply_to_state_machine env es >>= λ rest. pure (r ∷ rest))
          s

    -- from where the payload is next
    abbrev PayloadApplies : EntryPayload env.Membership → System env → Type 0
    PayloadApplies p s =
        let (r, s') = behind p s in
        let (a, s1) = execute_payload env e.log_id p es res s in
        run env (applying_turns (suc m)) (record { system = s1; applier = a; builder = b })
        ≡ record { system = s'; applier = Behind res r; builder = b }

    blank-PayloadApplies : (s : System env) → PayloadApplies blank s
    unfolding execute_payload apply_payload
    blank-PayloadApplies s = ground (
      arith,
      ih (suc m) (responded env res) s (omega arith),
      Behind-next res (apply_to_state_machine env es s).0,
    )

    normal-PayloadApplies : (req : Request) (s : System env) → PayloadApplies (normal req) s
    unfolding execute_payload apply_payload
    normal-PayloadApplies req s =
        let s1 = (execute_request env req s).1 in
        elim (Result-cases (execute_request env req s).0) [
          | inl (_, o) ↦ ground (
            arith,
            o,
            ih (suc m) (responded env res) s1 (omega arith),
            Behind-next res (apply_to_state_machine env es s1).0,
          )
          | inr (x, o) ↦
              let ended : Tasks env = record {
                system = s1;
                applier = applied (err x);
                builder = b;
              } in
              ground (arith, o, run-applied (suc m) ended (err x) refl)
        ]

    membership-PayloadApplies :
        (mem : env.Membership) (s : System env) → PayloadApplies (membership mem) s
    membership-PayloadApplies mem s =
        let effective = env.effective_new (some e.log_id) mem in
        let s1 = (put_membership env effective s).1 in
        let s2 = in_machine env (λ m. record m { last_membership = effective }) s1 in
        elim (Result-cases (put_membership env effective s).0) [
          | inl (_, o) ↦
              let (p, q) = membership-ok mem s o in
              ground (
                arith,
                p,
                q,
                run-stored m effective s1,
                ih m (responded env res) s2 h,
                Behind-next res (apply_to_state_machine env es s2).0,
              )
          | inr (x, o) ↦
              let (p, q) = membership-err mem s x o in
              let ended : Tasks env = record {
                system = s1;
                applier = applied (err x);
                builder = b;
              } in
              ground (arith, p, q, run-applied (suc m) ended (err x) refl)
        ]

    pub payload-PayloadApplies :
        (p : EntryPayload env.Membership) (s : System env) → PayloadApplies p s
    payload-PayloadApplies blank s = blank-PayloadApplies s
    payload-PayloadApplies (normal req) s = normal-PayloadApplies req s
    payload-PayloadApplies (membership mem) s = membership-PayloadApplies mem s
