-- ===== src/Raft/Tasks/Alone.antt =====
-- A task that no other task interrupts is the call of that name.
use Prim.Native.Nat.{◌*◌}
use replicat.Prelude.{
  ℕ, zero, suc, ◌+◌, ◌≤◌, ◌≡◌, refl, ap, ◌∙◌, inl, inr, arith, some, List, [], ◌∷◌, length,
}
use replicat.Exec.{ok, err, Result-cases}
use replicat.Openraft.{Entry, Response, StorageError}
use replicat.Env.{Env}
use replicat.Handle.{serialize}
use replicat.Raft.{System}
use replicat.Raft.Machine.{in_machine, set_last_applied_log, apply_entry, apply_to_state_machine}
use replicat.Raft.Store.{get_and_inc_snapshot_index}
use replicat.Raft.Snapshots.{build_snapshot, create_snapshot, store_snapshot}
use replicat.Raft.Tasks.{
  Applier, Builder, applies, applied, put_last_applied, execute_payload, applier_move, starts,
  built, builder_move, Tasks, Turn, building, move, run,
}
use replicat.Raft.Tasks.Payloads.{
  applying_turns, run-applied, map_ok_same, Applies, run-none, behind, payload-PayloadApplies,
}

abbrev pub building_turns : List Turn
building_turns =
    building ∷ building ∷ building ∷ building ∷ building ∷ building ∷ building ∷ building ∷ []

module _ (env : Env) where
  -- A task that builds a snapshot, and that no other task interrupts, has ended after eight steps with
  -- the result of `build_snapshot`, and leaves the store as that does.
  pub run-build_snapshot :
      (s : System env) (a : Applier env)
      → run env building_turns (record { system = s; applier = a; builder = starts }) ≡ record {
        system = (build_snapshot env s).1;
        applier = a;
        builder = built (build_snapshot env s).0;
      }
  unfolding run move builder_move build_snapshot get_and_inc_snapshot_index create_snapshot
      serialize store_snapshot
  run-build_snapshot s a = ground arith

  module _ (m : ℕ) (e : Entry env.Membership) (es : List (Entry env.Membership))
      (res : List Response) (b : Builder env)
      (ih : (n : ℕ) (res : List Response) (s : System env)
        → 4 * length es + 1 ≤ n
        → Applies env n es res s b)
      (h : 4 * length es + 1 ≤ m) where
    -- the entry's id is stored in two steps
    abbrev after_id : System env → System env
    after_id s =
        in_machine env (λ m. record m { last_applied_log = some e.log_id })
          (put_last_applied env e.log_id s).1

    entry-ok :
        (s : System env)
        → (put_last_applied env e.log_id s).0 ≡ ok tt
        → apply_to_state_machine env (e ∷ es) s
          ≡ behind env m e es res b ih h e.payload (after_id s)
    unfolding apply_to_state_machine apply_entry set_last_applied_log
    entry-ok s o = ground (arith, o)

    entry-err :
        (s : System env) (x : StorageError)
        → (put_last_applied env e.log_id s).0 ≡ err x
        → apply_to_state_machine env (e ∷ es) s ≡ (err x, (put_last_applied env e.log_id s).1)
    unfolding apply_to_state_machine apply_entry set_last_applied_log
    entry-err s x o = ground (arith, o)

    id-ok :
        (s : System env)
        → (put_last_applied env e.log_id s).0 ≡ ok tt
        → let (a, s1) = execute_payload env e.log_id e.payload es res (after_id s) in
          run env
            (applying_turns (suc (suc (suc (suc m)))))
            (record { system = s; applier = applies (e ∷ es) res; builder = b })
          ≡ run env (applying_turns (suc m)) (record { system = s1; applier = a; builder = b })
    unfolding run move applier_move
    id-ok s o = ground (arith, o)

    id-err :
        (s : System env) (x : StorageError)
        → (put_last_applied env e.log_id s).0 ≡ err x
        → run env
            (applying_turns (suc (suc (suc (suc m)))))
            (record { system = s; applier = applies (e ∷ es) res; builder = b })
          ≡ record {
            system = (put_last_applied env e.log_id s).1;
            applier = applied (err x);
            builder = b;
          }
    unfolding run move applier_move
    id-err s x o =
        let ended : Tasks env = record {
          system = (put_last_applied env e.log_id s).1;
          applier = applied (err x);
          builder = b;
        } in
        ground (arith, o, run-applied env (suc (suc (suc m))) ended (err x) refl)

    entry-Applies : (s : System env) → Applies env (suc (suc (suc (suc m)))) (e ∷ es) res s b
    entry-Applies s = elim (Result-cases (put_last_applied env e.log_id s).0) [
      | inl (_, o) ↦
          rw (entry-ok s o)
            (id-ok s o ∙ payload-PayloadApplies env m e es res b ih h e.payload (after_id s))
      | inr (x, o) ↦ rw (entry-err s x o) (id-err s x o)
    ]

  run-Applies :
      (es : List (Entry env.Membership)) (b : Builder env) (n : ℕ) (res : List Response)
      (s : System env)
      → 4 * length es + 1 ≤ n
      → Applies env n es res s b
  run-Applies [] b zero res s h = absurd (omega arith)
  run-Applies [] b (suc n) res s h = run-none env n res s b
  run-Applies (e ∷ es) b zero res s h = absurd (omega arith)
  run-Applies (e ∷ es) b (suc zero) res s h = absurd (omega arith)
  run-Applies (e ∷ es) b (suc (suc zero)) res s h = absurd (omega arith)
  run-Applies (e ∷ es) b (suc (suc (suc zero))) res s h = absurd (omega arith)
  run-Applies (e ∷ es) b (suc (suc (suc (suc m)))) res s h =
      entry-Applies m e es res b (run-Applies es b) (omega arith) s

  -- A task that applies entries, and that no other task interrupts, has ended after four steps for
  -- each entry and one more with the result of `apply_to_state_machine`, and leaves the store as that
  -- does.
  pub run-apply_to_state_machine :
      (es : List (Entry env.Membership)) (s : System env) (b : Builder env) (n : ℕ)
      → 4 * length es + 1 ≤ n
      → run env (applying_turns n) (record { system = s; applier = applies es []; builder = b })
        ≡ record {
          system = (apply_to_state_machine env es s).1;
          applier = applied (apply_to_state_machine env es s).0;
          builder = b;
        }
  run-apply_to_state_machine es s b n h =
      run-Applies es b n [] s h
      ∙ ap
          (λ r. record {
            system = (apply_to_state_machine env es s).1;
            applier = applied r;
            builder = b;
          })
          (map_ok_same env (apply_to_state_machine env es s).0)
