-- ===== src/Monitor/Cursor.antt =====
-- The cursor of the monitor: where a batch leaves it, and that it is read back.
use anon_ticket.Base.{
  ℕ, ℤ, ◌+◌, ◌≤◌, ◌<◌, ◌≡◌, refl, sym, subst, ◌∙◌, ap, inl, inr, Option, none, some, List, [], ◌∷◌,
  ok, Bytes, lift_err, lift_err-ok, pure, Option-cases, as_i64, as_u64, as_u64-as_i64, u64_max,
  saturating_add, arith,
}
use anon_ticket.Database.{
  IsEngine, find, find-append, find-modify_self, Tables, state_key, StateModel,
  insert_state_meaning, run_insert,
}
use anon_ticket.Env.{Env, World, counter}
use anon_ticket.Storage.{
  last_height_key, update_value, height_of, height_row, upsert_last_processed_height,
}
use anon_ticket.Storage.Moves.{tables_of}
use anon_ticket.Storage.Replies.{>>=-eq-ok, query-ok}
use anon_ticket.Monitor.Rpc.{MonitorError, storage, TransferEntry, TransfersResponse}
use anon_ticket.Monitor.Pipeline.{MonitorHooks, process_entry}
use anon_ticket.Monitor.Worker.{observe, next_height_of, process_all, move_cursor, handle_batch}

-- The cursor never passes the block after the safe one, and stays a 64-bit number.
pub next_height_of-bound :
    (seen : Option ℕ) (safe : ℕ)
    → (next_height_of seen safe ≤ safe + 1) × (next_height_of seen safe ≤ u64_max)
unfolding next_height_of saturating_add
next_height_of-bound none safe = (omega arith, omega arith)
next_height_of-bound (some h) safe = (omega arith, omega arith)

-- Every height that the batch reported is at least `least`.
abbrev pub IsAbove : ℕ → List TransferEntry → Type 0
IsAbove least [] = Unit
IsAbove least (e ∷ l) = ((h : ℤ) → e.height ≡ some h → least ≤ as_u64 h) × IsAbove least l

abbrev pub IsAtLeast : ℕ → Option ℕ → Type 0
IsAtLeast least none = Unit
IsAtLeast least (some h) = least ≤ h

observe-IsAtLeast :
    (least : ℕ) (seen : Option ℕ) (height : Option ℤ)
    → IsAtLeast least seen
    → ((h : ℤ) → height ≡ some h → least ≤ as_u64 h)
    → IsAtLeast least (observe seen height)
unfolding observe
observe-IsAtLeast least seen none k _ = k
observe-IsAtLeast least none (some h) k above = above h refl
observe-IsAtLeast least (some x) (some h) k above = omega arith

next_height_of-progress :
    (least safe : ℕ) (seen : Option ℕ)
    → IsAtLeast least seen
    → least ≤ safe
    → safe < u64_max
    → least < next_height_of seen safe
unfolding next_height_of saturating_add
next_height_of-progress least safe none k le lt = omega arith
next_height_of-progress least safe (some h) k le lt = omega arith

stored_row :
    (m : Bytes) (n : ℕ) (t : Tables)
    → height_of
        (find state_key last_height_key (insert_state_meaning m (height_row n) t).1.monitor_state)
      ≡ some (as_u64 (as_i64 n))
stored_row m n t =
    let r : StateModel = record { key = last_height_key; value_int = as_i64 n } in
    elim (Option-cases (find state_key last_height_key t.monitor_state)) [
      | inl new ↦
          rw (new, run_insert)
            (rw (find-append state_key last_height_key t.monitor_state r, new) refl)
      | inr (old, e) ↦
          rw (e, run_insert)
            (rw
              (find-modify_self state_key (λ x. update_value x r) (λ _. refl) last_height_key
                t.monitor_state old e)
              refl)
    ]

module _ (env : Env) (engine : IsEngine env.engine) where
  process_all-IsAtLeast :
      (least : ℕ) (amount : ℤ) (hooks : Option MonitorHooks) (seen last : Option ℕ)
      (l : List TransferEntry) (w : World env)
      → IsAtLeast least seen
      → IsAbove least l
      → (process_all env amount hooks seen l w).0 ≡ ok last
      → IsAtLeast least last
  unfolding process_all
  process_all-IsAtLeast least amount hooks seen last [] w k above went =
      let e : seen ≡ last = cc in subst (IsAtLeast least) e k
  process_all-IsAtLeast least amount hooks seen last (e ∷ l) w k (here, above) went =
      let (b, _, rest, _) =
        >>=-eq-ok (process_entry env e amount hooks)
          (λ _. process_all env amount hooks (observe seen e.height) l) w last went in
      process_all-IsAtLeast least amount hooks (observe seen e.height) last l _
        (observe-IsAtLeast least seen e.height k here) above rest

  -- The height is stored in the row of the cursor, whether it was there or not.
  upsert-stored :
      (n : ℕ) (w : World env) (u : Unit {0})
      → (upsert_last_processed_height env n w).0 ≡ ok u
      → height_of (
          find state_key last_height_key
            (tables_of env (upsert_last_processed_height env n w).1).monitor_state)
        ≡ some (as_u64 (as_i64 n))
  unfolding upsert_last_processed_height
  upsert-stored n w u h =
      let s = height_row n in
      let (_, after) =
        query-ok env (env.engine.insert_state s) (insert_state_meaning env.engine.broken_key s) w u
          (engine.insert_state_obeys s) h in
      ap (λ t. height_of (find state_key last_height_key t.monitor_state)) after
      ∙ stored_row env.engine.broken_key n (tables_of env w)

  move_cursor-stored :
      (safe next : ℕ) (seen : Option ℕ) (w : World env)
      → (move_cursor env safe seen w).0 ≡ ok next
      → (next ≡ next_height_of seen safe)
        × (height_of (
              find state_key last_height_key
                (tables_of env (move_cursor env safe seen w).1).monitor_state)
            ≡ some next)
  unfolding move_cursor
  move_cursor-stored safe next seen w went =
      let n = next_height_of seen safe in
      let (u, first, rest, same) =
        >>=-eq-ok (lift_err {F = MonitorError} storage (upsert_last_processed_height env n))
          (λ _. pure n) w next went in
      let at : n ≡ next = cc in
      (
        sym at,
        ap (λ x. height_of (find state_key last_height_key (tables_of env x.1).monitor_state)) same
            ∙ upsert-stored n w u
                (lift_err-ok storage (upsert_last_processed_height env n) w u first)
            ∙ ap some (as_u64-as_i64 n (next_height_of-bound seen safe).1)
            ∙ ap some at,
      )

  -- Where the cursor is not past the safe height and the safe height is below the largest 64-bit
  -- number, a batch whose entries are at or above the cursor and that ends without an error moves the
  -- cursor strictly on, at most to the block after the safe one; and the cursor that is stored is the
  -- one that the loop goes on with.
  pub handle_batch_cursor :
      (b : TransfersResponse) (amount : ℤ) (current safe next : ℕ) (hooks : Option MonitorHooks)
      (w : World env)
      → IsAbove current b.incoming
      → current ≤ safe
      → safe < u64_max
      → (handle_batch env b amount safe hooks w).0 ≡ ok next
      → (current < next)
        × (next ≤ safe + 1)
        × (height_of (
              find state_key last_height_key
                (tables_of env (handle_batch env b amount safe hooks w).1).monitor_state)
            ≡ some next)
  unfolding handle_batch counter
  handle_batch_cursor b amount current safe next hooks w above le lt went =
      let w₀ =
        (counter env {E = MonitorError} "monitor_rpc_calls_total" (("result", "ok") ∷ []) w).1 in
      let (seen, all, moved, same) =
        >>=-eq-ok (process_all env amount hooks none b.incoming) (λ seen. move_cursor env safe seen)
          w₀ next went in
      let (at, stored) = move_cursor-stored safe next seen _ moved in
      let k = process_all-IsAtLeast current amount hooks none seen b.incoming w₀ tt above all in
      let on = next_height_of-progress current safe seen k le lt in
      let (bound, _) = next_height_of-bound seen safe in
      (
        omega arith,
        omega arith,
        ap (λ x. height_of (find state_key last_height_key (tables_of env x.1).monitor_state)) same
            ∙ stored,
      )
