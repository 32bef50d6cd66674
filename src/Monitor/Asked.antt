-- ===== src/Monitor/Asked.antt =====
-- The cursor under a wallet that keeps to the range of blocks it is asked for.
use anon_ticket.Base.{
  ℕ, ℤ, ◌+◌, ◌≤◌, ◌<◌, ◌≡◌, refl, sym, subst, ◌∙◌, ap, inl, inr, false, Option, some, List, [], ◌∷◌,
  ok, All, unwrap_or, Result-cases, Option-cases, as_i64, as_u64, as_u64-as_i64, u64_max, ltb,
  arith,
}
use anon_ticket.Model.{Codec, parse_pid}
use anon_ticket.Database.{IsEngine, find, state_key}
use anon_ticket.Env.{Env, World}
use anon_ticket.Storage.{last_height_key, height_of}
use anon_ticket.Storage.Moves.{tables_of}
use anon_ticket.Monitor.Rpc.{
  TransferEntry, TransfersResponse, GotTransfer, amount_of, valid_text, convert_transfer,
  convert_all,
}
use anon_ticket.Monitor.Pipeline.{MonitorHooks}
use anon_ticket.Monitor.Worker.{monitor_tick, fetched_batch}
use anon_ticket.Monitor.Cursor.{IsAbove, handle_batch_cursor}
use anon_ticket.Monitor.Wallet.{
  WalletClient, IsWithin, KeepsToRange, fetch_transfers, selector_of, rpc_source,
}

module _ (c : Codec) where
  convert_transfer-above :
      (least most : ℕ) (t : GotTransfer) (e : TransferEntry)
      → most ≤ u64_max
      → IsWithin least most t
      → convert_transfer c t ≡ ok (some e)
      → (h : ℤ) → e.height ≡ some h
      → least ≤ as_u64 h
  unfolding convert_transfer
  convert_transfer-above least most t e fits (b, at, low, high) went h is =
      elim (Result-cases (amount_of t.amount)) [
        | inl (a, has) ↦ elim (Result-cases (valid_text t.payment_id (parse_pid c t.payment_id))) [
          | inl (o, read) ↦
              let same : some (as_i64 b) ≡ e.height = cc (rw (has, read, at) at went) in
              let here : as_i64 b ≡ h = cc (same, is) in
              subst (λ x. least ≤ x) (sym (as_u64-as_i64 b (omega arith)) ∙ ap as_u64 here) low
          | inr (inl (x, bad)) ↦ absurd (cc (rw (has, bad) at went))
          | inr (inr bad) ↦ absurd (cc (rw (has, bad) at went))
        ]
        | inr (inl (x, bad)) ↦ absurd (cc (rw bad at went))
        | inr (inr bad) ↦ absurd (cc (rw bad at went))
      ]

  convert_all-IsAbove :
      (least most : ℕ) (l : List GotTransfer) (entries : List TransferEntry)
      → most ≤ u64_max
      → All (IsWithin least most) l
      → convert_all c l ≡ ok entries
      → IsAbove least entries
  unfolding convert_all
  convert_all-IsAbove least most [] entries fits within e =
      let e' : [] ≡ entries = cc in subst (IsAbove least) e' tt
  convert_all-IsAbove least most (t ∷ l) entries fits (here, within) went =
      elim (Result-cases (convert_transfer c t)) [
        | inl (o, first) ↦ elim (Result-cases (convert_all c l)) [
          | inl (others, rest) ↦
              let later = convert_all-IsAbove least most l others fits within rest in
              elim (Option-cases o) [
                | inl skipped ↦
                    let e : others ≡ entries = cc (rw (first, rest, skipped) at went) in
                    subst (IsAbove least) e later
                | inr (x, kept) ↦
                    let e : x ∷ others ≡ entries = cc (rw (first, rest, kept) at went) in
                    subst (IsAbove least) e
                      (convert_transfer-above least most t x fits here (first ∙ ap ok kept), later)
              ]
          | inr (inl (x, bad)) ↦ absurd (cc (rw (first, bad) at went))
          | inr (inr bad) ↦ absurd (cc (rw (first, bad) at went))
        ]
        | inr (inl (x, bad)) ↦ absurd (cc (rw bad at went))
        | inr (inr bad) ↦ absurd (cc (rw bad at went))
      ]

  is_filtered :
      (wallet : WalletClient) (least most : ℕ)
      → (selector_of c wallet least most).block_height_filter
        ≡ some (record { min_height = some least; max_height = some most })
  unfolding selector_of
  is_filtered wallet least most = refl

  fetch_transfers-IsAbove :
      (wallet : WalletClient) (least most : ℕ) (reply : TransfersResponse)
      → KeepsToRange wallet
      → most ≤ u64_max
      → fetch_transfers c wallet least most ≡ ok reply
      → IsAbove least reply.incoming
  unfolding fetch_transfers
  fetch_transfers-IsAbove wallet least most reply keeps fits went =
      let s = selector_of c wallet least most in
      elim (Result-cases (wallet.get_transfers s)) [
        | inl (found, got) ↦
            let l = unwrap_or (found wallet.category_in) [] in
            elim (Result-cases (convert_all c l)) [
              | inl (entries, all) ↦
                  let e : entries ≡ reply.incoming = cc (rw (got, all) at went) in
                  subst (IsAbove least) e (
                    convert_all-IsAbove least most l entries fits
                      (keeps s least most found (is_filtered wallet least most) got) all)
              | inr (inl (x, bad)) ↦ absurd (cc (rw (got, bad) at went))
              | inr (inr bad) ↦ absurd (cc (rw (got, bad) at went))
            ]
        | inr (inl (x, bad)) ↦ absurd (cc (rw bad at went))
        | inr (inr bad) ↦ absurd (cc (rw bad at went))
      ]

module _ (env : Env) (engine : IsEngine env.engine) (wallet : WalletClient)
    (keeps : KeepsToRange wallet) where
  -- A tick that asks a wallet which keeps to its range, and that ends without an error, moves a
  -- cursor that is not past the safe height strictly on, at most to the block after it, and the height
  -- that is stored is the new cursor, where the safe height is not the largest 64-bit number.
  pub monitor_tick-moves_on :
      (current safe next : ℕ) (amount : ℤ) (hooks : Option MonitorHooks) (w : World env)
      → current ≤ safe
      → safe < u64_max
      → (monitor_tick env (rpc_source env.codec wallet) current amount safe hooks w).0 ≡ ok next
      → (current < next)
        × (next ≤ safe + 1)
        × (height_of (
              find state_key last_height_key
                (tables_of env
                  (monitor_tick env
                    (rpc_source env.codec wallet)
                    current
                    amount
                    safe
                    hooks
                    w).1).monitor_state)
            ≡ some next)
  unfolding monitor_tick fetched_batch rpc_source
  monitor_tick-moves_on current safe next amount hooks w le lt went =
      let due : ltb safe current ≡ false = ground arith in
      elim (Result-cases (fetch_transfers env.codec wallet current safe)) [
        | inl (reply, got) ↦
            let above =
              fetch_transfers-IsAbove env.codec wallet current safe reply keeps (omega arith) got in
            rw (due, got)
              (handle_batch_cursor env engine reply amount current safe next hooks w above le lt
                (rw (due, got) at went))
        | inr (inl (x, bad)) ↦ absurd (cc (rw (due, bad) at went))
        | inr (inr bad) ↦ absurd (cc (rw (due, bad) at went))
      ]
