-- ===== src/Tests/Wallet.antt =====
-- The cursor under a wallet of one transfer that keeps to the range it is asked for.
use anon_ticket.Base.{
  ℕ, pos, ◌+◌, ◌≤◌, ◌<◌, ◌≡◌, refl, subst, ap, sym, inl, inr, ◌&&◌, Option, none, some, List, [],
  ◌∷◌, codes, ok, All, unwrap_or, leb, arith, Bool-cases, as_i64, as_u64, if◌then◌else◌,
}
use anon_ticket.Database.{find, state_key}
use anon_ticket.Storage.{last_height_key, height_of}
use anon_ticket.Storage.Moves.{tables_of}
use anon_ticket.Monitor.{
  GotTransfer, confirmed, BlockHeightFilter, WalletClient, IsWithin, KeepsToRange, rpc_source,
  monitor_tick,
}
use anon_ticket.Monitor.{run_loop}
use anon_ticket.Monitor.Advance.{IsHonest, run_loop-never_back}
use anon_ticket.Monitor.Asked.{monitor_tick-moves_on}
use anon_ticket.Tests.Hex.{plain_codec}
use anon_ticket.Tests.Setting.{small_env, memory_engine-IsEngine}
use anon_ticket.Tests.Ledger.{some_text}
use anon_ticket.Base.{map, u64_max}
use anon_ticket.Tests.Monitor.{monitor_config, both_hints, new_process}

abbrev one_transfer : GotTransfer
one_transfer = record {
  txid = codes "tx";
  amount = 5;
  height = confirmed 100;
  payment_id = some_text;
  timestamp = pos 3;
}

abbrev in_range : ℕ → ℕ → List GotTransfer
in_range least most = if leb least 100 && leb 100 most then one_transfer ∷ [] else []

abbrev filtered : Option BlockHeightFilter → List GotTransfer
filtered none = one_transfer ∷ []
filtered (some f) = in_range (unwrap_or f.min_height 0) (unwrap_or f.max_height 200)

abbrev one_wallet : WalletClient
one_wallet = record {
  Category = Unit {0};
  category_in = tt;
  get_height = ok 130;
  get_transfers = λ s. ok (λ _. some (filtered s.block_height_filter));
}

in_range-IsWithin : (least most : ℕ) → All (IsWithin least most) (in_range least most)
in_range-IsWithin least most = elim (Bool-cases (leb least 100 && leb 100 most)) [
  | inl fits ↦ rw fits ((100, refl, ground arith, ground arith), tt)
  | inr over ↦ rw over tt
]

one_wallet-KeepsToRange : KeepsToRange one_wallet
one_wallet-KeepsToRange s least most reply asked got =
    let all : (λ _. some (filtered s.block_height_filter)) ≡ reply = cc got in
    let same : some (filtered s.block_height_filter) ≡ reply tt = ap (λ f. f tt) all in
    subst (λ o. All (IsWithin least most) (unwrap_or o [])) same
      (subst (λ o. All (IsWithin least most) (filtered o)) (sym asked)
        (in_range-IsWithin least most))

ticked :
    (monitor_tick small_env
      (rpc_source plain_codec one_wallet)
      99
      (pos 1)
      120
      (some both_hints)
      new_process).0
    ≡ ok 101
unfolding monitor_tick rpc_source as_u64 as_i64
ticked = refl

monitor_tick-moves_on_example :
    (99 < 101)
    × (101 ≤ 120 + 1)
    × (height_of (
          find state_key last_height_key
            (tables_of small_env
              (monitor_tick small_env
                (rpc_source plain_codec one_wallet)
                99
                (pos 1)
                120
                (some both_hints)
                new_process).1).monitor_state)
        ≡ some 101)
monitor_tick-moves_on_example =
    monitor_tick-moves_on small_env memory_engine-IsEngine one_wallet one_wallet-KeepsToRange 99 120
      101 (pos 1) (some both_hints) new_process (omega arith) (omega arith) ticked

looped :
    (run_loop small_env monitor_config
      (some both_hints)
      (map (rpc_source plain_codec) (one_wallet ∷ one_wallet ∷ []))
      99
      new_process).0
    ≡ ok 122
unfolding run_loop rpc_source as_u64 as_i64
looped = refl

one_wallet-IsHonest : IsHonest one_wallet
one_wallet-IsHonest = (
  one_wallet-KeepsToRange,
  λ h e. let e' : 130 ≡ h = cc e in subst (λ n. n + 1 < u64_max) e' (omega arith),
)

run_loop-never_back_example : 99 ≤ 122
run_loop-never_back_example =
    run_loop-never_back small_env memory_engine-IsEngine monitor_config (some both_hints)
      (one_wallet ∷ one_wallet ∷ []) 99 122 new_process
      (one_wallet-IsHonest, (one_wallet-IsHonest, tt)) looped
