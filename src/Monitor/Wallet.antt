-- ===== src/Monitor/Wallet.antt =====
-- crates/monitor/src/rpc/mod.rs: `RpcTransferSource`. The client of the wallet is a parameter.
use anon_ticket.Base.{
  ℕ, ◌≡◌, ◌≤◌, Bool, true, Option, none, some, List, [], ◌∷◌, Bytes, Result, ok, and_then, map_err,
  unwrap_or, All,
}
use anon_ticket.Model.{Codec}
use anon_ticket.Monitor.Rpc.{
  MonitorError, rpc, confirmed, GotTransfer, TransfersResponse, convert_all,
}
use anon_ticket.Monitor.Worker.{Round}

-- `monero_rpc::BlockHeightFilter`.
pub record BlockHeightFilter : Type 0 where
  pub min_height : Option ℕ
  pub max_height : Option ℕ

-- `monero_rpc::GetTransfersSelector`; the indices are those of accounts and subaddresses.
pub record GetTransfersSelector (Category : Type 0) : Type 0 where
  pub category_selector : List (Category × Bool)
  pub account_index : Option ℕ
  pub subaddr_indices : Option (List ℕ)
  pub block_height_filter : Option BlockHeightFilter

-- `monero_rpc::WalletClient` in one round: its answers, a map from a category to transfers being a
-- function, and the texts of its errors.
pub record WalletClient : Type 1 where
  pub Category : Type 0
  -- `GetTransfersCategory::In`.
  pub category_in : Category
  pub get_height : Result Bytes ℕ
  pub get_transfers :
      GetTransfersSelector Category → Result Bytes (Category → Option (List GotTransfer))

-- A confirmed transfer in an inclusive range of blocks.
abbrev pub IsWithin : ℕ → ℕ → GotTransfer → Type 0
IsWithin least most t = (h : ℕ) × (t.height ≡ confirmed h) × (least ≤ h) × (h ≤ most)

-- The wallet keeps to the range that it is asked for.
abbrev pub KeepsToRange : WalletClient → Type 0
KeepsToRange wallet =
    (s : GetTransfersSelector wallet.Category) (least most : ℕ)
    (reply : wallet.Category → Option (List GotTransfer))
    → s.block_height_filter ≡ some (record { min_height = some least; max_height = some most })
    → wallet.get_transfers s ≡ ok reply
    → All (IsWithin least most) (unwrap_or (reply wallet.category_in) [])

module _ (c : Codec) (wallet : WalletClient) where
  unfoldable pub selector_of : ℕ → ℕ → GetTransfersSelector wallet.Category
  selector_of start_height max_height = record {
    category_selector = (wallet.category_in, true) ∷ [];
    account_index = none;
    subaddr_indices = none;
    block_height_filter =
        some (record { min_height = some start_height; max_height = some max_height });
  }

  unfoldable pub fetch_transfers : ℕ → ℕ → Result MonitorError TransfersResponse
  unfolding selector_of convert_all
  fetch_transfers start_height max_height =
      and_then (map_err rpc (wallet.get_transfers (selector_of start_height max_height))) (λ result.
        and_then (convert_all c (unwrap_or (result wallet.category_in) []))
          (λ entries. ok (record { incoming = entries })))

  unfoldable pub wallet_height : Result MonitorError ℕ
  wallet_height = map_err rpc wallet.get_height

  -- The source of the transfers, as the loop uses it.
  unfoldable pub rpc_source : Round
  unfolding fetch_transfers wallet_height
  rpc_source = record { wallet_height = wallet_height; fetch_transfers = fetch_transfers }
