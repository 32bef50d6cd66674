-- ===== src/Address.antt =====
-- crates/domain/src/integrated_address.rs, and the command over it,
-- crates/domain/src/bin/gen_integrated_address.rs. The crate `monero` is a parameter.
pub mod Laws
use anon_ticket.Base.{
  ℕ, ◌≡◌, ◌≢◌, Option, none, some, List, [], ◌∷◌, ◌++◌, Bytes, codes, Result, ok, err, panic,
  and_then, map_err, All, IsByte, length,
}
use anon_ticket.Model.{Codec, PaymentId, PidFormatError, pid_try_from, pid_to_hex, generate_pid}
use anon_ticket.Storage.{pid_error_text}

-- `monero::util::address::AddressType`; the source tells its other addresses from these two only.
pub data AddressType : Type 0 where
  standard : AddressType
  integrated : Bytes → AddressType
  other : AddressType

-- `monero::Address`.
pub record MoneroAddress (Network PublicKey : Type 0) : Type 0 where
  pub network : Network
  pub addr_type : AddressType
  pub public_spend : PublicKey
  pub public_view : PublicKey

-- What is called of the crate: `from_str`, with the text of its error, and `to_string` of an address,
-- `Address::integrated`, and `PaymentId::from_slice`, which has no result where it panics.
pub record Monero : Type 1 where
  pub Network : Type 0
  pub PublicKey : Type 0
  pub from_str : Bytes → Result Bytes (MoneroAddress Network PublicKey)
  pub to_string : MoneroAddress Network PublicKey → Bytes
  pub integrated_with : Network → PublicKey → PublicKey → Bytes → MoneroAddress Network PublicKey
  pub from_slice : Bytes → Option Bytes

-- The payment id that an address of the crate can hold has eight bytes.
abbrev pub IsFilled : AddressType → Type 0
IsFilled standard = Unit {0}
IsFilled (integrated b) = (length b ≡ 8) × All IsByte b
IsFilled other = Unit {0}

-- What the crate documents.
pub record IsMonero (m : Monero) : Type 0 where
  pub from_str_returns : (s : Bytes) → m.from_str s ≢ panic
  pub from_str-to_string :
      (a : MoneroAddress m.Network m.PublicKey)
      → IsFilled a.addr_type
      → m.from_str (m.to_string a) ≡ ok a
  pub from_str-IsFilled :
      (s : Bytes) (a : MoneroAddress m.Network m.PublicKey)
      → m.from_str s ≡ ok a
      → IsFilled a.addr_type
  pub integrated_with_parts :
      (n : m.Network) (spend view : m.PublicKey) (b : Bytes)
      → m.integrated_with n spend view b
        ≡ record { network = n; addr_type = integrated b; public_spend = spend; public_view = view }
  pub from_slice_same : (b : Bytes) → length b ≡ 8 → m.from_slice b ≡ some b

pub data IntegratedAddressError : Type 0 where
  invalid_primary : Bytes → IntegratedAddressError
  non_standard_primary : IntegratedAddressError
  invalid_integrated : Bytes → IntegratedAddressError
  missing_payment_id : IntegratedAddressError
  invalid_payment_id : Bytes → IntegratedAddressError

-- `to_string`.
unfoldable pub address_error_text : IntegratedAddressError → Bytes
address_error_text (invalid_primary e) = codes "invalid primary address: " ++ e
address_error_text non_standard_primary =
    codes "primary address must be a standard address (not integrated/subaddress)"
address_error_text (invalid_integrated e) = codes "invalid integrated address: " ++ e
address_error_text missing_payment_id = codes "integrated address missing embedded payment id"
address_error_text (invalid_payment_id e) = codes "embedded payment id is invalid: " ++ e

module _ (m : Monero) where
  -- The payment id is embedded in a standard address.
  abbrev embed :
      MoneroAddress m.Network m.PublicKey
      → AddressType
      → PaymentId
      → Result IntegratedAddressError Bytes
  embed base standard payment_id = elim (m.from_slice payment_id.bytes) [
    | some pid ↦
        ok (m.to_string (m.integrated_with base.network base.public_spend base.public_view pid))
    | none ↦ panic
  ]
  embed base (integrated _) payment_id = err non_standard_primary
  embed base other payment_id = err non_standard_primary

  unfoldable pub build_integrated_address : Bytes → PaymentId → Result IntegratedAddressError Bytes
  build_integrated_address primary_address payment_id =
      and_then (map_err invalid_primary (m.from_str primary_address))
        (λ base. embed base base.addr_type payment_id)

  -- The payment id is read off an address, and the address is made standard.
  abbrev extract :
      MoneroAddress m.Network m.PublicKey
      → AddressType
      → Result IntegratedAddressError (Bytes × PaymentId)
  extract address (integrated pid) =
      and_then (map_err (λ e. invalid_payment_id (pid_error_text e)) (pid_try_from pid))
        (λ payment_id. ok (m.to_string (record address { addr_type = standard }), payment_id))
  extract address standard = err missing_payment_id
  extract address other = err missing_payment_id

  unfoldable pub decode_integrated_address :
      Bytes → Result IntegratedAddressError (Bytes × PaymentId)
  unfolding pid_try_from
  decode_integrated_address integrated_address =
      and_then (map_err invalid_integrated (m.from_str integrated_address))
        (λ address. extract address address.addr_type)

-- The lines that a command prints on its two streams, and its exit code.
pub record Exit : Type 0 where
  pub code : ℕ
  pub stdout : List Bytes
  pub stderr : List Bytes

abbrev pub exit_with : Bytes → Exit
exit_with line = record { code = 1; stdout = []; stderr = line ∷ [] }

-- The two lines of a success.
unfoldable pub generated : Codec → PaymentId → Bytes → Exit
unfolding pid_to_hex
generated c payment_id integrated_text = record {
  code = 0;
  stdout =
      (codes "Payment ID: " ++ pid_to_hex c payment_id)
      ∷ (codes "Integrated address: " ++ integrated_text)
      ∷ [];
  stderr = [];
}

module _ (c : Codec) (m : Monero) where
  -- The match on the integrated address; a panic prints what the standard library prints.
  abbrev print_integrated : Exit → PaymentId → Result IntegratedAddressError Bytes → Exit
  print_integrated panicked payment_id (ok address) = generated c payment_id address
  print_integrated panicked payment_id (err e) =
      exit_with (codes "failed to build integrated address: " ++ address_error_text e)
  print_integrated panicked payment_id panic = panicked

  -- The match on the generated payment id.
  abbrev print_generated : Exit → Bytes → Result Bytes PaymentId → Exit
  print_generated panicked primary_address (ok payment_id) =
      print_integrated panicked payment_id (build_integrated_address m primary_address payment_id)
  print_generated panicked primary_address (err e) =
      exit_with (codes "failed to generate payment id: " ++ e)
  print_generated panicked primary_address panic = panicked

  -- `main`, on the arguments after the name of the program, with what the source of entropy fills in
  -- or the text of its error, and what a panic prints.
  unfoldable pub gen_integrated_address : Exit → Result Bytes Bytes → List Bytes → Exit
  unfolding generate_pid build_integrated_address address_error_text generated
  gen_integrated_address panicked entropy [] =
      exit_with (codes "Usage: gen_integrated_address <primary_address>")
  gen_integrated_address panicked entropy (primary_address ∷ _) =
      print_generated panicked primary_address (generate_pid c entropy)
