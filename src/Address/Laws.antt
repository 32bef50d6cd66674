-- ===== src/Address/Laws.antt =====
-- What an integrated address holds can be read back from it.
use anon_ticket.Base.{
  ◌≡◌, ◌≢◌, refl, sym, subst, ◌∙◌, ap, inl, inr, ◌⊎◌, Bytes, ok, err, Result-cases,
}
use anon_ticket.Model.{PaymentId, IsPid}
use anon_ticket.Model.PidLaws.{pid_try_from_bytes}
use anon_ticket.Address.{
  MoneroAddress, AddressType, standard, integrated, other, Monero, IsMonero, IsFilled,
  non_standard_primary, invalid_integrated, missing_payment_id, embed, extract,
  build_integrated_address, decode_integrated_address,
}

AddressType-cases :
    (t : AddressType) → ((b : Bytes) × (t ≡ integrated b)) ⊎ (t ≡ standard) ⊎ (t ≡ other)
AddressType-cases (integrated b) = inl (b, refl)
AddressType-cases standard = inr (inl refl)
AddressType-cases other = inr (inr refl)

module _ (m : Monero) (lawful : IsMonero m) where
  embed-standard :
      (base : MoneroAddress m.Network m.PublicKey) (pid : PaymentId)
      → IsPid pid
      → embed m base standard pid
        ≡ ok (m.to_string (record base { addr_type = integrated pid.bytes }))
  embed-standard base pid (eight, _) =
      rw
        (
          lawful.from_slice_same pid.bytes eight,
          lawful.integrated_with_parts base.network base.public_spend base.public_view pid.bytes,
          embed,
        )
        refl

  extract-integrated :
      (a : MoneroAddress m.Network m.PublicKey) (b : Bytes)
      → IsFilled (integrated b)
      → extract m a (integrated b)
        ≡ ok (m.to_string (record a { addr_type = standard }), record { bytes = b })
  extract-integrated a b fits = rw (pid_try_from_bytes (record { bytes = b }) fits) refl

  build-of :
      (text : Bytes) (pid : PaymentId) (a : MoneroAddress m.Network m.PublicKey) (t : AddressType)
      → m.from_str text ≡ ok a
      → a.addr_type ≡ t
      → build_integrated_address m text pid ≡ embed m a t pid
  unfolding build_integrated_address
  build-of text pid a t parsed is = rw (parsed, is) refl

  decode-of :
      (text : Bytes) (a : MoneroAddress m.Network m.PublicKey) (t : AddressType)
      → m.from_str text ≡ ok a
      → a.addr_type ≡ t
      → decode_integrated_address m text ≡ extract m a t
  unfolding decode_integrated_address
  decode-of text a t parsed is = rw (parsed, is) refl

  -- A payment id that is built into a standard address is read back from the result, together with
  -- that address as it is printed; and the result is refused as an address to build into.
  pub decode-build :
      (primary : Bytes) (pid : PaymentId) (base : MoneroAddress m.Network m.PublicKey)
      → IsPid pid
      → m.from_str primary ≡ ok base
      → base.addr_type ≡ standard
      → (text : Bytes) × (build_integrated_address m primary pid ≡ ok text)
        × (decode_integrated_address m text ≡ ok (m.to_string base, pid))
        × ((q : PaymentId) → build_integrated_address m text q ≡ err non_standard_primary)
  decode-build primary pid base valid parsed is =
      let a : MoneroAddress m.Network m.PublicKey = record base {
        addr_type = integrated pid.bytes;
      } in
      let back = lawful.from_str-to_string a valid in
      (
        m.to_string a,
        build-of primary pid base standard parsed is ∙ embed-standard base pid valid,
        decode-of (m.to_string a) a (integrated pid.bytes) back refl
            ∙ extract-integrated a pid.bytes valid
            ∙ ap (λ t. ok (m.to_string (record base { addr_type = t }), pid)) (sym is),
        λ q. build-of (m.to_string a) q a (integrated pid.bytes) back refl,
      )

  decode-integrated :
      (text b : Bytes) (a : MoneroAddress m.Network m.PublicKey)
      → m.from_str text ≡ ok a
      → a.addr_type ≡ integrated b
      → (primary : Bytes) × (pid : PaymentId) × IsPid pid
        × (decode_integrated_address m text ≡ ok (primary, pid))
        × (build_integrated_address m primary pid ≡ ok (m.to_string a))
  decode-integrated text b a parsed is =
      let fits = subst IsFilled is (lawful.from_str-IsFilled text a parsed) in
      let base : MoneroAddress m.Network m.PublicKey = record a { addr_type = standard } in
      let pid : PaymentId = record { bytes = b } in
      (
        m.to_string base,
        pid,
        fits,
        decode-of text a (integrated b) parsed is ∙ extract-integrated a b fits,
        build-of (m.to_string base) pid base standard (lawful.from_str-to_string base tt) refl
            ∙ embed-standard base pid fits
            ∙ ap (λ t. ok (m.to_string (record a { addr_type = t }))) (sym is),
      )

  -- Decoding a text refuses what is no address in the words of the crate, refuses an address that
  -- holds no payment id, and otherwise gives a payment id and an address into which building that id
  -- gives the address that was decoded; it does not panic.
  pub decode_integrated_address_cases :
      (text : Bytes)
      → ((e : Bytes) × (m.from_str text ≡ err e)
          × (decode_integrated_address m text ≡ err (invalid_integrated e)))
        ⊎ ((a : MoneroAddress m.Network m.PublicKey) × (m.from_str text ≡ ok a)
            × ((b : Bytes) → a.addr_type ≢ integrated b)
            × (decode_integrated_address m text ≡ err missing_payment_id))
        ⊎ ((a : MoneroAddress m.Network m.PublicKey) × (m.from_str text ≡ ok a)
            × ((primary : Bytes) × (pid : PaymentId) × IsPid pid
                × (decode_integrated_address m text ≡ ok (primary, pid))
                × (build_integrated_address m primary pid ≡ ok (m.to_string a))))
  unfolding decode_integrated_address
  decode_integrated_address_cases text = elim (Result-cases (m.from_str text)) [
    | inl (a, parsed) ↦ elim (AddressType-cases a.addr_type) [
      | inl (b, is) ↦ inr (inr (a, parsed, decode-integrated text b a parsed is))
      | inr (inl is) ↦
          inr (inl (a, parsed, λ b e. absurd (cc (is, e)), decode-of text a standard parsed is))
      | inr (inr is) ↦
          inr (inl (a, parsed, λ b e. absurd (cc (is, e)), decode-of text a other parsed is))
    ]
    | inr (inl (e, bad)) ↦ inl (e, bad, rw bad refl)
    | inr (inr bad) ↦ absurd (lawful.from_str_returns text bad)
  ]
