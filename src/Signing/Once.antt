-- ===== src/Signing/Once.antt =====
-- What a signature leaves behind, and that its link cannot be used again.
use event_pro_backend.Prelude.{ℕ, ◌≡◌, ◌≢◌, ap, sym, none, some, [], ◌∷◌, ◌++◌, Text, ◌==◌, arith}
use event_pro_backend.Method.{ok, err, signature_error, invalid_signature_token}
use event_pro_backend.Contract.{Contract, signed}
use event_pro_backend.Event.{scheduled}
use event_pro_backend.Contract.Table.{
  Store, ContractData, contract_signed, find_contract, update_event, write_contract, find_token,
  to_contract,
}
use event_pro_backend.Signing.Rules.{Settings, Crypto, Evidence, sealed_contract}
use event_pro_backend.Signing.{
  Around, by_token, or_no_token, resolve, resolve_locked, pdf, request_otp, verify_otp, sign,
}
use event_pro_backend.Signing.Resolving.{row_of}
use event_pro_backend.Signing.Writes.{
  HasKeys, OnlyWith, write_signature-rows, token_gone, found_again, others_kept,
}
use event_pro_backend.Signing.Sealing.{Sealed, sign-Sealed}

-- The fields that the seal leaves and sets.
sealed-fields :
    (c : Crypto) (e : Evidence) (k : Contract)
    → let final = sealed_contract c e k in
      (final.id ≡ k.id)
      × (final.event_id ≡ k.event_id)
      × (final.status ≡ signed)
      × (final.signature_token_hash ≡ none)
      × (final.signed_at ≡ some e.signed_at)
unfolding sealed_contract
sealed-fields c e k = ground arith

no_token :
    (c : Crypto) (token : Text) (s : Store)
    → row_of c token s.contracts ≡ none
    → by_token c token s ≡ (err (signature_error 404 invalid_signature_token), s)
unfolding by_token find_token or_no_token to_contract
no_token c token s h = ground (arith, h)

-- Where no contract has the token, every call with it is a 404 and changes nothing.
abbrev pub Dead : Settings → Crypto → Text → Store → Type 0
Dead cfg c token s =
    (b : Around) (code proof image name ip agent : Text)
    → let gone = signature_error 404 invalid_signature_token in
      (pdf c b token s ≡ (err gone, s))
      × (request_otp cfg c b token s ≡ (err gone, s))
      × (verify_otp cfg c b token code s ≡ (err gone, s))
      × (sign cfg c b token proof image name ip agent s ≡ (err gone, s))

pub no_token-Dead :
    (cfg : Settings) (c : Crypto) (token : Text) (s : Store)
    → row_of c token s.contracts ≡ none
    → Dead cfg c token s
unfolding pdf request_otp verify_otp sign resolve resolve_locked
no_token-Dead cfg c token s h b code proof image name ip agent =
    let gone = no_token c token s h in
    (ground (arith, gone), ground (arith, gone), ground (arith, gone), ground (arith, gone))

module _ (cfg : Settings) (c : Crypto) (a : Around) (token proof image name ip agent : Text)
    (s : Store) (final : Contract)
    (h : (sign cfg c a token proof image name ip agent s).0 ≡ ok final) where
  abbrev stored : Store
  stored = (sign cfg c a token proof image name ip agent s).1

  abbrev seal : Sealed cfg c a token proof image name ip agent s final
  seal = sign-Sealed cfg c a token proof image name ip agent s final h

  rows :
      (stored.contracts ≡ write_contract final (a.while_waiting s).contracts)
      × (stored.events
          ≡ update_event final.event_id
              (λ d. record d { event_status = scheduled })
              (a.while_waiting s).events)
      × (stored.audit
          ≡ (a.while_waiting s).audit
            ++ (record { action = contract_signed; entity_id = final.id; user_id = none } ∷ []))
  rows =
      let was = ap (λ r. r.1) seal.was_written in
      rw (sym was)
        (write_signature-rows cfg a final seal.read seal.evidence.sealed_path (a.while_waiting s))

  -- After a signature that returns: the contract that is returned is signed and has no link; it is the
  -- one that is read by its id, and the other contracts are as before; its event is SCHEDULED and else as
  -- before, as are the other events; and the audit has one entry more, for it.
  pub sign-stored :
      (final.status ≡ signed)
      × (final.signature_token_hash ≡ none)
      × (find_contract (λ r. r.id == final.id) stored.contracts ≡ some final)
      × ((id : ℕ)
          → id ≢ final.id
          → find_contract (λ r. r.id == id) stored.contracts
            ≡ find_contract (λ r. r.id == id) (a.while_waiting s).contracts)
      × ((d : ContractData)
          → (a.while_waiting s).events final.event_id ≡ some d
          → stored.events final.event_id ≡ some (record d { event_status = scheduled }))
      × ((id : ℕ) → id ≢ final.event_id → stored.events id ≡ (a.while_waiting s).events id)
      × (stored.audit
          ≡ (a.while_waiting s).audit
            ++ (record { action = contract_signed; entity_id = final.id; user_id = none } ∷ []))
  sign-stored =
      let (_, _, status, token, _) = sealed-fields c seal.evidence seal.contract in
      let (contracts, events, audit) = rows in
      (
        rw seal.is_sealed status,
        rw seal.is_sealed token,
        rw contracts (found_again final (a.while_waiting s).contracts),
        λ id ne. rw contracts (others_kept final id (a.while_waiting s).contracts ne),
        λ d known. rw events (ground (arith, known)),
        λ id ne. rw events (ground arith),
        audit,
      )

  -- After a signature that returns, if no two contracts had an id in common and only this one had the
  -- token of the link: every call with that token, of pdf, request_otp, verify_otp and sign, is refused
  -- with 404 and changes nothing.
  pub sign_once :
      HasKeys (a.while_waiting s).contracts
      → OnlyWith (c.sha256 token) final.id (a.while_waiting s).contracts
      → (b : Around) (code proof' image' name' ip' agent' : Text)
      → let gone = signature_error 404 invalid_signature_token in
        (pdf c b token stored ≡ (err gone, stored))
        × (request_otp cfg c b token stored ≡ (err gone, stored))
        × (verify_otp cfg c b token code stored ≡ (err gone, stored))
        × (sign cfg c b token proof' image' name' ip' agent' stored ≡ (err gone, stored))
  sign_once keys only =
      let (_, _, _, none_now, _) = sealed-fields c seal.evidence seal.contract in
      let no_link : final.signature_token_hash ≡ none = rw seal.is_sealed none_now in
      no_token-Dead cfg c token stored (
        rw rows.0
          (token_gone (c.sha256 token) final (a.while_waiting s).contracts no_link keys only))
