-- ===== src/Issuing/Sending.antt =====
-- Issuing a contract and sending its link again.
use event_pro_backend.Prelude.{
  ℕ, ◌≡◌, refl, sym, true, false, not, ◌||◌, inl, inr, ◌⊎◌, Bool-cases, Option, [], ◌∷◌, ◌++◌,
  arith,
}
use event_pro_backend.Method.{ok, Result-cases, Method, ◌>>=◌}
use event_pro_backend.Contract.{Contract, is_issued, filled}
use event_pro_backend.Contract.Table.{
  ContractData, Store, Action, contract_issued, write_contract, save, record_audit,
}
use event_pro_backend.Issuing.Rules.{Settings, Desk, link, render, save_with}
use event_pro_backend.Issuing.{issue_contract}
use event_pro_backend.Issuing.Links.{Linked, link-Linked}

-- A contract with a new link that was saved, with an entry of the audit.
pub record Sent (cfg : Settings) (w : Desk) (action : Action) (user_id : Option ℕ)
    (k final : Contract) (s after : Store) : Type 0 where
  pub queued : Store
  pub linked : Linked cfg w k final s queued
  pub saved : after ≡ record queued {
    contracts = write_contract final s.contracts;
    audit =
        queued.audit ++ (record { action = action; entity_id = final.id; user_id = user_id } ∷ []);
  }

saved-Sent :
    (cfg : Settings) (w : Desk) (action : Action) (user_id : Option ℕ) (k final : Contract)
    (s queued : Store)
    → Linked cfg w k final s queued
    → Sent cfg w action user_id k final s (save_with action user_id final queued).1
unfolding save_with save record_audit
saved-Sent cfg w action user_id k final s queued l = record {
  queued = queued;
  linked = l;
  saved = rw (sym l.same_contracts) refl;
}

-- A link, and the save after it.
abbrev send : Settings → Desk → ContractData → Action → Option ℕ → Contract → Method Store Contract
send cfg w d action user_id k = do linked ← link cfg w d k; save_with action user_id linked

save_with-same :
    (action : Action) (user_id : Option ℕ) (k : Contract) (s : Store)
    → (save_with action user_id k s).0 ≡ ok k
unfolding save_with save record_audit
save_with-same action user_id k s = refl

send-Sent :
    (cfg : Settings) (w : Desk) (d : ContractData) (action : Action) (user_id : Option ℕ)
    (k final : Contract) (s : Store)
    → (send cfg w d action user_id k s).0 ≡ ok final
    → Sent cfg w action user_id k final s (send cfg w d action user_id k s).1
send-Sent cfg w d action user_id k final s h = elim (Result-cases (link cfg w d k s).0) [
  | inr (e, bad) ↦ ground (arith, h, bad)
  | inl (k', made) ↦
      let queued = (link cfg w d k s).1 in
      let same : final ≡ k' = ground (arith, h, made, save_with-same action user_id k' queued) in
      let became : (send cfg w d action user_id k s).1 ≡ (save_with action user_id k' queued).1 =
        ground (arith, made) in
      rw (became, same)
        (saved-Sent cfg w action user_id k k' s queued (link-Linked cfg w d k k' s made))
]

-- The document is rendered, unless there is one already.
abbrev pub Offered : Desk → ContractData → Contract → Contract → Type 0
Offered w d k offered =
    (((not (is_issued k.status) || not (filled k.pdf_storage_path)) ≡ false) × (offered ≡ k))
    ⊎ (((not (is_issued k.status) || not (filled k.pdf_storage_path)) ≡ true)
        × (render w d k ≡ ok offered))

pub issue_contract-Sent :
    (cfg : Settings) (w : Desk) (d : ContractData) (user_id : Option ℕ) (k final : Contract)
    (s : Store)
    → (issue_contract cfg w d user_id k s).0 ≡ ok final
    → (offered : Contract) × Offered w d k offered
      × Sent cfg w contract_issued user_id offered final s (issue_contract cfg w d user_id k s).1
unfolding issue_contract
issue_contract-Sent cfg w d user_id k final s h =
    elim (Bool-cases (not (is_issued k.status) || not (filled k.pdf_storage_path))) [
      | inr ready ↦ (
        k,
        inl (ready, refl),
        rw ready (send-Sent cfg w d contract_issued user_id k final s (ground (arith, h, ready))),
      )
      | inl draft ↦ elim (Result-cases (render w d k)) [
        | inr (e, bad) ↦ ground (arith, h, draft, bad)
        | inl (offered, made) ↦ (
          offered,
          inr (draft, made),
          rw (draft, made)
              (send-Sent cfg w d contract_issued user_id offered final s
                (ground (arith, h, draft, made))),
        )
      ]
    ]
