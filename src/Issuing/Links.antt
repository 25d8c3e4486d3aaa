-- ===== src/Issuing/Links.antt =====
-- The link that is sent (`_link`), in the calls that send one.
use event_pro_backend.Prelude.{
  ℕ, ◌≡◌, ap, sym, ◌∙◌, true, inl, inr, none, some, [], ◌∷◌, text_eq_refl, arith,
}
use event_pro_backend.Method.{ok, Result-cases}
use event_pro_backend.Clock.{later, hours}
use event_pro_backend.Outbox.{OutboxMessage}
use event_pro_backend.Outbox.Schedule.{text}
use event_pro_backend.Outbox.Payload.{get}
use event_pro_backend.Contract.{Contract, is_issued, replace_link}
use event_pro_backend.Contract.Notice.{notify}
use event_pro_backend.Contract.Messages.{about, about-invalidate, notify-pending, about-notify}
use event_pro_backend.Contract.Table.{
  ContractData, Store, str_uuid, carries_link, invalidate, invalidate_pending_links,
}
use event_pro_backend.Issuing.Rules.{Settings, Desk, link, link_payload, relink}

carries-link_payload :
    (cfg : Settings) (w : Desk) (k : Contract)
    → carries_link k.id (some (link_payload cfg w k)) ≡ true
unfolding link_payload get
carries-link_payload cfg w k = text_eq_refl (str_uuid k.id)

-- The contract with its new link, and the only message of the queue about it, which has the new token and
-- is redacted after it is sent.
pub record Linked (cfg : Settings) (w : Desk) (k final : Contract) (s after : Store) : Type 0 where
  pub message : OutboxMessage
  pub was_issued : is_issued k.status ≡ true
  pub expires_at : ℕ
  pub in_time : later w.now (hours cfg.link_ttl_hours) ≡ ok expires_at
  pub is_linked : final ≡ record k {
    signature_token_hash = some (w.sha256 w.token);
    signature_token_expires_at = some expires_at;
    otp_hash = none;
    otp_expires_at = none;
    otp_attempts = 0;
  }
  pub only_message : about k.id after.outbox ≡ message ∷ []
  pub has_token : message.payload ≡ some (link_payload cfg w final)
  pub is_redacted : message.redact_after_send ≡ true
  pub same_contracts : after.contracts ≡ s.contracts
  pub same_events : after.events ≡ s.events

relink-outcome :
    (cfg : Settings) (w : Desk) (k final : Contract)
    → relink cfg w k ≡ ok final
    → (is_issued k.status ≡ true)
      × (expires_at : ℕ) × (later w.now (hours cfg.link_ttl_hours) ≡ ok expires_at)
      × (final ≡ record k {
        signature_token_hash = some (w.sha256 w.token);
        signature_token_expires_at = some expires_at;
        otp_hash = none;
        otp_expires_at = none;
        otp_attempts = 0;
      })
unfolding relink replace_link
relink-outcome cfg w k final h = elim (Result-cases (later w.now (hours cfg.link_ttl_hours))) [
  | inr (e, bad) ↦ ground (arith, h, bad)
  | inl (expires_at, good) ↦ (ground (arith, h, good), expires_at, good, ground (arith, h, good))
]

pub link-Linked :
    (cfg : Settings) (w : Desk) (d : ContractData) (k final : Contract) (s : Store)
    → (link cfg w d k s).0 ≡ ok final
    → Linked cfg w k final s (link cfg w d k s).1
unfolding link invalidate_pending_links
link-Linked cfg w d k final s h = elim (Result-cases (relink cfg w k)) [
  | inr (e, bad) ↦ ground (arith, h, bad)
  | inl (k', made) ↦
      let s' : Store = record s { outbox = invalidate k'.id s.outbox } in
      let sent =
        notify cfg.outbox_max_attempts w.fresh w.now d.phone text (link_payload cfg w k') true s' in
      elim (Result-cases sent.0) [
        | inr (e, bad) ↦ ground (arith, h, made, bad)
        | inl (m, good) ↦
            let same : final ≡ k' = ground (arith, h, made, good) in
            let (i, exp, in_time, linked) = relink-outcome cfg w k k' made in
            let number : k'.id ≡ k.id = ap (λ r. r.id) linked in
            let (_, content, redacted, stored) =
              notify-pending cfg.outbox_max_attempts w.fresh w.now d.phone text
                (link_payload cfg w k') true s' m good in
            let one =
              about-notify k'.id cfg.outbox_max_attempts w.fresh w.now d.phone text
                (link_payload cfg w k') true s' m (about-invalidate k'.id s.outbox)
                (carries-link_payload cfg w k') good in
            let became : (link cfg w d k s).1
                ≡ record s { outbox = m ∷ invalidate k'.id s.outbox } =
              ground (arith, made, good, stored) in
            record {
              message = m;
              was_issued = i;
              expires_at = exp;
              in_time = in_time;
              is_linked = same ∙ linked;
              only_message =
                  ap (λ r. about k.id r.outbox) became
                  ∙ (ap (λ i. about i (m ∷ invalidate k'.id s.outbox)) (sym number)
                      ∙ (ap (λ r. about k'.id r.outbox) (sym stored) ∙ one));
              has_token = rw same content;
              is_redacted = redacted;
              same_contracts = ap (λ r. r.contracts) became;
              same_events = ap (λ r. r.events) became;
            }
      ]
]
