-- ===== src/Issuing/Examples.antt =====
-- A contract that is issued and one that is annulled, and the theorems at them.
use event_pro_backend.Prelude.{decimal, ◌+◌, ◌≡◌, refl, false, none, some, [], Text, codes}
use event_pro_backend.Method.{Result, ok}
use event_pro_backend.Clock.{hours, require_aware}
use event_pro_backend.Outbox.Payload.{validate_payload}
use event_pro_backend.Phone.{parse}
use event_pro_backend.Contract.{Contract, blank_contract, issued, voided}
use event_pro_backend.Contract.Table.{Store, str_uuid, numbered}
use event_pro_backend.Signing.Rules as Sign
use event_pro_backend.Signing.Examples.{sha, store, waiting}
use event_pro_backend.Issuing.Rules.{Settings, Desk, link_payload}
use event_pro_backend.Issuing.{issue_for_event}
use event_pro_backend.Issuing.Outcome.{Issued, issue_for_event-Issued}
use event_pro_backend.Issuing.Again.{issue_again}

abbrev pub cfg : Settings
cfg = record { frontend_url = codes "https://e.pe"; link_ttl_hours = 168; outbox_max_attempts = 6 }

abbrev pub desk : Desk
desk = record {
  sha256 = sha;
  while_waiting = λ s. s;
  now = 500;
  year = 2026;
  fresh = 30;
  fresh_contract = 8;
  token = codes "abcdefabcdefabcdefabcdefabcdefab";
  rendered = λ k d. ok (codes "%PDF");
  stored = λ content. ok (codes "c.pdf");
  opened = λ path. ok (codes "%PDF");
}

-- No contract yet.
abbrev pub empty : Store
empty = record store { contracts = [] }

abbrev pub final : Contract
final = record (blank_contract 8 (codes "CTR-2026-0002") 3 false 500) {
  status = issued;
  pdf_storage_path = some (codes "c.pdf");
  signature_token_hash = some (sha (codes "abcdefabcdefabcdefabcdefabcdefab"));
  signature_token_expires_at = some (500 + hours 168);
}

abbrev issued_once : Result Contract × Store
issued_once = issue_for_event cfg desk 3 none empty

returned : issued_once.0 ≡ ok final
unfolding issue_for_event str_uuid parse require_aware validate_payload numbered decimal
    link_payload
returned = refl

issue_for_event-Issued_example : Issued cfg desk 3 none empty issued_once.1 final
issue_for_event-Issued_example = issue_for_event-Issued cfg desk 3 none empty final returned

issue_again_example : issue_for_event cfg desk 3 (some 9) issued_once.1 ≡ (ok final, issued_once.1)
issue_again_example =
    issue_again cfg cfg desk desk 3 none (some 9) empty final returned refl tt refl

-- The contract with a code is annulled.
abbrev gone : Contract
gone = record waiting {
  status = voided;
  signature_token_hash = none;
  signature_token_expires_at = none;
  otp_hash = none;
  otp_expires_at = none;
}

abbrev reason : Text
reason = codes "Duplicado"
