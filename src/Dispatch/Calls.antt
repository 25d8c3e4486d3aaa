-- ===== src/Dispatch/Calls.antt =====
-- What the worker asks of the gateway for a message that was enqueued.
use event_pro_backend.Prelude.{ℕ, ◌≡◌, refl, ap, ◌∙◌, true, some, Text, codes, arith, inl, inr, ◌⊎◌}
use event_pro_backend.Method.{Error, Result-cases, ok}
use event_pro_backend.Outbox.{OutboxMessage, NewMessage, create}
use event_pro_backend.Outbox.Schedule.{MessageType, text, template, interactive, document}
use event_pro_backend.Outbox.Payload.{
  Value, null, number, str, other, object, array, Fields, end, field, get, check_text,
  validate_sections, validate_params, check_fields, validate_payload,
}
use event_pro_backend.Dispatch.Gateway.{
  GatewayCall, Answer, Reading, content, unreadable, call_of, read_failed, Failure, raised,
  get_item, deliver_document, send, classify, look_up, subscript, deliver, send_text, send_template,
  send_interactive_list, send_attachment,
}
use event_pro_backend.Dispatch.Contents.{
  is_ok, look_up-get, sections_in, sections_in-validate_sections,
}

Reading-cases :
    (r : Reading)
    → ((bytes : Text) × (r ≡ content bytes))
      ⊎ ((failure : Failure) × (name : Text) × (message : Text) × (r
            ≡ unreadable failure name message))
Reading-cases (content bytes) = inl (bytes, refl)
Reading-cases (unreadable failure name message) = inr (failure, name, message, refl)

-- A content that was validated for the type of the message always yields a call.
deliver-text :
    (documents : Value → Reading) (m : OutboxMessage) (fields : Fields)
    → m.message_type ≡ text
    → check_fields text fields ≡ ok tt
    → is_ok (deliver documents m (object fields)) ≡ true
unfolding deliver subscript check_fields check_text
deliver-text documents m fields t h =
    ground (arith, t, look_up-get check_text (codes "body") fields refl h)

deliver-template :
    (documents : Value → Reading) (m : OutboxMessage) (fields : Fields)
    → m.message_type ≡ template
    → check_fields template fields ≡ ok tt
    → is_ok (deliver documents m (object fields)) ≡ true
unfolding deliver subscript check_fields check_text validate_params
deliver-template documents m fields t h =
    let a : check_text (get (codes "name") fields) ≡ ok tt = ground arith in
    let b : validate_params (get (codes "params") fields) ≡ ok tt = ground arith in
    ground (
      arith,
      t,
      look_up-get check_text (codes "name") fields refl a,
      look_up-get validate_params (codes "params") fields refl b,
    )

deliver-interactive :
    (documents : Value → Reading) (m : OutboxMessage) (fields : Fields)
    → m.message_type ≡ interactive
    → check_fields interactive fields ≡ ok tt
    → is_ok (deliver documents m (object fields)) ≡ true
unfolding deliver subscript check_fields check_text validate_sections sections_in
deliver-interactive documents m fields t h =
    let a : check_text (get (codes "body") fields) ≡ ok tt = ground arith in
    let b : validate_sections (get (codes "sections") fields) ≡ ok tt = ground arith in
    ground (
      arith,
      t,
      look_up-get check_text (codes "body") fields refl a,
      look_up-get validate_sections (codes "sections") fields refl b,
      sections_in-validate_sections (get (codes "sections") fields) b,
    )

deliver-document :
    (documents : Value → Reading) (m : OutboxMessage) (fields : Fields)
    → m.message_type ≡ document
    → check_fields document fields ≡ ok tt
    → is_ok (deliver documents m (object fields)) ≡ true
unfolding deliver deliver_document subscript check_fields check_text
deliver-document documents m fields t h =
    let a : check_text (get (codes "path") fields) ≡ ok tt = ground arith in
    let b : check_text (get (codes "filename") fields) ≡ ok tt = ground arith in
    let c : check_text (get (codes "content_type") fields) ≡ ok tt = ground arith in
    elim (Reading-cases (documents (get (codes "path") fields))) [
      | inl (bytes, there) ↦ ground (
        arith,
        t,
        there,
        look_up-get check_text (codes "path") fields refl a,
        look_up-get check_text (codes "filename") fields refl b,
        look_up-get check_text (codes "content_type") fields refl c,
      )
      | inr (failure, name, message, gone) ↦
          ground (arith, t, gone, look_up-get check_text (codes "path") fields refl a)
    ]

deliver-check_fields :
    (documents : Value → Reading) (t : MessageType) (m : OutboxMessage) (fields : Fields)
    → m.message_type ≡ t
    → check_fields t fields ≡ ok tt
    → is_ok (deliver documents m (object fields)) ≡ true
deliver-check_fields documents text m fields t h = deliver-text documents m fields t h
deliver-check_fields documents template m fields t h = deliver-template documents m fields t h
deliver-check_fields documents interactive m fields t h = deliver-interactive documents m fields t h
deliver-check_fields documents document m fields t h = deliver-document documents m fields t h

deliver-validate_payload :
    (documents : Value → Reading) (m : OutboxMessage) (payload copy : Value)
    → validate_payload m.message_type payload ≡ ok copy
    → is_ok (deliver documents m payload) ≡ true
unfolding validate_payload
deliver-validate_payload documents m (object fields) copy h =
    deliver-check_fields documents m.message_type m fields refl (ground arith)
deliver-validate_payload documents m null copy h = ground arith
deliver-validate_payload documents m (number n) copy h = ground arith
deliver-validate_payload documents m (str s) copy h = ground arith
deliver-validate_payload documents m (array xs) copy h = ground arith
deliver-validate_payload documents m (other n) copy h = ground arith

abbrev pub recipient_of : GatewayCall → Text
recipient_of (send_text to _) = to
recipient_of (send_template to _ _) = to
recipient_of (send_interactive_list to _ _) = to
recipient_of (send_attachment to _ _ _ _) = to

get-look_up : (k : Text) (fields : Fields) (v : Value) → look_up k fields ≡ ok v → get k fields ≡ v
unfolding look_up get
get-look_up k end v h = ground arith
get-look_up k (field key value rest) v h = ground (arith, get-look_up k rest v)

get_item-subscript :
    (k : Text) (payload v : Value) → subscript k payload ≡ ok v → get_item k payload ≡ v
unfolding subscript get_item
get_item-subscript k (object fields) v h = get-look_up k fields v h
get_item-subscript k null v h = ground arith
get_item-subscript k (number n) v h = ground arith
get_item-subscript k (str t) v h = ground arith
get_item-subscript k (array xs) v h = ground arith
get_item-subscript k (other n) v h = ground arith

document-call :
    (documents : Value → Reading) (m : OutboxMessage) (payload : Value) (c : GatewayCall)
    → deliver_document documents m payload ≡ ok (call_of c)
    → recipient_of c ≡ m.recipient
unfolding deliver_document
document-call documents m payload c h = elim (Result-cases (subscript (codes "path") payload)) [
  | inr (e, bad) ↦ ground (arith, h, bad)
  | inl (path, there) ↦ elim (Reading-cases (documents path)) [
    | inl (bytes, found) ↦ ground (arith, h, there, found)
    | inr (failure, name, message, gone) ↦ ground (arith, h, there, gone)
  ]
]

document-failure :
    (documents : Value → Reading) (m : OutboxMessage) (payload : Value) (failure : Failure)
    (name message : Text)
    → deliver_document documents m payload ≡ ok (read_failed failure name message)
    → documents (get_item (codes "path") payload) ≡ unreadable failure name message
unfolding deliver_document
document-failure documents m payload failure name message h =
    elim (Result-cases (subscript (codes "path") payload)) [
      | inr (e, bad) ↦ ground (arith, h, bad)
      | inl (path, there) ↦
          let same = get_item-subscript (codes "path") payload path there in
          elim (Reading-cases (documents path)) [
            | inl (bytes, found) ↦ ground (arith, h, there, found)
            | inr (f, n, t, gone) ↦ ap documents same ∙ ground (arith, h, there, gone)
          ]
    ]

document-deliver :
    (documents : Value → Reading) (m : OutboxMessage) (payload : Value) (failure : Failure)
    (name message : Text)
    → deliver documents m payload ≡ ok (read_failed failure name message)
    → (m.message_type ≡ document)
      × (deliver_document documents m payload ≡ ok (read_failed failure name message))
unfolding deliver
document-deliver documents m payload failure name message h = (ground arith, ground arith)

recipient_of-deliver :
    (documents : Value → Reading) (m : OutboxMessage) (payload : Value) (c : GatewayCall)
    → deliver documents m payload ≡ ok (call_of c)
    → recipient_of c ≡ m.recipient
unfolding deliver
recipient_of-deliver documents m payload c h = ground (arith, document-call documents m payload c)

create-parts :
    (id : ℕ) (r : NewMessage) (m : OutboxMessage)
    → create id r ≡ ok m
    → (m.payload ≡ some r.payload)
      × (validate_payload m.message_type r.payload ≡ ok r.payload)
      × (m.recipient ≡ r.recipient)
unfolding create validate_payload
create-parts id r m h = ground arith

-- A message that was just created is handed to the gateway in one call, to its recipient, and what is made
-- of the answer is the result; unless it is a DOCUMENT whose file cannot be read: then the gateway is not
-- asked, and the result is what is made of the failure of the read. No key of the content is missing and
-- no value has a type that the sending cannot use.
pub send-create :
    (id : ℕ) (r : NewMessage) (m : OutboxMessage) (class_name : Error → Text)
    (documents : Value → Reading)
    → create id r ≡ ok m
    → ((c : GatewayCall) × (recipient_of c ≡ r.recipient)
        × ((gateway : GatewayCall → Answer)
            → send class_name documents gateway m ≡ classify (gateway c)))
      ⊎ ((failure : Failure) × (name : Text) × (message : Text) × (m.message_type ≡ document)
          × (documents (get_item (codes "path") r.payload) ≡ unreadable failure name message)
          × ((gateway : GatewayCall → Answer)
              → send class_name documents gateway m ≡ classify (raised failure name message)))
unfolding send
send-create id r m class_name documents h =
    let (kept, valid, to) = create-parts id r m h in
    let made = deliver-validate_payload documents m r.payload r.payload valid in
    elim (Result-cases (deliver documents m r.payload)) [
      | inl (call_of c, called) ↦ inl (
        c,
        recipient_of-deliver documents m r.payload c called ∙ to,
        λ gateway. ground (arith, kept, called),
      )
      | inl (read_failed failure name message, called) ↦
          let (kind, read) = document-deliver documents m r.payload failure name message called in
          inr (
            failure,
            name,
            message,
            kind,
            document-failure documents m r.payload failure name message read,
            λ gateway. ground (arith, kept, called),
          )
      | inr (e, raises) ↦ ground (arith, made, raises)
    ]
