-- ===== src/Dispatch/Gateway.antt =====
-- What DispatchDueMessages asks of the messaging gateway, and what it makes of the answer. The gateway
-- and the document store are external: what they answer is a parameter.
use event_pro_backend.Prelude.{
  ℕ, Bool, true, false, none, some, List, [], ◌∷◌, ◌++◌, Text, codes, if◌then◌else◌,
}
use event_pro_backend.Method.{Error, Result, ok, err, and_then, key_error, type_error}
use event_pro_backend.Outbox.{OutboxMessage}
use event_pro_backend.Outbox.Schedule.{text, template, interactive, document}
use event_pro_backend.Outbox.Payload.{
  Value, null, array, object, Items, nil, cons, Fields, end, field, is_key, get,
}

pub record ListRow : Type 0 where
  pub id : Value
  pub title : Value
  pub description : Value

pub record ListSection : Type 0 where
  pub title : Value
  pub rows : List ListRow

-- The calls of the port; the data of an attachment are bytes.
pub data GatewayCall : Type 0 where
  send_text : Text → Value → GatewayCall
  send_template : Text → Value → Value → GatewayCall
  send_interactive_list : Text → Value → List ListSection → GatewayCall
  send_attachment : Text → Text → Value → Value → Value → GatewayCall

unfoldable pub look_up : Text → Fields → Result Value
look_up k end = err key_error
look_up k (field key value rest) = if is_key k key then ok value else look_up k rest

-- `value[key]`
unfoldable pub subscript : Text → Value → Result Value
unfolding look_up
subscript k (object fields) = look_up k fields
subscript k _ = err type_error

-- `value.get(key)`, of a value that has been subscripted before
unfoldable pub get_item : Text → Value → Value
unfolding get
get_item k (object fields) = get k fields
get_item k _ = null

unfoldable pub list_row : Value → Result ListRow
unfolding subscript get_item
list_row row = and_then (subscript (codes "id") row) λ id.
    and_then (subscript (codes "title") row) λ title.
      ok (record { id = id; title = title; description = get_item (codes "description") row })

unfoldable pub list_rows : Items → Result (List ListRow)
unfolding list_row
list_rows nil = ok []
list_rows (cons row rest) =
    let others = list_rows rest in
    and_then (list_row row) λ first. and_then others λ last. ok (first ∷ last)

-- Iteration over a list.
abbrev pub items : Value → Result Items
items (array values) = ok values
items _ = err type_error

unfoldable pub list_section : Value → Result ListSection
unfolding subscript list_rows
list_section section = and_then (subscript (codes "title") section) λ title.
    and_then (subscript (codes "rows") section) λ found.
      and_then (items found)
        λ values. and_then (list_rows values) λ rows. ok (record { title = title; rows = rows })

-- `_sections`
unfoldable pub list_sections : Items → Result (List ListSection)
unfolding list_section
list_sections nil = ok []
list_sections (cons section rest) =
    let others = list_sections rest in
    and_then (list_section section) λ first. and_then others λ last. ok (first ∷ last)

-- The exception classes that `_send` tells apart.
pub data Failure : Type 0 where
  window_closed unavailable domain_error any_other : Failure

-- A receipt, or an exception with the name of its class and its text.
pub data Answer : Type 0 where
  accepted : Text → ℕ → Answer
  raised : Failure → Text → Text → Answer

-- What `documents.read` gives at a path.
pub data Reading : Type 0 where
  content : Text → Reading
  unreadable : Failure → Text → Text → Reading

-- What a message needs: a call of the port, or nothing any more, since its file could not be read.
pub data Request : Type 0 where
  call_of : GatewayCall → Request
  read_failed : Failure → Text → Text → Request

-- The end of `_deliver`: the file is read before the other keys are looked up.
unfoldable pub deliver_document : (Value → Reading) → OutboxMessage → Value → Result Request
unfolding subscript get_item
deliver_document documents m payload = and_then (subscript (codes "path") payload) λ path.
    elim (documents path) [
      | unreadable failure name message ↦ ok (read_failed failure name message)
      | content bytes ↦ and_then (subscript (codes "filename") payload) λ filename.
          and_then (subscript (codes "content_type") payload) λ content_type. ok (
            call_of (
              send_attachment m.recipient bytes filename content_type
                (get_item (codes "caption") payload)))
    ]

-- `_deliver`, up to the call of the port
unfoldable pub deliver : (Value → Reading) → OutboxMessage → Value → Result Request
unfolding subscript list_sections deliver_document
deliver documents m payload = elim m.message_type [
  | text ↦
      and_then (subscript (codes "body") payload) λ body. ok (call_of (send_text m.recipient body))
  | template ↦ and_then (subscript (codes "name") payload) λ name.
      and_then (subscript (codes "params") payload)
        λ params. ok (call_of (send_template m.recipient name params))
  | interactive ↦ and_then (subscript (codes "body") payload) λ body.
      and_then (subscript (codes "sections") payload) λ raw. and_then (items raw) λ values.
        and_then (list_sections values)
          λ sections. ok (call_of (send_interactive_list m.recipient body sections))
  | document ↦ deliver_document documents m payload
]

pub data Sending : Type 0 where
  delivered : Text → ℕ → Sending
  rejected : Text → Bool → Sending

-- The `except` clauses of `_send`.
unfoldable pub classify : Answer → Sending
classify (accepted message_id conversation_id) = delivered message_id conversation_id
classify (raised window_closed name message) = rejected (name ++ codes ": " ++ message) true
classify (raised unavailable name message) = rejected (name ++ codes ": " ++ message) false
classify (raised domain_error name message) = rejected (name ++ codes ": " ++ message) false
classify (raised any_other name message) = rejected name false

-- The gateway is called unless the file could not be read.
abbrev pub ask : (GatewayCall → Answer) → Request → Answer
ask gateway (call_of call) = gateway call
ask gateway (read_failed failure name message) = raised failure name message

-- `_send`; `class_name` is the name of a class of Python.
unfoldable pub send :
    (Error → Text) → (Value → Reading) → (GatewayCall → Answer) → OutboxMessage → Sending
unfolding deliver classify
send class_name documents gateway m = elim m.payload [
  | none ↦ rejected (codes "El mensaje no tiene contenido para enviar") true
  | some payload ↦ elim (deliver documents m payload) [
    | ok request ↦ classify (ask gateway request)
    | err e ↦ rejected (class_name e) false
  ]
]
