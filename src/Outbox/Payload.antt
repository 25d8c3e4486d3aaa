-- ===== src/Outbox/Payload.antt =====
-- `validate_payload` of app/domain/entities/outbox_message.py, over values of any Python type.
use event_pro_backend.Prelude.{
  ℕ, Bool, true, false, ◌&&◌, Text, codes, text_eq, has_text, if◌then◌else◌,
}
use event_pro_backend.Method.{Result, ok, err, and_then, validation}
use event_pro_backend.Outbox.Schedule.{MessageType, text, template, interactive, document}

-- A value as JSON and Python give it. `other` is a value of any other type.
mutual
  pub data Value : Type 0 where
    null : Value
    number : ℕ → Value
    str : Text → Value
    array : Items → Value
    object : Fields → Value
    other : ℕ → Value

  pub data Items : Type 0 where
    nil : Items
    cons : Value → Items → Items

  -- a `dict`, in insertion order; a key may be any value
  pub data Fields : Type 0 where
    end : Fields
    field : Value → Value → Fields → Fields

-- The check of a value yields nothing.
abbrev pub Check : Type 0
Check = Result (Unit {0})

abbrev pub is_key : Text → Value → Bool
is_key k (str s) = text_eq k s
is_key k _ = false

-- `payload.get(key)`: `None` for a key that is missing.
unfoldable pub get : Text → Fields → Value
get k end = null
get k (field key value rest) = if is_key k key then value else get k rest

-- `_text`
unfoldable pub check_text : Value → Check
unfolding has_text
check_text (str s) = if has_text s then ok tt else err validation
check_text _ = err validation

-- `_optional_text`
unfoldable pub check_optional_text : Value → Check
unfolding check_text
check_optional_text null = ok tt
check_optional_text v = check_text v

abbrev pub is_str : Value → Bool
is_str (str s) = true
is_str _ = false

unfoldable pub check_text_fields : Fields → Check
check_text_fields end = ok tt
check_text_fields (field key item rest) =
    let others = check_text_fields rest in
    if is_str key && is_str item then others else err validation

-- `_validate_params`
unfoldable pub validate_params : Value → Check
unfolding check_text_fields
validate_params (object fs) = check_text_fields fs
validate_params _ = err validation

unfoldable pub check_row : Value → Check
unfolding check_text check_optional_text get
check_row (object row) = and_then (check_text (get (codes "id") row)) λ _.
    and_then (check_text (get (codes "title") row))
      λ _. check_optional_text (get (codes "description") row)
check_row _ = err validation

unfoldable pub check_rows : Items → Check
unfolding check_row
check_rows nil = ok tt
check_rows (cons row rest) = let others = check_rows rest in and_then (check_row row) λ _. others

-- The `rows` of a section: a list that is not empty.
unfoldable pub check_row_list : Value → Check
unfolding check_rows
check_row_list (array (cons row rest)) = check_rows (cons row rest)
check_row_list _ = err validation

unfoldable pub check_section : Value → Check
unfolding check_text check_row_list get
check_section (object section) =
    and_then (check_text (get (codes "title") section))
      λ _. check_row_list (get (codes "rows") section)
check_section _ = err validation

unfoldable pub check_sections : Items → Check
unfolding check_section
check_sections nil = ok tt
check_sections (cons section rest) =
    let others = check_sections rest in and_then (check_section section) λ _. others

-- `_validate_sections`
unfoldable pub validate_sections : Value → Check
unfolding check_sections
validate_sections (array (cons section rest)) = check_sections (cons section rest)
validate_sections _ = err validation

unfoldable pub check_fields : MessageType → Fields → Check
unfolding check_text check_optional_text validate_params validate_sections get
check_fields text p = check_text (get (codes "body") p)
check_fields template p =
    and_then (check_text (get (codes "name") p)) λ _. validate_params (get (codes "params") p)
check_fields interactive p =
    and_then (check_text (get (codes "body") p)) λ _. validate_sections (get (codes "sections") p)
check_fields document p = and_then (check_text (get (codes "path") p)) λ _.
    and_then (check_text (get (codes "filename") p)) λ _.
      and_then (check_text (get (codes "content_type") p))
        λ _. check_optional_text (get (codes "caption") p)

-- The copy that is returned is the same value.
unfoldable pub validate_payload : MessageType → Value → Result Value
unfolding check_fields
validate_payload t (object p) = and_then (check_fields t p) λ _. ok (object p)
validate_payload t _ = err validation
