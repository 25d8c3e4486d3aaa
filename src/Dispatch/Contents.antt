-- ===== src/Dispatch/Contents.antt =====
-- The checks of `validate_payload` against what `_deliver` and `_sections` read.
use event_pro_backend.Prelude.{◌≡◌, refl, Bool, true, false, Text, codes, List, arith}
use event_pro_backend.Method.{Result, ok, err, and_then, validation}
use event_pro_backend.Outbox.Payload.{
  Check, Value, null, number, str, other, object, array, Items, nil, cons, Fields, end, field, get,
  check_text, check_row, check_rows, check_row_list, check_section, check_sections,
  validate_sections,
}
use event_pro_backend.Dispatch.Gateway.{
  ListRow, ListSection, look_up, subscript, list_row, list_rows, items, list_section, list_sections,
}

abbrev pub is_ok {ℓ} : {A : Type ℓ} → Result A → Bool
is_ok (ok a) = true
is_ok (err e) = false

-- A key whose value passed a check that `None` does not pass is there.
pub look_up-get :
    (check : Value → Check) (k : Text) (fields : Fields)
    → check null ≡ err validation
    → check (get k fields) ≡ ok tt
    → look_up k fields ≡ ok (get k fields)
unfolding look_up get
look_up-get check k end bad h = ground (arith, bad, h)
look_up-get check k (field key value rest) bad h = ground (arith, look_up-get check k rest bad)

row-parts :
    (fields : Fields)
    → check_row (object fields) ≡ ok tt
    → (check_text (get (codes "id") fields) ≡ ok tt)
      × (check_text (get (codes "title") fields) ≡ ok tt)
unfolding check_row
row-parts fields h = ground arith

list_row-check_row : (row : Value) → check_row row ≡ ok tt → is_ok (list_row row) ≡ true
unfolding list_row subscript check_text check_row
list_row-check_row (object fields) h =
    let (a, b) = row-parts fields h in
    let id = look_up-get check_text (codes "id") fields refl a in
    let title = look_up-get check_text (codes "title") fields refl b in ground (arith, id, title)
list_row-check_row null h = ground arith
list_row-check_row (number n) h = ground arith
list_row-check_row (str s) h = ground arith
list_row-check_row (array xs) h = ground arith
list_row-check_row (other n) h = ground arith

pub list_rows-check_rows : (rows : Items) → check_rows rows ≡ ok tt → is_ok (list_rows rows) ≡ true
unfolding list_rows check_rows
list_rows-check_rows nil h = ground arith
list_rows-check_rows (cons row rest) h =
    ground (arith, list_row-check_row row, list_rows-check_rows rest)

section-parts :
    (fields : Fields)
    → check_section (object fields) ≡ ok tt
    → (check_text (get (codes "title") fields) ≡ ok tt)
      × (check_row_list (get (codes "rows") fields) ≡ ok tt)
unfolding check_section
section-parts fields h = ground arith

unfoldable pub rows_in : Value → Result (List ListRow)
rows_in v = and_then (items v) list_rows

rows_in-check_row_list : (v : Value) → check_row_list v ≡ ok tt → is_ok (rows_in v) ≡ true
unfolding check_row_list rows_in
rows_in-check_row_list (array (cons row rest)) h = list_rows-check_rows (cons row rest) h
rows_in-check_row_list (array nil) h = ground arith
rows_in-check_row_list null h = ground arith
rows_in-check_row_list (number n) h = ground arith
rows_in-check_row_list (str s) h = ground arith
rows_in-check_row_list (object fs) h = ground arith
rows_in-check_row_list (other n) h = ground arith

list_section-check_section :
    (section : Value) → check_section section ≡ ok tt → is_ok (list_section section) ≡ true
unfolding list_section subscript check_text check_row_list check_section rows_in
list_section-check_section (object fields) h =
    let (a, b) = section-parts fields h in
    let title = look_up-get check_text (codes "title") fields refl a in
    let found = look_up-get check_row_list (codes "rows") fields refl b in
    ground (arith, title, found, rows_in-check_row_list (get (codes "rows") fields) b)
list_section-check_section null h = ground arith
list_section-check_section (number n) h = ground arith
list_section-check_section (str s) h = ground arith
list_section-check_section (array xs) h = ground arith
list_section-check_section (other n) h = ground arith

list_sections-check_sections :
    (sections : Items) → check_sections sections ≡ ok tt → is_ok (list_sections sections) ≡ true
unfolding list_sections check_sections
list_sections-check_sections nil h = ground arith
list_sections-check_sections (cons section rest) h =
    ground (arith, list_section-check_section section, list_sections-check_sections rest)

unfoldable pub sections_in : Value → Result (List ListSection)
sections_in v = and_then (items v) list_sections

pub sections_in-validate_sections :
    (v : Value) → validate_sections v ≡ ok tt → is_ok (sections_in v) ≡ true
unfolding validate_sections sections_in
sections_in-validate_sections (array (cons section rest)) h =
    list_sections-check_sections (cons section rest) h
sections_in-validate_sections (array nil) h = ground arith
sections_in-validate_sections null h = ground arith
sections_in-validate_sections (number n) h = ground arith
sections_in-validate_sections (str s) h = ground arith
sections_in-validate_sections (object fs) h = ground arith
sections_in-validate_sections (other n) h = ground arith
