-- ===== src/Phone.antt =====
-- app/domain/value_objects/phone_number.py, over the code points of a text.
pub mod Canonical
mod Examples
use event_pro_backend.Prelude.{
  ℕ, ◌==◌, leb, Bool, true, false, not, ◌&&◌, ◌||◌, [], ◌∷◌, ◌++◌, Text, codes, length, strip,
  if◌then◌else◌,
}
use event_pro_backend.Method.{Result, ok, err, validation}

-- `0` to `9`: the class `[0-9]` of the patterns.
abbrev pub is_digit : ℕ → Bool
is_digit c = leb 48 c && leb c 57

abbrev pub plus_sign : ℕ
plus_sign = 43

unfoldable pub all_digits : Text → Bool
all_digits [] = true
all_digits (c ∷ s) = is_digit c && all_digits s

-- `_SEPARATORS.sub("", …)`: blanks and hyphens.
unfoldable pub remove_separators : Text → Text
remove_separators [] = []
remove_separators (c ∷ s) =
    let rest = remove_separators s in if c == 32 || c == 45 then rest else c ∷ rest

-- `removeprefix("+")`
unfoldable pub without_plus : Text → Text
without_plus [] = []
without_plus (c ∷ s) = if c == plus_sign then s else c ∷ s

abbrev pub has_plus : Text → Bool
has_plus [] = false
has_plus (c ∷ s) = c == plus_sign

-- `\+?[0-9]{9,15}`
unfoldable pub matches_raw : Text → Bool
unfolding all_digits without_plus
matches_raw s =
    all_digits (without_plus s)
    && leb 9 (length (without_plus s))
    && leb (length (without_plus s)) 15

abbrev pub starts_not_zero : Text → Bool
starts_not_zero [] = false
starts_not_zero (c ∷ s) = not (c == 48)

-- `\+[1-9][0-9]{9,14}`
unfoldable pub matches_canonical : Text → Bool
unfolding all_digits without_plus
matches_canonical s =
    has_plus s
    && starts_not_zero (without_plus s)
    && all_digits (without_plus s)
    && leb 10 (length (without_plus s))
    && leb (length (without_plus s)) 15

-- A `PhoneNumber` is its value; the constructor, with the check of `__post_init__`.
unfoldable pub phone_number : Text → Result Text
unfolding matches_canonical
phone_number value = if matches_canonical value then ok value else err validation

-- `digits.startswith("00")` and the rest after it
abbrev pub has_double_zero : Text → Bool
has_double_zero (a ∷ b ∷ s) = a == 48 && b == 48
has_double_zero _ = false

abbrev pub drop_two : Text → Text
drop_two (a ∷ b ∷ s) = s
drop_two s = s

-- `PhoneNumber.parse` after the separators are gone
unfoldable pub parse_cleaned : Text → Result Text
unfolding matches_raw without_plus phone_number
parse_cleaned cleaned =
    let digits = without_plus cleaned in
    if not (matches_raw cleaned)
    then err validation
    else if not (has_plus cleaned) && has_double_zero digits
    then (if leb 10 (length (drop_two digits)) && leb (length (drop_two digits)) 15
        then phone_number (plus_sign ∷ drop_two digits)
        else err validation)
    else if length digits == 9
    then phone_number (plus_sign ∷ codes "51" ++ digits)
    else phone_number (plus_sign ∷ digits)

unfoldable pub parse : Text → Result Text
unfolding parse_cleaned remove_separators
parse raw = parse_cleaned (remove_separators (strip raw))
