-- ===== src/Phone/Canonical.antt =====
-- The canonical form of a telephone number.
use mathlib.Core.List.{reverse, reverse_aux, reverse-reverse}
use event_pro_backend.Prelude.{
  ℕ, ◌≡◌, refl, Bool, true, ◌&&◌, ◌||◌, ◌==◌, [], ◌∷◌, Text, strip, lstrip, arith,
}
use event_pro_backend.Method.{ok}
use event_pro_backend.Phone.{
  is_digit, plus_sign, all_digits, remove_separators, without_plus, matches_raw, matches_canonical,
  phone_number, parse_cleaned, parse,
}

-- A character of a number: a digit or the sign.
abbrev is_plain : ℕ → Bool
is_plain c = is_digit c || c == plus_sign

all_plain : Text → Bool
all_plain [] = true
all_plain (c ∷ s) = is_plain c && all_plain s

remove_separators-all_plain : (s : Text) → all_plain s ≡ true → remove_separators s ≡ s
unfolding all_plain remove_separators
remove_separators-all_plain [] h = refl
remove_separators-all_plain (c ∷ s) h = ground (arith, remove_separators-all_plain s)

lstrip-all_plain : (s : Text) → all_plain s ≡ true → lstrip s ≡ s
unfolding all_plain lstrip
lstrip-all_plain [] h = refl
lstrip-all_plain (c ∷ s) h = ground arith

reverse_aux-all_plain :
    (s t : Text) → all_plain s ≡ true → all_plain t ≡ true → all_plain (reverse_aux s t) ≡ true
unfolding all_plain
reverse_aux-all_plain [] t h k = k
reverse_aux-all_plain (c ∷ s) t h k = reverse_aux-all_plain s (c ∷ t) (ground arith) (ground arith)

strip-all_plain : (s : Text) → all_plain s ≡ true → strip s ≡ s
unfolding strip all_plain
strip-all_plain s h =
    let back = lstrip-all_plain (reverse s) (reverse_aux-all_plain s [] h refl) in
    rw (lstrip-all_plain s h, back) (reverse-reverse s)

all_digits-all_plain : (s : Text) → all_digits s ≡ true → all_plain s ≡ true
unfolding all_plain all_digits
all_digits-all_plain [] h = refl
all_digits-all_plain (c ∷ s) h = ground (arith, all_digits-all_plain s)

canonical-all_plain : (p : Text) → matches_canonical p ≡ true → all_plain p ≡ true
unfolding matches_canonical without_plus all_plain
canonical-all_plain [] h = refl
canonical-all_plain (c ∷ s) h =
    let digits : all_digits s ≡ true = ground arith in ground (arith, all_digits-all_plain s digits)

parse_cleaned-canonical : (p : Text) → matches_canonical p ≡ true → parse_cleaned p ≡ ok p
unfolding parse_cleaned matches_canonical matches_raw without_plus phone_number
parse_cleaned-canonical [] h = ground arith
parse_cleaned-canonical (c ∷ s) h = ground arith

canonical-parse_cleaned : (s p : Text) → parse_cleaned s ≡ ok p → matches_canonical p ≡ true
unfolding parse_cleaned phone_number
canonical-parse_cleaned s p h = ground arith

parse-canonical : (p : Text) → matches_canonical p ≡ true → parse p ≡ ok p
unfolding parse
parse-canonical p h =
    let plain = canonical-all_plain p h in
    rw (strip-all_plain p plain, remove_separators-all_plain p plain) (parse_cleaned-canonical p h)

-- What `parse` returns is a canonical number (a plus sign, and 10 to 15 digits of which the first is not zero),
-- and parsing it again, as a load from the database does, gives it back.
pub parse_idempotent :
    (raw p : Text) → parse raw ≡ ok p → (matches_canonical p ≡ true) × (parse p ≡ ok p)
unfolding parse
parse_idempotent raw p h =
    let canonical = canonical-parse_cleaned (remove_separators (strip raw)) p h in
    (canonical, parse-canonical p canonical)
