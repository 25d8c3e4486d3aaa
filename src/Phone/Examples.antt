-- ===== src/Phone/Examples.antt =====
-- Telephone numbers, and the theorems at them.
use event_pro_backend.Prelude.{◌≡◌, refl, true, codes, strip}
use event_pro_backend.Method.{ok, err, validation}
use event_pro_backend.Phone.{parse, matches_canonical}
use event_pro_backend.Phone.Canonical.{parse_idempotent}

national : parse (codes "999 999-999") ≡ ok (codes "+51999999999")
unfolding parse strip
national = refl

international : parse (codes "0051999999999") ≡ ok (codes "+51999999999")
unfolding parse strip
international = refl

too_short : parse (codes "00999999999") ≡ err validation
unfolding parse strip
too_short = refl

parse_idempotent_example :
    (matches_canonical (codes "+51999999999") ≡ true)
    × (parse (codes "+51999999999") ≡ ok (codes "+51999999999"))
parse_idempotent_example = parse_idempotent (codes "999 999-999") (codes "+51999999999") national
