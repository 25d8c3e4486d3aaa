-- ===== src/Clock.antt =====
-- Python's `datetime` as app/domain uses it, with `_require_aware`, which the entities share.
use event_pro_backend.Prelude.{ℕ, ◌+◌, ◌-◌, ◌*◌, ℤ, pos_part, neg_part, ltb, leb, if◌then◌else◌}
use event_pro_backend.Method.{Result, ok, err, validation, overflow_error}

-- Microseconds since `datetime.min`: of the wall clock if there is no time zone, and of UTC if
-- there is one, since the code converts an aware value by `astimezone(UTC)` before it keeps it.
pub data DateTime : Type 0 where
  naive : ℕ → DateTime
  aware : ℕ → DateTime

-- The first instant after `datetime.max` (9999-12-31T23:59:59.999999): 3652059 days.
abbrev pub end_of_time : ℕ
end_of_time = 315537897600000000

-- `timedelta(seconds=n)` in microseconds.
abbrev pub seconds : ℕ → ℕ
seconds n = n * 1000000

abbrev pub minutes : ℕ → ℕ
minutes n = n * 60000000

abbrev pub hours : ℕ → ℕ
hours n = n * 3600000000

-- `_require_aware`: the same function in outbox_message.py, quote.py and conversation_link.py.
unfoldable pub require_aware : DateTime → Result ℕ
require_aware (naive t) = err validation
require_aware (aware t) = ok t

-- `instant + timedelta`; Python raises `OverflowError` outside the range of `datetime`.
unfoldable pub add_delta : ℕ → ℤ → Result ℕ
add_delta t d =
    if leb (neg_part d) (t + pos_part d)
    then (if ltb (t + pos_part d - neg_part d) end_of_time
        then ok (t + pos_part d - neg_part d)
        else err overflow_error)
    else err overflow_error

-- `instant + timedelta` of a span that is not negative.
unfoldable pub later : ℕ → ℕ → Result ℕ
later t d = if ltb (t + d) end_of_time then ok (t + d) else err overflow_error
