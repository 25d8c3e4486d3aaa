-- ===== src/Outbox/Schedule.antt =====
-- app/domain/value_objects/outbox.py: the states of a message and the waits between attempts.
use event_pro_backend.Prelude.{
  ℕ, ◌-◌, ◌==◌, min, Bool, true, false, ◌||◌, List, [], ◌∷◌, map, Option, none, some, length,
  get_elem?, ℤ, pos, leb_ℤ, if◌then◌else◌,
}
use event_pro_backend.Method.{Result, ok, err, validation, key_error}
use event_pro_backend.Clock.{seconds, minutes, hours}

pub data OutboxStatus : Type 0 where
  pending sent failed : OutboxStatus

pub data DeliveryStatus : Type 0 where
  delivered read rejected : DeliveryStatus

pub data MessageType : Type 0 where
  text template interactive document : MessageType

abbrev pub default_max_attempts : ℕ
default_max_attempts = 6

-- A `timedelta` is a signed number of microseconds.
pub record RetrySchedule : Type 0 where
  pub delays : List ℤ

unfoldable pub any_not_positive : List ℤ → Bool
any_not_positive [] = false
any_not_positive (d ∷ ds) = leb_ℤ d (pos 0) || any_not_positive ds

abbrev pub is_empty {ℓ} : {A : Type ℓ} → List A → Bool
is_empty [] = true
is_empty (x ∷ xs) = false

-- The constructor, with the check of `__post_init__`.
unfoldable pub retry_schedule : List ℤ → Result RetrySchedule
unfolding any_not_positive
retry_schedule delays =
    if is_empty delays || any_not_positive delays
    then err validation
    else ok (record { delays = delays })

-- A read past the end of a tuple raises; `delay_after` makes none on a schedule that was accepted.
abbrev pub or_key_error {ℓ} : {A : Type ℓ} → Option A → Result A
or_key_error none = err key_error
or_key_error (some a) = ok a

unfoldable pub delay_after : RetrySchedule → ℕ → Result ℤ
delay_after s failed_attempts =
    if failed_attempts == 0
    then err validation
    else or_key_error (get_elem? s.delays (min failed_attempts (length s.delays) - 1))

abbrev pub default_retry_schedule : RetrySchedule
default_retry_schedule = record {
  delays = map pos (seconds 30 ∷ minutes 2 ∷ minutes 10 ∷ minutes 30 ∷ hours 2 ∷ []);
}
