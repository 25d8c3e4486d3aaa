-- ===== src/Event/Terms.antt =====
-- The request of an extension against the extension that it becomes.
use native.Mathlib.Nat.{one-le-pow}
use event_pro_backend.Prelude.{
  ℕ, zero, suc, ◌*◌, ◌^◌, ◌≤◌, ◌<◌, ◌≡◌, refl, ap, true, false, Option, Text, ℤ, pos, negsuc,
  pos_part, ◌*ℤ◌, eqb_ℤ, leb_ℤ, ltb_ℤ, arith,
}
use event_pro_backend.Method.{ok}
use event_pro_backend.Clock.{aware}
use event_pro_backend.Money.{Money, money}
use event_pro_backend.Money.Decimals.{Decimal, quantize}
use event_pro_backend.Money.Laws.{soles}
use event_pro_backend.Event.Extension.{
  event_extension, validate_extra_minutes, validate_extension_amount, validate_extension_terms,
  fits_amount, has_two_decimals, max_amount,
}

cents-exact :
    (q c : ℤ) (t : ℕ)
    → ltb_ℤ (pos 0) c ≡ true
    → eqb_ℤ (q *ℤ pos t) (c *ℤ pos 100) ≡ true
    → (q ≡ pos (pos_part q)) × (pos_part q * t ≡ pos_part c * 100) × (0 < pos_part q)
unfolding ◌*ℤ◌
cents-exact (pos zero) (pos c) t h e = ground arith
cents-exact (pos (suc q)) (pos c) t h e = (refl, ground arith, omega arith)
cents-exact (negsuc q) (pos c) t h e = ground arith
cents-exact q (negsuc c) t h e = ground arith

cents-bounded : (q c t : ℕ) → 0 < t → q * t ≡ c * 100 → c * 100 ≤ 9999999999 * t → q ≤ 9999999999
cents-bounded q c t h e b = grind arith

bound_parts :
    (c : ℤ) (t : ℕ)
    → ltb_ℤ (pos 0) c ≡ true
    → leb_ℤ (c *ℤ pos 100) (max_amount *ℤ pos t) ≡ true
    → pos_part c * 100 ≤ 9999999999 * t
unfolding ◌*ℤ◌
bound_parts c t h b = ground arith

-- What the tests of the amount say of its cents.
fits-cents :
    (x : Decimal)
    → fits_amount x ≡ true
    → (quantize x ≡ pos (pos_part (quantize x)))
      × (pos_part (quantize x) * 10 ^ x.scale ≡ pos_part x.coefficient * 100)
      × (0 < pos_part (quantize x))
      × (pos_part (quantize x) ≤ 9999999999)
fits-cents x h =
    let positive : ltb_ℤ (pos 0) x.coefficient ≡ true = ground arith in
    let exact : has_two_decimals x ≡ true = ground arith in
    let below : leb_ℤ (x.coefficient *ℤ pos 100) (max_amount *ℤ pos (10 ^ x.scale)) ≡ true =
      ground arith in
    let (whole, same, some_cents) =
      cents-exact (quantize x) x.coefficient (10 ^ x.scale) positive exact in
    (
      whole,
      same,
      some_cents,
      cents-bounded _ _ (10 ^ x.scale) (one-le-pow x.scale 10 (omega arith)) same
          (bound_parts x.coefficient _ positive below),
    )

terms-parts :
    (minutes : ℤ) (x : Decimal) (reference : Option Text) (m : Money)
    → validate_extension_terms minutes x reference ≡ ok m
    → (fits_amount x ≡ true)
      × (validate_extra_minutes minutes false ≡ ok tt)
      × (m ≡ soles (quantize x))
unfolding validate_extension_terms money
terms-parts minutes x reference m h = (ground arith, ground arith, ground arith)

-- If the terms of a request are valid, the amount is the requested one to the cent, without rounding,
-- and the constructor of the extension accepts the minutes and the amount, for any ids and an
-- instant with a time zone.
pub terms_fit :
    (minutes : ℤ) (x : Decimal) (reference : Option Text) (m : Money) (id event payment at : ℕ)
    → validate_extension_terms minutes x reference ≡ ok m
    → (pos_part m.cents * 10 ^ x.scale ≡ pos_part x.coefficient * 100)
      × (event_extension id event payment minutes m (aware at)
          ≡ ok (record {
            id = id;
            event_id = event;
            payment_id = payment;
            extra_minutes = minutes;
            agreed_rate = m;
            requested_at = at;
          }))
unfolding event_extension validate_extension_amount
terms_fit minutes x reference m id event payment at h =
    let (fits, valid, exact) = terms-parts minutes x reference m h in
    let (whole, same, positive, below) = fits-cents x fits in
    let cents : m ≡ soles (pos (pos_part (quantize x))) = rw exact (ap soles whole) in
    rw cents (same, ground (arith, valid))
