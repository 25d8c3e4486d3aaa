-- ===== src/Financial/Settlement.antt =====
-- What a liquidation adds up to (RN-01, RN-02).
use event_pro_backend.Prelude.{
  ℕ, ◌+◌, ◌-◌, ◌*◌, ◌/◌, ◌≤◌, ◌<◌, ◌≡◌, refl, true, List, [], ◌∷◌, All, arith, text_eq,
  text_eq_sound, ℤ, pos, pos_part,
}
use event_pro_backend.Method.{ok}
use event_pro_backend.Money.{Money, pen, money}
use event_pro_backend.Money.Decimals.{percent, times, of_int}
use event_pro_backend.Money.Laws.{soles, mul_pos, add_pos, sub_pos, add-soles, sub-soles, mul-soles}
use event_pro_backend.Financial.Liquidations.{
  ExtraCharge, extra_charge, subtotal, Liquidation, liquidation,
}
use event_pro_backend.Financial.Mobility.{MobilityTariff}
use event_pro_backend.Financial.Engine.{FinancialEngine, financial_engine, add_extras, liquidate}

-- An extra that the constructor accepts.
abbrev pub IsCharge : ExtraCharge → Type 0
IsCharge e = extra_charge e.unit_price e.quantity ≡ ok e

-- What the extras cost, in cents.
unfoldable pub charges : List ExtraCharge → ℕ
charges [] = 0
charges (e ∷ es) = pos_part e.unit_price.cents * pos_part e.quantity + charges es

pub soles_of : (m : Money) (c : ℤ) → m.cents ≡ c → text_eq m.currency pen ≡ true → m ≡ soles c
soles_of m c h e =
    let same : m.currency ≡ pen = text_eq_sound m.currency pen e in ground (arith, same)

pub IsCharge-parts :
    (e : ExtraCharge)
    → IsCharge e
    → (e.unit_price ≡ soles (pos (pos_part e.unit_price.cents)))
      × (e.quantity ≡ pos (pos_part e.quantity))
unfolding extra_charge
IsCharge-parts e h =
    let currency : text_eq e.unit_price.currency pen ≡ true = ground arith in
    let cents : e.unit_price.cents ≡ pos (pos_part e.unit_price.cents) = ground arith in
    (soles_of e.unit_price _ cents currency, ground arith)

pub subtotal-soles :
    (e : ExtraCharge)
    → IsCharge e
    → subtotal e ≡ ok (soles (pos (pos_part e.unit_price.cents * pos_part e.quantity)))
unfolding subtotal
subtotal-soles e h =
    let (price, quantity) = IsCharge-parts e h in rw (price, quantity) (simp (mul-soles, mul_pos))

pub add_extras-soles :
    (n : ℕ) (es : List ExtraCharge)
    → All IsCharge es
    → add_extras (soles (pos n)) es ≡ ok (soles (pos (n + charges es)))
unfolding add_extras charges
add_extras-soles n [] h = ground arith
add_extras-soles n (e ∷ es) h =
    let k = pos_part e.unit_price.cents * pos_part e.quantity in
    rw (subtotal-soles e h.0)
      (ground (arith, add-soles (pos n) (pos k), add_pos n k, add_extras-soles (n + k) es h.1))

-- The advance on services of `n` cents at `p` per cent, rounded half up.
abbrev pub advance_cents : ℕ → ℕ → ℕ
advance_cents n p = (2 * (n * p) + 100) / 200

advance-le : (n p : ℕ) → p ≤ 100 → advance_cents n p ≤ n
advance-le n p h = let product : n * p ≤ n * 100 = grind arith in omega arith

advance_money :
    (n p : ℕ)
    → money (percent (times (record { coefficient = pos n; scale = 2 }) (of_int (pos p)))) pen
      ≡ ok (soles (pos (advance_cents n p)))
unfolding money percent times
advance_money n p = rw mul_pos refl

abbrev pub settled : ℕ → ℕ → ℕ → Liquidation
settled n m a = record {
  services_subtotal = soles (pos n);
  mobility_amount = soles (pos m);
  total_amount = soles (pos (n + m));
  advance_amount = soles (pos a);
  pending_balance = soles (pos (n + m - a));
  balance_services = soles (pos (n - a));
  balance_mobility = soles (pos m);
}

liquidation-settled : (n m a : ℕ) → liquidation (settled n m a) ≡ ok (settled n m a)
unfolding liquidation
liquidation-settled n m a = ground arith

-- For a positive package price, extras that their constructor accepts and a mobility amount that
-- is not negative, all in PEN, `liquidate` returns a liquidation: the services are the package
-- and the extras, the total adds the mobility, the advance is the configured percentage of the
-- services alone, to the nearest cent and never above them, and what is left is split into
-- the services' part and the whole mobility, which add up to the pending balance, which with
-- the advance adds up to the total.
pub liquidate_settles :
    (t : MobilityTariff) (p : ℕ) (engine : FinancialEngine) (price mobility : ℕ)
    (es : List ExtraCharge)
    → financial_engine t (pos p) ≡ ok engine
    → 0 < price
    → All IsCharge es
    → let n = price + charges es in
      let a = advance_cents n p in
      (liquidate engine (soles (pos price)) es (soles (pos mobility)) ≡ ok (settled n mobility a))
      × (a ≤ n)
      × (200 * a ≤ 2 * (n * p) + 100)
      × (2 * (n * p) < 200 * a + 100)
      × ((n - a) + mobility ≡ n + mobility - a)
      × (a + (n + mobility - a) ≡ n + mobility)
unfolding financial_engine liquidate
liquidate_settles t p engine price mobility es h positive valid =
    let n = price + charges es in
    let a = advance_cents n p in
    let bound : p ≤ 100 = ground arith in
    let rate : engine.advance_percent ≡ pos p = ground arith in
    let below : a ≤ n = advance-le n p bound in
    (
      ground (
        arith,
        rate,
        add_extras-soles price es valid,
        advance_money n p,
        add-soles (pos n) (pos mobility),
        add_pos n mobility,
        sub-soles (pos (n + mobility)) (pos a),
        sub_pos (n + mobility) a (omega arith),
        sub-soles (pos n) (pos a),
        sub_pos n a below,
        liquidation-settled n mobility a,
      ),
      below,
      omega arith,
      omega arith,
      omega arith,
      omega arith,
    )
