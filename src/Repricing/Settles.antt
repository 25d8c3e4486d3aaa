-- ===== src/Repricing/Settles.antt =====
-- What a new mobility amount makes of a quote that the engine priced.
use event_pro_backend.Prelude.{
  ℕ, ◌+◌, ◌-◌, ◌*◌, ◌==◌, ◌<◌, ◌≡◌, refl, ap, ◌∙◌, true, Bool-cases, inl, inr, if◌then◌else◌, some,
  List, [], ◌∷◌, ◌++◌, All, strip, has_text, arith, pos, pos_part,
}
use event_pro_backend.Method.{ok, err, validation}
use event_pro_backend.Money.{pen, money, money_eq, mul, sub, zero_pen}
use event_pro_backend.Money.Decimals.{Decimal, of_int}
use event_pro_backend.Money.Laws.{soles, add-soles, sub-soles, add_pos, sub_pos}
use event_pro_backend.Financial.Liquidations.{ExtraCharge, subtotal}
use event_pro_backend.Financial.Mobility.{MobilityTariff}
use event_pro_backend.Financial.Engine.{FinancialEngine, financial_engine}
use event_pro_backend.Financial.Settlement.{
  IsCharge, charges, subtotal-soles, advance_cents, settled, liquidate_settles,
}
use event_pro_backend.Quote.{
  Quote, QuoteExtraLine, quote_extra_line, is_open, add_lines, override_mobility,
}
use event_pro_backend.Quote.Lifecycle.{money_eq_sound}
use event_pro_backend.Advance.{find_quote, write_quote, get_for_update, save}
use event_pro_backend.Advance.Rows.{find_quote-id}
use event_pro_backend.Repricing.{
  Desk, OverrideInput, charges_of, reprice, record_log, override_quote_mobility,
}

abbrev pub charge : QuoteExtraLine → ExtraCharge
charge line = record { unit_price = line.unit_price; quantity = line.quantity }

unfoldable pub as_charges : List QuoteExtraLine → List ExtraCharge
as_charges [] = []
as_charges (line ∷ lines) = charge line ∷ as_charges lines

-- A line that the constructor accepts, in PEN.
abbrev pub IsLine : QuoteExtraLine → Type 0
IsLine line = (quote_extra_line line ≡ ok line) × IsCharge (charge line)

line-subtotal :
    (line : QuoteExtraLine)
    → IsLine line
    → line.subtotal ≡ soles (pos (pos_part line.unit_price.cents * pos_part line.quantity))
unfolding quote_extra_line subtotal
line-subtotal line (good, c) =
    let product = soles (pos (pos_part line.unit_price.cents * pos_part line.quantity)) in
    let made : mul line.unit_price (of_int line.quantity) ≡ ok product =
      subtotal-soles (charge line) c in
    elim (Bool-cases (money_eq line.subtotal product)) [
      | inl same ↦ money_eq_sound line.subtotal product same
      | inr differs ↦ ground (arith, good, made, differs)
    ]

add_lines-soles :
    (n : ℕ) (lines : List QuoteExtraLine)
    → All IsLine lines
    → add_lines (soles (pos n)) lines ≡ ok (soles (pos (n + charges (as_charges lines))))
unfolding add_lines charges as_charges
add_lines-soles n [] h = ground arith
add_lines-soles n (line ∷ lines) h =
    let k = pos_part line.unit_price.cents * pos_part line.quantity in
    rw (line-subtotal line h.0)
      (ground (arith, add-soles (pos n) (pos k), add_pos n k, add_lines-soles (n + k) lines h.1))

charges_of-lines :
    (lines : List QuoteExtraLine)
    → All IsLine lines
    → (charges_of lines ≡ ok (as_charges lines)) × All IsCharge (as_charges lines)
unfolding charges_of as_charges
charges_of-lines [] h = (refl, tt)
charges_of-lines (line ∷ lines) ((_, c), h) =
    let (rest, all) = charges_of-lines lines h in (ground (arith, c, rest), (c, all))

zero-soles : zero_pen ≡ soles (pos 0)
unfolding zero_pen
zero-soles = refl

reprice-settled :
    (t : MobilityTariff) (p : ℕ) (engine : FinancialEngine) (amount : Decimal) (q : Quote)
    (price m m' a : ℕ)
    → financial_engine t (pos p) ≡ ok engine
    → All IsLine q.extras
    → 0 < price
    → q.liquidation ≡ settled (price + charges (as_charges q.extras)) m a
    → money amount pen ≡ ok (soles (pos m'))
    → let n = price + charges (as_charges q.extras) in
      reprice engine amount q ≡ ok (settled n m' (advance_cents n p))
unfolding reprice
reprice-settled t p engine amount q price m m' a made lines positive before given =
    let k = charges (as_charges q.extras) in
    let start : 0 + k ≡ k = omega arith in
    let total : add_lines zero_pen q.extras ≡ ok (soles (pos k)) =
      rw zero-soles (add_lines-soles 0 q.extras lines ∙ ap (λ c. ok (soles (pos c))) start) in
    let services : q.liquidation.services_subtotal ≡ soles (pos (price + k)) =
      ap (λ l. l.services_subtotal) before in
    let (extras, all) = charges_of-lines q.extras lines in
    let less : price + k - k ≡ price = omega arith in
    let rest : sub (soles (pos (price + k))) (soles (pos k)) ≡ ok (soles (pos price)) =
      sub-soles (pos (price + k)) (pos k)
      ∙ (ap (λ c. ok (soles c)) (sub_pos (price + k) k (omega arith))
          ∙ ap (λ c. ok (soles (pos c))) less) in
    let priced =
      (liquidate_settles t p engine price m' (as_charges q.extras) made positive all).0 in
    ground (arith, total, services, rest, extras, given, priced)

abbrev pub repriced : OverrideInput → ℕ → ℕ → ℕ → Quote → Quote
repriced i n m a q = record q {
  liquidation = settled n m a;
  mobility_overridden = true;
  mobility_override_reason = some (strip i.reason);
}

abbrev pub with_entry : OverrideInput → Quote → Desk → Desk
with_entry i q d = record {
  ledger = record d.ledger { quotes = write_quote q d.ledger.quotes };
  log = d.log ++ (record { entity_id = q.id; user_id = i.decided_by_user_id } ∷ []);
}

-- A new mobility amount that is not negative, with a reason, for an open quote that an engine priced with
-- valid extras in PEN and a package above zero. If the percentage of the present engine gives the advance
-- of the quote, the call returns: the services and the advance are as before, the total and the balance add
-- the new amount, the quote is marked with the reason and is else as before, and the audit has one entry
-- more. If not, the call is refused with a validation error and writes nothing.
pub override_quote_mobility-settles :
    (t : MobilityTariff) (p : ℕ) (engine : FinancialEngine) (i : OverrideInput) (q : Quote)
    (price m m' a : ℕ) (d : Desk)
    → financial_engine t (pos p) ≡ ok engine
    → find_quote i.quote_id d.ledger.quotes ≡ some q
    → is_open q.status ≡ true
    → All IsLine q.extras
    → 0 < price
    → q.liquidation ≡ settled (price + charges (as_charges q.extras)) m a
    → has_text i.reason ≡ true
    → money i.manual_mobility_amount pen ≡ ok (soles (pos m'))
    → let n = price + charges (as_charges q.extras) in
      let changed = repriced i n m' a q in
      override_quote_mobility engine i d ≡ (
        if advance_cents n p == a
        then (ok changed, with_entry i changed d)
        else (err validation, d))
unfolding override_quote_mobility get_for_update override_mobility save record_log
override_quote_mobility-settles t p engine i q price m m' a d made row opened lines positive before
      reason given =
    let n = price + charges (as_charges q.extras) in
    let priced =
      reprice-settled t p engine i.manual_mobility_amount q price m m' a made lines positive before
        given in
    let advance : q.liquidation.advance_amount ≡ soles (pos a) =
      ap (λ l. l.advance_amount) before in
    let number : q.id ≡ i.quote_id = find_quote-id i.quote_id d.ledger.quotes q row in
    let own : find_quote q.id d.ledger.quotes ≡ some q =
      ap (λ id. find_quote id d.ledger.quotes) number ∙ row in
    elim (Bool-cases (advance_cents n p == a)) [
      | inl same ↦
          let equal : advance_cents n p ≡ a = ground arith in
          ground (arith, row, priced, opened, reason, advance, own, same, equal)
      | inr differs ↦ ground (arith, row, priced, opened, reason, advance, differs)
    ]
