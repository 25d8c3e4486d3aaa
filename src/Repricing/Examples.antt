-- ===== src/Repricing/Examples.antt =====
-- A new mobility amount for the quote of Quote/Examples, and the theorem at it.
use event_pro_backend.Prelude.{
  ◌+◌, ◌==◌, ◌≡◌, refl, some, [], ◌∷◌, codes, has_text, arith, pos, ◌*ℤ◌, if◌then◌else◌,
}
use event_pro_backend.Method.{ok, err, validation}
use event_pro_backend.Money.{pen, money, mul}
use event_pro_backend.Money.Laws.{soles}
use event_pro_backend.Financial.Liquidations.{extra_charge}
use event_pro_backend.Financial.Settlement.{charges, advance_cents, settled}
use event_pro_backend.Financial.Examples.{tariff, engine, engine-accepted}
use event_pro_backend.Quote.{quote_extra_line}
use event_pro_backend.Quote.Examples.{line, offer}
use event_pro_backend.Advance.{find_quote}
use event_pro_backend.Repricing.{Desk, OverrideInput, override_quote_mobility}
use event_pro_backend.Repricing.Settles.{
  IsLine, as_charges, repriced, with_entry, override_quote_mobility-settles,
}

abbrev desk : Desk
desk = record { ledger = record { quotes = offer ∷ []; payments = [] }; log = [] }

-- 55 soles, as the decimal 55.0
abbrev input : OverrideInput
input = record {
  quote_id = 9;
  manual_mobility_amount = record { coefficient = pos 550; scale = 1 };
  reason = codes "Peaje";
  decided_by_user_id = 2;
}

line-IsLine : IsLine line
unfolding quote_extra_line extra_charge mul ◌*ℤ◌
line-IsLine = (refl, refl)

rounded : money input.manual_mobility_amount pen ≡ ok (soles (pos 5500))
unfolding money ◌*ℤ◌
rounded = refl

offer-found : find_quote 9 desk.ledger.quotes ≡ some offer
unfolding find_quote
offer-found = refl

offer-settled : offer.liquidation ≡ settled (50000 + charges (as_charges offer.extras)) 4000 30000
unfolding charges as_charges
offer-settled = refl

override_quote_mobility-settles_example :
    let n = 50000 + charges (as_charges offer.extras) in
    let changed = repriced input n 5500 30000 offer in
    override_quote_mobility engine input desk ≡ (
      if advance_cents n 50 == 30000
      then (ok changed, with_entry input changed desk)
      else (err validation, desk))
unfolding has_text
override_quote_mobility-settles_example =
    override_quote_mobility-settles tariff 50 engine input offer 50000 4000 5500 30000 desk
      engine-accepted offer-found refl (line-IsLine, tt) (omega arith) offer-settled refl rounded

-- The engine gives the advance of the quote.
same_advance : advance_cents (50000 + charges (as_charges offer.extras)) 50 ≡ 30000
unfolding charges as_charges
same_advance = refl
