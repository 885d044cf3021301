-- ===== src/Pnl/Tests.antt =====
-- Runs of the ledger, of pnl.py.
use paper_live.Base.{◌≡◌, refl, [], ◌∷◌, ok, after}
use paper_live.Base.Int.{pos, ◌+ℤ◌, ◌-ℤ◌}
use paper_live.Base.Dict.{get, put, string_eq}
use paper_live.Decimal.{whole, xor, add, sub, mul, divide, fit, fit_ℤ, excess, round_half_even}
use paper_live.Pnl.{Side, Position, Ledger, position, updated, apply_fill}
use paper_live.Decimal.Laws.{IsExact}
use paper_live.Pnl.Total.{IsUnrounded, Neutral, apply_fill-Neutral}
use paper_live.Pnl.Invariant.{AllLong, apply_fill-AllLong}

abbrev held : Position
held = record {
  symbol = "AAPL";
  quantity = whole 10;
  average_price = whole 100;
  realized_pnl = pos 0;
}

abbrev sold : Position
sold = record {
  symbol = "AAPL";
  quantity = whole 6;
  average_price = whole 100;
  realized_pnl = whole 80;
}

abbrev ledger : Ledger
ledger = ("AAPL", held) ∷ []

sale : apply_fill "AAPL" Side.sell (whole 4) (whole 120) ledger ≡ ok (sold, ("AAPL", sold) ∷ [])
unfolding apply_fill updated position add sub mul divide fit fit_ℤ excess round_half_even xor ◌+ℤ◌
    ◌-ℤ◌ get put
sale = refl

unrounded :
    IsUnrounded
      (position "AAPL" ledger).realized_pnl
      (sub (whole 120) (position "AAPL" ledger).average_price)
      (whole 4)
      (sub (position "AAPL" ledger).quantity (whole 4))
      (position "AAPL" ledger).quantity
unfolding position sub mul fit fit_ℤ excess round_half_even xor ◌+ℤ◌ ◌-ℤ◌ get
unrounded = record { profit = refl; sold_part = refl; left_part = refl; both = refl }

six_left : IsExact ((position "AAPL" ledger).quantity -ℤ whole 4)
unfolding position fit fit_ℤ excess round_half_even ◌-ℤ◌ get
six_left = refl

apply_fill-Neutral_example : Neutral "AAPL" (whole 4) (whole 120) ledger sold (("AAPL", sold) ∷ [])
apply_fill-Neutral_example =
    apply_fill-Neutral "AAPL" (whole 4) (whole 120) ledger sale six_left unrounded

empty-AllLong : AllLong []
unfolding get
empty-AllLong = record { at_symbol = λ s p e. cc }

apply_fill-AllLong_example :
    AllLong (after [] (apply_fill "AAPL" Side.buy (whole 4) (whole 120) []))
apply_fill-AllLong_example =
    apply_fill-AllLong "AAPL" Side.buy (whole 4) (whole 120) [] empty-AllLong
