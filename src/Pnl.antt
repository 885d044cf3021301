-- ===== src/Pnl.antt =====
-- paper_live/pnl.py: the ledger of positions, with average prices and realized profit.
pub mod Invariant
pub mod Total
mod Tests
use paper_live.Base.{
  Bool, true, false, ◌||◌, Option, none, some, String, Result, Kind, ok, err, raise, raise_if,
  ◌>>=◌, ◌>>◌, if◌then◌else◌,
}
use paper_live.Base.Int.{pos, ltb_ℤ, leb_ℤ, eqb_ℤ}
use paper_live.Base.Dict.{Dict, get, put, string_eq}
use paper_live.Decimal
use paper_live.Decimal.{Decimal}

pub data Side : Type 0 where
  buy sell : Side

pub record Position : Type 0 where
  pub symbol : String
  pub quantity : Decimal
  pub average_price : Decimal
  pub realized_pnl : Decimal

-- `PortfolioLedger`: its `_positions`.
abbrev pub Ledger : Type 0
Ledger = Dict String Position

abbrev pub flat : String → Position
flat symbol = record {
  symbol = symbol;
  quantity = pos 0;
  average_price = pos 0;
  realized_pnl = pos 0;
}

abbrev or_flat : String → Option Position → Position
or_flat symbol none = flat symbol
or_flat symbol (some p) = p

unfoldable pub position : String → Ledger → Position
position symbol ledger = or_flat symbol (get symbol ledger)

unfoldable pub updated : String → Side → Decimal → Decimal → Position → Result Position
updated symbol Side.buy quantity price current = do
  let total_cost =
      Decimal.add (Decimal.mul current.average_price current.quantity) (Decimal.mul price quantity)
  let new_qty = Decimal.add current.quantity quantity
  avg ← Decimal.divide total_cost new_qty
  ok (record {
    symbol = symbol;
    quantity = new_qty;
    average_price = avg;
    realized_pnl = current.realized_pnl;
  })
updated symbol Side.sell quantity price current = do
  raise_if (ltb_ℤ current.quantity quantity) Kind.value_error "sell quantity exceeds position"
  let realized =
      Decimal.add current.realized_pnl
        (Decimal.mul (Decimal.sub price current.average_price) quantity)
  let new_qty = Decimal.sub current.quantity quantity
  ok (record {
    symbol = symbol;
    quantity = new_qty;
    average_price = if eqb_ℤ new_qty (pos 0) then pos 0 else current.average_price;
    realized_pnl = realized;
  })

unfoldable pub apply_fill : String → Side → Decimal → Decimal → Ledger → Result (Position × Ledger)
unfolding position updated
apply_fill symbol side quantity price ledger = do
  raise_if (leb_ℤ quantity (pos 0) || leb_ℤ price (pos 0)) Kind.value_error
      "quantity and price must be positive"
  after ← updated symbol side quantity price (position symbol ledger)
  ok (after, put symbol after ledger)

unfoldable pub unrealized_pnl : String → Decimal → Ledger → Result Decimal
unrealized_pnl symbol mark_price ledger = do
  let p = position symbol ledger
  raise_if (leb_ℤ mark_price (pos 0)) Kind.value_error "mark_price must be positive"
  ok (Decimal.mul (Decimal.sub mark_price p.average_price) p.quantity)

unfoldable pub total_pnl : String → Decimal → Ledger → Result Decimal
total_pnl symbol mark_price ledger = do
  unrealized ← unrealized_pnl symbol mark_price ledger
  ok (Decimal.add (position symbol ledger).realized_pnl unrealized)
