-- ===== src/Execution/Engine/Account.antt =====
-- What `VirtualMatchingEngine.execute` does to the account, of execution.py.
use paper_live.Base.{
  ◌≡◌, refl, ◌⊎◌, inl, inr, Option, none, some, String, Result, ok, err, after, after_keeps, arith,
  Bool-cases,
}
use paper_live.Base.Int.{pos, ◌≤ℤ◌, ◌<ℤ◌, leb_ℤ}
use paper_live.Base.Dict.{get, put, put_all, string_eq}
use paper_live.Decimal
use paper_live.Decimal.{Decimal, whole, cent, quantize_down}
use paper_live.Decimal.Laws.{add_nonneg, sub_nonneg}
use paper_live.Execution.Types.{OrderSide, PaperOrder, Fill, PaperAccount}
use paper_live.Execution.Engine.{
  Engine, Charges, charges, filled, validate, fill_quantity, held, settle, trade, execute,
  nothing_filled,
}

-- No position is short.
pub record NoShort (account : PaperAccount) : Type 0 where
  pub at_symbol : (s : String) (q : Decimal) → get s account.positions ≡ some q → pos 0 ≤ℤ q

held_nonneg : (s : String) (account : PaperAccount) → NoShort account → pos 0 ≤ℤ held s account
held_nonneg s account h = by_lookup (get s account.positions) refl
  where
    by_lookup :
        (o : Option Decimal)
        → get s account.positions ≡ o
        → pos 0 ≤ℤ elim o [ none ↦ pos 0 | some q ↦ q ]
    by_lookup none e = omega arith
    by_lookup (some q) e = h.at_symbol s q e

-- What a trade is made of: the charges, the settled account, and the fill that reports them.
pub record Traded (order : PaperOrder) (market_price q : Decimal) (e : Engine) (f : Fill)
    (e' : Engine) : Type 0 where
  pub charged : Charges
  pub charged_of : charges order.side market_price q e ≡ ok charged
  pub settled_of :
      settle order.side order.symbol q charged.gross charged.fee charged.tax e.account
      ≡ ok e'.account
  pub fill_of : f ≡ filled order q charged
  pub engine_of : e' ≡ record e { account = e'.account }

pub trade_inv :
    (order : PaperOrder) (market_price q : Decimal) (e : Engine) {f : Fill} {e' : Engine}
    → trade order market_price q e ≡ ok (f, e')
    → Traded order market_price q e f e'
unfolding trade
trade_inv order market_price q e {f} {e'} h = by_charges (charges order.side market_price q e) refl
  where
    by_account :
        (c : Charges)
        → charges order.side market_price q e ≡ ok c
        → (r : Result PaperAccount)
        → settle order.side order.symbol q c.gross c.fee c.tax e.account ≡ r
        → Traded order market_price q e f e'
    by_account c ec (err x) es = absurd (ground arith)
    by_account c ec (ok account) es = record {
      charged = c;
      charged_of = ec;
      settled_of = ground arith;
      fill_of = ground arith;
      engine_of = ground arith;
    }

    by_charges :
        (r : Result Charges)
        → charges order.side market_price q e ≡ r
        → Traded order market_price q e f e'
    by_charges (err x) ec = absurd (ground arith)
    by_charges (ok c) ec = by_account c ec _ refl

-- The new cash of a purchase is what the total leaves, and of a sale what is added; either way the
-- quantity moves in or out of the position, and no other position is touched.
pub settle_buy :
    (s : String) (q gross fee tax : Decimal) (a : PaperAccount) {a' : PaperAccount}
    → settle OrderSide.buy s q gross fee tax a ≡ ok a'
    → (Decimal.add gross fee ≤ℤ a.cash)
      × (a'.cash ≡ Decimal.sub a.cash (Decimal.add gross fee))
      × (a'.positions ≡ put s (Decimal.add (held s a) q) a.positions)
unfolding settle
settle_buy s q gross fee tax a h = (ground arith, ground arith, ground arith)

pub settle_sell :
    (s : String) (q gross fee tax : Decimal) (a : PaperAccount) {a' : PaperAccount}
    → settle OrderSide.sell s q gross fee tax a ≡ ok a'
    → (q ≤ℤ held s a)
      × (a'.cash ≡ Decimal.add a.cash (Decimal.sub (Decimal.sub gross fee) tax))
      × (a'.positions ≡ put s (Decimal.sub (held s a) q) a.positions)
unfolding settle
settle_sell s q gross fee tax a h = (ground arith, ground arith, ground arith)

-- Either way one position is written.
pub settle_writes :
    (side : OrderSide) (s : String) (q gross fee tax : Decimal) (a : PaperAccount)
    {a' : PaperAccount}
    → settle side s q gross fee tax a ≡ ok a'
    → (x : Decimal) × (a'.positions ≡ put s x a.positions)
settle_writes OrderSide.buy s q gross fee tax a h =
    (Decimal.add (held s a) q, (settle_buy s q gross fee tax a h).2)
settle_writes OrderSide.sell s q gross fee tax a h =
    (Decimal.sub (held s a) q, (settle_sell s q gross fee tax a h).2)

settle-NoShort :
    (side : OrderSide) (s : String) (q gross fee tax : Decimal) (a : PaperAccount)
    {a' : PaperAccount}
    → pos 0 ≤ℤ q
    → NoShort a
    → settle side s q gross fee tax a ≡ ok a'
    → NoShort a'
settle-NoShort OrderSide.buy s q gross fee tax a p h e =
    let (_, _, written) = settle_buy s q gross fee tax a e in
    record {
      at_symbol = rw written (
          put_all (λ _ x. pos 0 ≤ℤ x) s (Decimal.add (held s a) q) a.positions h.at_symbol
            (add_nonneg (held s a) q (held_nonneg s a h) p));
    }
settle-NoShort OrderSide.sell s q gross fee tax a p h e =
    let (covered, _, written) = settle_sell s q gross fee tax a e in
    record {
      at_symbol = rw written (
          put_all (λ _ x. pos 0 ≤ℤ x) s (Decimal.sub (held s a) q) a.positions h.at_symbol
            (sub_nonneg (held s a) q covered));
    }

-- A call that returns either fills nothing, and gives the engine back, or trades a positive
-- quantity after every guard has passed.
pub execute_inv :
    (order : PaperOrder) (market_price : Decimal) (available : Option Decimal) (e : Engine)
    {f : Fill} {e' : Engine}
    → execute order market_price available e ≡ ok (f, e')
    → (validate order market_price e ≡ ok tt)
      × (((fill_quantity order available e ≤ℤ pos 0)
            × (f ≡ nothing_filled order (pos 0) market_price "REJECTED")
            × (e' ≡ e))
          ⊎ ((pos 0 <ℤ fill_quantity order available e)
              × Traded order market_price (fill_quantity order available e) e f e'))
unfolding execute
execute_inv order market_price available e h =
    elim (Bool-cases (leb_ℤ (fill_quantity order available e) (pos 0))) [
      | inl nothing ↦ (ground arith, inl (ground arith, ground arith, ground arith))
      | inr some_part ↦ (
        ground arith,
        inr (
          ground arith,
          trade_inv order market_price (fill_quantity order available e) e (ground arith),
        ),
      )
    ]

-- Whatever the order, and whether the call returns or raises, no position becomes short.
pub execute-NoShort :
    (order : PaperOrder) (market_price : Decimal) (available : Option Decimal) (e : Engine)
    → NoShort e.account
    → NoShort (after e (execute order market_price available e)).account
execute-NoShort order market_price available e h =
    after_keeps (λ x. NoShort x.account) e (execute order market_price available e) h
      λ f e' ran. elim (execute_inv order market_price available e ran).1 [
        | inl (_, _, same) ↦ rw same h
        | inr (positive, t) ↦
            settle-NoShort order.side order.symbol (fill_quantity order available e) t.charged.gross
              t.charged.fee t.charged.tax e.account (omega arith) h t.settled_of
      ]
