-- ===== src/Execution/Engine/Bounds.antt =====
-- Bounds on what `VirtualMatchingEngine.execute` fills and at which price, of execution.py.
use paper_live.Base.{
  ◌≡◌, ◌≢◌, refl, inl, inr, Option, none, some, String, ok, >>=-eq-ok, subst, arith,
}
use paper_live.Base.Int.{pos, ◌≤ℤ◌, ◌<ℤ◌}
use paper_live.Base.Dict.{get, get-put_ne, string_eq}
use paper_live.Decimal
use paper_live.Decimal.{Decimal, whole}
use paper_live.Decimal.Laws.{
  mul-le, mul-le_signed, one-IsExact, le-mul, le-add, sub-le, divide_nonneg, sub_nonneg, IsExact,
}
use paper_live.Execution.Types.{OrderSide, PaperOrder, Fill}
use paper_live.Execution.Engine.{
  Engine, Charges, validate, limit_check, fill_quantity, fill_price, charges, settle, execute,
}
use paper_live.Execution.Engine.Account.{execute_inv, settle_buy, settle_writes}

-- What the guards leave: positive figures, and parameters in their ranges.
validate_inv :
    (order : PaperOrder) (market_price : Decimal) (e : Engine)
    → validate order market_price e ≡ ok tt
    → (pos 0 <ℤ order.quantity)
      × (pos 0 <ℤ market_price)
      × (pos 0 ≤ℤ e.slippage_bps)
      × (pos 0 <ℤ e.max_fill_ratio)
      × (e.max_fill_ratio ≤ℤ whole 1)
      × (limit_check order.side order.order_type order.limit_price market_price ≡ ok tt)
unfolding validate
validate_inv order market_price e h =
    (ground arith, ground arith, ground arith, ground arith, ground arith, ground arith)

-- The slippage is against the trader: a purchase is never priced below the market, and a sale
-- never above it.
fill_price_adverse :
    (side : OrderSide) (market_price : Decimal) (e : Engine) {p : Decimal}
    → IsExact market_price
    → pos 0 ≤ℤ market_price
    → pos 0 ≤ℤ e.slippage_bps
    → fill_price side market_price e ≡ ok p
    → (side ≡ OrderSide.buy → market_price ≤ℤ p) × (side ≡ OrderSide.sell → p ≤ℤ market_price)
unfolding fill_price
fill_price_adverse OrderSide.buy m e exact h k priced =
    let (slip, es, ep) = >>=-eq-ok (Decimal.divide e.slippage_bps (whole 10000)) _ priced in
    let up = divide_nonneg e.slippage_bps (whole 10000) k (omega arith) es in
    (
      λ _. ground (
        arith,
        le-mul m (Decimal.add (whole 1) slip) exact h
            (le-add (whole 1) slip one-IsExact (omega arith) up),
      ),
      λ no_sale. cc,
    )
fill_price_adverse OrderSide.sell m e exact h k priced =
    let (slip, es, ep) = >>=-eq-ok (Decimal.divide e.slippage_bps (whole 10000)) _ priced in
    let up = divide_nonneg e.slippage_bps (whole 10000) k (omega arith) es in
    (
      λ no_purchase. cc,
      λ _. ground (
        arith,
        mul-le_signed m (Decimal.sub (whole 1) slip) exact h
            (sub-le (whole 1) slip one-IsExact (omega arith) up),
      ),
    )

fill_quantity_bounds :
    (order : PaperOrder) (available : Option Decimal) (e : Engine)
    → IsExact order.quantity
    → pos 0 ≤ℤ order.quantity
    → pos 0 ≤ℤ e.max_fill_ratio
    → e.max_fill_ratio ≤ℤ whole 1
    → (fill_quantity order available e ≤ℤ order.quantity)
      × ((a : Decimal) → available ≡ some a → fill_quantity order available e ≤ℤ a)
unfolding fill_quantity
fill_quantity_bounds order none e exact h k le =
    (mul-le order.quantity e.max_fill_ratio exact h k le, λ a absent. cc)
fill_quantity_bounds order (some b) e exact h k le =
    (ground (arith, mul-le order.quantity e.max_fill_ratio exact h k le), λ a e'. ground arith)

charges_price :
    (side : OrderSide) (market_price q : Decimal) (e : Engine) {c : Charges}
    → charges side market_price q e ≡ ok c
    → fill_price side market_price e ≡ ok c.price
unfolding charges
charges_price side market_price q e h = ground arith

-- A call that returns never fills more than the order, nor more than what is available, and a
-- trade is priced against the trader: not below the market for a purchase, not above it for a sale.
pub execute_bounds :
    (order : PaperOrder) (market_price : Decimal) (available : Option Decimal) (e : Engine)
    {f : Fill} {e' : Engine}
    → IsExact order.quantity
    → IsExact market_price
    → execute order market_price available e ≡ ok (f, e')
    → (f.quantity ≤ℤ order.quantity)
      × (pos 0 <ℤ f.quantity → (a : Decimal) → available ≡ some a → f.quantity ≤ℤ a)
      × (order.side ≡ OrderSide.buy → market_price ≤ℤ f.price)
      × (order.side ≡ OrderSide.sell → f.price ≤ℤ market_price)
execute_bounds order market_price available e exact_q exact_p ran =
    let (passed, how) = execute_inv order market_price available e ran in
    let (qp, mp, sp, rp, rl, _) = validate_inv order market_price e passed in
    elim how [
      | inl (_, ef, _) ↦ (ground arith, ground arith, ground arith, ground arith)
      | inr (positive, t) ↦
          let (most, offered) =
            fill_quantity_bounds order available e exact_q (omega arith) (omega arith) rl in
          let priced = charges_price order.side market_price _ e t.charged_of in
          let (dear, cheap) =
            fill_price_adverse order.side market_price e exact_p (omega arith) sp priced in
          rw t.fill_of (most, λ _. offered, dear, cheap)
    ]

-- After a purchase that returns the cash is not negative, if it was not before.
pub execute-cash_nonneg :
    (order : PaperOrder) (market_price : Decimal) (available : Option Decimal) (e : Engine)
    {f : Fill} {e' : Engine}
    → order.side ≡ OrderSide.buy
    → pos 0 ≤ℤ e.account.cash
    → execute order market_price available e ≡ ok (f, e')
    → pos 0 ≤ℤ e'.account.cash
execute-cash_nonneg order market_price available e {f} {e'} bought h ran =
    elim (execute_inv order market_price available e ran).1 [
      | inl (_, _, same) ↦ rw same h
      | inr (_, t) ↦
          let paid =
            subst
              (λ side.
                settle side order.symbol (fill_quantity order available e) t.charged.gross
                  t.charged.fee t.charged.tax e.account
                ≡ ok e'.account)
              bought t.settled_of in
          let (covered, cash, _) =
            settle_buy order.symbol (fill_quantity order available e) t.charged.gross t.charged.fee
              t.charged.tax e.account paid in
          rw cash (sub_nonneg e.account.cash (Decimal.add t.charged.gross t.charged.fee) covered)
    ]

-- A call that returns writes to no position but that of the order's symbol, and leaves the rates,
-- the slippage and the fill ratio as they are.
pub execute_frame :
    (order : PaperOrder) (market_price : Decimal) (available : Option Decimal) (e : Engine)
    {f : Fill} {e' : Engine} (s : String)
    → order.symbol ≢ s
    → execute order market_price available e ≡ ok (f, e')
    → (get s e'.account.positions ≡ get s e.account.positions)
      × (e' ≡ record e { account = e'.account })
execute_frame order market_price available e {f} {e'} s other ran =
    elim (execute_inv order market_price available e ran).1 [
      | inl (_, _, same) ↦ (rw same refl, rw same refl)
      | inr (_, t) ↦
          let (x, written) =
            settle_writes order.side order.symbol (fill_quantity order available e) t.charged.gross
              t.charged.fee t.charged.tax e.account t.settled_of in
          (rw written (get-put_ne order.symbol s x e.account.positions other), t.engine_of)
    ]
