-- ===== src/Execution/Gateway/Settled.antt =====
-- How the gateway closes an order, and what it does with one that is closed, of execution.py.
use paper_live.Base.{
  ◌≡◌, ◌≢◌, refl, subst, ap, ◌∙◌, ◌⊎◌, inl, inr, true, false, ◌==◌, Option, none, some, String,
  Result, ok, err, is_ok, arith, eq_iff, Bool-cases, if◌then◌else◌,
}
use paper_live.Base.Int.{pos, negsuc, ◌+ℤ◌, ◌≤ℤ◌, ltb_ℤ, eqb_ℤ, eq_of_parts}
use paper_live.Base.Dict.{get, put, get-put_self, string_eq}
use paper_live.Base.Exec.{◌>>=◌, follow, attach, pure, lift, gets, zoom}
use paper_live.Decimal
use paper_live.Decimal.{Decimal, fit_ℤ}
use paper_live.Decimal.Laws.{IsExact}
use paper_live.Environment.{is_live, assert_skill_allowed}
use paper_live.OrderLifecycle
use paper_live.OrderLifecycle.{
  OrderRecord, OrderStatus, is_terminal, status_value, submit, fill_record,
}
use paper_live.Execution.Types.{OrderSide, side_value, PaperOrder, Fill}
use paper_live.Execution.Engine
use paper_live.Execution.Engine.{Engine, nothing_filled}
use paper_live.Execution.Gateway.{
  Gateway, with_paper, with_lifecycle, new_record, differs, run_paper, on_lifecycle, record_fill,
  run_order, begin, dispatch, resume, execute,
}

-- What the lifecycle holds of an order behind a first call that filled `quantity`.
abbrev pub settled : PaperOrder → Decimal → OrderRecord
settled order quantity =
    if ltb_ℤ (pos 0) quantity
    then fill_record (new_record order) quantity
    else record (new_record order) { status = OrderStatus.canceled }

record_fill-settled :
    (order : PaperOrder) (made : Fill) (g : Gateway) {f : Fill} {g' : Gateway}
    → get order.client_order_id g.lifecycle ≡ some (new_record order)
    → record_fill order made g ≡ (ok f, g')
    → get order.client_order_id g'.lifecycle ≡ some (settled order f.quantity)
unfolding record_fill on_lifecycle zoom ◌>>=◌ pure OrderLifecycle.fill OrderLifecycle.cancel
record_fill-settled order made g {f} {g'} known ran = ground (
  arith,
  known,
  ran,
  get-put_self order.client_order_id (fill_record (new_record order) made.quantity) g.lifecycle,
  get-put_self order.client_order_id (record (new_record order) { status = OrderStatus.canceled })
      g.lifecycle,
)

run_order-settled :
    (order : PaperOrder) (r : Result (Fill × Engine)) (g : Gateway) {f : Fill} {g' : Gateway}
    → get order.client_order_id g.lifecycle ≡ some (new_record order)
    → follow (attach with_paper g r) (λ made. record_fill order made) ≡ (ok f, g')
    → get order.client_order_id g'.lifecycle ≡ some (settled order f.quantity)
run_order-settled order (ok (made, e)) g known ran =
    record_fill-settled order made (with_paper g e) known ran
run_order-settled order (err x) g known ran = absurd (ground (arith, ran))

submit-fresh :
    (made : OrderRecord) (orders : OrderLifecycle.Orders)
    → get made.client_order_id orders ≡ none
    → submit made orders ≡ ok (made, put made.client_order_id made orders)
unfolding submit
submit-fresh made orders fresh = rw fresh refl

pub begin-settled :
    (order : PaperOrder) (price : Decimal) (available : Option Decimal) (g : Gateway) {f : Fill}
    {g' : Gateway}
    → get order.client_order_id g.lifecycle ≡ none
    → begin order price available g ≡ (ok f, g')
    → get order.client_order_id g'.lifecycle ≡ some (settled order f.quantity)
unfolding begin run_order run_paper on_lifecycle zoom ◌>>=◌
begin-settled order price available g {f} {g'} fresh ran =
    let submitted : Gateway =
      with_lifecycle g (put order.client_order_id (new_record order) g.lifecycle) in
    run_order-settled order (Engine.execute order price available g.paper) submitted
      (get-put_self order.client_order_id (new_record order) g.lifecycle)
      (subst
        (λ (q : Result (OrderRecord × OrderLifecycle.Orders)).
          follow (attach with_lifecycle g q) (λ _. run_order order order price available)
          ≡ (ok f, g'))
        (submit-fresh (new_record order) g.lifecycle fresh) ran)

-- The guards of `execute`.
pub record Admitted (client_order_id : String) (g : Gateway) : Type 0 where
  pub on_paper : is_live g.controller.mode ≡ false
  pub allowed : assert_skill_allowed "skill-virtual-matching-engine" g.controller ≡ ok tt
  pub named : (client_order_id == "") ≡ false

pub execute-Admitted :
    (order : PaperOrder) (price : Decimal) (available : Option Decimal) (g : Gateway) {f : Fill}
    {g' : Gateway}
    → execute order price available g ≡ (ok f, g')
    → Admitted order.client_order_id g
      × (dispatch order (get order.client_order_id g.lifecycle) price available g ≡ (ok f, g'))
unfolding execute ◌>>=◌ gets lift
execute-Admitted order price available g ran = (
  record {
    on_paper = ground (arith, ran);
    allowed = ground (arith, ran);
    named = ground (arith, ran);
  },
  ground (arith, ran),
)

pub execute-dispatch :
    (order : PaperOrder) (price : Decimal) (available : Option Decimal) (g : Gateway)
    → Admitted order.client_order_id g
    → execute order price available g
      ≡ dispatch order (get order.client_order_id g.lifecycle) price available g
unfolding execute ◌>>=◌ gets lift
execute-dispatch order price available g h = ground (arith, h.on_paper, h.allowed, h.named)

-- What `execute` does with an order whose id is known and closed, behind its guards.
pub resume-closed :
    (order : PaperOrder) (existing : OrderRecord) (price : Decimal) (available : Option Decimal)
    (g : Gateway)
    → is_terminal existing.status ≡ true
    → differs existing order ≡ false
    → resume order existing price available g
      ≡ (ok (nothing_filled order existing.filled_quantity price (status_value existing.status)), g)
unfolding resume ◌>>=◌ pure lift
resume-closed order existing price available g closed same = ground (arith, closed, same)

pub resume-refused :
    (order : PaperOrder) (existing : OrderRecord) (price : Decimal) (available : Option Decimal)
    (g : Gateway)
    → differs existing order ≡ true
    → (is_ok (resume order existing price available g).0 ≡ false)
      × ((resume order existing price available g).1 ≡ g)
unfolding resume ◌>>=◌ pure lift
resume-refused order existing price available g other =
    (ground (arith, other), ground (arith, other))

zero_plus : (a : Decimal) → pos 0 +ℤ a ≡ a
unfolding ◌+ℤ◌
zero_plus (pos n) = ground arith
zero_plus (negsuc n) = ground arith

add-zero : (a : Decimal) → IsExact a → Decimal.add (pos 0) a ≡ a
unfolding Decimal.add
add-zero a exact = ap fit_ℤ (zero_plus a) ∙ exact

eqb_ℤ_self : (a : Decimal) → eqb_ℤ a a ≡ true
eqb_ℤ_self a = ground arith

-- The order is closed by a first call that fills it whole, or not at all.
pub settled-closed :
    (order : PaperOrder) (quantity : Decimal)
    → IsExact order.quantity
    → (quantity ≡ order.quantity) ⊎ (quantity ≤ℤ pos 0)
    → is_terminal (settled order quantity).status ≡ true
settled-closed order quantity exact ends = elim (Bool-cases (ltb_ℤ (pos 0) quantity)) [
  | inl some_filled ↦ rw some_filled (elim ends [
    | inl all ↦ rw (all, add-zero order.quantity exact, eqb_ℤ_self order.quantity) refl
    | inr nothing ↦ absurd (ground (arith, some_filled, nothing))
  ])
  | inr none_filled ↦ rw none_filled (refl)
]

pub differs_self :
    (order : PaperOrder) (quantity : Decimal) → differs (settled order quantity) order ≡ false
differs_self order quantity = elim (Bool-cases (ltb_ℤ (pos 0) quantity)) [
  | inl some_filled ↦ rw some_filled (
      ground (
        arith,
        eq_iff order.symbol order.symbol,
        eq_iff (side_value order.side) (side_value order.side),
      ))
  | inr none_filled ↦ rw none_filled (
      ground (
        arith,
        eq_iff order.symbol order.symbol,
        eq_iff (side_value order.side) (side_value order.side),
      ))
]

side_value_differs : (a b : OrderSide) → b ≢ a → (side_value a == side_value b) ≡ false
side_value_differs OrderSide.buy OrderSide.buy apart = absurd (apart refl)
side_value_differs OrderSide.buy OrderSide.sell apart = refl
side_value_differs OrderSide.sell OrderSide.buy apart = refl
side_value_differs OrderSide.sell OrderSide.sell apart = absurd (apart refl)

pub differs_other :
    (order other : PaperOrder) (quantity : Decimal)
    → (other.symbol ≢ order.symbol)
      ⊎ ((other.side ≢ order.side) ⊎ (other.quantity ≢ order.quantity))
    → differs (settled order quantity) other ≡ true
differs_other order other quantity apart = elim (Bool-cases (ltb_ℤ (pos 0) quantity)) [
  | inl some_filled ↦ rw some_filled (
      ground (
        arith,
        apart,
        eq_iff order.symbol other.symbol,
        side_value_differs order.side other.side,
        eq_of_parts order.quantity other.quantity,
      ))
  | inr none_filled ↦ rw none_filled (
      ground (
        arith,
        apart,
        eq_iff order.symbol other.symbol,
        side_value_differs order.side other.side,
        eq_of_parts order.quantity other.quantity,
      ))
]

pub settled-answer :
    (order : PaperOrder) (quantity : Decimal)
    → IsExact order.quantity
    → (quantity ≡ order.quantity) ⊎ (quantity ≤ℤ pos 0)
    → ((settled order quantity).filled_quantity
        ≡ (if ltb_ℤ (pos 0) quantity then quantity else pos 0))
      × (status_value (settled order quantity).status
          ≡ (if ltb_ℤ (pos 0) quantity then "FILLED" else "CANCELED"))
settled-answer order quantity exact ends = elim (Bool-cases (ltb_ℤ (pos 0) quantity)) [
  | inl some_filled ↦ rw some_filled (elim ends [
    | inl all ↦ rw (all, add-zero order.quantity exact, eqb_ℤ_self order.quantity) (refl, refl)
    | inr nothing ↦ absurd (ground (arith, some_filled, nothing))
  ])
  | inr none_filled ↦ rw none_filled ((refl, refl))
]
