-- ===== src/OrderLifecycle/Invariant.antt =====
-- What every stored order keeps, of order_lifecycle.py: its key, and 0 ≤ filled ≤ quantity with the
-- status that says so.
use paper_live.Base.{
  ◌≡◌, refl, ◌⊎◌, inl, inr, true, false, none, some, String, ok, after, after_keeps, arith,
  Bool-cases, Option-cases,
}
use paper_live.Base.Int.{pos, ◌≤ℤ◌, ◌<ℤ◌, eq_of_parts}
use paper_live.Base.Dict.{get, put, put_all, string_eq}
use paper_live.Decimal
use paper_live.Decimal.{Decimal}
use paper_live.Decimal.Laws.{add_nonneg}
use paper_live.OrderLifecycle.{
  OrderStatus, OrderRecord, Orders, submit, fill, fill_record, cancel, is_terminal,
}

pub record IsValid (r : OrderRecord) : Type 0 where
  pub nonneg : pos 0 ≤ℤ r.filled_quantity
  pub bounded : r.filled_quantity ≤ℤ r.quantity
  pub all_filled : r.status ≡ OrderStatus.filled → r.filled_quantity ≡ r.quantity
  pub some_left : r.status ≡ OrderStatus.partially_filled → r.filled_quantity <ℤ r.quantity
  pub untouched : r.status ≡ OrderStatus.new → r.filled_quantity ≡ pos 0

-- Each stored order is valid and stands under its own id.
pub record AllValid (orders : Orders) : Type 0 where
  pub at_id :
      (k : String) (r : OrderRecord) → get k orders ≡ some r → IsValid r × (r.client_order_id ≡ k)

put-AllValid :
    (k : String) (r : OrderRecord) (orders : Orders)
    → AllValid orders
    → IsValid r
    → r.client_order_id ≡ k
    → AllValid (put k r orders)
put-AllValid k r orders all valid own = record {
  at_id = put_all (λ j x. IsValid x × (x.client_order_id ≡ j)) k r orders all.at_id (valid, own);
}

-- Submitting gives back the order that is stored under the id, and stores only under a new id.
pub submit_inv :
    (order : OrderRecord) (orders : Orders) {r : OrderRecord} {orders' : Orders}
    → submit order orders ≡ ok (r, orders')
    → ((orders' ≡ orders) × (get order.client_order_id orders ≡ some r))
      ⊎ ((orders' ≡ put order.client_order_id order orders)
          × (r ≡ order)
          × (get order.client_order_id orders ≡ none))
unfolding submit
submit_inv order orders h = elim (Option-cases (get order.client_order_id orders)) [
  | inl unused ↦ inr (ground arith, ground arith, ground arith)
  | inr (old, e) ↦ inl (ground arith, ground arith)
]

-- A fill that goes through: a positive quantity that fits the order, added to what is filled, with
-- the status that says whether the order is full; the store changes under that id.
pub fill_inv :
    (k : String) (q : Decimal) (orders : Orders) {r' : OrderRecord} {orders' : Orders}
    → fill k q orders ≡ ok (r', orders')
    → (r : OrderRecord) × (get k orders ≡ some r)
      × (pos 0 <ℤ q)
      × (Decimal.add r.filled_quantity q ≤ℤ r.quantity)
      × (r' ≡ fill_record r q)
      × (orders' ≡ put k r' orders)
unfolding fill
fill_inv k q orders h = elim (Option-cases (get k orders)) [
  | inl unknown ↦ ground arith
  | inr (r, e) ↦ (r, e, ground arith, ground arith, ground arith, ground arith)
]

-- A cancellation that goes through: an open order becomes CANCELED, a closed one stays.
pub cancel_inv :
    (k : String) (orders : Orders) {r' : OrderRecord} {orders' : Orders}
    → cancel k orders ≡ ok (r', orders')
    → (r : OrderRecord) × (get k orders ≡ some r)
      × (((is_terminal r.status ≡ true) × (r' ≡ r) × (orders' ≡ orders))
          ⊎ ((is_terminal r.status ≡ false)
              × (r' ≡ record r { status = OrderStatus.canceled })
              × (orders' ≡ put k r' orders)))
unfolding cancel
cancel_inv k orders h = elim (Option-cases (get k orders)) [
  | inl unknown ↦ ground arith
  | inr (r, e) ↦ (
    r,
    e,
    elim (Bool-cases (is_terminal r.status)) [
      | inl closed ↦ inl (closed, ground arith, ground arith)
      | inr still_open ↦ inr (still_open, ground arith, ground arith)
    ],
  )
]

fill_record-IsValid :
    (r : OrderRecord) (q : Decimal)
    → IsValid r
    → pos 0 <ℤ q
    → Decimal.add r.filled_quantity q ≤ℤ r.quantity
    → IsValid (fill_record r q)
fill_record-IsValid r q valid positive fits = record {
  nonneg = add_nonneg r.filled_quantity q valid.nonneg (omega arith);
  bounded = fits;
  all_filled = λ h. eq_of_parts (Decimal.add r.filled_quantity q) r.quantity (ground arith);
  some_left = λ h. ground arith;
  untouched = λ h. ground arith;
}

-- Submitting a valid order keeps the store valid, whether the id is new or used.
pub submit-AllValid :
    (order : OrderRecord) (orders : Orders)
    → AllValid orders
    → IsValid order
    → AllValid (after orders (submit order orders))
submit-AllValid order orders all valid =
    after_keeps AllValid orders (submit order orders) all λ r s h.
      elim (submit_inv order orders h) [
        | inl (same, _) ↦ rw same all
        | inr (added, _, _) ↦
            rw added (put-AllValid order.client_order_id order orders all valid refl)
      ]

-- A fill keeps every stored order valid, whether it goes through or raises: each has
-- 0 ≤ filled ≤ quantity, a status that agrees with it, and its id as its key.
pub fill-AllValid :
    (k : String) (q : Decimal) (orders : Orders)
    → AllValid orders
    → AllValid (after orders (fill k q orders))
fill-AllValid k q orders all = after_keeps AllValid orders (fill k q orders) all λ r' s h.
    let (r, found, positive, fits, e, written) = fill_inv k q orders h in
    let (valid, own) = all.at_id k r found in
    rw (written, e)
      (put-AllValid k (fill_record r q) orders all (fill_record-IsValid r q valid positive fits)
        own)

canceled-IsValid :
    (r : OrderRecord) → IsValid r → IsValid (record r { status = OrderStatus.canceled })
canceled-IsValid r valid = record {
  nonneg = valid.nonneg;
  bounded = valid.bounded;
  all_filled = λ h. cc;
  some_left = λ h. cc;
  untouched = λ h. cc;
}

-- A cancellation keeps the store valid.
pub cancel-AllValid :
    (k : String) (orders : Orders) → AllValid orders → AllValid (after orders (cancel k orders))
cancel-AllValid k orders all = after_keeps AllValid orders (cancel k orders) all λ r' s h.
    let (r, found, how) = cancel_inv k orders h in
    let (valid, own) = all.at_id k r found in
    elim how [
      | inl (_, _, same) ↦ rw same all
      | inr (_, e, written) ↦
          rw (written, e)
            (put-AllValid k (record r { status = OrderStatus.canceled }) orders all
              (canceled-IsValid r valid) own)
    ]
