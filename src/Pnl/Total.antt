-- ===== src/Pnl/Total.antt =====
-- A sale turns unrealized into realized profit and leaves their sum alone, of pnl.py.
use paper_live.Base.{
  ℕ, zero, suc, ◌+◌, ◌*◌, ◌≡◌, ◌≢◌, refl, sym, subst, ap, ◌∙◌, Bool, true, false, String, some, ok,
  arith,
}
use paper_live.Base.Int.{
  ℤ, pos, negsuc, nat_abs, is_neg, with_sign, ◌+ℤ◌, ◌-ℤ◌, ◌≤ℤ◌, ◌<ℤ◌, eq_of_parts, int_laws,
}
use paper_live.Base.Dict.{get, get-put_self, get-put_ne, string_eq}
use paper_live.Decimal
use paper_live.Decimal.{Decimal, fit, fit_ℤ, unit, xor}
use paper_live.Decimal.Laws.{IsExact, sub_exact, sub_nonneg}
use paper_live.Pnl.{
  Side, Position, Ledger, position, updated, apply_fill, unrealized_pnl, total_pnl,
}
use paper_live.Pnl.Invariant.{apply_fill_inv}

-- The product of two figures is not rounded.
abbrev pub IsExactProduct : Decimal → Decimal → Type 0
IsExactProduct a b = fit (nat_abs a * nat_abs b) unit * unit ≡ nat_abs a * nat_abs b

with_sign_plus : (s : Bool) (m n : ℕ) → with_sign s m +ℤ with_sign s n ≡ with_sign s (m + n)
unfolding ◌+ℤ◌
with_sign_plus true m n = ground arith
with_sign_plus false m n = ground arith

unit_cancel : (x y z a b c : ℕ) → x * unit ≡ a → y * unit ≡ b → z * unit ≡ c → a + b ≡ c → x + y ≡ z
unit_cancel x y z a b c p q r e = omega arith

distrib : (a b c : ℕ) → a * b + a * c ≡ a * (b + c)
distrib a b c = ground arith

-- Products that are not rounded add up.
mul_split :
    (a : Decimal) (b c : ℕ)
    → IsExactProduct a (pos b)
    → IsExactProduct a (pos c)
    → IsExactProduct a (pos (b + c))
    → Decimal.mul a (pos b) +ℤ Decimal.mul a (pos c) ≡ Decimal.mul a (pos (b + c))
unfolding Decimal.mul
mul_split a b c eb ec ebc =
    with_sign_plus (xor (is_neg a) false) (fit (nat_abs a * b) unit) (fit (nat_abs a * c) unit)
    ∙ ap (with_sign (xor (is_neg a) false))
        (unit_cancel _ _ (fit (nat_abs a * (b + c)) unit) _ _ _ eb ec ebc (distrib (nat_abs a) b c))

mul_by_zero : (n : ℕ) → n * 0 ≡ 0
mul_by_zero n = omega arith

mul-zero : (a : Decimal) → Decimal.mul a (pos 0) ≡ pos 0
unfolding Decimal.mul fit xor Decimal.excess Decimal.round_half_even
mul-zero (pos n) = rw (mul_by_zero n) refl
mul-zero (negsuc n) = rw (mul_by_zero (suc n)) refl

plus_assoc : (a b c : ℤ) → (a +ℤ b) +ℤ c ≡ a +ℤ (b +ℤ c)
plus_assoc a b c = eq_of_parts _ _ (omega int_laws)

plus_zero : (a : ℤ) → a +ℤ pos 0 ≡ a
plus_zero a = eq_of_parts _ _ (omega int_laws)

pos_plus : (a b : ℕ) → pos a +ℤ pos b ≡ pos (b + a)
pos_plus a b = eq_of_parts _ _ (omega int_laws)

-- The figures of a sale that must have at most 28 digits: what is left, the realized profit, and the
-- products of the margin with the quantities.
pub record IsUnrounded (realized margin sold left quantity : Decimal) : Type 0 where
  pub profit : IsExact (realized +ℤ Decimal.mul margin sold)
  pub sold_part : IsExactProduct margin sold
  pub left_part : IsExactProduct margin left
  pub both : IsExactProduct margin quantity

-- The profit on a quantity is that on what is sold of it and that on what is left.
profit_split :
    (realized margin margin' : Decimal) (m : ℕ) (left quantity : Decimal)
    → pos 0 ≤ℤ left
    → left +ℤ pos m ≡ quantity
    → (left ≢ pos 0 → margin' ≡ margin)
    → IsUnrounded realized margin (pos m) left quantity
    → Decimal.add (Decimal.add realized (Decimal.mul margin (pos m))) (Decimal.mul margin' left)
      ≡ Decimal.add realized (Decimal.mul margin quantity)
unfolding Decimal.add
profit_split realized margin margin' m (negsuc k) quantity h e same u = absurd (omega arith)
profit_split realized margin margin' m (pos zero) quantity h e same u =
    let none_left : pos m ≡ pos zero +ℤ pos m = eq_of_parts _ _ (omega int_laws) in
    let all : pos m ≡ quantity = none_left ∙ e in
    let x : ℤ = realized +ℤ Decimal.mul margin (pos m) in
    ap (λ z. fit_ℤ (fit_ℤ x +ℤ z)) (mul-zero margin')
    ∙ ap fit_ℤ (plus_zero (fit_ℤ x) ∙ u.profit)
    ∙ ap (λ q. fit_ℤ (realized +ℤ Decimal.mul margin q)) all
profit_split realized margin margin' m (pos (suc k)) quantity h e same u =
    let all : pos (m + suc k) ≡ quantity = sym (pos_plus (suc k) m) ∙ e in
    let kept : margin' ≡ margin = same (λ z. ground (arith, z)) in
    let x = Decimal.mul margin (pos m) in
    let y = Decimal.mul margin (pos (suc k)) in
    ap (λ d. fit_ℤ (fit_ℤ (realized +ℤ x) +ℤ Decimal.mul d (pos (suc k)))) kept
    ∙ ap (λ z. fit_ℤ (z +ℤ y)) u.profit
    ∙ ap fit_ℤ (plus_assoc realized x y)
    ∙ ap (λ z. fit_ℤ (realized +ℤ z))
        (mul_split margin m (suc k) u.sold_part u.left_part
          (subst (λ q. IsExactProduct margin q) (sym all) u.both))
    ∙ ap (λ q. fit_ℤ (realized +ℤ Decimal.mul margin q)) all

-- What a sale makes of a position.
record Sold (old : Position) (q price : Decimal) (p : Position) : Type 0 where
  covered : q ≤ℤ old.quantity
  left : p.quantity ≡ Decimal.sub old.quantity q
  kept : p.quantity ≢ pos 0 → p.average_price ≡ old.average_price
  realized :
      p.realized_pnl
      ≡ Decimal.add old.realized_pnl (Decimal.mul (Decimal.sub price old.average_price) q)

updated-Sold :
    (s : String) (q price : Decimal) (old : Position) {p : Position}
    → updated s Side.sell q price old ≡ ok p
    → Sold old q price p
unfolding updated
updated-Sold s q price old h = record {
  covered = ground arith;
  left = ground arith;
  kept = λ n. ground (arith, eq_of_parts (Decimal.sub old.quantity q) (pos 0));
  realized = ground arith;
}

total_pnl-known :
    (s : String) (mark : Decimal) (ledger : Ledger)
    → pos 0 <ℤ mark
    → total_pnl s mark ledger
      ≡ ok (
          Decimal.add (position s ledger).realized_pnl (
            Decimal.mul
              (Decimal.sub mark (position s ledger).average_price)
              (position s ledger).quantity))
unfolding total_pnl unrealized_pnl
total_pnl-known s mark ledger positive = ground (arith, positive)

-- What a sale at the mark price does to the ledger.
pub record Neutral (s : String) (q price : Decimal) (ledger : Ledger) (p : Position) (l' : Ledger)
    : Type 0 where
  pub stored : get s l' ≡ some p
  pub others : (k : String) → s ≢ k → get k l' ≡ get k ledger
  pub covered : q ≤ℤ (position s ledger).quantity
  pub quantity : p.quantity +ℤ q ≡ (position s ledger).quantity
  pub total : total_pnl s price l' ≡ total_pnl s price ledger

margin_total :
    (s : String) (q price : Decimal) (old p : Position)
    → pos 0 <ℤ q
    → Sold old q price p
    → IsExact (old.quantity -ℤ q)
    → IsUnrounded old.realized_pnl
        (Decimal.sub price old.average_price)
        q
        (Decimal.sub old.quantity q)
        old.quantity
    → Decimal.add p.realized_pnl (Decimal.mul (Decimal.sub price p.average_price) p.quantity)
      ≡ Decimal.add old.realized_pnl
          (Decimal.mul (Decimal.sub price old.average_price) old.quantity)
margin_total s (negsuc q) price old p positive sold exact u = absurd (omega arith)
margin_total s (pos q) price old p positive sold exact u =
    let margin = Decimal.sub price old.average_price in
    let margin' = Decimal.sub price p.average_price in
    let left = Decimal.sub old.quantity (pos q) in
    ap (λ r. Decimal.add r (Decimal.mul margin' p.quantity)) sold.realized
    ∙ ap
        (λ z.
          Decimal.add (Decimal.add old.realized_pnl (Decimal.mul margin (pos q)))
            (Decimal.mul margin' z))
        sold.left
    ∙ profit_split old.realized_pnl margin margin' q left old.quantity
        (sub_nonneg old.quantity (pos q) sold.covered) (sub_exact old.quantity (pos q) exact)
        (λ apart.
          ap (λ a. Decimal.sub price a) (sold.kept (subst (λ z. z ≢ pos 0) (sym sold.left) apart)))
        u

position-found :
    (s : String) (ledger : Ledger) {p : Position} → get s ledger ≡ some p → position s ledger ≡ p
unfolding position
position-found s ledger found = ground (arith, found)

-- A sale that is applied writes its position, and no other; it sells no more than was held, and with
-- what is left it makes up what was held; and what it adds to the realized profit it takes from the
-- unrealized: at the price of the sale, the total profit of the symbol is what it was. What is left,
-- the realized profit and the profit on each quantity have at most 28 digits.
pub apply_fill-Neutral :
    (s : String) (q price : Decimal) (ledger : Ledger) {p : Position} {l' : Ledger}
    → apply_fill s Side.sell q price ledger ≡ ok (p, l')
    → IsExact ((position s ledger).quantity -ℤ q)
    → IsUnrounded
        (position s ledger).realized_pnl
        (Decimal.sub price (position s ledger).average_price)
        q
        (Decimal.sub (position s ledger).quantity q)
        (position s ledger).quantity
    → Neutral s q price ledger p l'
apply_fill-Neutral s q price ledger {p} {l'} ran exact unrounded =
    let old = position s ledger in
    let (positive, priced, e, written) = apply_fill_inv s Side.sell q price ledger ran in
    let sold = updated-Sold s q price old e in
    let stored : get s l' ≡ some p = ap (get s) written ∙ get-put_self s p ledger in
    let now : position s l' ≡ p = position-found s l' stored in
    record {
      stored = stored;
      others = λ k other. ap (get k) written ∙ get-put_ne s k p ledger other;
      covered = sold.covered;
      quantity = ap (λ z. z +ℤ q) sold.left ∙ sub_exact old.quantity q exact;
      total =
          total_pnl-known s price l' priced
          ∙ ap
              (λ (x : Position). ok (
                Decimal.add x.realized_pnl
                  (Decimal.mul (Decimal.sub price x.average_price) x.quantity)))
              now
          ∙ ap ok (margin_total s q price old p positive sold exact unrounded)
          ∙ sym (total_pnl-known s price ledger priced);
    }
