-- ===== src/Pnl/Invariant.antt =====
-- What the ledger keeps, of pnl.py: no position is short.
use paper_live.Base.{
  ◌≡◌, refl, inl, inr, some, String, Result, ok, err, after, after_keeps, arith, Option-cases,
}
use paper_live.Base.Int.{pos, ◌≤ℤ◌, ◌<ℤ◌}
use paper_live.Base.Dict.{get, put, put_all, string_eq}
use paper_live.Decimal.{Decimal}
use paper_live.Decimal.Laws.{add_nonneg, sub_nonneg}
use paper_live.Pnl.{Side, Position, Ledger, position, updated, apply_fill}

pub record IsLong (p : Position) : Type 0 where
  pub nonneg : pos 0 ≤ℤ p.quantity

pub record AllLong (ledger : Ledger) : Type 0 where
  pub at_symbol : (s : String) (p : Position) → get s ledger ≡ some p → IsLong p

position-IsLong : (s : String) (ledger : Ledger) → AllLong ledger → IsLong (position s ledger)
unfolding position
position-IsLong s ledger h = elim (Option-cases (get s ledger)) [
  | inl unknown ↦ rw unknown (omega arith)
  | inr (p, e) ↦ rw e (h.at_symbol s p e)
]

updated-IsLong :
    (s : String) (side : Side) (q price : Decimal) (p : Position) {p' : Position}
    → IsLong p
    → pos 0 <ℤ q
    → updated s side q price p ≡ ok p'
    → IsLong p'
unfolding updated
updated-IsLong s Side.buy q price p h positive e = record {
  nonneg = ground (arith, add_nonneg p.quantity q h.nonneg (omega arith));
}
updated-IsLong s Side.sell q price p h positive e = record {
  nonneg = ground (arith, sub_nonneg p.quantity q);
}

-- A fill that is applied: positive figures, and the updated position written under the symbol.
pub apply_fill_inv :
    (s : String) (side : Side) (q price : Decimal) (ledger : Ledger) {p : Position} {l' : Ledger}
    → apply_fill s side q price ledger ≡ ok (p, l')
    → (pos 0 <ℤ q)
      × (pos 0 <ℤ price)
      × (updated s side q price (position s ledger) ≡ ok p)
      × (l' ≡ put s p ledger)
unfolding apply_fill
apply_fill_inv s side q price ledger {p} {l'} h =
    by_update (updated s side q price (position s ledger)) refl
  where
    by_update :
        (r : Result Position)
        → updated s side q price (position s ledger) ≡ r
        → (pos 0 <ℤ q)
          × (pos 0 <ℤ price)
          × (updated s side q price (position s ledger) ≡ ok p)
          × (l' ≡ put s p ledger)
    by_update (ok p') e = (ground arith, ground arith, ground arith, ground arith)
    by_update (err x) e = absurd (ground arith)

-- No sequence of fills makes a position short: each call keeps it so, also one that raises.
pub apply_fill-AllLong :
    (s : String) (side : Side) (q price : Decimal) (ledger : Ledger)
    → AllLong ledger
    → AllLong (after ledger (apply_fill s side q price ledger))
apply_fill-AllLong s side q price ledger h =
    after_keeps AllLong ledger (apply_fill s side q price ledger) h λ p l' ran.
      let (positive, _, e, written) = apply_fill_inv s side q price ledger ran in
      let long =
        updated-IsLong s side q price (position s ledger) (position-IsLong s ledger h) positive e in
      rw written (record { at_symbol = put_all (λ _ x. IsLong x) s p ledger h.at_symbol long })
