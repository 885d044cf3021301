-- ===== src/Base/Dict.antt =====
-- Python's dict: an association list in insertion order, with one entry for a key. `put` keeps the
-- place of a key that is there, as an assignment `d[k] = v` does.
use mathlib.Core.Path.{◌≡◌, refl, subst₂}
use mathlib.Core.Logic.{◌≢◌, ◌↔◌, ◌⊎◌, inl, inr}
use mathlib.Core.Bool.{Bool, true}
use mathlib.Core.Option.{Option, none, some}
use mathlib.Core.List.{List, [], ◌∷◌}
use native.Mathlib.Omega.{arith}
use Prim.Native.String.{String}
use text.Mathlib.Text.{◌==◌ as str_eq}
use text.Mathlib.TextEquality.{eq_iff}
use paper_live.Base.Tests.{Bool-cases, if◌then◌else◌}

-- A type with a test of equality: what Python asks of a key.
pub record Eq (K : Type 0) : Type 0 where
  pub beq : K → K → Bool
  pub beq_iff : (a b : K) → (beq a b ≡ true) ↔ (a ≡ b)

instance abbrev pub string_eq : Eq String
string_eq = record { beq = str_eq; beq_iff = eq_iff }

abbrev pub Dict : Type 0 → Type 0 → Type 0
Dict K V = List (K × V)

module _ {K V : Type 0} ⦃e : Eq K⦄ where
  -- `d.get(k)`
  unfoldable pub get : K → Dict K V → Option V
  get k [] = none
  get k ((j, v) ∷ d) = if e.beq j k then some v else get k d

  -- `d[k] = v`
  unfoldable pub put : K → V → Dict K V → Dict K V
  put k v [] = (k, v) ∷ []
  put k v ((j, w) ∷ d) = if e.beq j k then (j, v) ∷ d else (j, w) ∷ put k v d

  pub get-put :
      (k j : K) (v : V) (d : Dict K V) → get j (put k v d) ≡ (if e.beq k j then some v else get j d)
  unfolding get put
  get-put k j v [] = refl
  get-put k j v ((i, w) ∷ d) =
      ground (arith, e.beq_iff k j, e.beq_iff i k, e.beq_iff i j, get-put k j v d)

  pub get-put_self : (k : K) (v : V) (d : Dict K V) → get k (put k v d) ≡ some v
  get-put_self k v d = ground (arith, get-put k k v d, e.beq_iff k k)

  -- What is found after a write is the value written, or was found before.
  pub get-put_inv :
      (k j : K) (v w : V) (d : Dict K V)
      → get j (put k v d) ≡ some w
      → ((k ≡ j) × (v ≡ w)) ⊎ (get j d ≡ some w)
  get-put_inv k j v w d h = elim (Bool-cases (e.beq k j)) [
    | inl same ↦ inl ((e.beq_iff k j).0 same, ground (arith, get-put k j v d))
    | inr other ↦ inr (ground (arith, get-put k j v d))
  ]

  -- A write of a value that has a property keeps it of all that is found.
  pub put_all {ℓ} :
      (P : K → V → Type ℓ) (k : K) (v : V) (d : Dict K V)
      → ((j : K) (w : V) → get j d ≡ some w → P j w)
      → P k v
      → (j : K) (w : V) → get j (put k v d) ≡ some w
      → P j w
  put_all P k v d all mine j w h = elim (get-put_inv k j v w d h) [
    | inl (p, q) ↦ subst₂ P p q mine
    | inr old ↦ all j w old
  ]

  pub get-put_ne : (k j : K) (v : V) (d : Dict K V) → k ≢ j → get j (put k v d) ≡ get j d
  get-put_ne k j v d h = elim (Bool-cases (e.beq k j)) [
    | inl same ↦ absurd (h ((e.beq_iff k j).0 same))
    | inr other ↦ ground (arith, get-put k j v d)
  ]
