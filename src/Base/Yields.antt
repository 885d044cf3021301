-- ===== src/Base/Yields.antt =====
-- What a block of calls returns, put together from what each call returns.
use mathlib.Core.Path.{◌≡◌, refl, subst, ◌∙◌}
use native.Mathlib.Omega.{arith}
use mathlib.Core.List.{List, [], ◌∷◌, ◌++◌}
use mathlib.Core.Bool.{Bool, true, false}
use paper_live.Base.Tests.{if◌then◌else◌}
use paper_live.Base.Results.{Result, ok, err}
use paper_live.Base.Exec.{Exec, pure, gets, follow, attempt, ◌>>=◌, Keeps, Keeps-known, Yields}

-- Every member has the property.
abbrev pub All {ℓ κ} : {A : Type ℓ} → (A → Type κ) → List A → Type κ
All P [] = Unit
All P (x ∷ l) = P x × All P l

pub All-snoc {ℓ κ} :
    {A : Type ℓ} (P : A → Type κ) (l : List A) (x : A) → All P l → P x → All P (l ++ (x ∷ []))
All-snoc P [] x all mine = (mine, tt)
All-snoc P (y ∷ l) x all mine = (all.0, All-snoc P l x all.1 mine)

yields_follow {ℓ κ μ} :
    {S A B : Type 0} (P : S → Type ℓ) (R : A → Type μ) (Q : B → Type κ) (p : Result A × S)
    (f : A → Exec S B) {b : B}
    → P p.1
    → ((a : A) → p.0 ≡ ok a → R a)
    → ((a : A) → R a → Yields P Q (f a))
    → (follow p f).0 ≡ ok b
    → Q b
yields_follow P R Q (ok a, s) f h known yf e = (yf a (known a refl)).yields s _ h e
yields_follow P R Q (err x, s) f h known yf e = absurd (ground arith)

pub Yields-known {ℓ κ μ} :
    {S A B : Type 0} {P : S → Type ℓ} {Q : B → Type κ} (R : A → Type μ) (m : Exec S A)
    (f : A → Exec S B)
    → Yields P R m
    → ((a : A) → R a → Yields P Q (f a))
    → Yields P Q (m >>= f)
unfolding ◌>>=◌
Yields-known {P} {Q} R m f ym yf = record {
  keeps = (Keeps-known R m f ym (λ a r. record { at = (yf a r).keeps })).at;
  yields =
      λ s b h e. yields_follow P R Q (m s) f (ym.keeps s h) (λ a made. ym.yields s a h made) yf e;
}

pub Yields-bind {ℓ κ} :
    {S A B : Type 0} {P : S → Type ℓ} {Q : B → Type κ} (m : Exec S A) (f : A → Exec S B)
    → Keeps P m
    → ((a : A) → Yields P Q (f a))
    → Yields P Q (m >>= f)
Yields-bind m f km yf =
    Yields-known (λ _. Unit {0}) m f (record { keeps = km.at; yields = λ s a h e. tt })
      (λ a _. yf a)

pub Yields-pure {ℓ κ} :
    {S A : Type 0} {P : S → Type ℓ} {Q : A → Type κ} (value : A) → Q value → Yields P Q (pure value)
unfolding pure
Yields-pure {Q} value q = record {
  keeps = λ s h. h;
  yields = λ s a h e. let same : value ≡ a = ground (arith, e) in subst Q same q;
}

pub Yields-gets {ℓ κ} :
    {S A : Type 0} {P : S → Type ℓ} {Q : A → Type κ} (view : S → A)
    → ((s : S) → P s → Q (view s))
    → Yields P Q (gets view)
unfolding gets
Yields-gets {Q} view seen = record {
  keeps = λ s h. h;
  yields = λ s a h e. let same : view s ≡ a = ground (arith, e) in subst Q same (seen s h);
}

-- What a call inside `try` returned.
pub Yields-attempt {ℓ κ} :
    {S A : Type 0} {P : S → Type ℓ} {Q : A → Type κ} (m : Exec S A)
    → Yields P Q m
    → Yields P (λ r. (a : A) → r ≡ ok a → Q a) (attempt m)
unfolding attempt
Yields-attempt {P} {Q} m ym = record {
  keeps = λ s h. ym.keeps s h;
  yields = λ s r h e a returned.
      let same : (m s).0 ≡ r = ground (arith, e) in ym.yields s a h (same ∙ returned);
}

pub Yields-if {ℓ κ} :
    {S A : Type 0} {P : S → Type ℓ} {Q : A → Type κ} (test : Bool) (yes no : Exec S A)
    → (test ≡ true → Yields P Q yes)
    → (test ≡ false → Yields P Q no)
    → Yields P Q (if test then yes else no)
Yields-if true _ _ on_yes _ = on_yes refl
Yields-if false _ _ _ on_no = on_no refl
