-- ===== src/Base/Exec.antt =====
-- A method call on an object: the state comes back after a raise too, since what was written stays
-- written.
use Prim.Native.String.{String}
use native.Mathlib.Omega.{arith}
use mathlib.Core.Path.{◌≡◌, refl, sym, subst, ap}
use mathlib.Core.Bool.{Bool, true, false}
use paper_live.Base.Tests.{if◌then◌else◌}
use paper_live.Base.Results.{Result, Kind, ok, err, raise, raise_if, after}

abbrev pub Exec : Type 0 → Type 0 → Type 0
Exec S A = S → Result A × S

module _ {S A : Type 0} where
  unfoldable pub pure : A → Exec S A
  pure a s = (ok a, s)

  -- A call that changes nothing.
  unfoldable pub lift : Result A → Exec S A
  lift r s = (r, s)

  unfoldable pub gets : (S → A) → Exec S A
  gets f s = (ok (f s), s)

-- The rest of a block, behind a call that has ended.
abbrev pub follow : {S A B : Type 0} → Result A × S → (A → Exec S B) → Result B × S
follow (ok a, s) f = f a s
follow (err e, s) f = (err e, s)

pub follow-ok :
    {S A B : Type 0} (p : Result A × S) (f : A → Exec S B) {a : A}
    → p.0 ≡ ok a
    → follow p f ≡ f a p.1
follow-ok (ok x, s) f {a} e = let same : x ≡ a = ground (arith, e) in ap (λ v. f v s) same
follow-ok (err x, s) f e = absurd (ground (arith, e))

infixl 5 ◌>>=◌ ◌>>◌
unfoldable pub ◌>>=◌ : {S A B : Type 0} → Exec S A → (A → Exec S B) → Exec S B
◌>>=◌ m f s = follow (m s) f

abbrev pub ◌>>◌ : {S B : Type 0} → Exec S (Unit {0}) → Exec S B → Exec S B
m >> k = m >>= λ _. k

abbrev pub throw_if : {S : Type 0} → Bool → Kind → String → Exec S (Unit {0})
throw_if b k m = lift (raise_if b k m)

abbrev pub throw : {S A : Type 0} → Kind → String → Exec S A
throw k m = lift (raise k m)

-- A write.
unfoldable pub modify : {S : Type 0} → (S → S) → Exec S (Unit {0})
modify f s = (ok tt, f s)

-- A call on one part of the object that raises before it writes: its result, and the part put back.
abbrev pub attach : {S T A : Type 0} → (S → T → S) → S → Result (A × T) → Result A × S
attach set s (ok (a, t)) = (ok a, set s t)
attach set s (err e) = (err e, s)

unfoldable pub zoom : {S T A : Type 0} → (S → T) → (S → T → S) → (T → Result (A × T)) → Exec S A
zoom part set f s = attach set s (f (part s))

-- The same on a part whose calls may write before they raise.
unfoldable pub within : {S T A : Type 0} → (S → T) → (S → T → S) → Exec T A → Exec S A
within part set m s = let (r, t) = m (part s) in (r, set s t)

-- A call inside `try`: its result, an exception included, is there for the `except` clauses.
unfoldable pub attempt : {S A : Type 0} → Exec S A → Exec S (Result A)
attempt m s = let (r, t) = m s in (ok r, t)

-- What an action keeps, whether it returns or raises, with a rule for each way to build one.
pub record Keeps {ℓ} {S A : Type 0} (P : S → Type ℓ) (m : Exec S A) : Type ℓ where
  pub at : (s : S) → P s → P (m s).1

follow_keeps {ℓ} :
    {S A B : Type 0} (P : S → Type ℓ) (p : Result A × S) (f : A → Exec S B)
    → P p.1
    → ((a : A) → Keeps P (f a))
    → P (follow p f).1
follow_keeps P (ok a, s) f h kf = (kf a).at s h
follow_keeps P (err e, s) f h kf = h

attach_keeps {ℓ κ} :
    {S T A : Type 0} (P : S → Type ℓ) (Q : T → Type κ) (set : S → T → S) (s : S) (t : T)
    (r : Result (A × T))
    → P s
    → Q (after t r)
    → ((t' : T) → Q t' → P (set s t'))
    → P (attach set s r).1
attach_keeps P Q set s t (ok (a, t')) h k put_back = put_back t' k
attach_keeps P Q set s t (err e) h k put_back = h

-- An action that never writes keeps everything.
Keeps-still {ℓ} :
    {S A : Type 0} {P : S → Type ℓ} {m : Exec S A} → ((s : S) → (m s).1 ≡ s) → Keeps P m
Keeps-still {P} still = record { at = λ s h. subst P (sym (still s)) h }

pub Keeps-if {ℓ} :
    {S A : Type 0} {P : S → Type ℓ} (test : Bool) (yes no : Exec S A)
    → Keeps P yes
    → Keeps P no
    → Keeps P (if test then yes else no)
Keeps-if true _ _ on_yes _ = on_yes
Keeps-if false _ _ _ on_no = on_no

pub Keeps-gets {ℓ} : {S A : Type 0} {P : S → Type ℓ} (view : S → A) → Keeps P (gets view)
Keeps-gets view = Keeps-still (λ s. unfold gets in refl)

pub Keeps-pure {ℓ} : {S A : Type 0} {P : S → Type ℓ} (value : A) → Keeps P (pure value)
Keeps-pure value = Keeps-still (λ s. unfold pure in refl)

pub Keeps-lift {ℓ} : {S A : Type 0} {P : S → Type ℓ} (answer : Result A) → Keeps P (lift answer)
Keeps-lift answer = Keeps-still (λ s. unfold lift in refl)

pub Keeps-bind {ℓ} :
    {S A B : Type 0} {P : S → Type ℓ} (m : Exec S A) (f : A → Exec S B)
    → Keeps P m
    → ((a : A) → Keeps P (f a))
    → Keeps P (m >>= f)
unfolding ◌>>=◌
Keeps-bind {P} m f km kf = record { at = λ s h. follow_keeps P (m s) f (km.at s h) kf }

pub Keeps-zoom {ℓ κ} :
    {S T A : Type 0} (P : S → Type ℓ) (Q : T → Type κ) (part : S → T) (set : S → T → S)
    (f : T → Result (A × T))
    → ((s : S) → P s → Q (part s))
    → ((t : T) → Q t → Q (after t (f t)))
    → ((s : S) (t : T) → P s → Q t → P (set s t))
    → Keeps P (zoom part set f)
unfolding zoom
Keeps-zoom P Q part set f out through back = record {
  at = λ s h.
      attach_keeps P Q set s (part s) (f (part s)) h (through (part s) (out s h))
        (λ t k. back s t h k);
}

pub Keeps-modify {ℓ} :
    {S : Type 0} (P : S → Type ℓ) (write : S → S)
    → ((s : S) → P s → P (write s))
    → Keeps P (modify write)
Keeps-modify P write kept = record { at = λ s h. unfold modify in kept s h }

-- A part that the property does not read may be written at will.
pub Keeps-within {ℓ} :
    {S T A : Type 0} (P : S → Type ℓ) (part : S → T) (set : S → T → S) (m : Exec T A)
    → ((s : S) (t : T) → P s → P (set s t))
    → Keeps P (within part set m)
Keeps-within P part set m blind = record { at = λ s h. unfold within in blind s (m (part s)).1 h }

pub Keeps-attempt {ℓ} :
    {S A : Type 0} (P : S → Type ℓ) (m : Exec S A) → Keeps P m → Keeps P (attempt m)
Keeps-attempt P m km = record { at = λ s h. unfold attempt in km.at s h }

-- What an action keeps, and what is known of the value that it returns.
pub record Yields {ℓ κ} {S A : Type 0} (P : S → Type ℓ) (Q : A → Type κ) (m : Exec S A)
    : Type (ℓ ⊔ κ) where
  pub keeps : (s : S) → P s → P (m s).1
  pub yields : (s : S) (a : A) → P s → (m s).0 ≡ ok a → Q a

known_keeps {ℓ} :
    {S A B : Type 0} (P : S → Type ℓ) (p : Result A × S) (f : A → Exec S B)
    → P p.1
    → ((a : A) → p.0 ≡ ok a → Keeps P (f a))
    → P (follow p f).1
known_keeps P (ok a, s) f h kf = (kf a refl).at s h
known_keeps P (err e, s) f h kf = h

pub Keeps-known {ℓ κ} :
    {S A B : Type 0} {P : S → Type ℓ} (Q : A → Type κ) (m : Exec S A) (f : A → Exec S B)
    → Yields P Q m
    → ((a : A) → Q a → Keeps P (f a))
    → Keeps P (m >>= f)
unfolding ◌>>=◌
Keeps-known {P} Q m f ym kf = record {
  at = λ s h. known_keeps P (m s) f (ym.keeps s h) (λ a e. kf a (ym.yields s a h e));
}

pub Yields-lift {ℓ κ} :
    {S A : Type 0} {P : S → Type ℓ} {Q : A → Type κ} (answer : Result A)
    → ((a : A) → answer ≡ ok a → Q a)
    → Yields P Q (lift answer)
unfolding lift
Yields-lift answer known = record { keeps = λ s h. h; yields = λ s a h e. known a e }

pub ruleset keeps_rules = (Keeps-bind, Keeps-if, Keeps-lift, Keeps-gets, Keeps-pure, Keeps-attempt)
