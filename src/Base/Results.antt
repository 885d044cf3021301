-- ===== src/Base/Results.antt =====
-- What a call may do: return, or raise an exception. The kinds are the exception classes that the
-- modelled code raises, and `is_a` is Python's subclass relation as its `except` clauses read it.
use Prim.Native.String.{String}
use mathlib.Core.Path.{◌≡◌, refl}
use mathlib.Core.Bool.{Bool, true, false}
use mathlib.Core.Option.{Option, none, some}
use paper_live.Base.Tests.{if◌then◌else◌}

pub data Kind : Type 0 where
  value_error permission_error key_error transition_error arithmetic_error : Kind
  approval_denied broker_denied secret_denied : Kind
  lifecycle_error rollback_error registry_error mode_denied execution_error : Kind

pub record Error : Type 0 where
  pub kind : Kind
  pub message : String

abbrev pub error : Kind → String → Error
error k m = record { kind = k; message = m }

-- `issubclass(k, PermissionError)`
abbrev pub is_permission_error : Kind → Bool
is_permission_error Kind.permission_error = true
is_permission_error Kind.approval_denied = true
is_permission_error Kind.broker_denied = true
is_permission_error Kind.secret_denied = true
is_permission_error Kind.mode_denied = true
is_permission_error _ = false

-- `except (PermissionError, ValueError)`
abbrev pub is_risk_error : Kind → Bool
is_risk_error Kind.value_error = true
is_risk_error k = is_permission_error k

pub data Result {ℓ} (A : Type ℓ) : Type ℓ where
  ok : A → Result A
  err : Error → Result A

abbrev pub raise {ℓ} : {A : Type ℓ} → Kind → String → Result A
raise k m = err (error k m)

-- The rest of a block runs on what the call returned; an exception passes it by.
infixl 5 ◌>>=◌
abbrev pub ◌>>=◌ {ℓ κ} : {B : Type κ} {A : Type ℓ} → Result A → (A → Result B) → Result B
err thrown >>= rest = err thrown
ok value >>= rest = rest value

infixl 5 ◌>>◌
abbrev pub ◌>>◌ {κ} : {B : Type κ} → Result (Unit {0}) → Result B → Result B
check >> rest = check >>= λ passed. rest

-- `if b: raise k(m)`
abbrev pub raise_if : Bool → Kind → String → Result (Unit {0})
raise_if b k m = if b then raise k m else ok tt

abbrev pub or_raise {ℓ} : {A : Type ℓ} → Option A → Kind → String → Result A
or_raise none k m = raise k m
or_raise (some a) k m = ok a

abbrev pub is_ok {ℓ} : {A : Type ℓ} → Result A → Bool
is_ok (ok _) = true
is_ok (err _) = false

-- A block that returned got past its first call, and the rest of it returned.
pub >>=-eq-ok {ℓ κ} :
    {B : Type κ} {A : Type ℓ} (call : Result A) (rest : A → Result B) {answer : B}
    → (call >>= rest) ≡ ok answer
    → (value : A) × (call ≡ ok value) × (rest value ≡ ok answer)
>>=-eq-ok (err thrown) rest returned = cc
>>=-eq-ok (ok value) rest returned = (value, refl, returned)

-- The state after a call that raises before it writes, or gives the new state.
abbrev pub after {ℓ κ} : {A : Type ℓ} {S : Type κ} → S → Result (A × S) → S
after s (ok (_, s')) = s'
after s (err _) = s

-- What such a call keeps: what held before, if it holds in the state that it returns.
pub after_keeps {ℓ κ μ} :
    {A : Type ℓ} {S : Type κ} (P : S → Type μ) (s : S) (r : Result (A × S))
    → P s
    → ((a : A) (s' : S) → r ≡ ok (a, s') → P s')
    → P (after s r)
after_keeps P s (ok (a, s')) h k = k a s' refl
after_keeps P s (err e) h k = h
