-- ===== src/Base/Leads.antt =====
-- What holds behind a block of calls, whether it returns or raises, from what held before it.
use paper_live.Base.Results.{Result, ok, err}
use paper_live.Base.Exec.{Exec, modify, follow, ◌>>=◌, Keeps}

pub record Leads {ℓ κ} {S A : Type 0} (P : S → Type ℓ) (Q : S → Type κ) (m : Exec S A)
    : Type (ℓ ⊔ κ) where
  pub at : (s : S) → P s → Q (m s).1

follow_leads {ℓ κ} :
    {S A B : Type 0} (P : S → Type ℓ) (Q : S → Type κ) (p : Result A × S) (f : A → Exec S B)
    → P p.1
    → ((s : S) → P s → Q s)
    → ((a : A) → Leads P Q (f a))
    → Q (follow p f).1
follow_leads P Q (ok a, s) f h weaker lf = (lf a).at s h
follow_leads P Q (err e, s) f h weaker lf = weaker s h

-- The calls that keep what held come first; a raise among them must be enough.
pub Leads-keep {ℓ κ} :
    {S A B : Type 0} {P : S → Type ℓ} {Q : S → Type κ} (m : Exec S A) (f : A → Exec S B)
    → ((s : S) → P s → Q s)
    → Keeps P m
    → ((a : A) → Leads P Q (f a))
    → Leads P Q (m >>= f)
unfolding ◌>>=◌
Leads-keep {P} {Q} m f weaker km lf = record {
  at = λ s h. follow_leads P Q (m s) f (km.at s h) weaker lf;
}

-- A write that turns one into the other.
pub Leads-write {ℓ κ μ} :
    {S B : Type 0} {P : S → Type ℓ} {Q : S → Type κ} (R : S → Type μ) (write : S → S)
    (f : Unit {0} → Exec S B)
    → ((s : S) → P s → R (write s))
    → Leads R Q (f tt)
    → Leads P Q (modify write >>= f)
unfolding ◌>>=◌ modify
Leads-write R write f step lf = record { at = λ s h. lf.at (write s) (step s h) }

pub Leads-Keeps {ℓ κ} :
    {S A : Type 0} {P : S → Type ℓ} {Q : S → Type κ} (m : Exec S A)
    → ((s : S) → P s → Q s)
    → Keeps P m
    → Leads P Q m
Leads-Keeps m weaker km = record { at = λ s h. weaker _ (km.at s h) }

pub Leads-modify {ℓ κ} :
    {S : Type 0} (P : S → Type ℓ) (Q : S → Type κ) (write : S → S)
    → ((s : S) → P s → Q (write s))
    → Leads P Q (modify write)
unfolding modify
Leads-modify P Q write step = record { at = λ s h. step s h }

pub Leads-then {ℓ κ μ} :
    {S A B : Type 0} {P : S → Type ℓ} {Q : S → Type κ} (R : S → Type μ) (m : Exec S A)
    (f : A → Exec S B)
    → ((s : S) → R s → Q s)
    → Leads P R m
    → ((a : A) → Leads R Q (f a))
    → Leads P Q (m >>= f)
unfolding ◌>>=◌
Leads-then {Q} R m f weaker lm lf = record {
  at = λ s h. follow_leads R Q (m s) f (lm.at s h) weaker lf;
}
