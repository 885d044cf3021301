-- ===== src/Base/Acts.antt =====
-- What holds when a call returns, or leaves its state other than it was.
use mathlib.Core.Path.{◌≡◌, refl}
use mathlib.Core.Logic.{◌≢◌, ◌⊎◌, inl, inr}
use mathlib.Core.Bool.{true}
use native.Mathlib.Omega.{arith}
use paper_live.Base.Results.{Result, ok, err, is_ok}
use paper_live.Base.Exec.{Exec, lift, ◌>>=◌}

abbrev pub Acts : {S A : Type 0} → Exec S A → S → Type 0
Acts call s = (is_ok (call s).0 ≡ true) ⊎ ((call s).1 ≢ s)

-- Behind a test that writes nothing, only a test that passed leads to a call that acts.
pub acts_ok :
    {S A B : Type 0} (test : Result A) (call : A → Exec S B) (s : S)
    → Acts (lift test >>= call) s
    → (a : A) × (test ≡ ok a) × Acts (call a) s
unfolding lift ◌>>=◌
acts_ok (ok a) call s acts = (a, refl, acts)
acts_ok (err x) call s (inl returned) = absurd (ground (arith, returned))
acts_ok (err x) call s (inr written) = absurd (written refl)
