-- ===== src/Environment/Skills.antt =====
-- Which skills a mode grants, of environment.py.
use paper_live.Base.{◌≡◌, ◌↔◌, true, false, is_ok, String, arith}
use paper_live.Environment.{is_live, Controller, is_skill_allowed, assert_skill_allowed}

abbrev pub engine_skill : String
engine_skill = "skill-virtual-matching-engine"

-- The virtual matching engine runs exactly in the modes that are not REAL_LIVE; the two broker
-- skills and the circuit breaker's are granted exactly in REAL_LIVE.
pub skills_split :
    (c : Controller)
    → ((is_ok (assert_skill_allowed engine_skill c) ≡ true) ↔ (is_live c.mode ≡ false))
      × ((is_ok (assert_skill_allowed "skill-toss-broker" c) ≡ true) ↔ (is_live c.mode ≡ true))
      × ((is_ok (assert_skill_allowed "skill-kb-broker" c) ≡ true) ↔ (is_live c.mode ≡ true))
      × ((is_ok (assert_skill_allowed "skill-risk-circuit-breaker" c) ≡ true)
          ↔ (is_live c.mode ≡ true))
unfolding assert_skill_allowed is_skill_allowed
skills_split c = (
  (λ h. ground arith, λ h. ground arith),
  (λ h. ground arith, λ h. ground arith),
  (λ h. ground arith, λ h. ground arith),
  (λ h. ground arith, λ h. ground arith),
)
