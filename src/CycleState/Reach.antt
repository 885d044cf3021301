-- ===== src/CycleState/Reach.antt =====
-- How a cycle can move, of state_machine.py.
use paper_live.Base.{
  ◌⊎◌, sym, ◌∙◌, ℕ, suc, ◌+◌, ◌≤◌, ◌<◌, ◌≡◌, ◌≢◌, refl, ap, true, List, [], ◌∷◌, ◌++◌, arith,
  Bool-cases, inl, inr, if◌then◌else◌,
}
use paper_live.CycleState.{CycleState, allowed, advance, drive}

abbrev pub after_target : CycleState → CycleState → CycleState
after_target target state = if allowed state target then target else state

drive-cons :
    (target : CycleState) (rest : List CycleState) (state : CycleState)
    → drive state (target ∷ rest) ≡ drive (after_target target state) rest
unfolding drive advance
drive-cons target rest state = elim (Bool-cases (allowed state target)) [
  | inl passed ↦ rw passed
  | inr refused ↦ rw refused
]

executed_from :
    (target state : CycleState)
    → state ≢ CycleState.executed
    → after_target target state ≡ CycleState.executed
    → state ≡ CycleState.risk_approved
executed_from target CycleState.ingested n h = ground arith
executed_from target CycleState.executed n h = absurd (n refl)
executed_from target _ n h = ground arith

executed_or_not : (s : CycleState) → (s ≡ CycleState.executed) ⊎ (s ≢ CycleState.executed)
executed_or_not CycleState.executed = inl refl
executed_or_not _ = inr (λ e. cc)

-- Whatever targets are asked for, a machine that ends in EXECUTED and did not begin there was in
-- RISK_APPROVED on the way: some first part of the requests leads to it.
pub executed_needs_approval :
    (requests : List CycleState) (state : CycleState)
    → state ≢ CycleState.executed
    → drive state requests ≡ CycleState.executed
    → (first : List CycleState) × (rest : List CycleState) × (requests ≡ first ++ rest)
      × (drive state first ≡ CycleState.risk_approved)
executed_needs_approval [] state n h = absurd (n (unfold drive in h))
executed_needs_approval (target ∷ requests) state n h =
    elim (executed_or_not (after_target target state)) [
      | inl arrived ↦
          ([], target ∷ requests, refl, unfold drive in executed_from target state n arrived)
      | inr elsewhere ↦
          let (first, rest, e, d) =
            executed_needs_approval requests (after_target target state) elsewhere
              (sym (drive-cons target requests state) ∙ h) in
          (target ∷ first, rest, ap (λ l. target ∷ l) e, drive-cons target first state ∙ d)
    ]

-- How far a cycle has come.
abbrev pub rank : CycleState → ℕ
rank CycleState.ingested = 0
rank CycleState.analyzed = 1
rank CycleState.debated = 2
rank CycleState.risk_approved = 3
rank CycleState.executed = 4
rank CycleState.rejected = 4
rank CycleState.reflected = 5

rank-advance : (state target : CycleState) → allowed state target ≡ true → rank state < rank target
rank-advance CycleState.ingested target h = ground arith
rank-advance _ target h = ground arith

-- How many of the requests are granted.
pub granted : CycleState → List CycleState → ℕ
granted state [] = 0
granted state (target ∷ rest) =
    let n = granted (after_target target state) rest in if allowed state target then suc n else n

-- A machine grants at most five requests in its life, however many are made: fewer, the further it
-- has come, so that REFLECTED grants none.
pub granted_bound :
    (requests : List CycleState) (state : CycleState) → granted state requests + rank state ≤ 5
unfolding granted
granted_bound [] CycleState.ingested = omega arith
granted_bound [] _ = omega arith
granted_bound (target ∷ requests) state = elim (Bool-cases (allowed state target)) [
  | inl passed ↦
      rw passed (omega (arith, granted_bound requests target, rank-advance state target passed))
  | inr refused ↦ rw refused (granted_bound requests state)
]
