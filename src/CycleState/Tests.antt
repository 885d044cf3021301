-- ===== src/CycleState/Tests.antt =====
-- Runs of a cycle, of state_machine.py.
use paper_live.Base.{◌+◌, ◌≤◌, ◌≡◌, refl, List, [], ◌∷◌, ◌++◌}
use paper_live.CycleState.{CycleState, advance, drive}
use paper_live.CycleState.Reach.{executed_needs_approval, granted, granted_bound, rank}

-- The second request is refused, the others are granted.
abbrev requests : List CycleState
requests =
    CycleState.analyzed ∷ CycleState.executed ∷ CycleState.debated ∷ CycleState.risk_approved
    ∷ CycleState.executed ∷ []

executed : drive CycleState.ingested requests ≡ CycleState.executed
unfolding drive advance
executed = refl

executed_needs_approval_example :
    (first : List CycleState) × (rest : List CycleState) × (requests ≡ first ++ rest)
    × (drive CycleState.ingested first ≡ CycleState.risk_approved)
executed_needs_approval_example =
    executed_needs_approval requests CycleState.ingested (λ e. cc) executed

granted_bound_example : granted CycleState.ingested requests + rank CycleState.ingested ≤ 5
granted_bound_example = granted_bound requests CycleState.ingested
