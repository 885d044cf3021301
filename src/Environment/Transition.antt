-- ===== src/Environment/Transition.antt =====
-- What a controller never does, whatever its events, of environment.py.
use paper_live.Base.{ℕ, ◌≡◌, refl, true, false, Option, none, List, [], ◌∷◌, String, arith}
use paper_live.Environment.{
  is_live, revoke, Controller, lacks_approval, set_mode, register_time_trigger,
  register_kpi_trigger,
}
use paper_live.Environment.Events.{Event, step, run}

-- No event of the list gives an approval.
abbrev pub IsApproval : Event → Type 0
IsApproval (Event.approve_gate _ _ _) = Unit
IsApproval _ = ⊥

abbrev pub NoApproval : List Event → Type 0
NoApproval [] = Unit
NoApproval (e ∷ es) = (¬ IsApproval e) × NoApproval es

module _ (digest : String → String) (from_iso : String → Option ℕ) where
  step_unapproved :
      (e : Event) (c : Controller)
      → ¬ IsApproval e
      → is_live c.mode ≡ false
      → lacks_approval c.live_approval_gate ≡ true
      → (is_live (step digest from_iso e c).mode ≡ false)
        × (lacks_approval (step digest from_iso e c).live_approval_gate ≡ true)
  unfolding step set_mode register_time_trigger register_kpi_trigger revoke
  step_unapproved (Event.approve_gate _ _ _) c no_approval m g = absurd (no_approval tt)
  step_unapproved e c no_approval m g = (ground arith, ground arith)

  -- A controller that is not in REAL_LIVE, with no approval in its gate, never gets there by events
  -- among which is no approval, whatever tokens they carry.
  pub run_unapproved :
      (es : List Event) (c : Controller)
      → NoApproval es
      → is_live c.mode ≡ false
      → lacks_approval c.live_approval_gate ≡ true
      → is_live (run digest from_iso es c).mode ≡ false
  unfolding run
  run_unapproved [] c q m g = m
  run_unapproved (e ∷ es) c q m g =
      let after = step_unapproved e c q.0 m g in
      run_unapproved es (step digest from_iso e c) q.1 after.0 after.1

  step_locked :
      (e : Event) (c : Controller)
      → c.transition_secret ≡ none
      → ((step digest from_iso e c).mode ≡ c.mode)
        × ((step digest from_iso e c).transition_secret ≡ none)
  unfolding step set_mode register_time_trigger register_kpi_trigger
  step_locked e c s = (ground arith, ground arith)

  -- A controller with no transition secret keeps its mode for ever.
  pub run_locked :
      (es : List Event) (c : Controller)
      → c.transition_secret ≡ none
      → (run digest from_iso es c).mode ≡ c.mode
  unfolding run
  run_locked [] c s = refl
  run_locked (e ∷ es) c s =
      let after = step_locked e c s in
      cc (run_locked es (step digest from_iso e c) after.1, after.0)
