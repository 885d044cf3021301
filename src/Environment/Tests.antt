-- ===== src/Environment/Tests.antt =====
-- Runs of the controller, of environment.py.
use paper_live.Base.{ℕ, ◌≡◌, refl, true, false, Option, none, some, List, [], ◌∷◌, String, ok}
use paper_live.Base.Text.{concat, strip}
use paper_live.Environment.{
  Mode, is_live, LiveApproval, require, approve, Controller, authorized, set_mode,
}
use paper_live.Environment.Events.{Event, step, run}
use paper_live.Environment.Replay.{switch_of, replay, run-replay}
use paper_live.Environment.Transition.{run_unapproved}

-- A digest that marks its secret.
abbrev sample_digest : String → String
sample_digest secret = concat ("hmac-" ∷ secret ∷ [])

abbrev never : String → Option ℕ
never moment = none

abbrev with_gate : Option String → Option LiveApproval → Controller
with_gate secret approval = record {
  mode = Mode.paper_sandbox;
  version = 3;
  changed_at = 0;
  changed_by = "system";
  transition_secret = secret;
  live_approval_gate = some (record { approval = approval });
  time_triggers = [];
  kpi_triggers = [];
}

abbrev granted : LiveApproval
granted = record { approved_by = "kim"; approved_at = 5; reason = "launch" }

-- A controller whose gate holds an approval, and one whose gate is empty.
abbrev ready : Controller
ready = with_gate (some "s") (some granted)

abbrev waiting : Controller
waiting = with_gate (some "s") none

abbrev live : Controller
live = record ready { mode = Mode.real_live; version = 4; changed_at = 9; changed_by = "kim" }

goes_live : set_mode sample_digest Mode.real_live "hmac-s" "kim" 9 ready ≡ ok (true, live)
unfolding set_mode authorized require
goes_live = refl

abbrev requests : List Event
requests =
    Event.set_to Mode.virtual_backtest "hmac-s" "kim" 1
    ∷ Event.revoke_gate
    ∷ Event.set_to Mode.real_live "hmac-s" "kim" 2
    ∷ []

run_unapproved_example : is_live (run sample_digest never requests waiting).mode ≡ false
run_unapproved_example =
    run_unapproved sample_digest never requests waiting ((λ e. e), ((λ e. e), ((λ e. e), tt))) refl
      refl

-- A change with a token that is not genuine, and one that is.
abbrev attempts : List Event
attempts =
    Event.set_to Mode.real_live "guess" "eve" 1
    ∷ Event.approve_gate "kim" "launch" 2
    ∷ Event.set_to Mode.real_live "hmac-s" "kim" 3
    ∷ []

run-replay_example :
    switch_of (run sample_digest never attempts waiting)
    ≡ replay sample_digest (some "s") true attempts (switch_of waiting)
run-replay_example = run-replay sample_digest never attempts waiting

attempts_go_live :
    switch_of (run sample_digest never attempts waiting)
    ≡ record { mode = Mode.real_live; version = 4; approved = true }
unfolding run step set_mode authorized require approve strip
attempts_go_live = refl
