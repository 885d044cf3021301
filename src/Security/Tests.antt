-- ===== src/Security/Tests.antt =====
-- Runs of the approval gate and of the secret broker.
use paper_live.Base.{◌+◌, ◌*◌, ◌<◌, ◌≡◌, ◌≢◌, ◌↔◌, refl, false, none, some, [], ◌∷◌, ok, is_ok}
use paper_live.Base.Int.{pos, pos_part, ◌≤ℤ◌}
use paper_live.Base.Dict.{get, string_eq}
use paper_live.Base.Text.{strip}
use paper_live.Security.OrderApproval.{
  LiveApproval, LiveApprovalGate, approve, require, revoke, second,
}
use paper_live.Security.OrderApproval.Window.{approve_window}
use paper_live.Security.Secrets.{SecretBroker, authorize, resolve, lookup_secret}

abbrev gate : LiveApprovalGate
gate = record { approval = none; nonce = "n" }

abbrev granted : LiveApproval
granted = record { approval_id = "t"; approved_by = "kim"; expires_at = 60000007 }

granting :
    approve " kim" (some "n") (pos 60) 7 "t" gate
    ≡ ok (granted, record gate { approval = some granted })
unfolding approve strip
granting = refl

approve_window_example :
    ((require "t" 100 (record gate { approval = some granted }) ≡ ok tt)
      ↔ (("t" ≡ granted.approval_id) × (100 < 7 + pos_part (pos 60) * second)))
    × (pos 1 ≤ℤ pos 60)
    × (pos 60 ≤ℤ pos 3600)
    × (require "t" 100 (revoke (record gate { approval = some granted })) ≢ ok tt)
approve_window_example = approve_window " kim" (some "n") (pos 60) 7 100 "t" "t" gate granting

abbrev broker : SecretBroker
broker = record {
  store = lookup_secret (("data-key", "k1") ∷ ("toss-order", "k2") ∷ []);
  policy = record { live_secret_ids = "toss-order" ∷ [] };
}

read : resolve "data-key" "PAPER_SANDBOX" "market.read" broker ≡ ok "k1"
unfolding resolve authorize lookup_secret get
read = refl

trading_denied : is_ok (resolve "toss-order" "PAPER_SANDBOX" "order.create" broker) ≡ false
unfolding resolve authorize lookup_secret get
trading_denied = refl
