-- ===== src/Security/OrderApproval.antt =====
-- paper_live/security/live_approval_gate.py: short-lived approvals for live orders.
pub mod Window
use paper_live.Base.{
  ℕ, ◌+◌, ◌*◌, Bool, true, false, ◌||◌, ◌&&◌, not, Option, none, some, String, ◌==◌, Result, Kind,
  ok, err, raise, raise_if, ◌>>=◌, ◌>>◌, ltb, leb, if◌then◌else◌,
}
use paper_live.Base.Int.{ℤ, pos, ltb_ℤ, leb_ℤ, pos_part}
use paper_live.Base.Text.{strip}

-- `LiveApproval`; a time is a number of microseconds.
pub record LiveApproval : Type 0 where
  pub approval_id : String
  pub approved_by : String
  pub expires_at : ℕ

pub record LiveApprovalGate : Type 0 where
  pub approval : Option LiveApproval
  pub nonce : String

abbrev wrong_nonce : Option String → String → Bool
wrong_nonce none expected = false
wrong_nonce (some n) expected = not (n == expected)

abbrev pub second : ℕ
second = 1000000

-- `approve`; `now` is what `datetime.now(UTC)` gives, `token` what `secrets.token_urlsafe(18)` does.
unfoldable pub approve :
    String
    → Option String
    → ℤ
    → ℕ
    → String
    → LiveApprovalGate
    → Result (LiveApproval × LiveApprovalGate)
approve approved_by nonce ttl_seconds now token gate = do
  raise_if (strip approved_by == "") Kind.approval_denied "valid approver and TTL are required"
  raise_if (wrong_nonce nonce gate.nonce) Kind.approval_denied "valid approval nonce is required"
  raise_if (ltb_ℤ ttl_seconds (pos 1) || ltb_ℤ (pos 3600) ttl_seconds) Kind.approval_denied
      "valid approver and TTL are required"
  let approval : LiveApproval = record {
    approval_id = token;
    approved_by = strip approved_by;
    expires_at = now + pos_part ttl_seconds * second;
  }
  ok (approval, record gate { approval = some approval })

abbrev is_current : Option LiveApproval → ℕ → Bool
is_current none now = false
is_current (some a) now = ltb now a.expires_at

unfoldable pub approved : ℕ → LiveApprovalGate → Bool
approved now gate = is_current gate.approval now

unfoldable pub revoke : LiveApprovalGate → LiveApprovalGate
revoke gate = record gate { approval = none }

-- `a is None or a.approval_id != approval_id or now >= a.expires_at`
abbrev unusable : Option LiveApproval → String → ℕ → Bool
unusable none approval_id now = true
unusable (some a) approval_id now = not (a.approval_id == approval_id) || leb a.expires_at now

unfoldable pub require : String → ℕ → LiveApprovalGate → Result (Unit {0})
require approval_id now gate =
    raise_if (unusable gate.approval approval_id now) Kind.approval_denied
      "valid live approval is required"
