-- ===== src/Security/OrderApproval/Window.antt =====
-- When an approval lets an order through, of live_approval_gate.py.
use paper_live.Base.{ℕ, ◌+◌, ◌*◌, ◌<◌, ◌≡◌, ◌≢◌, ◌↔◌, Option, some, String, ok, arith, eq_iff}
use paper_live.Base.Int.{ℤ, pos, pos_part, ◌≤ℤ◌}
use paper_live.Security.OrderApproval.{
  LiveApproval, LiveApprovalGate, approve, require, revoke, second,
}

-- An approval that is granted lets exactly its own id through, and exactly until its time to live
-- has passed, which is at least a second and at most an hour; after `revoke` nothing passes.
pub approve_window :
    (by : String) (given : Option String) (ttl : ℤ) (now later : ℕ) (token id : String)
    (gate : LiveApprovalGate) {a : LiveApproval} {gate' : LiveApprovalGate}
    → approve by given ttl now token gate ≡ ok (a, gate')
    → ((require id later gate' ≡ ok tt) ↔ ((id ≡ token) × (later < now + pos_part ttl * second)))
      × (pos 1 ≤ℤ ttl)
      × (ttl ≤ℤ pos 3600)
      × (require id later (revoke gate') ≢ ok tt)
unfolding approve require revoke
approve_window by given ttl now later token id gate h = (
  (
    λ r. (ground (arith, eq_iff token id), ground (arith, eq_iff token id)),
    λ r. ground (arith, eq_iff token id),
  ),
  ground arith,
  ground arith,
  λ e. cc,
)

-- A request with the wrong nonce is refused, whoever asks.
pub approve_wrong_nonce :
    (by nonce : String) (ttl : ℤ) (now : ℕ) (token : String) (gate : LiveApprovalGate)
    {r : LiveApproval × LiveApprovalGate}
    → nonce ≢ gate.nonce
    → approve by (some nonce) ttl now token gate ≢ ok r
unfolding approve
approve_wrong_nonce by nonce ttl now token gate other h = ground (arith, eq_iff nonce gate.nonce)
