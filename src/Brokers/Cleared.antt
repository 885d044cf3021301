-- ===== src/Brokers/Cleared.antt =====
-- What has to hold before an adapter is called, of brokers/safe_router.py.
use paper_live.Base.{
  ℕ, ◌≡◌, ◌≢◌, refl, ◌⊎◌, inl, inr, true, Option, none, some, String, Result, ok, err, is_ok,
  >>=-eq-ok, arith, eq_iff,
}
use paper_live.Base.Dict.{get, string_eq}
use paper_live.Base.Exec.{Exec, follow, lift, ◌>>=◌}
use paper_live.Security.OrderApproval.{LiveApprovalGate, require}
use paper_live.Brokers.{
  BrokerOrderRequest, BrokerAdapter, BrokerRouter, ask_gate, authorize, adapter_for, submit, cancel,
}

asked :
    (gate : Option LiveApprovalGate) (approval_id : Option String) (now : ℕ)
    → ask_gate gate approval_id now ≡ ok tt
    → (g : LiveApprovalGate) × (given : String) × (gate ≡ some g)
      × (approval_id ≡ some given)
      × (require given now g ≡ ok tt)
asked (some g) (some given) now h = (g, given, refl, refl, h)
asked (some g) none now h = absurd (ground arith)
asked none approval_id now h = absurd (ground arith)

module _ {World : Type 0} where
  -- The mode is REAL_LIVE, the router's gate lets the approval through, and the broker has an
  -- adapter.
  pub record IsCleared (mode broker : String) (approval_id : Option String) (now : ℕ)
      (router : BrokerRouter World) : Type 0 where
    pub live : mode ≡ "REAL_LIVE"
    pub gate : LiveApprovalGate
    pub given : String
    pub gate_of : router.approval_gate ≡ some gate
    pub given_of : approval_id ≡ some given
    pub let_through : require given now gate ≡ ok tt
    pub adapter : BrokerAdapter World
    pub adapter_of : get broker router.adapters ≡ some adapter

  adapter_for-IsCleared :
      (mode broker : String) (approval_id : Option String) (now : ℕ) (router : BrokerRouter World)
      {a : BrokerAdapter World}
      → adapter_for mode broker approval_id now router ≡ ok a
      → IsCleared mode broker approval_id now router
  unfolding adapter_for authorize
  adapter_for-IsCleared mode broker approval_id now router {a} h =
      let (_, passed, found) = >>=-eq-ok (authorize mode approval_id now router) _ h in
      let asked_ok : ask_gate router.approval_gate approval_id now ≡ ok tt =
        ground (arith, eq_iff mode "REAL_LIVE") in
      let (g, given, eg, ea, through) = asked router.approval_gate approval_id now asked_ok in
      record {
        live = ground (arith, eq_iff mode "REAL_LIVE");
        gate = g;
        given = given;
        gate_of = eg;
        given_of = ea;
        let_through = through;
        adapter = a;
        adapter_of = ground arith;
      }

  reached-IsCleared :
      {A : Type 0} (mode broker : String) (approval_id : Option String) (now : ℕ)
      (router : BrokerRouter World) (call : BrokerAdapter World → Exec World A) (world : World)
      (r : Result (BrokerAdapter World))
      → adapter_for mode broker approval_id now router ≡ r
      → (is_ok (follow (r, world) call).0 ≡ true) ⊎ ((follow (r, world) call).1 ≢ world)
      → IsCleared mode broker approval_id now router
  reached-IsCleared mode broker approval_id now router call world (ok a) e h =
      adapter_for-IsCleared mode broker approval_id now router e
  reached-IsCleared mode broker approval_id now router call world (err x) e h = elim h [
    | inl returned ↦ absurd (ground arith)
    | inr written ↦ absurd (written refl)
  ]

  -- Whenever a submission returns, or leaves the world outside other than it was, the mode is
  -- REAL_LIVE, the router's gate lets the given approval through at that time, and the broker has
  -- an adapter.
  pub submit-IsCleared :
      (mode broker : String) (request : BrokerOrderRequest) (approval_id : Option String) (now : ℕ)
      (router : BrokerRouter World) (world : World)
      → (is_ok (submit mode broker request approval_id now router world).0 ≡ true)
        ⊎ ((submit mode broker request approval_id now router world).1 ≢ world)
      → IsCleared mode broker approval_id now router
  unfolding submit ◌>>=◌ lift
  submit-IsCleared mode broker request approval_id now router world =
      reached-IsCleared mode broker approval_id now router (λ a. a.submit request) world _ refl

  -- Whenever a cancellation at the broker returns, or leaves the world outside other than it was, the
  -- mode is REAL_LIVE, the router's gate lets the given approval through at that time, and the broker
  -- has an adapter.
  pub cancel-IsCleared :
      (mode broker order_id : String) (approval_id symbol : Option String) (now : ℕ)
      (router : BrokerRouter World) (world : World)
      → (is_ok (cancel mode broker order_id approval_id symbol now router world).0 ≡ true)
        ⊎ ((cancel mode broker order_id approval_id symbol now router world).1 ≢ world)
      → IsCleared mode broker approval_id now router
  unfolding cancel ◌>>=◌ lift
  cancel-IsCleared mode broker order_id approval_id symbol now router world =
      reached-IsCleared mode broker approval_id now router (λ a. a.cancel order_id symbol) world _
        refl
