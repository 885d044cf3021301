-- ===== src/Brokers/Tests.antt =====
-- A cleared submission, of brokers/safe_router.py.
use paper_live.Base.{◌≡◌, refl, inl, ℕ, suc, true, none, some, [], ◌∷◌, ok, is_ok}
use paper_live.Base.Dict.{get, string_eq}
use paper_live.Base.Exec.{lift, ◌>>=◌}
use paper_live.Decimal.{whole}
use paper_live.Security.OrderApproval.{require}
use paper_live.Brokers.{
  BrokerOrderRequest, BrokerAdapter, BrokerRouter, authorize, adapter_for, submit, cancel,
}
use paper_live.Brokers.Cleared.{IsCleared, submit-IsCleared}

-- An adapter that counts its calls.
abbrev counting : BrokerAdapter ℕ
counting = record {
  submit = λ request calls.
      (ok (record { broker = "toss"; order_id = "b-1"; accepted = true; message = "" }), suc calls);
  cancel = λ order_id symbol calls. (ok true, suc calls);
}

abbrev router : BrokerRouter ℕ
router = record {
  adapters = ("toss", counting) ∷ [];
  approval_gate = some (record {
    approval = some (record { approval_id = "t"; approved_by = "kim"; expires_at = 60 });
    nonce = "n";
  });
}

abbrev request : BrokerOrderRequest
request = record {
  symbol = "AAPL";
  side = "BUY";
  quantity = whole 3;
  order_type = "MARKET";
  price = none;
}

submitted : is_ok (submit "REAL_LIVE" "toss" request (some "t") 59 router 0).0 ≡ true
unfolding submit adapter_for authorize require lift ◌>>=◌ get
submitted = refl

canceled : is_ok (cancel "REAL_LIVE" "toss" "b-1" (some "t") none 59 router 0).0 ≡ true
unfolding cancel adapter_for authorize require lift ◌>>=◌ get
canceled = refl

submit-IsCleared_example : IsCleared "REAL_LIVE" "toss" (some "t") 59 router
submit-IsCleared_example =
    submit-IsCleared "REAL_LIVE" "toss" request (some "t") 59 router 0 (inl submitted)
