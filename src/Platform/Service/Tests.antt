-- ===== src/Platform/Service/Tests.antt =====
-- The theorems on the service's payment methods at concrete inputs, and runs of the methods.
use myagent_bot.Base.{ℕ, refl, List, [], ◌∷◌, ok, true, false}
use myagent_bot.Base.Int.{pos}
use myagent_bot.Platform.Types.{RefundDecisionInput, Clock}
use myagent_bot.Platform.Store.State.{MemoryStore, new_memory_store}
use myagent_bot.Platform.Store.Entries.{IsReconciled}
use myagent_bot.Platform.Ledger.Reconcile.{new_memory_store-IsReconciled}
use myagent_bot.Platform.Tests.{noon, order_of, request_of, store_of}
use myagent_bot.Platform.Service.Provider.{Provider, manual_provider}
use myagent_bot.Platform.Service.Recharge.{handle_successful_recharge_callback}
use myagent_bot.Platform.Service.Refunding.{request_refund, approve_refund_request}
use myagent_bot.Platform.Service.History.{
  ServiceCall, creates_order, receives_callback, requests_refund, approves_refund, reconciles_order,
  serve_all, serve_all-IsReconciled,
}
use myagent_bot.Platform.Service.Callback.{CallbackEnds, callback_ends}
use myagent_bot.Platform.Service.Approval.{IsUntouched, approve-IsUntouched}
use myagent_bot.Platform.Service.Request.{RequestEnds, request_refund_ends}

abbrev clocks : ℕ → Clock
clocks k = noon

abbrev decision : RefundDecisionInput
decision = record {
  status = "";
  review_note = "ok";
  reviewed_by = "root";
  refund_provider = "";
  external_refund_id = "";
  external_status = "";
  failure_reason = "";
}

-- A provider that makes every refund, and says that every order is paid and pending no more.
abbrev easypay : Provider
easypay = record manual_provider {
  name = "easypay";
  query_order = λ order_id external_id. ok (record {
    order_id = order_id;
    external_order_id = external_id;
    amount_fen = pos 300;
    status = "paid";
    provider_status = "TRADE_SUCCESS";
    paid = true;
    refunded = false;
    last_checked_unix = pos 9;
  });
  refund = λ input. ok (record {
    order_id = input.order_id;
    external_order_id = input.external_order_id;
    external_refund_id = "r1";
    amount_fen = input.amount_fen;
    status = "ok";
    provider_status = "REFUNDED";
    succeeded = true;
    pending = false;
    message = "";
  });
}

abbrev history : List ((ℕ → Clock) × (ℕ → Clock) × Provider × ServiceCall)
history =
    (
      clocks,
      clocks,
      easypay,
      creates_order (pos 10) "v1" [] "ann" (record { amount_fen = pos 300; channel = "web" }),
    )
    ∷ (
      clocks,
      clocks,
      easypay,
      receives_callback "ord_1700000000000000000" "easypay" "x1" (pos 300),
    )
    ∷ (
      clocks,
      clocks,
      easypay,
      requests_refund "ann" (pos 100) "ord_1700000000000000000" "too much",
    )
    ∷ (clocks, clocks, easypay, approves_refund "refund_1700000000000000000" decision)
    ∷ (clocks, clocks, easypay, reconciles_order "ord_1700000000000000000")
    ∷ []

serve_all-IsReconciled_example : IsReconciled (serve_all history new_memory_store)
serve_all-IsReconciled_example =
    serve_all-IsReconciled history new_memory_store new_memory_store-IsReconciled

abbrev pending_store : MemoryStore
pending_store =
    store_of (order_of "pending" (pos 300) (pos 0)) (request_of "pending" (pos 100)) (pos 500)

callback_ends_example :
    CallbackEnds "ord_1"
      (pos 300)
      pending_store
      (handle_successful_recharge_callback clocks "ord_1" "easypay" "x1" (pos 300) pending_store)
callback_ends_example = callback_ends clocks "ord_1" "easypay" "x1" (pos 300) pending_store

abbrev paid_store : MemoryStore
paid_store =
    store_of (order_of "paid" (pos 300) (pos 0)) (request_of "refunded" (pos 100)) (pos 500)

request_refund_ends_example :
    RequestEnds "ann"
      (pos 200)
      "ord_1"
      paid_store
      (request_refund clocks "ann" (pos 200) "ord_1" "too much" paid_store)
request_refund_ends_example =
    request_refund_ends clocks "ann" (pos 200) "ord_1" "too much" paid_store

approve-IsUntouched_example :
    IsUntouched pending_store
      (approve_refund_request clocks manual_provider "refund_1" decision pending_store).0.1
approve-IsUntouched_example =
    approve-IsUntouched clocks manual_provider "refund_1" decision pending_store (λ q. refl)
