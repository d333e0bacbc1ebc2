-- ===== src/Platform/Service/Reconcile.antt =====
-- `ReconcileRechargeOrder` of governance.go in Platform/internal/service: an order brought in line with
-- what the payment provider says of it.
use Prim.Native.String.{◌++◌ as append}
use text.Mathlib.Text.{◌==◌}
use myagent_bot.Base.{
  ℕ, String, Bool, true, false, not, ◌&&◌, [], ◌∷◌, Option, none, some, Result, ok, err,
  if◌then◌else◌,
}
use myagent_bot.Base.Int.{ℤ, pos, ltb_ℤ}
use myagent_bot.Base.Text.{trim_space, decimal}
use myagent_bot.Platform.Types.{RechargeOrder, RefundRequest, RefundDecisionInput, Clock, external}
use myagent_bot.Platform.Store.State.{MemoryStore, Outcome, unix}
use myagent_bot.Platform.Store.Orders.{find_order_by_id, save_order}
use myagent_bot.Platform.Store.Refunds.{create_refund_request, get_refund_request}
use myagent_bot.Platform.Billing.{and_then, without_value}
use myagent_bot.Platform.Service.Provider.{
  Provider, OrderStatusResult, PaymentError, error_text, first_non_empty, append_service_audit,
  blank_audit,
}
use myagent_bot.Platform.Service.Recharge.{handle_successful_recharge, provider_or_manual}
use myagent_bot.Platform.Service.Refunding.{mark_refund_settled, new_refund_request, refundable_of}

-- `maxInt64`
unfoldable pub max_int64 : ℤ → ℤ → ℤ
max_int64 a b = if ltb_ℤ b a then a else b

-- the provider's word on an order, put on it
abbrev pub checked_order : OrderStatusResult → RechargeOrder → RechargeOrder
checked_order status order = record order {
  provider_status = status.provider_status;
  last_checked_unix = status.last_checked_unix;
}

abbrev pub reconcile_request_id : RechargeOrder → String
reconcile_request_id order = append "refund_reconcile_" order.id

-- the request that stands for a refund made at the provider
abbrev pub reconcile_request : Clock → RechargeOrder → RefundRequest
reconcile_request clock order =
    record (new_refund_request clock order.user_id (refundable_of order) order.id
      "provider reconciliation marked order refunded") {
        id = reconcile_request_id order;
        refund_provider = order.provider;
      }

-- the request found, or a new one that is stored
unfoldable pub found_or_created :
    Clock → RechargeOrder → Outcome RefundRequest → Outcome RefundRequest
found_or_created clock order (ok request, s) = (ok request, s)
found_or_created clock order (err _, s) =
    let request = reconcile_request clock order in (ok request, create_refund_request request s)

-- the settlement of a request that is not settled; `true` for no value
unfoldable pub settle_request :
    (ℕ → Clock) → String → RefundDecisionInput → RefundRequest → MemoryStore → Outcome Bool
settle_request clocks id input request s =
    if not (request.status == "refunded")
    then without_value (mark_refund_settled clocks id input s)
    else (ok true, s)

-- the settlement of what is left of an order that the provider has refunded; `true` for no value
unfoldable pub settle_refunded :
    (ℕ → Clock)
    → (ℕ → Clock)
    → Option Provider
    → OrderStatusResult
    → RechargeOrder
    → MemoryStore
    → Outcome Bool
settle_refunded clocks settle_clocks payment status order s =
    let service_name : String = elim payment [ none ↦ "" | some p ↦ trim_space p.name ] in
    let provider =
      if trim_space order.provider == "" then service_name else trim_space order.provider in
    let id = reconcile_request_id order in
    let input : RefundDecisionInput = record {
      status = "";
      review_note = "provider reconciliation marked order refunded";
      reviewed_by = "system:reconcile";
      refund_provider = provider;
      external_refund_id = "";
      external_status = status.provider_status;
      failure_reason = "";
    } in
    if ltb_ℤ (pos 0) (refundable_of order)
    then and_then (found_or_created (clocks 1) order (get_refund_request id s))
        (settle_request settle_clocks id input)
    else (ok true, s)

-- the order that `reconcileExternallyRefundedOrder` saves
abbrev pub refunded_at_provider : Clock → OrderStatusResult → RechargeOrder → RechargeOrder
refunded_at_provider clock status order = record (checked_order status order) {
  status = "refunded";
  refunded_fen = max_int64 order.refunded_fen order.amount_fen;
  external_id = first_non_empty (status.external_order_id ∷ order.external_id ∷ []);
  paid_unix = max_int64 order.paid_unix (unix (clock 3));
  updated_unix = unix (clock 4);
}

-- the end of `reconcileExternallyRefundedOrder`, on the order that it reads again
unfoldable pub save_refunded :
    (ℕ → Clock) → OrderStatusResult → RechargeOrder → MemoryStore → Outcome (RechargeOrder × Bool)
save_refunded clocks status found s =
    let refreshed = refunded_at_provider (clocks 1) status found in
    (ok (refreshed, true), save_order (clocks 2) refreshed s)

unfoldable pub reconcile_externally_refunded_order :
    (ℕ → Clock)
    → (ℕ → Clock)
    → Option Provider
    → RechargeOrder
    → OrderStatusResult
    → MemoryStore
    → Outcome (RechargeOrder × Bool)
reconcile_externally_refunded_order clocks settle_clocks payment order status s =
    and_then (settle_refunded clocks settle_clocks payment status order s)
      (λ _ s'. and_then (find_order_by_id order.id s') (save_refunded clocks status))

-- the end of the case of a paid order, on the order that it reads again
unfoldable pub save_checked :
    (ℕ → Clock)
    → OrderStatusResult
    → Bool
    → RechargeOrder
    → MemoryStore
    → Outcome (RechargeOrder × Bool)
save_checked clocks status changed found s =
    let refreshed = checked_order status found in
    (ok (refreshed, changed), save_order (clocks 2) refreshed s)

-- the `switch` of `ReconcileRechargeOrder`; `order` has the provider's word on it
unfoldable pub reconcile_status :
    (ℕ → Clock)
    → (ℕ → Clock)
    → Option Provider
    → OrderStatusResult
    → RechargeOrder
    → MemoryStore
    → Outcome (RechargeOrder × Bool)
reconcile_status clocks inner payment status order s =
    let now = unix (clocks 0 0) in
    let paid = record order {
      external_id = first_non_empty (status.external_order_id ∷ order.external_id ∷ []);
      updated_unix = now;
    } in
    let other = record order { status = status.status; updated_unix = now } in
    let external_id = first_non_empty (status.external_order_id ∷ order.external_id ∷ []) in
    if status.paid && order.status == "pending"
    then and_then (handle_successful_recharge inner order.id order.provider external_id s)
        (λ changed s'. and_then (find_order_by_id order.id s') (save_checked clocks status changed))
    else if status.refunded && not (order.status == "refunded")
    then reconcile_externally_refunded_order clocks inner payment order status s
    else if order.status == "paid" && not status.refunded
    then (ok (paid, false), save_order (clocks 2) paid s)
    else (ok (other, false), save_order (clocks 2) other s)

-- the audit entry at the end of `ReconcileRechargeOrder`
unfoldable pub audit_reconciled :
    (ℕ → Clock)
    → OrderStatusResult
    → RechargeOrder × Bool
    → MemoryStore
    → Outcome (RechargeOrder × Bool)
audit_reconciled clocks status result s =
    let shown : String = if result.1 then "true" else "false" in
    let detail =
      append "provider_status=" (append status.provider_status (append " changed=" shown)) in
    let audit = record blank_audit {
      id = append "audit_" (decimal (clocks 0 1));
      action = "wallet.order.reconciled";
      target_type = "recharge_order";
      target_id = result.0.id;
      risk_level = "medium";
      detail = detail;
      created_unix = unix (clocks 0 2);
    } in
    (ok result, append_service_audit (clocks 3) audit s)

-- the part of `ReconcileRechargeOrder` after the provider's answer
unfoldable pub reconcile_answer :
    (ℕ → Clock)
    → (ℕ → Clock)
    → Option Provider
    → RechargeOrder
    → Result PaymentError OrderStatusResult
    → MemoryStore
    → Outcome (RechargeOrder × Bool)
reconcile_answer clocks inner payment order (err e) s = (err (external (error_text e)), s)
reconcile_answer clocks inner payment order (ok status) s =
    and_then (reconcile_status clocks inner payment status (checked_order status order) s)
      (audit_reconciled clocks status)

-- `ReconcileRechargeOrder`. The first clocks are its own, the others those of the calls of the service
-- that it makes.
unfoldable pub reconcile_recharge_order :
    (ℕ → Clock)
    → (ℕ → Clock)
    → Option Provider
    → String
    → MemoryStore
    → Outcome (RechargeOrder × Bool)
reconcile_recharge_order clocks inner payment order_id s =
    and_then (find_order_by_id order_id s) (λ order s'.
      reconcile_answer clocks inner payment order
        ((provider_or_manual payment).query_order order.id order.external_id) s')
