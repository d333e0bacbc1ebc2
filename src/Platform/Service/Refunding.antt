-- ===== src/Platform/Service/Refunding.antt =====
-- Refund requests and the reconciliation of orders: governance.go of Platform/internal/service.
use Prim.Native.String.{◌++◌ as append}
use text.Mathlib.Text.{◌==◌}
use myagent_bot.Base.{ℕ, String, not, ◌||◌, List, [], ◌∷◌, Result, ok, err, if◌then◌else◌}
use myagent_bot.Base.Int.{ℤ, pos, ltb_ℤ, leb_ℤ}
use myagent_bot.Base.Int64.{sub64}
use myagent_bot.Base.Text.{trim_space, decimal}
use myagent_bot.Platform.Types.{
  WalletSummary, RechargeOrder, RefundRequest, RefundDecisionInput, AdminAuditLog, Clock,
  invalid_amount, refund_not_allowed,
}
use myagent_bot.Platform.Store.State.{MemoryStore, Outcome, unix}
use myagent_bot.Platform.Store.Wallet.{get_wallet}
use myagent_bot.Platform.Store.Orders.{get_order, find_order_by_id}
use myagent_bot.Platform.Store.Refunds.{
  create_refund_request, get_refund_request, apply_refund_decision,
}
use myagent_bot.Platform.Billing.{and_then}
use myagent_bot.Platform.Service.Provider.{
  Provider, RefundInput, RefundResult, PaymentError, not_supported, failed, first_non_empty,
  signed_decimal, append_service_audit, blank_audit,
}

-- the audit entry of a refund request
abbrev refund_audit : Clock → ℕ → String → String → String → String → String → AdminAuditLog
refund_audit clock k actor action target risk detail = record blank_audit {
  id = append "audit_" (decimal (clock k));
  actor_user_id = actor;
  action = action;
  target_type = "refund_request";
  target_id = target;
  risk_level = risk;
  detail = detail;
  created_unix = unix (clock (Prim.Native.Nat.suc k));
}

abbrev pub refundable_of : RechargeOrder → ℤ
refundable_of order = sub64 order.amount_fen order.refunded_fen

-- The request that `CreateRefundRequest` writes.
abbrev pub new_refund_request : Clock → String → ℤ → String → String → RefundRequest
new_refund_request clock user_id amount_fen order_id reason = record {
  id = append "refund_" (decimal (clock 0));
  user_id = user_id;
  user_no = pos 0;
  username = "";
  order_id = order_id;
  amount_fen = amount_fen;
  reason = trim_space reason;
  status = "pending";
  review_note = "";
  reviewed_by = "";
  refund_provider = "";
  external_refund_id = "";
  external_status = "";
  failure_reason = "";
  created_unix = unix (clock 1);
  updated_unix = unix (clock 2);
  settled_unix = pos 0;
}

-- the part of `CreateRefundRequest` after the wallet is read
unfoldable pub save_refund_request :
    (ℕ → Clock) → String → ℤ → String → String → WalletSummary → MemoryStore → Outcome RefundRequest
save_refund_request clocks user_id amount_fen order_id reason wallet s =
    let request = new_refund_request (clocks 0) user_id amount_fen order_id reason in
    let detail =
      append "order=" (append order_id (append " amount_fen=" (signed_decimal amount_fen))) in
    let audit =
      refund_audit (clocks 0) 3 user_id "refund_request.created" request.id "medium" detail in
    if ltb_ℤ wallet.balance_fen amount_fen
    then (err refund_not_allowed, s)
    else (ok request, append_service_audit (clocks 2) audit (create_refund_request request s))

-- the part of `CreateRefundRequest` after the order is read
unfoldable pub check_refund :
    (ℕ → Clock) → String → ℤ → String → String → RechargeOrder → MemoryStore → Outcome RefundRequest
check_refund clocks user_id amount_fen order_id reason order s =
    let refundable = refundable_of order in
    if not (order.status == "paid")
    then (err refund_not_allowed, s)
    else if leb_ℤ amount_fen (pos 0)
    then (err invalid_amount, s)
    else if leb_ℤ refundable (pos 0) || ltb_ℤ refundable amount_fen
    then (err refund_not_allowed, s)
    else and_then (get_wallet (clocks 1) user_id s)
        (save_refund_request clocks user_id amount_fen order_id reason)

-- `CreateRefundRequest` of the service
unfoldable pub request_refund :
    (ℕ → Clock) → String → ℤ → String → String → MemoryStore → Outcome RefundRequest
request_refund clocks user_id amount_fen order_id reason s =
    and_then (get_order user_id order_id s) (check_refund clocks user_id amount_fen order_id reason)

-- `ReviewRefundRequest`; the store's clock is `clocks 1`
unfoldable pub review_refund_request :
    (ℕ → Clock) → String → RefundDecisionInput → MemoryStore → Outcome RefundRequest
review_refund_request clocks request_id input s =
    and_then (apply_refund_decision (clocks 1) request_id input (unix (clocks 0 0)) s)
      (λ request s'.
        let order = append " order=" (append request.order_id " amount_fen=") in
        let detail =
          append "status="
            (append request.status (append order (signed_decimal request.amount_fen))) in
        let audit =
          refund_audit (clocks 0) 1 request.reviewed_by "refund_request.reviewed" request.id "high"
            detail in
        (ok request, append_service_audit (clocks 2) audit s'))

-- What the provider is asked, of the request and its order.
unfoldable pub refund_question : RefundRequest → RechargeOrder → RefundDecisionInput → RefundInput
refund_question request order input = record {
  order_id = order.id;
  external_order_id = order.external_id;
  amount_fen = request.amount_fen;
  reason = first_non_empty (trim_space request.reason ∷ trim_space input.review_note ∷ []);
}

-- the two assignments to the input before the provider is asked
abbrev pub reviewed_input : Provider → RechargeOrder → RefundDecisionInput → RefundDecisionInput
reviewed_input provider order input = record input {
  reviewed_by = trim_space input.reviewed_by;
  refund_provider =
      first_non_empty (trim_space input.refund_provider ∷ order.provider ∷ provider.name ∷ []);
}

abbrev with_answer : String → RefundResult → RefundDecisionInput → RefundDecisionInput
with_answer status answer input = record input {
  status = status;
  external_refund_id = answer.external_refund_id;
  external_status = answer.provider_status;
}

-- The `switch` on the provider's answer: the decision that is handed to the store. An answer that
-- comes with an error has no fields.
unfoldable pub decision_for :
    Result PaymentError RefundResult → RefundDecisionInput → RefundDecisionInput
decision_for (ok answer) input =
    if answer.succeeded
    then with_answer "refunded" answer input
    else if answer.pending
    then with_answer "approved_pending_payout" answer input
    else record (with_answer "refund_failed" answer input) { failure_reason = answer.message }
decision_for (err (not_supported text)) input = record input {
  status = "approved_pending_payout";
  external_status = "manual_payout_required";
  failure_reason = text;
}
decision_for (err (failed text)) input = record input {
  status = "refund_failed";
  failure_reason = text;
  external_refund_id = "";
  external_status = "";
}

-- The outcome of an approval, with what the provider was asked to refund.
abbrev pub Approved : Type 0
Approved = Outcome RefundRequest × List RefundInput

-- the part of `ApproveRefundRequest` after the provider's answer
unfoldable pub apply_approval :
    (ℕ → Clock) → String → RefundDecisionInput → MemoryStore → Outcome RefundRequest
apply_approval clocks request_id input s =
    and_then (apply_refund_decision (clocks 1) request_id input (unix (clocks 0 0)) s)
      (λ request s'.
        let detail =
          append "status="
            (append request.status (append " external_status=" request.external_status)) in
        let audit =
          refund_audit (clocks 0) 1 input.reviewed_by "refund_request.approved" request.id "high"
            detail in
        (ok request, append_service_audit (clocks 2) audit s'))

-- the part of `ApproveRefundRequest` after the request is read
unfoldable pub ask_and_apply :
    (ℕ → Clock)
    → Provider
    → String
    → RefundDecisionInput
    → RefundRequest
    → Outcome RechargeOrder
    → Approved
ask_and_apply clocks provider request_id input request (err e, s) = ((err e, s), [])
ask_and_apply clocks provider request_id input request (ok order, s) =
    let named = reviewed_input provider order input in
    let question = refund_question request order named in
    (
      apply_approval clocks request_id (decision_for (provider.refund question) named) s,
      question ∷ [],
    )

unfoldable pub approve_found :
    (ℕ → Clock) → Provider → String → RefundDecisionInput → Outcome RefundRequest → Approved
approve_found clocks provider request_id input (err e, s) = ((err e, s), [])
approve_found clocks provider request_id input (ok request, s) =
    ask_and_apply clocks provider request_id input request (find_order_by_id request.order_id s)

-- `ApproveRefundRequest`, of a service that has a provider: without one, the call of its `Name`
-- comes before the check for it, and panics.
unfoldable pub approve_refund_request :
    (ℕ → Clock) → Provider → String → RefundDecisionInput → MemoryStore → Approved
approve_refund_request clocks provider request_id input s =
    approve_found clocks provider request_id input (get_refund_request request_id s)

unfoldable pub mark_refund_settled :
    (ℕ → Clock) → String → RefundDecisionInput → MemoryStore → Outcome RefundRequest
mark_refund_settled clocks request_id input s =
    and_then
      (apply_refund_decision (clocks 1) request_id (record input { status = "refunded" })
        (unix (clocks 0 0)) s)
      (λ request s'.
        let audit =
          refund_audit (clocks 0) 1 input.reviewed_by "refund_request.settled" request.id "high"
            (append "external_refund_id=" request.external_refund_id) in
        (ok request, append_service_audit (clocks 2) audit s'))
