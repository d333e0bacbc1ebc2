-- ===== src/Platform/Store/Refunds.antt =====
-- The refund methods of `MemoryStore`.
use text.Mathlib.Text.{◌==◌}
use myagent_bot.Base.{String, Bool, not, ◌&&◌, ◌||◌, none, some, ok, err, if◌then◌else◌}
use myagent_bot.Base.Dict.{lookup, insert}
use myagent_bot.Base.Int.{ℤ, pos, eqb_ℤ, ltb_ℤ, leb_ℤ}
use myagent_bot.Base.Int64.{add64, sub64, neg64}
use myagent_bot.Base.Text.{trim_space, to_lower, has_prefix}
use myagent_bot.Platform.Types.{
  RechargeOrder, RefundRequest, RefundDecisionInput, order_not_found, refund_request_not_found,
  refund_not_allowed, Clock,
}
use myagent_bot.Platform.Store.State.{
  MemoryStore, Outcome, wallet_of, append_transaction, new_transaction, tx_id,
}
use myagent_bot.Platform.Store.Users.{ensure_user_identity}

-- `CreateRefundRequest` and `SaveRefundRequest`, whose bodies are the same.
unfoldable pub create_refund_request : RefundRequest → MemoryStore → MemoryStore
create_refund_request request s = record s {
  refund_requests = insert request.id request s.refund_requests;
}

-- `GetRefundRequest`
unfoldable pub get_refund_request : String → MemoryStore → Outcome RefundRequest
unfolding ensure_user_identity
get_refund_request request_id s = elim (lookup request_id s.refund_requests) [
  | none ↦ (err (refund_request_not_found request_id), s)
  | some item ↦
      let (identity, s') = ensure_user_identity item.user_id s in
      (ok (record item { user_no = identity.user_no; username = identity.username }), s')
]

-- A request that is still to be decided.
abbrev pub is_open : RefundRequest → Bool
is_open request = request.status == "pending" || request.status == "approved_pending_payout"

-- The decisions that the `switch` lets through.
abbrev pub is_decision : String → Bool
is_decision status =
    status == "refunded"
    || status == "rejected"
    || status == "refund_failed"
    || status == "approved_pending_payout"

-- The request with the decision's texts on it.
unfoldable pub decided : RefundDecisionInput → ℤ → RefundRequest → RefundRequest
decided input updated_unix request = record request {
  status = to_lower (trim_space input.status);
  review_note = trim_space input.review_note;
  reviewed_by = trim_space input.reviewed_by;
  refund_provider = trim_space input.refund_provider;
  external_refund_id = trim_space input.external_refund_id;
  external_status = trim_space input.external_status;
  failure_reason = trim_space input.failure_reason;
  updated_unix = updated_unix;
}

-- `strings.HasPrefix(strings.ToLower(request.ReviewedBy), "system:")`
unfoldable pub allow_negative_balance : RefundRequest → Bool
allow_negative_balance request = has_prefix (to_lower request.reviewed_by) "system:"

abbrev pub remaining_refundable : RechargeOrder → ℤ
remaining_refundable order = sub64 order.amount_fen order.refunded_fen

-- The order once `amount_fen` more of it has been refunded.
unfoldable pub refunded_order : ℤ → ℤ → RechargeOrder → RechargeOrder
refunded_order amount_fen updated_unix order =
    let sum = add64 order.refunded_fen amount_fen in
    let refunded = if ltb_ℤ order.amount_fen sum then order.amount_fen else sum in
    record order {
      refunded_fen = refunded;
      status = if eqb_ℤ refunded order.amount_fen then "refunded" else order.status;
      updated_unix = updated_unix;
    }

-- The writes of a settlement, after its guards. `request` has the decision on it.
unfoldable pub pay_out :
    Clock → ℤ → RefundRequest → RechargeOrder → MemoryStore → Outcome RefundRequest
pay_out clock updated_unix request order s =
    let old = wallet_of s request.user_id in
    let wallet = record old {
      balance_fen = sub64 old.balance_fen request.amount_fen;
      updated_unix = updated_unix;
    } in
    let tx =
      new_transaction (tx_id (clock 0)) request.user_id "refund" (neg64 request.amount_fen)
        "refund payout" "refund_request" request.id updated_unix in
    let settled = record request { settled_unix = updated_unix } in
    let orders = insert request.order_id (refunded_order request.amount_fen updated_unix order) in
    let paid =
      append_transaction tx (record s {
        wallets = insert request.user_id wallet s.wallets;
        orders = orders s.orders;
      }) in
    (ok settled, paid)

-- The branch of `ApplyRefundDecision` for a request that is to be refunded and is not settled.
unfoldable pub settle : Clock → ℤ → RefundRequest → MemoryStore → Outcome RefundRequest
settle clock updated_unix request s = elim (lookup request.order_id s.orders) [
  | none ↦ (err (order_not_found request.order_id), s)
  | some order ↦
      if leb_ℤ (remaining_refundable order) (pos 0)
        || ltb_ℤ (remaining_refundable order) request.amount_fen
      then (err refund_not_allowed, s)
      else if not (allow_negative_balance request)
          && ltb_ℤ (wallet_of s request.user_id).balance_fen request.amount_fen
      then (err refund_not_allowed, s)
      else pay_out clock updated_unix request order s
]

-- `s.refundRequests[requestID] = request`, at the end of a decision that went through.
unfoldable pub record_decision : String → Outcome RefundRequest → Outcome RefundRequest
record_decision request_id (err e, s) = (err e, s)
record_decision request_id (ok request, s) =
    (ok request, record s { refund_requests = insert request_id request s.refund_requests })

-- `ApplyRefundDecision`
unfoldable pub apply_refund_decision :
    Clock → String → RefundDecisionInput → ℤ → MemoryStore → Outcome RefundRequest
apply_refund_decision clock request_id input updated_unix s =
    elim (lookup request_id s.refund_requests) [
      | none ↦ (err (refund_request_not_found request_id), s)
      | some found ↦
          let request = decided input updated_unix found in
          if not (is_open found)
          then (err refund_not_allowed, s)
          else if not (is_decision request.status)
          then (err refund_not_allowed, s)
          else if request.status == "refunded" && eqb_ℤ request.settled_unix (pos 0)
          then record_decision request_id (settle clock updated_unix request s)
          else record_decision request_id (ok request, s)
    ]
