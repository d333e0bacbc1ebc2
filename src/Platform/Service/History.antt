-- ===== src/Platform/Service/History.antt =====
-- Whole histories of the service's payment methods, with any payment providers.
use myagent_bot.Base.{ℕ, String, not, ◌&&◌, List, [], ◌∷◌, Option, some, Result, ok, err}
use text.Mathlib.Text.{◌==◌}
use myagent_bot.Base.Int.{ℤ, pos, ltb_ℤ}
use myagent_bot.Platform.Types.{RechargeOrder, RefundRequest, RefundDecisionInput, Clock}
use myagent_bot.Platform.Store.State.{MemoryStore, Outcome}
use myagent_bot.Platform.Store.Orders.{find_order_by_id}
use myagent_bot.Platform.Store.Refunds.{get_refund_request}
use myagent_bot.Platform.Store.Entries.{IsReconciled}
use myagent_bot.Platform.Billing.{and_then, without_value}
use myagent_bot.Platform.Service.Provider.{Provider, PaymentError, OrderStatusResult}
use myagent_bot.Platform.Service.Recharge.{
  CreateOrderInput, provider_or_manual, create_recharge_order, handle_successful_recharge,
  handle_successful_recharge_callback,
}
use myagent_bot.Platform.Service.Refunding.{
  request_refund, review_refund_request, approve_refund_request, mark_refund_settled, refundable_of,
}
use myagent_bot.Platform.Service.Reconcile.{
  settle_request, save_refunded, save_checked, audit_reconciled, found_or_created, settle_refunded,
  reconcile_externally_refunded_order, reconcile_status, reconcile_answer, reconcile_recharge_order,
  reconcile_request_id, checked_order,
}
use myagent_bot.Platform.Service.Sound.{
  Keeps, Keeps-and_then, Keeps-if, audit_keeps, save_keeps, request_keeps, find-Keeps,
  get_request-Keeps, create-Keeps, recharge-Keeps, callback-Keeps, review-Keeps, settled-Keeps,
  request_refund-Keeps, approve-Keeps,
}

found_or_created-Keeps :
    (clock : Clock) (order : RechargeOrder) (s : MemoryStore) (o : Outcome RefundRequest)
    → Keeps s o
    → Keeps s (found_or_created clock order o)
unfolding found_or_created
found_or_created-Keeps clock order s (ok request, s') h = h
found_or_created-Keeps clock order s (err e, s') h = λ r. request_keeps _ s' (h r)

settle_request-Keeps :
    (clocks : ℕ → Clock) (id : String) (input : RefundDecisionInput) (request : RefundRequest)
    (s : MemoryStore)
    → Keeps s (settle_request clocks id input request s)
unfolding settle_request
settle_request-Keeps clocks id input request s =
    Keeps-if s (not (request.status == "refunded")) _ _
      (without_value_keeps _ (settled-Keeps clocks id input s)) (λ r. r)
  where
    without_value_keeps : (o : Outcome RefundRequest) → Keeps s o → Keeps s (without_value o)
    without_value_keeps (ok _, s') h = h
    without_value_keeps (err e, s') h = h

settle_refunded-Keeps :
    (clocks inner : ℕ → Clock) (payment : Option Provider) (status : OrderStatusResult)
    (order : RechargeOrder) (s : MemoryStore)
    → Keeps s (settle_refunded clocks inner payment status order s)
unfolding settle_refunded
settle_refunded-Keeps clocks inner payment status order s =
    let id = reconcile_request_id order in
    Keeps-if s (ltb_ℤ (pos 0) (refundable_of order)) _ _
      (Keeps-and_then s (found_or_created (clocks 1) order (get_refund_request id s))
        (settle_request inner id _)
        (found_or_created-Keeps (clocks 1) order s (get_refund_request id s)
          (get_request-Keeps id s))
        (settle_request-Keeps inner id _))
      (λ r. r)

find_then-Keeps :
    {B : Type 0} (id : String) (s : MemoryStore) (k : RechargeOrder → MemoryStore → Outcome B)
    → ((order : RechargeOrder) (s' : MemoryStore) → Keeps s' (k order s'))
    → Keeps s (and_then (find_order_by_id id s) k)
find_then-Keeps id s k h = Keeps-and_then s (find_order_by_id id s) k (find-Keeps id s) h

refunded-Keeps :
    (clocks inner : ℕ → Clock) (payment : Option Provider) (order : RechargeOrder)
    (status : OrderStatusResult) (s : MemoryStore)
    → Keeps s (reconcile_externally_refunded_order clocks inner payment order status s)
unfolding reconcile_externally_refunded_order
refunded-Keeps clocks inner payment order status s =
    Keeps-and_then s (settle_refunded clocks inner payment status order s)
      (λ _ s'. and_then (find_order_by_id order.id s') (save_refunded clocks status))
      (settle_refunded-Keeps clocks inner payment status order s)
      (λ _ s'.
        find_then-Keeps order.id s' (save_refunded clocks status)
          (λ found s''. unfold save_refunded in save_keeps (clocks 2) _ s''))

paid-Keeps :
    (clocks inner : ℕ → Clock) (status : OrderStatusResult) (order : RechargeOrder)
    (external_id : String) (s : MemoryStore)
    → Keeps s (
        and_then
          (handle_successful_recharge inner order.id order.provider external_id s)
          (λ changed s'.
            and_then (find_order_by_id order.id s') (save_checked clocks status changed)))
paid-Keeps clocks inner status order external_id s =
    Keeps-and_then s (handle_successful_recharge inner order.id order.provider external_id s) _
      (recharge-Keeps inner order.id order.provider external_id s)
      (λ changed s'.
        find_then-Keeps order.id s' (save_checked clocks status changed)
          (λ found s''. unfold save_checked in save_keeps (clocks 2) _ s''))

status-Keeps :
    (clocks inner : ℕ → Clock) (payment : Option Provider) (status : OrderStatusResult)
    (order : RechargeOrder) (s : MemoryStore)
    → Keeps s (reconcile_status clocks inner payment status order s)
unfolding reconcile_status
status-Keeps clocks inner payment status order s =
    Keeps-if s (status.paid && order.status == "pending") _ _
      (paid-Keeps clocks inner status order _ s)
      (Keeps-if s (status.refunded && not (order.status == "refunded")) _ _
        (refunded-Keeps clocks inner payment order status s)
        (Keeps-if s (order.status == "paid" && not status.refunded) _ _ (save_keeps (clocks 2) _ s)
          (save_keeps (clocks 2) _ s)))

reconcile-Keeps :
    (clocks inner : ℕ → Clock) (payment : Option Provider) (order_id : String) (s : MemoryStore)
    → Keeps s (reconcile_recharge_order clocks inner payment order_id s)
unfolding reconcile_recharge_order
reconcile-Keeps clocks inner payment order_id s = find_then-Keeps order_id s _ (λ order s'.
    answered order s' ((provider_or_manual payment).query_order order.id order.external_id))
  where
    answered :
        (order : RechargeOrder) (s' : MemoryStore) (answer : Result PaymentError OrderStatusResult)
        → Keeps s' (reconcile_answer clocks inner payment order answer s')
    answered order s' (err e) = unfold reconcile_answer in λ r. r
    answered order s' (ok status) =
        unfold reconcile_answer in
        Keeps-and_then s'
          (reconcile_status clocks inner payment status (checked_order status order) s')
          (audit_reconciled clocks status)
          (status-Keeps clocks inner payment status (checked_order status order) s')
          (λ result s''. unfold audit_reconciled in audit_keeps (clocks 3) _ s'')

-- The payment methods of the service, as calls.
pub data ServiceCall : Type 0 where
  creates_order : ℤ → String → List String → String → CreateOrderInput → ServiceCall
  receives_callback : String → String → String → ℤ → ServiceCall
  requests_refund : String → ℤ → String → String → ServiceCall
  reviews_refund : String → RefundDecisionInput → ServiceCall
  approves_refund : String → RefundDecisionInput → ServiceCall
  settles_refund : String → RefundDecisionInput → ServiceCall
  reconciles_order : String → ServiceCall

-- The state after a call, with the provider that answers in it and the clocks that it reads.
unfoldable pub serve :
    (ℕ → Clock) → (ℕ → Clock) → Provider → ServiceCall → MemoryStore → MemoryStore
serve t t' provider (creates_order min_fen pricing versions user_id input) s =
    (create_recharge_order t (some provider) min_fen pricing versions user_id input s).1
serve t t' provider (receives_callback order_id name external_id fen) s =
    (handle_successful_recharge_callback t order_id name external_id fen s).1
serve t t' provider (requests_refund user_id fen order_id reason) s =
    (request_refund t user_id fen order_id reason s).1
serve t t' provider (reviews_refund id input) s = (review_refund_request t id input s).1
serve t t' provider (approves_refund id input) s =
    (approve_refund_request t provider id input s).0.1
serve t t' provider (settles_refund id input) s = (mark_refund_settled t id input s).1
serve t t' provider (reconciles_order id) s = (reconcile_recharge_order t t' (some provider) id s).1

unfoldable pub serve_all :
    List ((ℕ → Clock) × (ℕ → Clock) × Provider × ServiceCall) → MemoryStore → MemoryStore
serve_all [] s = s
serve_all ((t, t', provider, call) ∷ calls) s = serve_all calls (serve t t' provider call s)

serve_keeps :
    (t t' : ℕ → Clock) (provider : Provider) (call : ServiceCall) (s : MemoryStore)
    → IsReconciled s
    → IsReconciled (serve t t' provider call s)
unfolding serve
serve_keeps t t' provider (creates_order min_fen pricing versions user_id input) s =
    create-Keeps t (some provider) min_fen pricing versions user_id input s
serve_keeps t t' provider (receives_callback order_id name external_id fen) s =
    callback-Keeps t order_id name external_id fen s
serve_keeps t t' provider (requests_refund user_id fen order_id reason) s =
    request_refund-Keeps t user_id fen order_id reason s
serve_keeps t t' provider (reviews_refund id input) s = review-Keeps t id input s
serve_keeps t t' provider (approves_refund id input) s = approve-Keeps t provider id input s
serve_keeps t t' provider (settles_refund id input) s = settled-Keeps t id input s
serve_keeps t t' provider (reconciles_order id) s = reconcile-Keeps t t' (some provider) id s

-- Every history of the service's payment calls on a reconciled store ends with each balance equal to
-- the sum of its user's entries, whatever the payment providers answer in it, errors included.
pub serve_all-IsReconciled :
    (calls : List ((ℕ → Clock) × (ℕ → Clock) × Provider × ServiceCall)) (s : MemoryStore)
    → IsReconciled s
    → IsReconciled (serve_all calls s)
unfolding serve_all
serve_all-IsReconciled [] s r = r
serve_all-IsReconciled ((t, t', provider, call) ∷ calls) s r =
    serve_all-IsReconciled calls (serve t t' provider call s) (serve_keeps t t' provider call s r)
