-- ===== src/Platform/Service/Sound.antt =====
-- The ledger under whole histories of the service's payment methods, with any payment providers.
use myagent_bot.Base.{
  ℕ, String, Bool, true, false, not, ◌||◌, refl, subst, sym, List, Option, Result, ok, err,
  if◌then◌else◌,
}
use text.Mathlib.Text.{◌==◌}
use myagent_bot.Base.Int.{ℤ, pos, ltb_ℤ, leb_ℤ}
use myagent_bot.Platform.Types.{
  WalletSummary, RechargeOrder, RefundRequest, RefundDecisionInput, AdminAuditLog, Clock,
}
use myagent_bot.Platform.Store.State.{MemoryStore, Outcome}
use myagent_bot.Platform.Store.Wallet.{get_wallet, append_audit_log}
use myagent_bot.Platform.Store.Orders.{get_order, find_order_by_id, save_order}
use myagent_bot.Platform.Store.Refunds.{
  create_refund_request, get_refund_request, apply_refund_decision,
}
use myagent_bot.Platform.Store.Entries.{IsReconciled, IsReconciled-frame}
use myagent_bot.Platform.Ledger.{
  ended, perform, gets_wallet, gets_order, finds_order, finalizes, gets_refund, decides,
}
use myagent_bot.Platform.Ledger.Sound.{IsSound}
use myagent_bot.Platform.Ledger.Reconcile.{perform-IsSound}
use myagent_bot.Platform.Billing.{and_then}
use myagent_bot.Platform.Service.Provider.{
  Provider, PaymentError, PaymentOrder, append_service_audit,
}
use myagent_bot.Platform.Service.Recharge.{
  CreateOrderInput, new_recharge_order, normalize_min_recharge, provider_or_manual, save_created,
  create_recharge_order, audit_paid, handle_successful_recharge, check_callback,
  handle_successful_recharge_callback,
}
use myagent_bot.Platform.Service.Refunding.{
  check_refund, save_refund_request, request_refund, review_refund_request, apply_approval,
  ask_and_apply, approve_found, approve_refund_request, mark_refund_settled, refundable_of,
}

-- The state after an outcome is reconciled, if the state before was.
abbrev pub Keeps : {A : Type 0} → MemoryStore → Outcome A → Type 0
Keeps s o = IsReconciled s → IsReconciled o.1

Keeps-sound : {A : Type 0} (s : MemoryStore) (o : Outcome A) → IsSound s (ended o) → Keeps s o
Keeps-sound s (ok a, s') h r = h r
Keeps-sound s (err e, s') h r = subst IsReconciled (sym h) r

pub Keeps-and_then :
    {A B : Type 0} (s : MemoryStore) (o : Outcome A) (k : A → MemoryStore → Outcome B)
    → Keeps s o
    → ((a : A) (s' : MemoryStore) → Keeps s' (k a s'))
    → Keeps s (and_then o k)
Keeps-and_then s (ok a, s') k h g r = g a s' (h r)
Keeps-and_then s (err e, s') k h g r = h r

pub Keeps-if :
    {A : Type 0} (s : MemoryStore) (b : Bool) (o p : Outcome A)
    → Keeps s o
    → Keeps s p
    → Keeps s (if b then o else p)
Keeps-if s true o p h g = h
Keeps-if s false o p h g = g

pub audit_keeps :
    (clock : Clock) (entry : AdminAuditLog) (s : MemoryStore)
    → IsReconciled s
    → IsReconciled (append_service_audit clock entry s)
unfolding append_service_audit append_audit_log
audit_keeps clock entry s = IsReconciled-frame s _ refl refl

pub save_keeps :
    (clock : Clock) (order : RechargeOrder) (s : MemoryStore)
    → IsReconciled s
    → IsReconciled (save_order clock order s)
unfolding save_order
save_keeps clock order s = IsReconciled-frame s _ refl refl

pub request_keeps :
    (request : RefundRequest) (s : MemoryStore)
    → IsReconciled s
    → IsReconciled (create_refund_request request s)
unfolding create_refund_request
request_keeps request s = IsReconciled-frame s _ refl refl

pub find-Keeps : (id : String) (s : MemoryStore) → Keeps s (find_order_by_id id s)
unfolding perform
find-Keeps id s = Keeps-sound s _ (perform-IsSound (λ _. 0) (finds_order id) s refl)

wallet-Keeps : (t : Clock) (id : String) (s : MemoryStore) → Keeps s (get_wallet t id s)
unfolding perform
wallet-Keeps t id s = Keeps-sound s _ (perform-IsSound t (gets_wallet id) s refl)

order-Keeps : (user_id id : String) (s : MemoryStore) → Keeps s (get_order user_id id s)
unfolding perform
order-Keeps user_id id s = Keeps-sound s _ (perform-IsSound (λ _. 0) (gets_order user_id id) s refl)

pub get_request-Keeps : (id : String) (s : MemoryStore) → Keeps s (get_refund_request id s)
unfolding perform
get_request-Keeps id s = Keeps-sound s _ (perform-IsSound (λ _. 0) (gets_refund id) s refl)

pub decide-Keeps :
    (t : Clock) (id : String) (input : RefundDecisionInput) (u : ℤ) (s : MemoryStore)
    → Keeps s (apply_refund_decision t id input u s)
unfolding perform
decide-Keeps t id input u s = Keeps-sound s _ (perform-IsSound t (decides id input u) s refl)

pub create-Keeps :
    (clocks : ℕ → Clock) (payment : Option Provider) (min_fen : ℤ) (pricing_version : String)
    (versions : List String) (user_id : String) (input : CreateOrderInput) (s : MemoryStore)
    → Keeps s
        (create_recharge_order clocks payment min_fen pricing_version versions user_id input s)
unfolding create_recharge_order
create-Keeps clocks payment min_fen pricing_version versions user_id input s =
    let order = new_recharge_order (clocks 0) pricing_version versions user_id input in
    Keeps-if s (leb_ℤ input.amount_fen (pos 0)) _ _ (λ r. r)
      (Keeps-if s (ltb_ℤ input.amount_fen (normalize_min_recharge min_fen)) _ _ (λ r. r)
        (saved order ((provider_or_manual payment).create_order order.id order.amount_fen)))
  where
    saved :
        (order : RechargeOrder) (answer : Result PaymentError PaymentOrder)
        → Keeps s (save_created clocks user_id order answer s)
    saved order (err e) = unfold save_created in λ r. r
    saved order (ok placed) = unfold save_created in λ r. audit_keeps _ _ _ (save_keeps _ _ s r)

pub recharge-Keeps :
    (clocks : ℕ → Clock) (id provider external_id : String) (s : MemoryStore)
    → Keeps s (handle_successful_recharge clocks id provider external_id s)
unfolding handle_successful_recharge
recharge-Keeps clocks id provider external_id s = audited _ (
    unfold perform in
    Keeps-sound s _
      (perform-IsSound (clocks 1) (finalizes id provider external_id "recharge order paid") s refl))
  where
    audited :
        (o : Outcome (RechargeOrder × WalletSummary × Bool))
        → Keeps s o
        → Keeps s (audit_paid clocks provider o)
    audited (err e, s') h = unfold audit_paid in h
    audited (ok (order, wallet, false), s') h = unfold audit_paid in h
    audited (ok (order, wallet, true), s') h = unfold audit_paid in λ r. audit_keeps _ _ s' (h r)

pub callback-Keeps :
    (clocks : ℕ → Clock) (id provider external_id : String) (fen : ℤ) (s : MemoryStore)
    → Keeps s (handle_successful_recharge_callback clocks id provider external_id fen s)
unfolding handle_successful_recharge_callback
callback-Keeps clocks id provider external_id fen s = checked _ (find-Keeps id s)
  where
    checked :
        (o : Outcome RechargeOrder)
        → Keeps s o
        → Keeps s (check_callback clocks id provider external_id fen o)
    checked (err e, s') h = unfold check_callback in h
    checked (ok order, s') h =
        unfold check_callback in
        λ r. Keeps-if s' _ _ _ (λ q. q) (recharge-Keeps clocks id provider external_id s') (h r)

-- the tail that the refund methods share: an audit entry after a decision of the store
decide_audit-Keeps :
    (t : Clock) (id : String) (input : RefundDecisionInput) (u : ℤ) (s : MemoryStore)
    (clock : Clock) (entry : RefundRequest → AdminAuditLog)
    → Keeps s (
        and_then
          (apply_refund_decision t id input u s)
          (λ request s'. (ok request, append_service_audit clock (entry request) s')))
decide_audit-Keeps t id input u s clock entry =
    Keeps-and_then s _ _ (decide-Keeps t id input u s)
      (λ request s'. audit_keeps clock (entry request) s')

pub review-Keeps :
    (clocks : ℕ → Clock) (id : String) (input : RefundDecisionInput) (s : MemoryStore)
    → Keeps s (review_refund_request clocks id input s)
unfolding review_refund_request
review-Keeps clocks id input s = decide_audit-Keeps (clocks 1) id input _ s (clocks 2) _

pub settled-Keeps :
    (clocks : ℕ → Clock) (id : String) (input : RefundDecisionInput) (s : MemoryStore)
    → Keeps s (mark_refund_settled clocks id input s)
unfolding mark_refund_settled
settled-Keeps clocks id input s = decide_audit-Keeps (clocks 1) id _ _ s (clocks 2) _

pub request_refund-Keeps :
    (clocks : ℕ → Clock) (user_id : String) (fen : ℤ) (order_id reason : String) (s : MemoryStore)
    → Keeps s (request_refund clocks user_id fen order_id reason s)
unfolding request_refund
request_refund-Keeps clocks user_id fen order_id reason s =
    Keeps-and_then s _ _ (order-Keeps user_id order_id s) checked
  where
    saved :
        (wallet : WalletSummary) (s' : MemoryStore)
        → Keeps s' (save_refund_request clocks user_id fen order_id reason wallet s')
    saved wallet s' =
        unfold save_refund_request in
        Keeps-if s' (ltb_ℤ wallet.balance_fen fen) _ _ (λ r. r)
          (λ r. audit_keeps _ _ _ (request_keeps _ s' r))

    checked :
        (order : RechargeOrder) (s' : MemoryStore)
        → Keeps s' (check_refund clocks user_id fen order_id reason order s')
    checked order s' =
        unfold check_refund in
        Keeps-if s' (not (order.status == "paid")) _ _ (λ r. r)
          (Keeps-if s' (leb_ℤ fen (pos 0)) _ _ (λ r. r)
            (Keeps-if s' (leb_ℤ (refundable_of order) (pos 0) || ltb_ℤ (refundable_of order) fen) _
              _ (λ r. r) (Keeps-and_then s' _ _ (wallet-Keeps (clocks 1) user_id s') saved)))

pub approve-Keeps :
    (clocks : ℕ → Clock) (provider : Provider) (id : String) (input : RefundDecisionInput)
    (s : MemoryStore)
    → Keeps s (approve_refund_request clocks provider id input s).0
unfolding approve_refund_request
approve-Keeps clocks provider id input s = found _ (get_request-Keeps id s)
  where
    asked :
        (request : RefundRequest) (o : Outcome RechargeOrder)
        → Keeps s o
        → Keeps s (ask_and_apply clocks provider id input request o).0
    asked request (err e, s') h = unfold ask_and_apply in h
    asked request (ok order, s') h =
        unfold ask_and_apply apply_approval in
        λ r. decide_audit-Keeps (clocks 1) id _ _ s' (clocks 2) _ (h r)

    found :
        (o : Outcome RefundRequest)
        → Keeps s o
        → Keeps s (approve_found clocks provider id input o).0
    found (err e, s') h = unfold approve_found in h
    found (ok request, s') h =
        unfold approve_found in
        asked request (find_order_by_id request.order_id s')
          (λ r. find-Keeps request.order_id s' (h r))
