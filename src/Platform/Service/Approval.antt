-- ===== src/Platform/Service/Approval.antt =====
-- The approval of refunds, `ApproveRefundRequest` of governance.go: what the payment provider is asked,
-- and what its answer does to the ledger.
use text.Mathlib.Text.{◌==◌}
use myagent_bot.Base.{
  true≢false, ℕ, String, Bool, true, false, ◌≡◌, inl, inr, refl, sym, ◌∙◌, Result, ok, err, arith,
  Bool-cases,
}
use myagent_bot.Base.Int.{ℤ}
use myagent_bot.Base.Text.{trim_space, to_lower}
use myagent_bot.Platform.Types.{
  RechargeOrder, RefundRequest, RefundDecisionInput, AdminAuditLog, Clock,
}
use myagent_bot.Platform.Store.State.{MemoryStore, Outcome, unix}
use myagent_bot.Platform.Store.Wallet.{append_audit_log}
use myagent_bot.Platform.Store.Orders.{find_order_by_id}
use myagent_bot.Platform.Store.Refunds.{decided, get_refund_request, apply_refund_decision}
use myagent_bot.Platform.Ledger.Decide.{Decision, decide_cases, pays}
use myagent_bot.Platform.Billing.{and_then}
use myagent_bot.Platform.Service.Provider.{
  Provider, RefundInput, RefundResult, PaymentError, not_supported, failed, append_service_audit,
}
use myagent_bot.Platform.Service.Refunding.{
  refund_question, reviewed_input, decision_for, apply_approval, ask_and_apply, approve_found,
  approve_refund_request,
}
use myagent_bot.Platform.Service.Frames.{
  IsSameMoney, find_order_by_id-IsSameMoney, get_refund_request-IsSameMoney,
}

-- the provider's answer that the refund has been made
abbrev pub has_succeeded : Result PaymentError RefundResult → Bool
has_succeeded (ok answer) = answer.succeeded
has_succeeded (err e) = false

-- wallets, entries and orders are as they were
abbrev pub IsUntouched : MemoryStore → MemoryStore → Type 0
IsUntouched s s' =
    (s'.wallets ≡ s.wallets) × (s'.transactions ≡ s.transactions) × (s'.orders ≡ s.orders)

-- A decision on any answer but a success is no decision to refund.
decision_unpaid :
    (answer : Result PaymentError RefundResult) (input : RefundDecisionInput)
    → has_succeeded answer ≡ false
    → (to_lower (trim_space (decision_for answer input).status) == "refunded") ≡ false
unfolding decision_for
decision_unpaid (ok answer) input h = elim (Bool-cases answer.pending) [
  | inl waits ↦ rw (h, waits) (unfold to_lower trim_space in refl)
  | inr denied ↦ rw (h, denied) (unfold to_lower trim_space in refl)
]
decision_unpaid (err (not_supported text)) input h = unfold to_lower trim_space in refl
decision_unpaid (err (failed text)) input h = unfold to_lower trim_space in refl

pays_refunded :
    (found : RefundRequest) (input : RefundDecisionInput) (u : ℤ)
    → pays (decided input u found) ≡ true
    → (to_lower (trim_space input.status) == "refunded") ≡ true
unfolding decided
pays_refunded found input u p = ground arith

-- A decision that is none to refund touches no money.
unpaid-IsUntouched :
    (t : Clock) (id : String) (input : RefundDecisionInput) (u : ℤ) (s : MemoryStore)
    → (to_lower (trim_space input.status) == "refunded") ≡ false
    → IsUntouched s (apply_refund_decision t id input u s).1
unpaid-IsUntouched t id input u s h = by_case _ (decide_cases t id input u s)
  where
    by_case : (o : Outcome RefundRequest) → Decision t id input u s o → IsUntouched s o.1
    by_case o (Decision.refused e k) = rw k (refl, refl, refl)
    by_case o (Decision.noted found _ _ _ _ k) = rw k (refl, refl, refl)
    by_case o (Decision.paid found order _ _ p _ _ _ k) =
        absurd (true≢false (sym (pays_refunded found input u p) ∙ h))

audited-IsUntouched :
    (s : MemoryStore) (o : Outcome RefundRequest) (clock : Clock)
    (entry : RefundRequest → AdminAuditLog)
    → IsUntouched s o.1
    → IsUntouched s
        (and_then o (λ request s'. (ok request, append_service_audit clock (entry request) s'))).1
unfolding append_service_audit append_audit_log
audited-IsUntouched s (ok request, s') clock entry h = h
audited-IsUntouched s (err e, s') clock entry h = h

pub IsUntouched-trans :
    {s t : MemoryStore} (u : MemoryStore) → IsSameMoney s t → IsUntouched t u → IsUntouched s u
IsUntouched-trans u a (w, x, o) = (w ∙ a.wallets, x ∙ a.transactions, o ∙ a.orders)

approval-IsUntouched :
    (clocks : ℕ → Clock) (id : String) (input : RefundDecisionInput) (s : MemoryStore)
    → (to_lower (trim_space input.status) == "refunded") ≡ false
    → IsUntouched s (apply_approval clocks id input s).1
unfolding apply_approval
approval-IsUntouched clocks id input s h =
    audited-IsUntouched s (apply_refund_decision (clocks 1) id input (unix (clocks 0 0)) s)
      (clocks 2) _ (unpaid-IsUntouched (clocks 1) id input (unix (clocks 0 0)) s h)

module _ (clocks : ℕ → Clock) (provider : Provider) (id : String)
    (input : RefundDecisionInput) where
  asked-IsUntouched :
      ((q : RefundInput) → has_succeeded (provider.refund q) ≡ false)
      → (request : RefundRequest) (s : MemoryStore) (o : Outcome RechargeOrder) → IsSameMoney s o.1
      → IsUntouched s (ask_and_apply clocks provider id input request o).0.1
  unfolding ask_and_apply
  asked-IsUntouched never request s (err e, t) same = IsUntouched-trans t same (refl, refl, refl)
  asked-IsUntouched never request s (ok order, t) same =
      let named = reviewed_input provider order input in
      let answer = provider.refund (refund_question request order named) in
      IsUntouched-trans (apply_approval clocks id (decision_for answer named) t).1 same (
        approval-IsUntouched clocks id (decision_for answer named) t
          (decision_unpaid answer named (never (refund_question request order named))))

  found-IsUntouched :
      ((q : RefundInput) → has_succeeded (provider.refund q) ≡ false)
      → (s : MemoryStore) (o : Outcome RefundRequest) → IsSameMoney s o.1
      → IsUntouched s (approve_found clocks provider id input o).0.1
  unfolding approve_found
  found-IsUntouched never s (err e, t) same = IsUntouched-trans t same (refl, refl, refl)
  found-IsUntouched never s (ok request, t) same =
      IsUntouched-trans
        (ask_and_apply clocks provider id input request (find_order_by_id request.order_id t)).0.1
        same
        (asked-IsUntouched never request t (find_order_by_id request.order_id t)
          (find_order_by_id-IsSameMoney request.order_id t))

-- An approval moves no money unless the provider has answered that the refund is made: where it answers
-- that it is pending, refused, not supported or failed, wallets, entries and orders stay as they were.
pub approve-IsUntouched :
    (clocks : ℕ → Clock) (provider : Provider) (id : String) (input : RefundDecisionInput)
    (s : MemoryStore)
    → ((q : RefundInput) → has_succeeded (provider.refund q) ≡ false)
    → IsUntouched s (approve_refund_request clocks provider id input s).0.1
unfolding approve_refund_request
approve-IsUntouched clocks provider id input s never =
    found-IsUntouched clocks provider id input never s (get_refund_request id s)
      (get_refund_request-IsSameMoney id s)
