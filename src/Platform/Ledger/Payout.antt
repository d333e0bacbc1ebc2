-- ===== src/Platform/Ledger/Payout.antt =====
-- The theorems on refund decisions, `ApplyRefundDecision` of memory_store.go.
use text.Mathlib.Text.{◌==◌}
use text.Mathlib.TextPositions.{eq_refl}
use myagent_bot.Base.{
  String, ◌≡◌, refl, sym, ap, ◌∙◌, ◌≢◌, ◌⊎◌, inl, inr, true, false, ◌||◌, some, ok, err, arith,
  eq_iff, subst,
}
use myagent_bot.Base.Dict.{lookup, lookup-insert, insert_all}
use myagent_bot.Base.Int.{ℤ, pos, ◌<ℤ◌}
use myagent_bot.Platform.Types.{
  RechargeOrder, RefundRequest, RefundDecisionInput, Clock, refund_not_allowed,
}
use myagent_bot.Platform.Store.State.{MemoryStore, Outcome, append_transaction}
use myagent_bot.Platform.Store.Refunds.{
  is_open, is_decision, decided, pay_out, record_decision, apply_refund_decision, refunded_order,
}
use myagent_bot.Platform.Ledger.Decide.{Decision, decide_cases}
use myagent_bot.Platform.Ledger.Refund.{
  IsWithin, IsValid, PaysOut, settled, after_payout, payout_lem, payout-IsWithin,
}

-- What a decision that went through has done: a payout, or no change of wallets, entries and orders.
abbrev pub Decided : MemoryStore → RefundRequest → MemoryStore → Type 0
Decided s r s' =
    PaysOut s r s'
    ⊎ ((s'.wallets ≡ s.wallets) × (s'.transactions ≡ s.transactions) × (s'.orders ≡ s.orders))

module _ (t : Clock) (id : String) (input : RefundDecisionInput) (u : ℤ) (s : MemoryStore) where
  pub result_of :
      (found : RefundRequest) (order : RechargeOrder) (o : Outcome RefundRequest)
      (r : RefundRequest)
      → o ≡ after_payout t id input u s found order
      → o.0 ≡ ok r
      → settled input u found ≡ r
  unfolding record_decision pay_out
  result_of found order o r h done = cc (ap (λ x. x.0) h)

  decided_lem :
      (o : Outcome RefundRequest) (r : RefundRequest)
      → ((order : RechargeOrder) → lookup r.order_id s.orders ≡ some order → IsWithin order)
      → pos 0 <ℤ r.amount_fen
      → Decision t id input u s o
      → o.0 ≡ ok r
      → Decided s r o.1
  unfolding decided
  decided_lem o r within positive (Decision.refused e h) done = cc (ap (λ x. x.0) h)
  decided_lem o r within positive (Decision.noted found _ _ _ _ h) done =
      inr (rw h (refl, refl, refl))
  decided_lem o r within positive (Decision.paid found order e _ _ has short poor h) done =
      let same = result_of found order o r h done in
      let p =
        payout_lem t id input u s found order
          (within order (ap (λ x. lookup x.order_id s.orders) (sym same) ∙ has))
          (subst (λ x. pos 0 <ℤ x.amount_fen) (sym same) positive) has short poor in
      inl (rw h (subst (λ x. PaysOut s x (after_payout t id input u s found order).1) same p))

-- A decision that goes through on a request for more than 0, where the request's order has an int64
-- amount with its refunds between 0 and that amount, pays out the requested amount once, or touches
-- no money at all. A payout is one ledger entry for the requester; it adds the amount to what the
-- order had refunded, which stays within the order's amount; and but for a system's it was covered by
-- the wallet.
pub decide_pays_within :
    (t : Clock) (id : String) (input : RefundDecisionInput) (u : ℤ) (s : MemoryStore)
    (r : RefundRequest)
    → ((order : RechargeOrder) → lookup r.order_id s.orders ≡ some order → IsWithin order)
    → pos 0 <ℤ r.amount_fen
    → (apply_refund_decision t id input u s).0 ≡ ok r
    → Decided s r (apply_refund_decision t id input u s).1
decide_pays_within t id input u s r within positive =
    decided_lem t id input u s (apply_refund_decision t id input u s) r within positive
      (decide_cases t id input u s)

-- A decided request is closed, unless its payout is still pending.
closed :
    (status : String)
    → is_decision status ≡ true
    → status ≢ "approved_pending_payout"
    → (status == "pending" || status == "approved_pending_payout") ≡ false
closed status known final = ground (
  arith,
  eq_iff status "pending",
  eq_iff status "approved_pending_payout",
  eq_iff "refunded" "pending",
  eq_iff "rejected" "pending",
  eq_iff "refund_failed" "pending",
  eq_iff status "refunded",
  eq_iff status "rejected",
  eq_iff status "refund_failed",
)

module _ (t : Clock) (id : String) (input : RefundDecisionInput) (u : ℤ) (s : MemoryStore) where
  pub refused_closed :
      (found : RefundRequest)
      → lookup id s.refund_requests ≡ some found
      → is_open found ≡ false
      → apply_refund_decision t id input u s ≡ (err refund_not_allowed, s)
  unfolding apply_refund_decision
  refused_closed found e shut = rw (e, apply_refund_decision, shut) refl

  -- The request on record after a decision that went through is the one that was returned.
  record_lem :
      (o : Outcome RefundRequest) (r : RefundRequest)
      → Decision t id input u s o
      → o.0 ≡ ok r
      → (lookup id o.1.refund_requests ≡ some r) × (is_decision r.status ≡ true)
  unfolding record_decision pay_out append_transaction
  record_lem o r (Decision.refused e h) done = cc (ap (λ x. x.0) h)
  record_lem o r (Decision.noted found _ _ known _ h) done =
      let same : decided input u found ≡ r = cc (ap (λ x. x.0) h) in
      (rw (h, lookup-insert, eq_refl) (ap some same), rw (← same) known)
  record_lem o r (Decision.paid found order _ _ p _ _ _ h) done =
      let same : settled input u found ≡ r = cc (ap (λ x. x.0) h) in
      (rw h (simp (lookup-insert, eq_refl) (ap some same)), rw (← same) (ground arith))

-- Once a request was refunded, rejected or failed, every later decision on it is refused, and
-- changes nothing: a refund is paid out once.
pub decide_final :
    (t t' : Clock) (id : String) (input input' : RefundDecisionInput) (u u' : ℤ) (s : MemoryStore)
    (r : RefundRequest)
    → (apply_refund_decision t id input u s).0 ≡ ok r
    → r.status ≢ "approved_pending_payout"
    → let s' = (apply_refund_decision t id input u s).1 in
      apply_refund_decision t' id input' u' s' ≡ (err refund_not_allowed, s')
decide_final t t' id input input' u u' s r done final =
    let o = apply_refund_decision t id input u s in
    let kept = record_lem t id input u s o r (decide_cases t id input u s) done in
    refused_closed t' id input' u' o.1 r kept.0 (closed r.status kept.1 final)

abbrev IsPositive : RefundRequest → Type 0
IsPositive request = pos 0 <ℤ request.amount_fen

module _ (t : Clock) (id : String) (input : RefundDecisionInput) (u : ℤ) (s : MemoryStore)
    (v : IsValid s) where
  Decision-IsValid : (o : Outcome RefundRequest) → Decision t id input u s o → IsValid o.1
  unfolding record_decision pay_out append_transaction decided
  Decision-IsValid o (Decision.refused e h) = rw h v
  Decision-IsValid o (Decision.noted found e _ _ _ h) = rw h (record {
    within = v.within;
    positive =
        insert_all IsPositive id (decided input u found) s.refund_requests (v.positive id found e)
          v.positive;
  })
  Decision-IsValid o (Decision.paid found order e _ _ has short poor h) =
      let within =
        payout-IsWithin order found u (v.within found.order_id order has) (v.positive id found e)
          short in
      rw h (record {
        within =
            insert_all IsWithin found.order_id (refunded_order found.amount_fen u order) s.orders
              within v.within;
        positive =
            insert_all IsPositive id (settled input u found) s.refund_requests
              (v.positive id found e) v.positive;
      })

-- A decision keeps every order's refunds within its amount, and every request's amount positive.
pub decide-IsValid :
    (t : Clock) (id : String) (input : RefundDecisionInput) (u : ℤ) (s : MemoryStore)
    → IsValid s
    → IsValid (apply_refund_decision t id input u s).1
decide-IsValid t id input u s v = Decision-IsValid t id input u s v _ (decide_cases t id input u s)
