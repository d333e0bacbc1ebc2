-- ===== src/Platform/Ledger/Reconcile.antt =====
-- Whole histories of `MemoryStore`'s calls, and the balances that they leave.
use text.Mathlib.Text.{◌==◌}
use myagent_bot.Base.{
  String, ◌≡◌, refl, sym, ◌∙◌, true, false, ◌||◌, ok, err, Bool-cases, inl, inr, Option-cases, List,
  [], ◌∷◌,
}
use myagent_bot.Base.Dict.{lookup}
use myagent_bot.Base.Int.{ℤ, pos, eqb_ℤ}
use myagent_bot.Platform.Types.{
  WalletTransaction, AdminAuditLog, RefundRequest, RefundDecisionInput, Error, Clock,
}
use myagent_bot.Platform.Store.State.{
  MemoryStore, wallet_of, transactions_of, new_memory_store, Outcome, wallet_mutation_reference_key,
  wallet_mutation_matches,
}
use myagent_bot.Platform.Store.Wallet.{
  overdraws, apply_wallet_adjustment, apply_admin_wallet_mutation, append_audit_log, credit,
}
use myagent_bot.Platform.Store.Orders.{save_order, finalize_unpaid, finalize_recharge_order}
use myagent_bot.Platform.Store.Refunds.{
  pay_out, record_decision, apply_refund_decision, decided, create_refund_request,
}
use myagent_bot.Platform.Store.Entries.{Posts-IsReconciled, IsReconciled, IsReconciled-frame, sum64}
use myagent_bot.Platform.Ledger.{
  Call, gets_wallet, credits, debits, adjusts, mutates, saves_order, gets_order, finds_order,
  marks_paid, finalizes, creates_refund, gets_refund, decides, sets_balance, appends, keeps_books,
  KeepBooks, ended, Ended, perform, run,
}
use myagent_bot.Platform.Ledger.Entry.{
  credit-Posts, adjust-Posts, finalize_unpaid-Posts, pay_out-Posts,
}
use myagent_bot.Platform.Ledger.Decide.{Decision, decide_cases}
use myagent_bot.Platform.Ledger.Sound.{
  IsSound, err-IsSound, get_wallet-IsSound, debit-IsSound, get_order-IsSound,
  find_order_by_id-IsSound, get_refund_request-IsSound, mark_order_paid-IsSound,
}

finalize_recharge_order-IsSound :
    (t : Clock) (id provider external_id description : String) (s : MemoryStore)
    → IsSound s (ended (finalize_recharge_order t id provider external_id description s))
unfolding finalize_recharge_order finalize_unpaid
finalize_recharge_order-IsSound t id provider external_id description s =
    elim (Option-cases (lookup id s.orders)) [
      | inl missing ↦ rw (missing, finalize_recharge_order) refl
      | inr (order, found) ↦ elim (Bool-cases (order.status == "paid")) [
        | inl paid ↦ rw (found, finalize_recharge_order, paid) (λ r. r)
        | inr unpaid ↦
            rw (found, finalize_recharge_order, unpaid)
              (Posts-IsReconciled
                (finalize_unpaid-Posts t id provider external_id description order s))
      ]
    ]

apply_wallet_adjustment-IsSound :
    (t : Clock) (tx : WalletTransaction) (s : MemoryStore)
    → IsSound s (ended (apply_wallet_adjustment t tx s))
unfolding apply_wallet_adjustment
apply_wallet_adjustment-IsSound t tx s =
    elim (Bool-cases (tx.user_id == "" || eqb_ℤ tx.amount_fen (pos 0))) [
      | inl bad ↦ rw (bad, apply_wallet_adjustment) refl
      | inr good ↦ elim (Bool-cases (overdraws tx s)) [
        | inl over ↦ rw (good, apply_wallet_adjustment, over) refl
        | inr covered ↦
            rw (good, apply_wallet_adjustment, covered) (Posts-IsReconciled (adjust-Posts t tx s))
      ]
    ]

-- The part of an operator's mutation behind its first two guards.
mutate_valid-IsSound :
    (t : Clock) (tx : WalletTransaction) (audit : AdminAuditLog) (s : MemoryStore)
    → (tx.user_id == "" || eqb_ℤ tx.amount_fen (pos 0)) ≡ false
    → (wallet_mutation_reference_key tx.reference_type tx.reference_id == "") ≡ false
    → IsSound s (ended (apply_admin_wallet_mutation t tx audit s))
unfolding apply_admin_wallet_mutation append_audit_log
mutate_valid-IsSound t tx audit s good keyed =
    let key = wallet_mutation_reference_key tx.reference_type tx.reference_id in
    elim (Option-cases (lookup key s.transaction_refs)) [
      | inr (existing, seen) ↦ elim (Bool-cases (wallet_mutation_matches existing tx)) [
        | inl same ↦ rw (good, apply_admin_wallet_mutation, keyed, seen, same) (λ r. r)
        | inr differs ↦ rw (good, apply_admin_wallet_mutation, keyed, seen, differs) refl
      ]
      | inl new ↦ elim (Bool-cases (overdraws tx s)) [
        | inl over ↦ rw (good, apply_admin_wallet_mutation, keyed, new, over) refl
        | inr covered ↦
            rw (good, apply_admin_wallet_mutation, keyed, new, covered)
              (λ r. IsReconciled-frame _ _ refl refl (Posts-IsReconciled (adjust-Posts t tx s) r))
      ]
    ]

apply_admin_wallet_mutation-IsSound :
    (t : Clock) (tx : WalletTransaction) (audit : AdminAuditLog) (s : MemoryStore)
    → IsSound s (ended (apply_admin_wallet_mutation t tx audit s))
unfolding apply_admin_wallet_mutation
apply_admin_wallet_mutation-IsSound t tx audit s =
    elim (Bool-cases (tx.user_id == "" || eqb_ℤ tx.amount_fen (pos 0))) [
      | inl bad ↦ rw (bad, apply_admin_wallet_mutation) refl
      | inr good ↦
          elim (Bool-cases
            (wallet_mutation_reference_key tx.reference_type tx.reference_id == "")) [
              | inl blank ↦ rw (good, apply_admin_wallet_mutation, blank) refl
              | inr keyed ↦ mutate_valid-IsSound t tx audit s good keyed
            ]
    ]

apply_refund_decision-IsSound :
    (t : Clock) (id : String) (input : RefundDecisionInput) (updated_unix : ℤ) (s : MemoryStore)
    → IsSound s (ended (apply_refund_decision t id input updated_unix s))
apply_refund_decision-IsSound t id input updated_unix s =
    go (apply_refund_decision t id input updated_unix s) (decide_cases t id input updated_unix s)
  where
    go : (o : Outcome RefundRequest) → Decision t id input updated_unix s o → IsSound s (ended o)
    go o (Decision.refused e h) = err-IsSound s o h
    go o (Decision.noted found _ _ _ _ h) = rw h (IsReconciled-frame s _ refl refl)
    go o (Decision.paid found order _ _ _ _ _ _ h) = rw h (
        unfold record_decision pay_out decided in
        (λ r. IsReconciled-frame _ _ refl refl (
          Posts-IsReconciled
            (pay_out-Posts t updated_unix (decided input updated_unix found) order s) r)))

-- Every call that writes balances with their entries ends soundly: with an error and the state
-- unchanged, or reconciled if it began so.
pub perform-IsSound :
    (t : Clock) (c : Call) (s : MemoryStore) → keeps_books c ≡ true → IsSound s (perform t c s)
unfolding perform
perform-IsSound t (gets_wallet u) s kept = get_wallet-IsSound t u s
perform-IsSound t (credits u amount description) s kept =
    unfold credit in Posts-IsReconciled (credit-Posts t u amount description s)
perform-IsSound t (debits u amount description) s kept = debit-IsSound t u amount description s
perform-IsSound t (adjusts tx) s kept = apply_wallet_adjustment-IsSound t tx s
perform-IsSound t (mutates tx audit) s kept = apply_admin_wallet_mutation-IsSound t tx audit s
perform-IsSound t (saves_order order) s kept = unfold save_order in IsReconciled-frame s _ refl refl
perform-IsSound t (gets_order u id) s kept = get_order-IsSound u id s
perform-IsSound t (finds_order id) s kept = find_order_by_id-IsSound id s
perform-IsSound t (marks_paid id provider external_id) s kept =
    mark_order_paid-IsSound t id provider external_id s
perform-IsSound t (finalizes id provider external_id description) s kept =
    finalize_recharge_order-IsSound t id provider external_id description s
perform-IsSound t (creates_refund request) s kept =
    unfold create_refund_request in IsReconciled-frame s _ refl refl
perform-IsSound t (gets_refund id) s kept = get_refund_request-IsSound id s
perform-IsSound t (decides id input updated_unix) s kept =
    apply_refund_decision-IsSound t id input updated_unix s
perform-IsSound t (sets_balance u fen) s kept = cc
perform-IsSound t (appends tx) s kept = cc

perform-IsReconciled :
    (t : Clock) (c : Call) (s : MemoryStore)
    → keeps_books c ≡ true
    → IsReconciled s
    → IsReconciled (perform t c s).1
perform-IsReconciled t c s kept r = go (perform t c s) (perform-IsSound t c s kept)
  where
    go : (e : Ended) → IsSound s e → IsReconciled e.1
    go (ok _, s') h = h r
    go (err _, s') h = rw h r

-- After any history of the store's calls in which SetBalance and AppendTransaction do not occur, from
-- a store whose balances were the sums of their transactions, every balance is the int64 sum of the
-- amounts of the user's transactions.
pub run-IsReconciled :
    (cs : List (Clock × Call)) (s : MemoryStore)
    → KeepBooks cs
    → IsReconciled s
    → IsReconciled (run cs s)
unfolding run
run-IsReconciled [] s kept r = r
run-IsReconciled ((t, c) ∷ cs) s kept r =
    run-IsReconciled cs _ kept.1 (perform-IsReconciled t c s kept.0 r)

-- A write of a balance or an entry alone always goes through.
perform_alone :
    (t : Clock) (c : Call) (s : MemoryStore) → keeps_books c ≡ false → (perform t c s).0 ≡ ok tt
unfolding perform
perform_alone t (sets_balance u fen) s alone = refl
perform_alone t (appends tx) s alone = refl
perform_alone t _ s alone = cc

-- A call of any modelled method of the store that ends with an error leaves the whole state as it was.
pub perform-err :
    (t : Clock) (c : Call) (s : MemoryStore) {e : Error}
    → (perform t c s).0 ≡ err e
    → (perform t c s).1 ≡ s
perform-err t c s {e} h = elim (Bool-cases (keeps_books c)) [
  | inl kept ↦ go (perform t c s) (perform-IsSound t c s kept) h
  | inr alone ↦ cc (sym (perform_alone t c s alone) ∙ h)
]
  where
    go : (r : Ended) → IsSound s r → r.0 ≡ err e → r.1 ≡ s
    go (ok _, s') q h' = cc
    go (err _, s') q h' = q

pub new_memory_store-IsReconciled : IsReconciled new_memory_store
unfolding new_memory_store wallet_of transactions_of sum64 lookup
new_memory_store-IsReconciled u = refl
