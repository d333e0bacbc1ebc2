-- ===== src/Platform/Tests.antt =====
-- The theorems on the wallet store at concrete inputs, and runs of its methods.
use myagent_bot.Base.{◌+◌, String, ◌≡◌, refl, List, [], ◌∷◌, ok, err, some, true, arith, eq_iff}
use myagent_bot.Base.Dict.{lookup}
use myagent_bot.Base.Int.{ℤ, pos, negsuc, ltb_ℤ, leb_ℤ, ◌+ℤ◌, ◌≤ℤ◌}
use myagent_bot.Base.Int64.{sub64, neg64, min_int64}
use myagent_bot.Base.Text.{trim_space, to_lower, has_prefix}
use myagent_bot.Platform.Types.{
  WalletTransaction, RechargeOrder, RefundRequest, RefundDecisionInput, AdminAuditLog, Clock,
  order_not_found, idempotency_conflict, refund_not_allowed,
}
use myagent_bot.Platform.Store.State.{
  MemoryStore, new_memory_store, new_transaction, wallet_of, wallet_mutation_reference_key,
}
use myagent_bot.Platform.Store.Wallet.{
  apply_wallet_adjustment, apply_admin_wallet_mutation, adjusted_wallet, adjust, overdraws,
}
use myagent_bot.Platform.Store.Orders.{paid_order, finalize_recharge_order}
use myagent_bot.Platform.Store.Refunds.{
  apply_refund_decision, decided, settle, pay_out, record_decision, allow_negative_balance,
  refunded_order,
}
use myagent_bot.Platform.Store.Entries.{IsReconciled, Posts, balance}
use myagent_bot.Platform.Ledger.{Call, debits, finalizes, saves_order, perform, run}
use myagent_bot.Platform.Ledger.Reconcile.{
  run-IsReconciled, perform-err, new_memory_store-IsReconciled,
}
use myagent_bot.Platform.Ledger.Recharge.{Callback, finalize_all, finalize_once}
use myagent_bot.Platform.Ledger.Replay.{mutation_replay, mutation_conflict}
use myagent_bot.Platform.Ledger.Overdraft.{IsEntered, adjustment_nonneg, adjustment_min_int64}
use myagent_bot.Platform.Ledger.Refund.{IsValid}
use myagent_bot.Platform.Ledger.Payout.{decide_pays_within, decide_final, decide-IsValid, Decided}

abbrev pub noon : Clock
noon n = 1_700_000_000_000_000_000 + n

abbrev pub order_of : String → ℤ → ℤ → RechargeOrder
order_of status amount refunded = record {
  id = "ord_1";
  user_id = "ann";
  user_no = pos 0;
  username = "";
  amount_fen = amount;
  refunded_fen = refunded;
  channel = "web";
  provider = "";
  status = status;
  pay_url = "";
  external_id = "";
  provider_status = "";
  pricing_version = "";
  agreement_versions = [];
  created_unix = pos 1;
  updated_unix = pos 1;
  paid_unix = pos 0;
  last_checked_unix = pos 0;
}

abbrev pub request_of : String → ℤ → RefundRequest
request_of status amount = record {
  id = "refund_1";
  user_id = "ann";
  user_no = pos 0;
  username = "";
  order_id = "ord_1";
  amount_fen = amount;
  reason = "";
  status = status;
  review_note = "";
  reviewed_by = "";
  refund_provider = "";
  external_refund_id = "";
  external_status = "";
  failure_reason = "";
  created_unix = pos 1;
  updated_unix = pos 1;
  settled_unix = pos 0;
}

abbrev pub store_of : RechargeOrder → RefundRequest → ℤ → MemoryStore
store_of order request funds = record new_memory_store {
  wallets =
      (
        "ann",
        record { user_id = "ann"; balance_fen = funds; currency = "CNY"; updated_unix = pos 1 },
      )
      ∷ [];
  orders = ("ord_1", order) ∷ [];
  refund_requests = ("refund_1", request) ∷ [];
}

-- A history with a debit that is refused and a callback that comes twice.
abbrev history : List (Clock × Call)
history =
    (noon, saves_order (order_of "pending" (pos 300) (pos 0)))
    ∷ (noon, debits "ann" (pos 10) "chat")
    ∷ (noon, finalizes "ord_1" "easypay" "x1" "recharge")
    ∷ (noon, finalizes "ord_1" "easypay" "x1" "recharge")
    ∷ (noon, debits "ann" (pos 10) "chat")
    ∷ []

run-IsReconciled_example : IsReconciled (run history new_memory_store)
run-IsReconciled_example =
    run-IsReconciled history new_memory_store (refl, (refl, (refl, (refl, (refl, tt)))))
      new_memory_store-IsReconciled

perform-err_example :
    (perform noon (finalizes "ord_9" "p" "x" "d") new_memory_store).1 ≡ new_memory_store
unfolding perform finalize_recharge_order new_memory_store lookup
perform-err_example =
    perform-err noon (finalizes "ord_9" "p" "x" "d") new_memory_store {e = order_not_found "ord_9"}
      refl

abbrev easypay : Callback
easypay = record {
  clock = noon;
  provider = "easypay";
  external_id = "x1";
  description = "recharge";
}

abbrev pending_store : MemoryStore
pending_store =
    store_of (order_of "pending" (pos 300) (pos 0)) (request_of "pending" (pos 100)) (pos 500)

finalize_once_example :
    let first = finalize_recharge_order noon "ord_1" "easypay" "x1" "recharge" pending_store in
    Posts pending_store "ann" (pos 300) first.1
    × (lookup "ord_1" first.1.orders
        ≡ some (paid_order noon "easypay" "x1" (order_of "pending" (pos 300) (pos 0))))
    × (finalize_all "ord_1" (easypay ∷ record easypay { external_id = "x2" } ∷ []) pending_store
        ≡ first.1)
unfolding lookup
finalize_once_example =
    finalize_once "ord_1" easypay (record easypay { external_id = "x2" } ∷ [])
      (order_of "pending" (pos 300) (pos 0)) pending_store refl
      (ground (arith, eq_iff "pending" "paid"))

abbrev mutation_of : ℤ → WalletTransaction
mutation_of amount =
    new_transaction "tx_1" "ann" "debit" amount "fix" "admin_adjustment" "req-1" (pos 5)

abbrev audit_entry : AdminAuditLog
audit_entry = record {
  id = "audit_1";
  actor_user_id = "root";
  actor_email = "";
  action = "admin.wallet_adjustment.created";
  target_type = "wallet_account";
  target_id = "ann";
  risk_level = "high";
  detail = "";
  created_unix = pos 5;
}

mutation_replay_example :
    let s' =
      (apply_admin_wallet_mutation noon (mutation_of (negsuc 9)) audit_entry pending_store).1 in
    apply_admin_wallet_mutation noon (mutation_of (negsuc 9)) audit_entry s'
    ≡ (ok (adjusted_wallet noon (mutation_of (negsuc 9)) pending_store, true), s')
unfolding apply_admin_wallet_mutation adjust overdraws wallet_mutation_reference_key trim_space
    lookup neg64 new_memory_store wallet_of
mutation_replay_example =
    mutation_replay noon noon (mutation_of (negsuc 9)) audit_entry audit_entry pending_store
      (adjusted_wallet noon (mutation_of (negsuc 9)) pending_store)
      (ground (arith, eq_iff "debit" "")) refl

mutation_conflict_example :
    let s' =
      (apply_admin_wallet_mutation noon (mutation_of (negsuc 9)) audit_entry pending_store).1 in
    apply_admin_wallet_mutation noon (mutation_of (pos 7)) audit_entry s'
    ≡ (err idempotency_conflict, s')
unfolding apply_admin_wallet_mutation adjust overdraws wallet_mutation_reference_key trim_space
    lookup neg64 new_memory_store wallet_of
mutation_conflict_example =
    mutation_conflict noon noon (mutation_of (negsuc 9)) (mutation_of (pos 7)) audit_entry
      audit_entry pending_store (adjusted_wallet noon (mutation_of (negsuc 9)) pending_store) refl
      (ground (arith, eq_iff "ann" "")) (ground arith) (ground arith) refl

adjustment_nonneg_example :
    let o = apply_wallet_adjustment noon (mutation_of (negsuc 9)) pending_store in
    IsEntered pending_store (mutation_of (negsuc 9)) o
    × (balance o.1 "ann" ≡ balance pending_store "ann" +ℤ negsuc 9)
    × (pos 0 ≤ℤ balance o.1 "ann")
unfolding apply_wallet_adjustment adjust overdraws wallet_of lookup neg64
adjustment_nonneg_example =
    adjustment_nonneg noon (mutation_of (negsuc 9)) pending_store
      (adjusted_wallet noon (mutation_of (negsuc 9)) pending_store) (omega arith) (ground arith)
      (omega arith) (omega arith) refl

adjustment_min_int64_example :
    let o = apply_wallet_adjustment noon (mutation_of min_int64) pending_store in
    IsEntered pending_store (mutation_of min_int64) o
    × (ltb_ℤ (balance o.1 "ann") (pos 0) ≡ leb_ℤ (pos 0) (balance pending_store "ann"))
unfolding wallet_of lookup
adjustment_min_int64_example =
    adjustment_min_int64 noon (mutation_of min_int64) pending_store
      (ground (arith, eq_iff "ann" "")) refl (omega arith)

abbrev paid_store : MemoryStore
paid_store = store_of (order_of "paid" (pos 300) (pos 0)) (request_of "pending" (pos 300)) (pos 500)

abbrev refund_it : RefundDecisionInput
refund_it = record {
  status = " Refunded";
  review_note = "";
  reviewed_by = "root";
  refund_provider = "";
  external_refund_id = "";
  external_status = "";
  failure_reason = "";
}

abbrev refunded_request : RefundRequest
refunded_request = record (request_of "refunded" (pos 300)) {
  reviewed_by = "root";
  updated_unix = pos 9;
  settled_unix = pos 9;
}

paid_store-IsValid : IsValid paid_store
unfolding lookup
paid_store-IsValid = record {
  within = λ id order h. ground arith;
  positive = λ id request h. ground arith;
}

decide_pays_within_example :
    Decided paid_store refunded_request
      (apply_refund_decision noon "refund_1" refund_it (pos 9) paid_store).1
unfolding apply_refund_decision decided settle pay_out record_decision lookup trim_space to_lower
    sub64 wallet_of allow_negative_balance has_prefix
decide_pays_within_example =
    decide_pays_within noon "refund_1" refund_it (pos 9) paid_store refunded_request
      (paid_store-IsValid.within "ord_1") (omega arith) refl

-- The order is not paid yet, and a refund of all of it is asked for.
abbrev full_store : MemoryStore
full_store =
    store_of (order_of "pending" (pos 300) (pos 0)) (request_of "pending" (pos 300)) (pos 500)

abbrev refunded_in_full : RechargeOrder
refunded_in_full =
    refunded_order (pos 300) (pos 9)
      (paid_order noon "easypay" "x1" (order_of "pending" (pos 300) (pos 0)))

decide_final_example :
    let s' = (apply_refund_decision noon "refund_1" refund_it (pos 9) paid_store).1 in
    apply_refund_decision noon "refund_1" refund_it (pos 10) s' ≡ (err refund_not_allowed, s')
unfolding apply_refund_decision decided settle pay_out record_decision lookup trim_space to_lower
    sub64 wallet_of allow_negative_balance has_prefix
decide_final_example =
    decide_final noon noon "refund_1" refund_it refund_it (pos 9) (pos 10) paid_store
      refunded_request refl (ground (arith, eq_iff "refunded" "approved_pending_payout"))

decide-IsValid_example :
    IsValid (apply_refund_decision noon "refund_1" refund_it (pos 9) paid_store).1
decide-IsValid_example =
    decide-IsValid noon "refund_1" refund_it (pos 9) paid_store paid_store-IsValid
