-- ===== src/Platform/Ledger.antt =====
-- The methods of `MemoryStore` that change a balance, an entry, an order or a refund request, and the
-- reads of these, as calls on one state; a history is a list of calls.
pub mod Entry
pub mod Decide
pub mod Sound
pub mod Reconcile
pub mod Recharge
pub mod Replay
pub mod Refund
pub mod Payout
pub mod Overdraft
pub mod Recredit
use myagent_bot.Base.{String, Bool, true, false, List, [], ◌∷◌, ◌≡◌, Result, ok, err}
use myagent_bot.Base.Int.{ℤ}
use myagent_bot.Platform.Types.{
  RechargeOrder, WalletTransaction, AdminAuditLog, RefundRequest, RefundDecisionInput, Error, Clock,
}
use myagent_bot.Platform.Store.State.{MemoryStore, Outcome, append_transaction}
use myagent_bot.Platform.Store.Wallet.{
  set_balance, get_wallet, credit, debit, apply_wallet_adjustment, apply_admin_wallet_mutation,
}
use myagent_bot.Platform.Store.Orders.{
  save_order, get_order, find_order_by_id, mark_order_paid, finalize_recharge_order,
}
use myagent_bot.Platform.Store.Refunds.{
  create_refund_request, get_refund_request, apply_refund_decision,
}

pub data Call : Type 0 where
  gets_wallet : String → Call
  credits debits : String → ℤ → String → Call
  adjusts : WalletTransaction → Call
  mutates : WalletTransaction → AdminAuditLog → Call
  saves_order : RechargeOrder → Call
  gets_order : String → String → Call
  finds_order : String → Call
  marks_paid : String → String → String → Call
  finalizes : String → String → String → String → Call
  creates_refund : RefundRequest → Call
  gets_refund : String → Call
  decides : String → RefundDecisionInput → ℤ → Call
  sets_balance : String → ℤ → Call
  appends : WalletTransaction → Call

-- `SetBalance` writes a balance without an entry, and `AppendTransaction` an entry without its
-- balance; the other calls do neither.
abbrev pub keeps_books : Call → Bool
keeps_books (sets_balance u fen) = false
keeps_books (appends tx) = false
keeps_books _ = true

-- A call's error, if it had one, and the state after it.
abbrev pub Ended : Type 0
Ended = Result Error (Unit {0}) × MemoryStore

abbrev pub ended : {A : Type 0} → Outcome A → Ended
ended (ok _, s) = (ok tt, s)
ended (err e, s) = (err e, s)

unfoldable pub perform : Clock → Call → MemoryStore → Ended
perform t (gets_wallet u) s = ended (get_wallet t u s)
perform t (credits u amount description) s = ended (credit t u amount description s)
perform t (debits u amount description) s = ended (debit t u amount description s)
perform t (adjusts tx) s = ended (apply_wallet_adjustment t tx s)
perform t (mutates tx audit) s = ended (apply_admin_wallet_mutation t tx audit s)
perform t (saves_order order) s = (ok tt, save_order t order s)
perform t (gets_order u id) s = ended (get_order u id s)
perform t (finds_order id) s = ended (find_order_by_id id s)
perform t (marks_paid id provider external_id) s =
    ended (mark_order_paid t id provider external_id s)
perform t (finalizes id provider external_id description) s =
    ended (finalize_recharge_order t id provider external_id description s)
perform t (creates_refund request) s = (ok tt, create_refund_request request s)
perform t (gets_refund id) s = ended (get_refund_request id s)
perform t (decides id input updated_unix) s =
    ended (apply_refund_decision t id input updated_unix s)
perform t (sets_balance u fen) s = (ok tt, set_balance t u fen s)
perform t (appends tx) s = (ok tt, append_transaction tx s)

-- A history: each call with the clock that it reads.
unfoldable pub run : List (Clock × Call) → MemoryStore → MemoryStore
run [] s = s
run ((t, c) ∷ cs) s = run cs (perform t c s).1

-- No call of the history writes a balance or an entry alone.
abbrev pub KeepBooks : List (Clock × Call) → Type 0
KeepBooks [] = Unit {0}
KeepBooks ((t, c) ∷ cs) = (keeps_books c ≡ true) × KeepBooks cs
