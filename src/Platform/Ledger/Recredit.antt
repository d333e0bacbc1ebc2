-- ===== src/Platform/Ledger/Recredit.antt =====
-- `FinalizeRechargeOrder` and `ApplyRefundDecision` of memory_store.go together: a payment callback
-- that comes after the order was refunded.
use myagent_bot.Base.{String, ◌≡◌}
use myagent_bot.Base.Int.{ℤ}
use myagent_bot.Base.Int64.{neg64}
use myagent_bot.Platform.Types.{RechargeOrder, RefundRequest, RefundDecisionInput, Clock}
use myagent_bot.Platform.Store.State.{MemoryStore}
use myagent_bot.Platform.Store.Entries.{Posts}

module _ (t : Clock) (rid : String) (input : RefundDecisionInput) (u : ℤ) (s : MemoryStore) where
  -- what a payout of `found` leaves
  abbrev IsRefunded : RefundRequest → RechargeOrder → RechargeOrder → MemoryStore → Type 0
  IsRefunded r order order' s' =
      Posts s r.user_id (neg64 r.amount_fen) s'
      × (order'.user_id ≡ order.user_id)
      × (order'.amount_fen ≡ order.amount_fen)
