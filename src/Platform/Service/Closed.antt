-- ===== src/Platform/Service/Closed.antt =====
-- `ApproveRefundRequest` of governance.go on a request that has been decided.
use myagent_bot.Base.{ℕ, String, false, ◌≡◌}
use myagent_bot.Platform.Types.{RechargeOrder, RefundRequest, RefundDecisionInput, Clock}
use myagent_bot.Platform.Store.State.{MemoryStore}
use myagent_bot.Platform.Store.Users.{ensure_user_identity}
use myagent_bot.Platform.Store.Refunds.{is_open}
use myagent_bot.Platform.Service.Provider.{Provider, RefundInput}
use myagent_bot.Platform.Service.Refunding.{refund_question, reviewed_input}

abbrev seen : RefundRequest → MemoryStore → MemoryStore
seen request s = (ensure_user_identity request.user_id s).1

module _ (clocks : ℕ → Clock) (provider : Provider) (id : String) (input : RefundDecisionInput)
    (found : RefundRequest) (order : RechargeOrder) (shut : is_open found ≡ false) where
  abbrev asked : RefundInput
  asked = refund_question found order (reviewed_input provider order input)
