-- ===== src/Platform/Billing/Tests.antt =====
-- The theorems on the charge for a chat at concrete inputs.
use text.Mathlib.Text.{◌==◌}
use myagent_bot.Base.{ℕ, ◌+◌, ◌≡◌, refl, [], ◌∷◌, some, ok, err, arith, if◌then◌else◌}
use myagent_bot.Base.Dict.{lookup}
use myagent_bot.Base.Int.{pos, ◌/ℤ◌}
use myagent_bot.Base.Int64.{sub64, add64, mul64}
use myagent_bot.Platform.Types.{external, Clock}
use myagent_bot.Platform.Store.State.{MemoryStore, Outcome, new_memory_store, wallet_of}
use myagent_bot.Platform.Store.Wallet.{get_wallet, debit}
use myagent_bot.Platform.Store.Entries.{balance}
use myagent_bot.Platform.Billing.{
  PricingRule, ChatInput, ChatResult, charge_chat, charge_for, charge_from_usage, reserve_charge,
  settle_reserved_charge,
}
use myagent_bot.Platform.Billing.Cost.{charge_chat_cost, charge_chat_failure}

abbrev clocks : ℕ → Clock
clocks m n = 1_700_000_000_000_000_000 + m + n

abbrev rule : PricingRule
rule = record {
  model_id = "m";
  version = "v2";
  effective_from_unix = pos 0;
  input_price_micros_per_1k = pos 2_000_000;
  output_price_micros_per_1k = pos 4_000_000;
  fallback_price_fen = pos 5;
}

abbrev input : ChatInput
input = record { model_id = "m"; message = "hi" }

-- 500 and 1,000 tokens, at 2 and 4 fen for 1,000.
abbrev reply : ChatResult
reply = record {
  content = "hello";
  usage = record { prompt_tokens = pos 500; completion_tokens = pos 1_000 };
}

abbrev rich : MemoryStore
rich = record new_memory_store {
  wallets =
      (
        "ann",
        record { user_id = "ann"; balance_fen = pos 100; currency = "CNY"; updated_unix = pos 1 },
      )
      ∷ [];
}

charge_test : charge_for rule reply.usage ≡ pos 5
unfolding charge_for charge_from_usage ◌/ℤ◌ add64 mul64
charge_test = refl

abbrev chat : Outcome ChatResult
chat = charge_chat clocks rule [] "ann" input (some (ok reply)) rich

charge_chat_cost_example : balance chat.1 "ann" ≡ (
    if "ann" == "ann"
    then sub64 (balance rich "ann") (charge_for rule reply.usage)
    else balance rich "ann")
unfolding charge_chat get_wallet lookup reserve_charge debit wallet_of settle_reserved_charge
    charge_for charge_from_usage ◌/ℤ◌ add64 mul64
charge_chat_cost_example =
    charge_chat_cost clocks rule [] "ann" input (some (ok reply)) rich chat.1 reply "ann" refl

charge_chat_failure_example :
    balance (charge_chat clocks rule [] "ann" input (some (err (external "down"))) rich).1 "ann"
    ≡ balance rich "ann"
unfolding new_memory_store lookup wallet_of
charge_chat_failure_example =
    charge_chat_failure clocks rule [] "ann" input (external "down") rich "ann"
      (omega arith, omega arith)
