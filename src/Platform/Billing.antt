-- ===== src/Platform/Billing.antt =====
-- The charge for a chat, Platform/internal/service/service.go: the reserve, the charge for the
-- usage, and the settlement of the difference. The integers of the usage are int64.
pub mod Settle
pub mod Cost
mod Tests
use Prim.Native.Nat.{◌/◌}
use myagent_bot.Base.{
  ℕ, suc, ◌+◌, String, Bool, true, false, ◌&&◌, List, [], ◌∷◌, ◌++◌, Option, none, some, Result, ok,
  err, if◌then◌else◌,
}
use myagent_bot.Base.Int.{ℤ, pos, ltb_ℤ, leb_ℤ, eqb_ℤ, pos_part, ◌/ℤ◌}
use myagent_bot.Base.Int64.{add64, sub64, mul64}
use myagent_bot.Base.Text.{trim_space, decimal}
use myagent_bot.Platform.Types.{
  WalletSummary, ChatUsageRecord, Error, external, joined, insufficient_funds, Clock,
}
use myagent_bot.Platform.Store.State.{MemoryStore, Outcome, unix}
use myagent_bot.Platform.Store.Wallet.{get_wallet, credit, debit}
use Prim.Native.String.{◌++◌ as append}
use text.Mathlib.Text.{◌==◌}

pub record Usage : Type 0 where
  pub prompt_tokens : ℤ
  pub completion_tokens : ℤ

pub record ChatInput : Type 0 where
  pub model_id : String
  pub message : String

pub record ChatResult : Type 0 where
  pub content : String
  pub usage : Usage

pub record PricingRule : Type 0 where
  pub model_id : String
  pub version : String
  pub effective_from_unix : ℤ
  pub input_price_micros_per_1k : ℤ
  pub output_price_micros_per_1k : ℤ
  pub fallback_price_fen : ℤ

-- `normalizedPricingVersion`
unfoldable pub normalized_pricing_version : PricingRule → String
normalized_pricing_version rule =
    if trim_space rule.version == "" then "v1" else trim_space rule.version

-- `chargeFromUsage`. The quotient of floats is exact enough for the ceiling below 2 ^ 50 micros,
-- a charge of a billion fen.
unfoldable pub charge_from_usage : PricingRule → Usage → ℤ
charge_from_usage rule usage =
    let total_micros =
      add64 (mul64 usage.prompt_tokens rule.input_price_micros_per_1k)
        (mul64 usage.completion_tokens rule.output_price_micros_per_1k)
      /ℤ 1_000 in
    if leb_ℤ usage.prompt_tokens (pos 0) && leb_ℤ usage.completion_tokens (pos 0)
    then pos 0
    else if leb_ℤ total_micros (pos 0)
    then pos 1
    else pos ((pos_part total_micros + 999_999) / 1_000_000)

-- `reserveCharge`
unfoldable pub reserve_charge : PricingRule → ℤ
reserve_charge rule =
    if ltb_ℤ (pos 0) rule.fallback_price_fen then rule.fallback_price_fen else pos 1

-- The charge for a result: by its usage, else the fallback price, and at least 1 fen.
unfoldable pub charge_for : PricingRule → Usage → ℤ
charge_for rule usage =
    let charge = charge_from_usage rule usage in
    let priced = if eqb_ℤ charge (pos 0) then rule.fallback_price_fen else charge in
    if leb_ℤ priced (pos 0) then pos 1 else priced

-- An outcome without its value.
abbrev pub without_value : {A : Type 0} → Outcome A → Result Error Bool × MemoryStore
without_value (ok _, s) = (ok true, s)
without_value (err e, s) = (err e, s)

-- `settleReservedCharge`; its success has no value, for which `true` stands.
unfoldable pub settle_reserved_charge : Clock → String → ℤ → ℤ → String → MemoryStore → Outcome Bool
settle_reserved_charge clock user_id reserved_fen charge_fen description s =
    if ltb_ℤ reserved_fen charge_fen
    then without_value
        (debit clock user_id (sub64 charge_fen reserved_fen) (append description " settlement") s)
    else if ltb_ℤ charge_fen reserved_fen
    then without_value
        (credit clock user_id (sub64 reserved_fen charge_fen) (append description " refund") s)
    else (ok true, s)

-- `RecordChatUsage`
unfoldable pub record_chat_usage : ChatUsageRecord → MemoryStore → MemoryStore
record_chat_usage usage s = record s { chat_usage = s.chat_usage ++ usage ∷ [] }

-- The usage that `ProxyOfficialChat` records, at the two readings of the clock.
abbrev pub usage_of :
    ℕ → ℕ → PricingRule → String → ChatInput → ChatResult → List String → ChatUsageRecord
usage_of t t' rule user_id input result versions = record {
  id = append "usage_" (decimal t);
  user_id = user_id;
  model_id = input.model_id;
  pricing_version = normalized_pricing_version rule;
  prompt_tokens = result.usage.prompt_tokens;
  completion_tokens = result.usage.completion_tokens;
  charged_fen = charge_for rule result.usage;
  fallback_applied = eqb_ℤ (charge_from_usage rule result.usage) (pos 0);
  request_kind = "direct";
  created_unix = unix t';
  agreement_versions = versions;
}

-- A call after one that may fail: its error ends the method, with the state as the call left it.
abbrev pub and_then : {A B : Type 0} → Outcome A → (A → MemoryStore → Outcome B) → Outcome B
and_then (ok a, s) k = k a s
and_then (err e, s) k = (err e, s)

-- `errors.Join(err, refundErr)`, where the refund of the reserve failed too
abbrev pub refund_failure : {A : Type 0} → Error → Outcome A → Outcome ChatResult
refund_failure e (ok _, s) = (err e, s)
refund_failure e (err refund, s) = (err (joined e refund), s)

-- The part of `ProxyOfficialChat` after the reserve is taken, by the chat client's answer.
unfoldable pub settle_chat :
    (ℕ → Clock)
    → PricingRule
    → List String
    → String
    → ChatInput
    → Result Error ChatResult
    → MemoryStore
    → Outcome ChatResult
settle_chat clocks rule versions user_id input (err e) s =
    refund_failure e
      (credit (clocks 2) user_id (reserve_charge rule) "official model usage reserve refund" s)
settle_chat clocks rule versions user_id input (ok result) s =
    let charge = charge_for rule result.usage in
    let usage = usage_of (clocks 3 0) (clocks 3 1) rule user_id input result versions in
    and_then
      (settle_reserved_charge (clocks 2) user_id (reserve_charge rule) charge "official model usage"
        s)
      (λ _ s'. (ok result, record_chat_usage usage s'))

-- The part of `ProxyOfficialChat` after the model and its price are found. `chat` is the chat
-- client's answer, none where there is no client; the clocks are those of the calls in order.
unfoldable pub charge_chat :
    (ℕ → Clock)
    → PricingRule
    → List String
    → String
    → ChatInput
    → Option (Result Error ChatResult)
    → MemoryStore
    → Outcome ChatResult
unfolding settle_chat
charge_chat clocks rule versions user_id input chat s =
    and_then (get_wallet (clocks 0) user_id s) (λ wallet s'.
      if leb_ℤ wallet.balance_fen (pos 0) then (err insufficient_funds, s') else elim chat [
        | none ↦ (err (external "chat client not configured"), s')
        | some answer ↦
            if ltb_ℤ wallet.balance_fen (reserve_charge rule)
            then (err insufficient_funds, s')
            else and_then
                (debit (clocks 1) user_id (reserve_charge rule) "official model usage reserve" s')
                (λ _ s''. settle_chat clocks rule versions user_id input answer s'')
      ])
