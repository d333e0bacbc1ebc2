-- ===== src/Platform/Proxy.antt =====
-- `ProxyOfficialChatRequest` of Platform/internal/service/service.go, once the model's name is resolved:
-- the candidates in turn, the failover's states, and the charge. The answers of the models' service,
-- of the outside failure store and of the clock are parameters.
pub mod Candidates
pub mod Models
pub mod Names
pub mod Request
pub mod Cost
pub mod Exhausted
mod Tests
use Prim.Native.String.{◌++◌ as append}
use text.Mathlib.Text.{◌==◌}
use myagent_bot.Base.{
  ℕ, zero, suc, String, Bool, true, false, not, ◌&&◌, List, [], ◌∷◌, Option, none, some, length,
  ltb, Result, ok, err, if◌then◌else◌,
}
use myagent_bot.Base.Dict.{Dict, lookup}
use myagent_bot.Base.Int.{ℤ, pos, ltb_ℤ, leb_ℤ, eqb_ℤ}
use myagent_bot.Base.Text.{decimal, equal_fold}
use myagent_bot.Platform.Types.{
  WalletSummary, ChatUsageRecord, Error, external, joined, insufficient_funds, unknown_model, Clock,
}
use myagent_bot.Platform.Store.State.{MemoryStore, Outcome, unix}
use myagent_bot.Platform.Store.Wallet.{get_wallet, credit, debit}
use myagent_bot.Platform.Billing.{
  Usage, PricingRule, normalized_pricing_version, charge_from_usage, reserve_charge,
  settle_reserved_charge, record_chat_usage, and_then,
}
use myagent_bot.Platform.Failover.{
  Failover, should_skip, record_primary_failure, clear_primary_failures,
}
use myagent_bot.Platform.Proxy.Candidates.{OfficialModel, candidate_model_ids}

-- The part of `platformapi.ChatProxyResponse` that the service reads or writes; the content stands for
-- the rest of the model's answer.
pub record LlmResponse : Type 0 where
  pub content : String
  pub usage : Option Usage

pub record ChatProxyResponse : Type 0 where
  pub response : LlmResponse
  pub charged_fen : ℤ
  pub pricing_version : String

pub record ProxyAttempt : Type 0 where
  pub model_id : String
  pub rule : PricingRule
  pub max_attempts : ℕ

-- What the request meets outside: the answer to each call, by its number and the model; the answers of
-- the outside failure store and the time at each call; the store's clocks.
pub record Surroundings : Type 0 where
  pub call : ℕ → String → Result Error LlmResponse
  pub skip_answer : Option (Result String Bool)
  pub failure_answer : ℕ → Option (Result String Bool)
  pub now : ℕ → ℕ
  pub started : ℕ
  pub clocks : ℕ → Clock

-- the loop that leaves the primary model out
unfoldable pub without_model : String → List String → List String
without_model resolved [] = []
without_model resolved (id ∷ ids) =
    let later = without_model resolved ids in if equal_fold id resolved then later else id ∷ later

-- The candidates, without the primary model while it cools down, if any are left.
unfoldable pub tried_models : String → Bool → List String → List String
tried_models resolved skip ids =
    let filtered = without_model resolved ids in
    if skip && ltb 0 (length filtered) then filtered else ids

unfoldable pub attempts_for : Dict PricingRule → String → List String → List ProxyAttempt
attempts_for pricing resolved [] = []
attempts_for pricing resolved (id ∷ ids) =
    let later = attempts_for pricing resolved ids in
    elim (lookup id pricing) [
      | none ↦ later
      | some rule ↦
          record {
            model_id = id;
            rule = rule;
            max_attempts = if equal_fold id resolved then 2 else 1;
          }
          ∷ later
    ]

-- the greatest reserve of the primary model's price and those of the attempts
unfoldable pub reserve_for : ℤ → List ProxyAttempt → ℤ
reserve_for reserved [] = reserved
reserve_for reserved (a ∷ rest) =
    reserve_for (if ltb_ℤ reserved (reserve_charge a.rule) then reserve_charge a.rule else reserved)
      rest

-- How the calls end: with an answer to an attempt, or with the last error, if there was a call.
pub data Tried : Type 0 where
  answered : ProxyAttempt → LlmResponse → Failover → Tried
  exhausted : ℕ → Option Error → Failover → Tried

-- the failover after a failed call
unfoldable pub after_failure : Surroundings → String → ProxyAttempt → ℕ → Failover → Failover
after_failure around resolved attempt n f =
    if equal_fold attempt.model_id resolved
    then record_primary_failure (around.failure_answer n) resolved (around.now n) f
    else f

-- the failover after a call that was answered
unfoldable pub after_answer : Surroundings → String → ProxyAttempt → ℕ → Failover → Failover
after_answer around resolved attempt n f =
    if equal_fold attempt.model_id resolved
    then clear_primary_failures (around.failure_answer n) resolved f
    else record f {
      metrics = record f.metrics { fallback_successes = suc f.metrics.fallback_successes };
    }

-- the inner loop; `n` is the number of the next call
unfoldable pub try_attempt :
    Surroundings → String → ProxyAttempt → ℕ → ℕ → Option Error → Failover → Tried
try_attempt around resolved attempt zero n last f = exhausted n last f
try_attempt around resolved attempt (suc left) n last f = elim (around.call n attempt.model_id) [
  | ok response ↦ answered attempt response (after_answer around resolved attempt n f)
  | err e ↦
      try_attempt around resolved attempt left (suc n) (some e)
        (after_failure around resolved attempt n f)
]

-- the outer loop
unfoldable pub try_attempts :
    Surroundings → String → List ProxyAttempt → ℕ → Option Error → Failover → Tried
try_attempts around resolved [] n last f = exhausted n last f
try_attempts around resolved (a ∷ rest) n last f =
    elim (try_attempt around resolved a a.max_attempts n last f) [
      | answered attempt response f' ↦ answered attempt response f'
      | exhausted n' last' f' ↦ try_attempts around resolved rest n' last' f'
    ]

-- the charge for an answer
unfoldable pub proxy_charge : PricingRule → Option Usage → ℤ
proxy_charge rule usage =
    let charge : ℤ = elim usage [ none ↦ pos 0 | some u ↦ charge_from_usage rule u ] in
    let priced = if eqb_ℤ charge (pos 0) then rule.fallback_price_fen else charge in
    if leb_ℤ priced (pos 0) then pos 1 else priced

abbrev prompt_of : Option Usage → ℤ
prompt_of none = pos 0
prompt_of (some u) = u.prompt_tokens

abbrev completion_of : Option Usage → ℤ
completion_of none = pos 0
completion_of (some u) = u.completion_tokens

-- the usage that is recorded
abbrev pub proxy_usage :
    Clock → String → List String → ProxyAttempt → Bool → LlmResponse → ChatUsageRecord
proxy_usage clock user_id versions attempt is_primary response = record {
  id = append "usage_" (decimal (clock 0));
  user_id = user_id;
  model_id = attempt.model_id;
  pricing_version = normalized_pricing_version attempt.rule;
  prompt_tokens = prompt_of response.usage;
  completion_tokens = completion_of response.usage;
  charged_fen = proxy_charge attempt.rule response.usage;
  fallback_applied = not is_primary;
  request_kind = "proxy";
  created_unix = unix (clock 1);
  agreement_versions = versions;
}

-- the end of the method after an answer
unfoldable pub settle_answer :
    (ℕ → Clock)
    → String
    → List String
    → ℤ
    → ProxyAttempt
    → Bool
    → LlmResponse
    → MemoryStore
    → Outcome ChatProxyResponse
settle_answer clocks user_id versions reserved attempt is_primary response s =
    let charge = proxy_charge attempt.rule response.usage in
    let usage = proxy_usage (clocks 3) user_id versions attempt is_primary response in
    let shown : ChatProxyResponse = record {
      response = response;
      charged_fen = charge;
      pricing_version = normalized_pricing_version attempt.rule;
    } in
    and_then (settle_reserved_charge (clocks 2) user_id reserved charge "official platform chat" s)
      (λ _ s'. (ok shown, record_chat_usage usage s'))

-- the end of the method after the last error, by the outcome of the refund of the reserve
unfoldable pub proxy_failure : Option Error → Outcome WalletSummary → Outcome ChatProxyResponse
proxy_failure none (ok _, s) = (err (external "official platform chat failed"), s)
proxy_failure none (err refund, s) =
    (err (joined (external "official platform chat failed") refund), s)
proxy_failure (some e) (ok _, s) = (err e, s)
proxy_failure (some e) (err refund, s) = (err (joined e refund), s)

-- the part of the method after the reserve is taken
unfoldable pub settle_tried :
    (ℕ → Clock)
    → String
    → List String
    → String
    → ℤ
    → Tried
    → MemoryStore
    → Outcome ChatProxyResponse × Failover
settle_tried clocks user_id versions resolved reserved (answered attempt response f) s = (
  settle_answer clocks user_id versions reserved attempt (equal_fold attempt.model_id resolved)
      response s,
  f,
)
settle_tried clocks user_id versions resolved reserved (exhausted n last f) s = (
  proxy_failure last (credit (clocks 2) user_id reserved "official platform chat reserve refund" s),
  f,
)

-- A call after one that may fail, with the failover as it was if it does.
abbrev pub proceed :
    {A B : Type 0}
    → Failover
    → Outcome A
    → (A → MemoryStore → Outcome B × Failover)
    → Outcome B × Failover
proceed f (ok a, s) k = k a s
proceed f (err e, s) k = ((err e, s), f)

-- the part after the attempts are known: the wallet, the reserve and the calls
unfoldable pub proxy_attempts :
    Surroundings
    → String
    → List String
    → String
    → ℤ
    → List ProxyAttempt
    → Failover
    → MemoryStore
    → Outcome ChatProxyResponse × Failover
proxy_attempts around user_id versions resolved reserved attempts f s =
    proceed f (get_wallet (around.clocks 0) user_id s) (λ wallet s'.
      if leb_ℤ wallet.balance_fen (pos 0)
      then ((err insufficient_funds, s'), f)
      else if ltb_ℤ wallet.balance_fen reserved
      then ((err insufficient_funds, s'), f)
      else proceed f (debit (around.clocks 1) user_id reserved "official platform chat reserve" s')
          (λ _ s''.
            settle_tried around.clocks user_id versions resolved reserved
              (try_attempts around resolved attempts 0 none f) s''))

-- The method, for the name of a model resolved.
unfoldable pub proxy_resolved :
    Surroundings
    → List OfficialModel
    → Dict PricingRule
    → List String
    → String
    → String
    → Failover
    → MemoryStore
    → Outcome ChatProxyResponse × Failover
proxy_resolved around models pricing versions user_id resolved f s =
    elim (lookup resolved pricing) [
      | none ↦ ((err unknown_model, s), f)
      | some primary_rule ↦
          let ids = candidate_model_ids resolved models in
          let (skip, asked) = should_skip around.skip_answer resolved around.started f in
          let several = ltb 1 (length ids) in
          let f' = if several then asked else f in
          let attempts =
            attempts_for pricing resolved (tried_models resolved (several && skip) ids) in
          if ltb 0 (length attempts)
          then proxy_attempts around user_id versions resolved
              (reserve_for (reserve_charge primary_rule) attempts) attempts f' s
          else ((err unknown_model, s), f')
    ]
