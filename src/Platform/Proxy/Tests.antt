-- ===== src/Platform/Proxy/Tests.antt =====
-- The theorems on proxied chats at concrete inputs, and a run with a fallback.
use Prim.Native.Char.{Char, code}
use text.Mathlib.Text.{◌==◌}
use myagent_bot.Base.{
  ◌+◌, String, ◌≡◌, refl, ap, List, [], ◌∷◌, none, ok, err, true, Bool, ltb, ◌&&◌, ◌||◌,
  if◌then◌else◌, arith, some, false, true,
}
use myagent_bot.Base.Dict.{Dict, lookup, insert, member}
use myagent_bot.Base.Int.{ℤ, pos}
use myagent_bot.Base.Int64.{add64, sub64, neg64}
use myagent_bot.Base.Text.{trim_space, to_lower, equal_fold, has_suffix, has_prefix, trim_prefix}
use myagent_bot.Routing.AgentId.{strip_trailing_dashes, strip_leading_dashes}
use myagent_bot.Platform.Types.{external}
use myagent_bot.Platform.Store.State.{
  MemoryStore, Outcome, new_memory_store, append_transaction, transactions_of, wallet_of,
}
use myagent_bot.Platform.Store.Wallet.{credit, debit, get_wallet}
use myagent_bot.Platform.Store.Entries.{balance}
use myagent_bot.Platform.Billing.{
  PricingRule, charge_from_usage, normalized_pricing_version, record_chat_usage, reserve_charge,
  settle_reserved_charge,
}
use myagent_bot.Platform.Failover.{Failover, should_skip, failure_key, record_primary_failure}
use myagent_bot.Platform.Proxy.Candidates.{
  OfficialModel, candidate_model_ids, unseen_ids, sort_ranked, fallbacks_of, is_fallback,
  insert_ranked, ranks_before, priority_of,
}
use myagent_bot.Platform.Proxy.{
  Surroundings, LlmResponse, ChatProxyResponse, proxy_resolved, attempts_for, tried_models,
  proxy_attempts, after_answer, after_failure, proxy_charge, reserve_for, settle_answer,
  settle_tried, try_attempt, try_attempts, without_model,
}
use myagent_bot.Platform.Proxy.Models.{set_official_models, is_configured, set_models_skips}
use myagent_bot.Platform.Proxy.Names.{
  resolve_enabled_official_model_id, resolve_official_model_id, enabled_model_id, model_named,
  normalize_alias_key, default_official_model, best_model, goes_first, words_of, without_official,
  dash_words,
}
use myagent_bot.Platform.Proxy.Request.{
  ProxyService, proxy_official_chat_request, request_cost, request_exhausted, IsOffered,
  resolve_enabled-IsOffered,
}

abbrev model : String → ℤ → OfficialModel
model id priority = record {
  id = id;
  name = id;
  description = "";
  enabled = true;
  fallback_priority = priority;
  pricing_version = "";
  reserve_fen = pos 0;
}

abbrev models : List OfficialModel
models = model "b" (pos 2) ∷ model "main" (pos 0) ∷ model "c" (pos 1) ∷ model "MAIN" (pos 1) ∷ []

in_order : candidate_model_ids "main" models ≡ "main" ∷ "c" ∷ "b" ∷ []
unfolding candidate_model_ids trim_space unseen_ids sort_ranked fallbacks_of is_fallback member
    to_lower insert_ranked ranks_before
in_order = refl

abbrev price : String → ℤ → PricingRule
price id fen = record {
  model_id = id;
  version = "v1";
  effective_from_unix = pos 0;
  input_price_micros_per_1k = pos 0;
  output_price_micros_per_1k = pos 0;
  fallback_price_fen = fen;
}

abbrev pricing : Dict PricingRule
pricing = ("main", price "main" (pos 9)) ∷ ("c", price "c" (pos 4)) ∷ []

abbrev reply : LlmResponse
reply = record { content = "hello"; usage = none }

-- The primary model fails, and the fallback answers.
abbrev around : Surroundings
around = record {
  call = λ n id. if id == "c" then ok reply else err (external "timeout");
  skip_answer = none;
  failure_answer = λ n. none;
  now = λ n. 1_000 + n;
  started = 1_000;
  clocks = λ m n. 1_700_000_000_000_000_000 + m + n;
}

abbrev silent : Surroundings
silent = record around { call = λ n id. err (external "timeout") }

abbrev calm : Failover
calm = record {
  primary_failures = [];
  metrics = record {
    primary_failures = 0;
    cooldown_openings = 0;
    cooldown_skips = 0;
    fallback_successes = 0;
    primary_recoveries = 0;
    failure_store_errors = 0;
  };
}

abbrev rich : MemoryStore
rich = record new_memory_store {
  wallets =
      (
        "ann",
        record { user_id = "ann"; balance_fen = pos 100; currency = "CNY"; updated_unix = pos 1 },
      )
      ∷ [];
}

abbrev shown : ChatProxyResponse
shown = record { response = reply; charged_fen = pos 4; pricing_version = "v1" }

-- the chat of the run
abbrev chat : Outcome ChatProxyResponse × Failover
chat = proxy_resolved around models pricing [] "ann" "main" calm rich

chat_answered : chat.0.0 ≡ ok shown
unfolding proxy_resolved lookup attempts_for tried_models candidate_model_ids trim_space unseen_ids
    sort_ranked fallbacks_of is_fallback member to_lower insert_ranked ranks_before should_skip
    failure_key proxy_attempts insert add64 sub64 neg64 equal_fold charge_from_usage
    normalized_pricing_version record_chat_usage reserve_charge settle_reserved_charge
    record_primary_failure after_answer after_failure proxy_charge reserve_for settle_answer
    settle_tried try_attempt try_attempts without_model append_transaction transactions_of wallet_of
    credit debit get_wallet new_memory_store
chat_answered = refl

abbrev is_word : Char → Bool
is_word c =
    (ltb 47 (code c) && ltb (code c) 58)
    || (ltb 64 (code c) && ltb (code c) 91)
    || (ltb 96 (code c) && ltb (code c) 123)

abbrev service : ProxyService
service = record {
  has_client = true;
  is_word = is_word;
  models = models;
  pricing = pricing;
  versions = [];
}

by_id : resolve_enabled_official_model_id is_word models " MAIN " ≡ ok "main"
unfolding resolve_enabled_official_model_id resolve_official_model_id enabled_model_id model_named
    normalize_alias_key default_official_model best_model goes_first words_of without_official
    trim_space equal_fold to_lower
by_id = refl

-- "official/" is left out, and the default is the enabled model of the least priority
by_default : resolve_enabled_official_model_id is_word models "Official/default" ≡ ok "main"
unfolding resolve_enabled_official_model_id resolve_official_model_id enabled_model_id model_named
    normalize_alias_key default_official_model best_model goes_first words_of without_official
    trim_space equal_fold to_lower has_suffix has_prefix trim_prefix strip_trailing_dashes
    strip_leading_dashes dash_words priority_of
by_default = refl

request_answered :
    (proxy_official_chat_request around service "ann" "main" calm rich).0.0 ≡ ok shown
unfolding proxy_official_chat_request resolve_enabled_official_model_id resolve_official_model_id
    enabled_model_id model_named proxy_resolved lookup attempts_for tried_models candidate_model_ids
    trim_space unseen_ids sort_ranked fallbacks_of is_fallback member to_lower insert_ranked
    ranks_before should_skip failure_key proxy_attempts insert add64 sub64 neg64 equal_fold
    charge_from_usage normalized_pricing_version record_chat_usage reserve_charge
    settle_reserved_charge record_primary_failure after_answer after_failure proxy_charge
    reserve_for settle_answer settle_tried try_attempt try_attempts without_model append_transaction
    transactions_of wallet_of credit debit get_wallet new_memory_store
request_answered = refl

request_cost_example :
    balance (proxy_official_chat_request around service "ann" "main" calm rich).0.1 "ann"
    ≡ (if "ann" == "ann" then sub64 (balance rich "ann") (pos 4) else balance rich "ann")
request_cost_example =
    request_cost around service "ann" "main" calm
      (proxy_official_chat_request around service "ann" "main" calm rich).1 rich
      (proxy_official_chat_request around service "ann" "main" calm rich).0.1 shown "ann"
      (ap
        (λ r. (
          (r, (proxy_official_chat_request around service "ann" "main" calm rich).0.1),
          (proxy_official_chat_request around service "ann" "main" calm rich).1,
        ))
        request_answered)

request_exhausted_example :
    balance (proxy_official_chat_request silent service "ann" "main" calm rich).0.1 "ann"
    ≡ balance rich "ann"
unfolding new_memory_store lookup wallet_of
request_exhausted_example =
    request_exhausted silent (λ n id. (external "timeout", refl)) service "ann" "main" calm rich
      "ann" (omega arith, omega arith)

resolve_enabled-IsOffered_example : IsOffered "main" models
resolve_enabled-IsOffered_example =
    resolve_enabled-IsOffered is_word (model "b" (pos 2))
      (model "main" (pos 0) ∷ model "c" (pos 1) ∷ model "MAIN" (pos 1) ∷ []) " MAIN " "main" by_id

-- "c" is cooling down when the models are set.
abbrev cooling : Failover
cooling = record calm {
  primary_failures = ("c", record { consecutive_failures = 2; cooldown_until = some 5_000 }) ∷ [];
}

set_models_skips_example :
    (should_skip none "C" 1_000 (set_official_models (λ ids. none) pricing models cooling).1).0 ≡ (
      if is_configured (failure_key "C") models
      then (should_skip none "C" 1_000 cooling).0
      else false)
set_models_skips_example = set_models_skips (λ ids. none) pricing models cooling "C" 1_000
