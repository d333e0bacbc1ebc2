-- ===== src/Platform/Failover/Tests.antt =====
-- The theorems on the primary model's cooldown at concrete inputs.
use myagent_bot.Base.{◌+◌, ltb, ◌≡◌, refl, ◌≢◌, [], ◌∷◌, none, arith, eq_iff}
use myagent_bot.Base.Dict.{lookup}
use myagent_bot.Base.Text.{to_lower, trim_space}
use myagent_bot.Platform.Failover.{
  Failover, primary_cooldown_duration, failure_key, should_skip, record_primary_failure,
}
use myagent_bot.Platform.Failover.Cooldown.{failure_skips}

-- A model that has failed once.
abbrev after_one : Failover
after_one = record {
  primary_failures = ("gpt", record { consecutive_failures = 1; cooldown_until = none }) ∷ [];
  metrics = record {
    primary_failures = 1;
    cooldown_openings = 0;
    cooldown_skips = 0;
    fallback_successes = 0;
    primary_recoveries = 0;
    failure_store_errors = 0;
  };
}

gpt_named : failure_key "GPT" ≢ ""
unfolding failure_key to_lower trim_space
gpt_named = ground (arith, eq_iff "gpt" "")

gpt_not_opus : failure_key "GPT" ≢ failure_key "opus"
unfolding failure_key to_lower trim_space
gpt_not_opus = ground (arith, eq_iff "gpt" "opus")

failure_skips_example :
    ((should_skip none "GPT" 9 (record_primary_failure none "GPT" 7 after_one)).0
      ≡ ltb 9 (7 + primary_cooldown_duration))
    × ((should_skip none "opus" 9 (record_primary_failure none "GPT" 7 after_one)).0
        ≡ (should_skip none "opus" 9 after_one).0)
unfolding failure_key to_lower trim_space lookup
failure_skips_example =
    failure_skips none "GPT" "opus" 7 9 (record { consecutive_failures = 1; cooldown_until = none })
      after_one gpt_named gpt_not_opus refl (omega arith)
