-- ===== src/Providers/Tests.antt =====
-- The theorems on the cooldowns and on the fallback chain at concrete inputs.
use mathlib.Core.Logic.{◌≢◌}
use myagent_bot.Base.{
  ℕ, ◌+◌, ◌*◌, ◌≤◌, String, ◌≡◌, refl, true, false, leb, List, [], ◌∷◌, ◌++◌, map, Option, none,
  some, ok, err, length, arith, eq_iff,
}
use myagent_bot.Base.Dict.{member, lookup, insert}
use myagent_bot.Providers.Cooldown.{
  hour, CooldownTracker, new_cooldown_tracker, is_available, cooldown_remaining, mark_failure,
  start_cooldown, count_failure, forget_stale, get_or_create, calculate_standard_cooldown,
}
use myagent_bot.Providers.Cooldown.Backoff.{minute}
use myagent_bot.Providers.Cooldown.Wait.{remaining_exact}
use myagent_bot.Providers.Cooldown.History.{failed, succeeded, track, available_after_day}
use myagent_bot.Providers.Fallback.{
  add_layer, append_unique, FallbackCandidate, ModelConfig, key_of, resolve_candidates_with_lookup,
  build_layered_candidates,
}
use myagent_bot.Providers.Fallback.Keys.{distinct}
use myagent_bot.Providers.Fallback.Layers.{layered_key, layered_keys}
use myagent_bot.Providers.Fallback.Resolve.{is_named, resolve_keys}
use myagent_bot.Providers.Chain.{
  try_layers, retry_backoff_duration, Surroundings, FailoverError, FallbackAttempt, Outcome,
  succeeded as answered, exhausted, Progress, execute, execute_image,
}
use myagent_bot.Providers.Chain.Attempts.{attempt_key, Answered}
use myagent_bot.Providers.Chain.Runs.{execute_calls, execute-Answered, execute_exhausted}
use myagent_bot.Providers.Chain.Image.{tried, execute_image_answered}

-- A provider that failed at the time 5.
abbrev after_failure : CooldownTracker
after_failure = mark_failure 5 "openai/gpt" "rate_limit" new_cooldown_tracker

remaining_exact_example :
    is_available (9 + minute) "openai/gpt" after_failure
    ≡ leb (cooldown_remaining 9 "openai/gpt" after_failure) minute
remaining_exact_example = remaining_exact 9 minute "openai/gpt" after_failure

after_failure_test : cooldown_remaining 6 "openai/gpt" after_failure ≡ 59_999_999_999
unfolding cooldown_remaining mark_failure new_cooldown_tracker lookup insert start_cooldown
    calculate_standard_cooldown count_failure forget_stale get_or_create
after_failure_test = refl

available_after_day_example :
    is_available
      (7 + 24 * hour)
      "a"
      (track (failed 5 "a" "billing" ∷ succeeded 6 "b" ∷ []) new_cooldown_tracker)
    ≡ true
available_after_day_example =
    available_after_day 7 (failed 5 "a" "billing" ∷ succeeded 6 "b" ∷ []) "a"
      (omega arith, (omega arith, omega arith))

a_not_b : ◌≢◌ {A = String} "a" "b"
a_not_b = ground (arith, eq_iff "a" "b")

abbrev candidate : String → String → FallbackCandidate
candidate provider model = record { provider = provider; model = model }

abbrev three : List FallbackCandidate
three =
    candidate "openai" "gpt__key_1"
    ∷ candidate "anthropic" "opus"
    ∷ candidate "openai" "gpt__key_2"
    ∷ []

layered_keys_example :
    (distinct (map layered_key (build_layered_candidates three)) ≡ true)
    × (member "anthropic/opus" (map layered_key (build_layered_candidates three))
        ≡ member "anthropic/opus" (map key_of three))
layered_keys_example = layered_keys three "anthropic/opus"

abbrev config : ModelConfig
config = record { primary = "gpt/gpt-4o"; fallbacks = "opus" ∷ "openai/GPT-4o" ∷ [] }

resolve_keys_example :
    (distinct (map key_of (resolve_candidates_with_lookup config "claude" (λ raw. none))) ≡ true)
    × (member "anthropic/opus"
          (map key_of (resolve_candidates_with_lookup config "claude" (λ raw. none)))
        ≡ is_named
            (λ raw. none)
            "claude"
            "anthropic/opus"
            ("gpt/gpt-4o" ∷ "opus" ∷ "openai/GPT-4o" ∷ []))
resolve_keys_example = resolve_keys (λ raw. none) "claude" config "anthropic/opus"

abbrev timeout_of : String → String → String → Option (FailoverError String)
timeout_of e provider model =
    some
      (record { reason = "timeout"; provider = provider; model = model; status = 504; wrapped = e })

-- Surroundings in which every call times out up to a moment, and is answered from it on.
abbrev slow_until : ℕ → Surroundings String String
slow_until m = record {
  run = λ n provider model. elim (leb m n) [ true ↦ ok "hello" | false ↦ err "slow" ];
  canceled = λ n. false;
  interrupted = λ n backoff. false;
  now = λ n. n;
  classify = timeout_of;
  is_image_error = λ e. false;
}

execute_calls_example :
    (execute (slow_until 1) three new_cooldown_tracker).1.moment ≤ 2 * length three
execute_calls_example = execute_calls (slow_until 1) three new_cooldown_tracker

abbrev one : List FallbackCandidate
one = candidate "a" "m" ∷ []

abbrev attempts_of : Outcome String String → List (FallbackAttempt String)
attempts_of (answered _ _ _ attempts) = attempts
attempts_of (exhausted attempts) = attempts
attempts_of _ = []

-- The runs that are answered at the second call, and that never are.
abbrev answered_run : Outcome String String × Progress String
answered_run = execute (slow_until 1) one new_cooldown_tracker

abbrev exhausted_run : Outcome String String × Progress String
exhausted_run = execute (slow_until 9) one new_cooldown_tracker

execute-Answered_example : Answered (slow_until 1) "hello" "a" "m" answered_run.1.cooldown
unfolding execute try_layers build_layered_candidates add_layer append_unique member is_available
    lookup new_cooldown_tracker retry_backoff_duration
execute-Answered_example =
    execute-Answered (slow_until 1) one new_cooldown_tracker "hello" "a" "m"
      (attempts_of answered_run.0) answered_run.1 refl

execute_exhausted_example :
    member "a/m" (map attempt_key (attempts_of exhausted_run.0)) ≡ member "a/m" (map key_of one)
unfolding execute try_layers build_layered_candidates add_layer append_unique member is_available
    lookup new_cooldown_tracker retry_backoff_duration
execute_exhausted_example =
    execute_exhausted (slow_until 9) one new_cooldown_tracker (attempts_of exhausted_run.0)
      exhausted_run.1 "a/m" refl

abbrev image_answered : Outcome String String × Progress String
image_answered = execute_image (slow_until 1) three new_cooldown_tracker

abbrev image_exhausted : Outcome String String × Progress String
image_exhausted = execute_image (slow_until 9) three new_cooldown_tracker

execute_image_answered_example :
    ((rest : List FallbackCandidate) × (map tried (attempts_of image_answered.0)
          ++ candidate "anthropic" "opus" ∷ rest
        ≡ three))
    × ((n : ℕ) × ((slow_until 1).run n "anthropic" "opus" ≡ ok "hello"))
unfolding execute_image
execute_image_answered_example =
    execute_image_answered (slow_until 1) three new_cooldown_tracker "hello" "anthropic" "opus"
      (attempts_of image_answered.0) image_answered.1 refl
