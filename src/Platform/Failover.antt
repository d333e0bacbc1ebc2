-- ===== src/Platform/Failover.antt =====
-- The failures of a primary official model and its cooldown, service.go. A time is nanoseconds
-- since 1970, or none for the zero time. The outside store of failures is a parameter: its answer,
-- none where no store is set.
pub mod Cooldown
mod Tests
use text.Mathlib.Text.{◌==◌}
use myagent_bot.Base.{
  ℕ, suc, ◌+◌, ◌*◌, ltb, leb, String, Bool, true, false, not, ◌&&◌, ◌||◌, List, [], Option, none,
  some, Result, ok, err, if◌then◌else◌,
}
use myagent_bot.Base.Dict.{Dict, lookup, lookup_or, insert, erase}
use myagent_bot.Base.Text.{trim_space, to_lower}

pub record PrimaryFailureState : Type 0 where
  pub consecutive_failures : ℕ
  pub cooldown_until : Option ℕ

pub record FailoverMetrics : Type 0 where
  pub primary_failures : ℕ
  pub cooldown_openings : ℕ
  pub cooldown_skips : ℕ
  pub fallback_successes : ℕ
  pub primary_recoveries : ℕ
  pub failure_store_errors : ℕ

-- The fields of `Service` that the failover changes.
pub record Failover : Type 0 where
  pub primary_failures : Dict PrimaryFailureState
  pub metrics : FailoverMetrics

abbrev pub primary_failure_threshold : ℕ
primary_failure_threshold = 2

abbrev pub primary_cooldown_duration : ℕ
primary_cooldown_duration = 30 * 1_000_000_000

abbrev pub no_failures : PrimaryFailureState
no_failures = record { consecutive_failures = 0; cooldown_until = none }

-- `normalizePrimaryFailureStateKey`
unfoldable pub failure_key : String → String
failure_key model_id = to_lower (trim_space model_id)

-- `!t.IsZero() && now.Before(t)`
abbrev pub is_cooling : ℕ → Option ℕ → Bool
is_cooling now none = false
is_cooling now (some t) = ltb now t

abbrev count_skip : Bool → FailoverMetrics → FailoverMetrics
count_skip skip m = if skip then record m { cooldown_skips = suc m.cooldown_skips } else m

abbrev pub count_error : {A : Type 0} → Option (Result String A) → FailoverMetrics → FailoverMetrics
count_error (some (err _)) m = record m { failure_store_errors = suc m.failure_store_errors }
count_error _ m = m

abbrev pub local_skip : ℕ → String → Failover → Bool
local_skip now key s = elim (lookup key s.primary_failures) [
  | none ↦ false
  | some state ↦ is_cooling now state.cooldown_until
]

-- `shouldSkipPrimaryDuringCooldown`
unfoldable pub should_skip : Option (Result String Bool) → String → ℕ → Failover → Bool × Failover
should_skip outside model_id now s =
    let key = failure_key model_id in
    let skip : Bool = elim outside [
      | some answer ↦ elim answer [ ok skip ↦ skip | err _ ↦ local_skip now key s ]
      | none ↦ local_skip now key s
    ] in
    if key == ""
    then (false, s)
    else (skip, record s { metrics = count_skip skip (count_error outside s.metrics) })

-- The state of a model after one more failure.
unfoldable pub failed_again : ℕ → PrimaryFailureState → PrimaryFailureState
failed_again now state =
    let failures = suc state.consecutive_failures in
    record {
      consecutive_failures = failures;
      cooldown_until =
          if leb primary_failure_threshold failures
          then some (now + primary_cooldown_duration)
          else state.cooldown_until;
    }

-- Whether a cooldown counts as opened: as the outside store says, or as the local states say.
abbrev opened : Option (Result String Bool) → Bool → Bool
opened (some (ok outside_opened)) local_opened = outside_opened
opened _ local_opened = local_opened

-- `recordPrimaryFailure`
unfoldable pub record_primary_failure :
    Option (Result String Bool) → String → ℕ → Failover → Failover
unfolding failed_again
record_primary_failure outside model_id now s =
    let key = failure_key model_id in
    let old = lookup_or no_failures key s.primary_failures in
    let new = failed_again now old in
    let opens =
      opened outside
        (not (is_cooling now old.cooldown_until) && is_cooling now new.cooldown_until) in
    let counted =
      count_error outside
        (record s.metrics { primary_failures = suc s.metrics.primary_failures }) in
    if key == "" then s else record {
      primary_failures = insert key new s.primary_failures;
      metrics =
          if opens
          then record counted { cooldown_openings = suc counted.cooldown_openings }
          else counted;
    }

-- Whether there was a failure or a cooldown to forget.
abbrev had_state : String → Failover → Bool
had_state key s = elim (lookup key s.primary_failures) [
  | none ↦ false
  | some state ↦
      ltb 0 state.consecutive_failures
      || (elim state.cooldown_until [ none ↦ false | some _ ↦ true ])
]

-- `clearPrimaryFailures`
unfoldable pub clear_primary_failures : Option (Result String Bool) → String → Failover → Failover
clear_primary_failures outside model_id s =
    let key = failure_key model_id in
    let counted = count_error outside s.metrics in
    let recovers = opened outside (had_state key s) in
    if key == "" then s else record {
      primary_failures = erase key s.primary_failures;
      metrics =
          if recovers
          then record counted { primary_recoveries = suc counted.primary_recoveries }
          else counted;
    }
