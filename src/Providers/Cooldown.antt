-- ===== src/Providers/Cooldown.antt =====
-- The cooldown tracker of PinchBot/pkg/providers/cooldown.go. A `time.Time` is nanoseconds since
-- 1970, or `none` for its zero value; a `time.Duration` is nanoseconds. The counters grow by one
-- with each failure, and stay below 2^63.

pub mod Backoff
pub mod Wait
pub mod History
pub mod Marks
use text.Mathlib.Text.{◌==◌ as same_text}
use myagent_bot.Base.{
  ℕ, suc, ◌+◌, ◌-◌, ◌*◌, ◌^◌, max, min, String, Bool, true, false, not, ◌&&◌, List, [], ◌∷◌, Option,
  none, some, if◌then◌else◌, ltb,
}
use myagent_bot.Base.Dict.{Dict, lookup, insert, lookup_or}

-- `type FailoverReason string`
abbrev pub FailoverReason : Type 0
FailoverReason = String

abbrev pub failover_rate_limit : FailoverReason
failover_rate_limit = "rate_limit"

abbrev pub failover_billing : FailoverReason
failover_billing = "billing"

abbrev pub failover_timeout : FailoverReason
failover_timeout = "timeout"

abbrev pub failover_format : FailoverReason
failover_format = "format"

abbrev pub failover_unknown : FailoverReason
failover_unknown = "unknown"

abbrev pub millisecond : ℕ
millisecond = 1_000_000

abbrev pub hour : ℕ
hour = 60 * 60 * 1_000 * millisecond

abbrev pub Time : Type 0
Time = Option ℕ

pub record CooldownEntry : Type 0 where
  pub error_count : ℕ
  pub failure_counts : Dict ℕ
  pub cooldown_end : Time
  pub disabled_until : Time
  pub disabled_reason : FailoverReason
  pub last_failure : Time

pub record CooldownTracker : Type 0 where
  pub entries : Dict CooldownEntry
  pub failure_window : ℕ

-- `NewCooldownTracker`
unfoldable pub new_cooldown_tracker : CooldownTracker
new_cooldown_tracker = record { entries = []; failure_window = 24 * hour }

-- `calculateStandardCooldown`. The powers of floats are exact up to the exponent 3.
unfoldable pub calculate_standard_cooldown : ℕ → ℕ
calculate_standard_cooldown error_count =
    let n = max 1 error_count in
    let exp = min (n - 1) 3 in min 3_600_000 (60_000 * 5 ^ exp) * millisecond

-- `calculateBillingCooldown`. The powers of floats are exact up to the exponent 10.
unfoldable pub calculate_billing_cooldown : ℕ → ℕ
calculate_billing_cooldown billing_error_count =
    let n = max 1 billing_error_count in
    let exp = min (n - 1) 10 in
    min (24 * 60 * 60 * 1_000) (5 * 60 * 60 * 1_000 * 2 ^ exp) * millisecond

abbrev pub new_entry : CooldownEntry
new_entry = record {
  error_count = 0;
  failure_counts = [];
  cooldown_end = none;
  disabled_until = none;
  disabled_reason = "";
  last_failure = none;
}

-- `getOrCreate`; the entry is stored with the failure that it is created for.
unfoldable pub get_or_create : String → CooldownTracker → CooldownEntry
get_or_create provider ct = lookup_or new_entry provider ct.entries

-- Whether the last failure is more than the failure window ago.
abbrev pub is_stale : ℕ → ℕ → Time → Bool
is_stale window now none = false
is_stale window now (some last) = ltb window (now - last)

-- The counters of a provider whose last failure is too long ago start again.
unfoldable pub forget_stale : ℕ → ℕ → CooldownEntry → CooldownEntry
forget_stale window now entry =
    if is_stale window now entry.last_failure
    then record entry { error_count = 0; failure_counts = [] }
    else entry

-- `entry.ErrorCount++`, `entry.FailureCounts[reason]++` and `entry.LastFailure = now`
unfoldable pub count_failure : ℕ → FailoverReason → CooldownEntry → CooldownEntry
count_failure now reason entry = record entry {
  error_count = suc entry.error_count;
  failure_counts =
      insert reason (suc (lookup_or 0 reason entry.failure_counts)) entry.failure_counts;
  last_failure = some now;
}

-- The end of the cooldown that a counted failure starts.
unfoldable pub start_cooldown : ℕ → FailoverReason → CooldownEntry → CooldownEntry
start_cooldown now reason entry =
    if same_text reason failover_billing
    then record entry {
      disabled_until =
          some
            (now + calculate_billing_cooldown (lookup_or 0 failover_billing entry.failure_counts));
      disabled_reason = failover_billing;
    }
    else record entry { cooldown_end = some (now + calculate_standard_cooldown entry.error_count) }

-- `MarkFailure`
unfoldable pub mark_failure : ℕ → String → FailoverReason → CooldownTracker → CooldownTracker
mark_failure now provider reason ct =
    let entry = forget_stale ct.failure_window now (get_or_create provider ct) in
    record ct {
      entries =
          insert provider (start_cooldown now reason (count_failure now reason entry)) ct.entries;
    }

-- The five assignments of `MarkSuccess`.
abbrev pub cleared : CooldownEntry → CooldownEntry
cleared entry = record entry {
  error_count = 0;
  failure_counts = [];
  cooldown_end = none;
  disabled_until = none;
  disabled_reason = "";
}

-- `MarkSuccess`
unfoldable pub mark_success : String → CooldownTracker → CooldownTracker
mark_success provider ct = elim (lookup provider ct.entries) [
  | none ↦ ct
  | some entry ↦ record ct { entries = insert provider (cleared entry) ct.entries }
]

-- `!t.IsZero() && now.Before(t)`
abbrev pub is_ahead : ℕ → Time → Bool
is_ahead now none = false
is_ahead now (some t) = ltb now t

-- `IsAvailable`
unfoldable pub is_available : ℕ → String → CooldownTracker → Bool
is_available now provider ct = elim (lookup provider ct.entries) [
  | none ↦ true
  | some entry ↦
      if is_ahead now entry.disabled_until
      then false
      else if is_ahead now entry.cooldown_end
      then false
      else true
]

-- `d := t.Sub(now); if d > remaining { remaining = d }`, where `t` is ahead
unfoldable pub longer_wait : ℕ → Time → ℕ → ℕ
longer_wait now none remaining = remaining
longer_wait now (some t) remaining =
    if ltb now t then (if ltb remaining (t - now) then t - now else remaining) else remaining

-- `CooldownRemaining`
unfoldable pub cooldown_remaining : ℕ → String → CooldownTracker → ℕ
unfolding longer_wait
cooldown_remaining now provider ct = elim (lookup provider ct.entries) [
  | none ↦ 0
  | some entry ↦ longer_wait now entry.cooldown_end (longer_wait now entry.disabled_until 0)
]

-- `ErrorCount`
unfoldable pub error_count_of : String → CooldownTracker → ℕ
error_count_of provider ct = elim (lookup provider ct.entries) [
  | none ↦ 0
  | some entry ↦ entry.error_count
]

-- `FailureCount`
unfoldable pub failure_count : String → FailoverReason → CooldownTracker → ℕ
failure_count provider reason ct = elim (lookup provider ct.entries) [
  | none ↦ 0
  | some entry ↦ lookup_or 0 reason entry.failure_counts
]
