-- ===== src/Providers/Cooldown/Marks.antt =====
-- What one report to the cooldown tracker of cooldown.go changes, and what it leaves.
use text.Mathlib.Text.{◌==◌ as same_text}
use text.Mathlib.TextPositions.{eq_refl}
use myagent_bot.Base.{
  ℕ, ◌+◌, ◌<◌, ap, ◌≡◌, refl, ◌≢◌, if◌then◌else◌, String, true, false, some, Option-cases, inl, inr,
  arith, Bool-cases, eq_iff,
}
use myagent_bot.Base.Dict.{lookup, lookup_or, insert, lookup-insert}
use myagent_bot.Providers.Cooldown.{
  is_ahead, calculate_standard_cooldown, calculate_billing_cooldown, FailoverReason,
  failover_billing, CooldownEntry, CooldownTracker, is_available, mark_failure, mark_success,
  get_or_create, forget_stale, count_failure, start_cooldown, cleared, error_count_of,
  failure_count,
}
use myagent_bot.Providers.Cooldown.Backoff.{
  standard_table, billing_table, standard_cooldown_table, billing_cooldown_table,
}

-- The entry that a failure leaves.
abbrev failed_entry : ℕ → String → FailoverReason → CooldownTracker → CooldownEntry
failed_entry now p reason ct =
    start_cooldown now reason
      (count_failure now reason (forget_stale ct.failure_window now (get_or_create p ct)))

mark_failure_entry :
    (now : ℕ) (p : String) (reason : FailoverReason) (ct : CooldownTracker)
    → lookup p (mark_failure now p reason ct).entries ≡ some (failed_entry now p reason ct)
unfolding mark_failure
mark_failure_entry now p reason ct = simp (lookup-insert, eq_refl)

other_same :
    (p q : String) (entry : CooldownEntry) (ct ct' : CooldownTracker)
    → p ≢ q
    → ct'.entries ≡ insert p entry ct.entries
    → lookup q ct'.entries ≡ lookup q ct.entries
other_same p q entry ct ct' apart h =
    rw h (ground (arith, lookup-insert p q entry ct.entries, eq_iff p q))

is_available-same :
    (t : ℕ) (q : String) (ct ct' : CooldownTracker)
    → lookup q ct'.entries ≡ lookup q ct.entries
    → is_available t q ct' ≡ is_available t q ct
unfolding is_available
is_available-same t q ct ct' h = rw (h, is_available) refl

blocked-disabled :
    (t u : ℕ) (p : String) (entry : CooldownEntry) (ct : CooldownTracker)
    → lookup p ct.entries ≡ some entry
    → entry.disabled_until ≡ some u
    → t < u
    → is_available t p ct ≡ false
unfolding is_available
blocked-disabled t u p entry ct found until early = rw (found, is_available, until) (ground arith)

blocked-cooling :
    (t u : ℕ) (p : String) (entry : CooldownEntry) (ct : CooldownTracker)
    → lookup p ct.entries ≡ some entry
    → entry.cooldown_end ≡ some u
    → t < u
    → is_available t p ct ≡ false
unfolding is_available
blocked-cooling t u p entry ct found until early =
    let ahead : is_ahead t (some u) ≡ true = ground arith in
    elim (Bool-cases (is_ahead t entry.disabled_until)) [
      | inl a ↦ rw (found, is_available, a) refl
      | inr b ↦ rw (found, is_available, b, until, ahead) refl
    ]

-- The length of the shutdown after a failure, from the counts that the tracker then shows.
abbrev pub shut_for : FailoverReason → String → CooldownTracker → ℕ
shut_for reason p after =
    if same_text reason failover_billing
    then billing_table (failure_count p failover_billing after)
    else standard_table (error_count_of p after)

failure_shuts :
    (now t : ℕ) (p : String) (reason : FailoverReason) (ct : CooldownTracker)
    → t < now + shut_for reason p (mark_failure now p reason ct)
    → is_available t p (mark_failure now p reason ct) ≡ false
unfolding error_count_of failure_count start_cooldown
failure_shuts now t p reason ct early =
    let after = mark_failure now p reason ct in
    let counted =
      count_failure now reason (forget_stale ct.failure_window now (get_or_create p ct)) in
    let found = mark_failure_entry now p reason ct in
    elim (Bool-cases (same_text reason failover_billing)) [
      | inl billing ↦
          let n = lookup_or 0 failover_billing counted.failure_counts in
          let count : failure_count p failover_billing after ≡ n =
            rw (failure_count, found, start_cooldown, billing) refl in
          let early' : t < now + billing_table (failure_count p failover_billing after) =
            rw billing at early in
          blocked-disabled t (now + calculate_billing_cooldown n) p _ after found
            (rw (start_cooldown, billing) refl)
            (omega (arith, early', ap billing_table count, billing_cooldown_table n))
      | inr other ↦
          let n = counted.error_count in
          let count : error_count_of p after ≡ n =
            rw (error_count_of, found, start_cooldown, other) refl in
          let early' : t < now + standard_table (error_count_of p after) = rw other at early in
          blocked-cooling t (now + calculate_standard_cooldown n) p _ after found
            (rw (start_cooldown, other) refl)
            (omega (arith, early', ap standard_table count, standard_cooldown_table n))
    ]

-- After a failure the provider is not available before the failure's time and the cooldown of the
-- table, at the count that the tracker then shows: that of its billing failures for a billing
-- failure, that of its failures otherwise. Every other provider is as available as before.
pub failure_blocks :
    (now t : ℕ) (p q : String) (reason : FailoverReason) (ct : CooldownTracker)
    → p ≢ q
    → t < now + shut_for reason p (mark_failure now p reason ct)
    → (is_available t p (mark_failure now p reason ct) ≡ false)
      × (is_available t q (mark_failure now p reason ct) ≡ is_available t q ct)
unfolding mark_failure
failure_blocks now t p q reason ct apart early = (
  failure_shuts now t p reason ct early,
  is_available-same t q ct _
      (other_same p q (failed_entry now p reason ct) ct (mark_failure now p reason ct) apart refl),
)

pub mark_success_available :
    (t : ℕ) (p : String) (ct : CooldownTracker) → is_available t p (mark_success p ct) ≡ true
unfolding is_available mark_success
mark_success_available t p ct = elim (Option-cases (lookup p ct.entries)) [
  | inl unknown ↦ rw (mark_success, unknown) (rw (is_available, unknown) refl)
  | inr (entry, known) ↦
      let found : lookup p (insert p (cleared entry) ct.entries) ≡ some (cleared entry) =
        simp (lookup-insert, eq_refl) in
      rw (mark_success, known) (rw (is_available, found) refl)
]

-- After a success the provider is available at any time and its counts are 0, and every other
-- provider is as available as before.
pub success_clears :
    (t : ℕ) (p q : String) (reason : FailoverReason) (ct : CooldownTracker)
    → p ≢ q
    → (is_available t p (mark_success p ct) ≡ true)
      × (error_count_of p (mark_success p ct) ≡ 0)
      × (failure_count p reason (mark_success p ct) ≡ 0)
      × (is_available t q (mark_success p ct) ≡ is_available t q ct)
unfolding is_available error_count_of failure_count mark_success lookup
success_clears t p q reason ct apart = elim (Option-cases (lookup p ct.entries)) [
  | inl unknown ↦
      rw (mark_success, unknown)
        (
          rw (is_available, unknown) refl,
          rw (error_count_of, unknown) refl,
          rw (failure_count, unknown) refl,
          refl,
        )
  | inr (entry, known) ↦
      let after : CooldownTracker = record ct { entries = insert p (cleared entry) ct.entries } in
      let done : mark_success p ct ≡ after = rw (mark_success, known) refl in
      let found : lookup p after.entries ≡ some (cleared entry) = simp (lookup-insert, eq_refl) in
      let same = other_same p q (cleared entry) ct after apart refl in
      rw done (
        rw (is_available, found) refl,
        rw (error_count_of, found) refl,
        rw (failure_count, found) refl,
        is_available-same t q ct after same,
      )
]
