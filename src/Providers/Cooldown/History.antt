-- ===== src/Providers/Cooldown/History.antt =====
-- Histories of the cooldown tracker of cooldown.go.
use text.Mathlib.Text.{◌==◌ as same_text}
use myagent_bot.Base.{
  ℕ, ◌+◌, ◌*◌, ◌≤◌, ◌≡◌, refl, sym, subst, String, true, false, none, some, Option-cases, inl, inr,
  arith, Bool-cases, List, [], ◌∷◌,
}
use myagent_bot.Base.Dict.{lookup, lookup_or, insert_all}
use myagent_bot.Providers.Cooldown.{
  hour, failover_billing, Time, FailoverReason, CooldownEntry, CooldownTracker,
  new_cooldown_tracker, new_entry, is_ahead, is_available, mark_failure, mark_success,
  get_or_create, forget_stale, count_failure, start_cooldown,
}
use myagent_bot.Providers.Cooldown.Backoff.{standard_cooldown_within, billing_cooldown_within}

-- A report on a provider, and when it comes.
pub data Report : Type 0 where
  failed : ℕ → String → FailoverReason → Report
  succeeded : ℕ → String → Report

unfoldable pub track : List Report → CooldownTracker → CooldownTracker
track [] ct = ct
track (failed now provider reason ∷ rs) ct = track rs (mark_failure now provider reason ct)
track (succeeded now provider ∷ rs) ct = track rs (mark_success provider ct)

abbrev pub IsReportedBy : ℕ → Report → Type 0
IsReportedBy T (failed now _ _) = now ≤ T
IsReportedBy T (succeeded now _) = now ≤ T

abbrev pub AllReportedBy : ℕ → List Report → Type 0
AllReportedBy T [] = 0 ≤ T
AllReportedBy T (r ∷ rs) = IsReportedBy T r × AllReportedBy T rs

-- A cooldown that ends at the latest at `T`.
abbrev TimeEndsBy : ℕ → Time → Type 0
TimeEndsBy T none = 0 ≤ T
TimeEndsBy T (some t) = t ≤ T

abbrev EndsBy : ℕ → CooldownEntry → Type 0
EndsBy T entry = TimeEndsBy T entry.disabled_until × TimeEndsBy T entry.cooldown_end

abbrev AllEndBy : ℕ → CooldownTracker → Type 0
AllEndBy T ct =
    (p : String) (entry : CooldownEntry) → lookup p ct.entries ≡ some entry → EndsBy T entry

start_cooldown-EndsBy :
    (T now : ℕ) (reason : FailoverReason) (entry : CooldownEntry)
    → now ≤ T
    → EndsBy (T + 24 * hour) entry
    → EndsBy (T + 24 * hour) (start_cooldown now reason entry)
unfolding start_cooldown
start_cooldown-EndsBy T now reason entry early ends =
    elim (Bool-cases (same_text reason failover_billing)) [
      | inl billing ↦
          let counted = lookup_or 0 failover_billing entry.failure_counts in
          let most = (billing_cooldown_within counted).1 in
          rw (start_cooldown, billing) (omega (arith, most), ends.1)
      | inr other ↦
          let most = (standard_cooldown_within entry.error_count).1 in
          rw (start_cooldown, other) (ends.0, omega (arith, most))
    ]

forget_stale_ends :
    (window now : ℕ) (entry : CooldownEntry)
    → ((forget_stale window now entry).disabled_until ≡ entry.disabled_until)
      × ((forget_stale window now entry).cooldown_end ≡ entry.cooldown_end)
unfolding forget_stale
forget_stale_ends window now entry = ground arith

get_or_create-EndsBy :
    (T : ℕ) (p : String) (ct : CooldownTracker) → AllEndBy T ct → EndsBy T (get_or_create p ct)
unfolding get_or_create
get_or_create-EndsBy T p ct ends = elim (Option-cases (lookup p ct.entries)) [
  | inl new ↦
      let fresh : get_or_create p ct ≡ new_entry = ground (arith, new) in
      subst (EndsBy T) (sym fresh) (omega arith, omega arith)
  | inr (entry, known) ↦
      let found : get_or_create p ct ≡ entry = ground (arith, known) in
      subst (EndsBy T) (sym found) (ends p entry known)
]

mark_failure-AllEndBy :
    (T now : ℕ) (p : String) (reason : FailoverReason) (ct : CooldownTracker)
    → now ≤ T
    → AllEndBy (T + 24 * hour) ct
    → AllEndBy (T + 24 * hour) (mark_failure now p reason ct)
unfolding mark_failure count_failure
mark_failure-AllEndBy T now p reason ct early ends =
    let old = get_or_create p ct in
    let same = forget_stale_ends ct.failure_window now old in
    let was = get_or_create-EndsBy (T + 24 * hour) p ct ends in
    let kept : EndsBy (T + 24 * hour) (forget_stale ct.failure_window now old) =
      rw (same.0, same.1) was in
    let entry = count_failure now reason (forget_stale ct.failure_window now old) in
    insert_all (EndsBy (T + 24 * hour)) p (start_cooldown now reason entry) ct.entries
      (start_cooldown-EndsBy T now reason entry early kept) ends

mark_success-AllEndBy :
    (T : ℕ) (p : String) (ct : CooldownTracker) → AllEndBy T ct → AllEndBy T (mark_success p ct)
unfolding mark_success
mark_success-AllEndBy T p ct ends = elim (Option-cases (lookup p ct.entries)) [
  | inl unknown ↦ rw (unknown, mark_success) ends
  | inr (entry, known) ↦
      rw (known, mark_success)
        (insert_all (EndsBy T) p _ ct.entries (omega arith, omega arith) ends)
]

track-AllEndBy :
    (T : ℕ) (rs : List Report) (ct : CooldownTracker)
    → AllReportedBy T rs
    → AllEndBy (T + 24 * hour) ct
    → AllEndBy (T + 24 * hour) (track rs ct)
unfolding track
track-AllEndBy T [] ct early ends = ends
track-AllEndBy T (failed now p reason ∷ rs) ct early ends =
    track-AllEndBy T rs _ early.1 (mark_failure-AllEndBy T now p reason ct early.0 ends)
track-AllEndBy T (succeeded now p ∷ rs) ct early ends =
    track-AllEndBy T rs _ early.1 (mark_success-AllEndBy (T + 24 * hour) p ct ends)

is_ahead-TimeEndsBy : (T : ℕ) (t : Time) → TimeEndsBy T t → is_ahead T t ≡ false
is_ahead-TimeEndsBy T none h = refl
is_ahead-TimeEndsBy T (some t) h = ground arith

new_cooldown_tracker-AllEndBy : (T : ℕ) → AllEndBy T new_cooldown_tracker
unfolding new_cooldown_tracker lookup
new_cooldown_tracker-AllEndBy T p entry h = cc

-- Whatever failures and successes are reported up to a time to a new tracker, every provider is
-- available 24 hours after it.
pub available_after_day :
    (T : ℕ) (rs : List Report) (p : String)
    → AllReportedBy T rs
    → is_available (T + 24 * hour) p (track rs new_cooldown_tracker) ≡ true
unfolding is_available new_cooldown_tracker
available_after_day T rs p early =
    let ct = track rs new_cooldown_tracker in
    let ends = track-AllEndBy T rs new_cooldown_tracker early (new_cooldown_tracker-AllEndBy _) in
    elim (Option-cases (lookup p ct.entries)) [
      | inl unknown ↦ rw (unknown, is_available) refl
      | inr (entry, known) ↦
          let by = ends p entry known in
          rw
            (
              known,
              is_available,
              is_ahead-TimeEndsBy _ entry.disabled_until by.0,
              is_ahead-TimeEndsBy _ entry.cooldown_end by.1,
            )
            refl
    ]
