-- ===== src/Providers/Cooldown/Wait.antt =====
-- What the cooldown tracker of cooldown.go says of a wait.
use myagent_bot.Base.{
  ℕ, ◌+◌, ◌<◌, ◌≤◌, ◌≡◌, refl, leb, Bool, if◌then◌else◌, String, true, false, none, some,
  Option-cases, inl, inr, arith, Bool-cases,
}
use myagent_bot.Base.Dict.{lookup}
use myagent_bot.Providers.Cooldown.{
  Time, CooldownTracker, is_ahead, longer_wait, is_available, cooldown_remaining,
}

-- The two waits of an entry together, and the test that it is in neither.
abbrev wait_of : ℕ → Time → Time → ℕ
wait_of now a b = longer_wait now b (longer_wait now a 0)

abbrev free_of : ℕ → Time → Time → Bool
free_of now a b = if is_ahead now a then false else if is_ahead now b then false else true

blocked_before : (now d : ℕ) (a b : Time) → d < wait_of now a b → free_of (now + d) a b ≡ false
unfolding longer_wait
blocked_before now d none none h = ground arith
blocked_before now d none (some y) h = ground arith
blocked_before now d (some x) none h = ground arith
blocked_before now d (some x) (some y) h = ground arith

free_after : (now d : ℕ) (a b : Time) → wait_of now a b ≤ d → free_of (now + d) a b ≡ true
unfolding longer_wait
free_after now d none none h = refl
free_after now d none (some y) h = ground arith
free_after now d (some x) none h = ground arith
free_after now d (some x) (some y) h = ground arith

-- At a wait from now the provider is available exactly when the wait is at least the remaining
-- cooldown.
pub remaining_exact :
    (now d : ℕ) (provider : String) (ct : CooldownTracker)
    → is_available (now + d) provider ct ≡ leb (cooldown_remaining now provider ct) d
unfolding is_available cooldown_remaining
remaining_exact now d provider ct = elim (Option-cases (lookup provider ct.entries)) [
  | inl unknown ↦ rw (unknown, is_available, cooldown_remaining) (ground arith)
  | inr (entry, known) ↦
      elim (Bool-cases (leb (wait_of now entry.disabled_until entry.cooldown_end) d)) [
        | inl over ↦
            rw (known, is_available, cooldown_remaining, over)
              (free_after now d entry.disabled_until entry.cooldown_end (ground arith))
        | inr still ↦
            rw (known, is_available, cooldown_remaining, still)
              (blocked_before now d entry.disabled_until entry.cooldown_end (ground arith))
      ]
]
