-- ===== src/Platform/Failover/Cooldown.antt =====
-- When the primary official model is skipped, service.go.
use myagent_bot.Base.{
  ℕ, ◌+◌, ◌≤◌, ltb, String, ◌≡◌, ◌≢◌, Bool, false, Option, none, some, Result, arith, eq_iff,
}
use myagent_bot.Base.Dict.{lookup, lookup-insert, lookup-erase}
use myagent_bot.Platform.Failover.{
  PrimaryFailureState, Failover, primary_cooldown_duration, failure_key, failed_again, should_skip,
  record_primary_failure, clear_primary_failures,
}

failed_twice :
    (now : ℕ) (state : PrimaryFailureState)
    → 1 ≤ state.consecutive_failures
    → (failed_again now state).cooldown_until ≡ some (now + primary_cooldown_duration)
unfolding failed_again
failed_twice now state failed = ground arith

-- A failure of a model that has failed since its last success makes it skipped from then on until
-- 30 seconds after the failure, and no other model is skipped for it, as far as the local states
-- decide.
pub failure_skips :
    (outside : Option (Result String Bool)) (model other : String) (now t : ℕ)
    (state : PrimaryFailureState) (s : Failover)
    → failure_key model ≢ ""
    → failure_key model ≢ failure_key other
    → lookup (failure_key model) s.primary_failures ≡ some state
    → 1 ≤ state.consecutive_failures
    → ((should_skip none model t (record_primary_failure outside model now s)).0
        ≡ ltb t (now + primary_cooldown_duration))
      × ((should_skip none other t (record_primary_failure outside model now s)).0
          ≡ (should_skip none other t s).0)
unfolding should_skip record_primary_failure
failure_skips outside model other now t state s named apart known failed =
    let key = failure_key model in
    let new = failed_again now state in
    (
      ground (
        arith,
        known,
        failed_twice now state failed,
        eq_iff key "",
        lookup-insert key key new s.primary_failures,
        eq_iff key key,
      ),
      ground (
        arith,
        known,
        eq_iff key "",
        eq_iff key (failure_key other),
        lookup-insert key (failure_key other) new s.primary_failures,
      ),
    )

-- A success of a model makes it no longer skipped, and changes nothing for the other models, as
-- far as the local states decide.
pub success_unskips :
    (outside : Option (Result String Bool)) (model other : String) (t : ℕ) (s : Failover)
    → failure_key model ≢ failure_key other
    → ((should_skip none model t (clear_primary_failures outside model s)).0 ≡ false)
      × ((should_skip none other t (clear_primary_failures outside model s)).0
          ≡ (should_skip none other t s).0)
unfolding should_skip clear_primary_failures
success_unskips outside model other t s apart =
    let key = failure_key model in
    (
      ground (arith, eq_iff key "", eq_iff key key, lookup-erase key key s.primary_failures),
      ground (
        arith,
        eq_iff key "",
        eq_iff key (failure_key other),
        lookup-erase key (failure_key other) s.primary_failures,
      ),
    )
