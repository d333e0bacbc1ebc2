-- ===== src/Providers/Chain.antt =====
-- The runs of the fallback chain, `Execute` and `ExecuteImage` of PinchBot/pkg/providers/fallback.go.
-- What the runs ask of their surroundings (the model call, the context, the clock, and the
-- classification of errors in error_classifier.go) is a parameter: the answers at each moment,
-- where a moment is the number of candidates skipped and models called so far.
pub mod Attempts
pub mod Runs
pub mod Image
use text.Mathlib.Text.{◌==◌ as same_text}
use myagent_bot.Base.{
  ℕ, zero, suc, ◌-◌, ◌*◌, ltb, String, Bool, true, false, not, ◌&&◌, ◌||◌, List, [], ◌∷◌, ◌++◌,
  Option, none, some, Result, ok, err, if◌then◌else◌,
}
use myagent_bot.Providers.Cooldown.{
  FailoverReason, failover_rate_limit, failover_timeout, failover_format, failover_unknown,
  millisecond, CooldownTracker, is_available, cooldown_remaining, mark_failure, mark_success,
}
use myagent_bot.Providers.Fallback.{
  FallbackCandidate, LayeredCandidate, key_of, build_layered_candidates,
}

pub record FailoverError (E : Type 0) : Type 0 where
  pub reason : FailoverReason
  pub provider : String
  pub model : String
  pub status : ℕ
  pub wrapped : E

-- The error of an attempt: that of the call, the same classified, or the remaining cooldown.
pub data AttemptError (E : Type 0) : Type 0 where
  raw : E → AttemptError E
  classified : FailoverError E → AttemptError E
  in_cooldown : String → ℕ → AttemptError E

pub record FallbackAttempt (E : Type 0) : Type 0 where
  pub provider : String
  pub model : String
  pub error : AttemptError E
  pub reason : FailoverReason
  pub duration : ℕ
  pub skipped : Bool
  pub layer : String
  pub attempt : ℕ

pub record Surroundings (E R : Type 0) : Type 0 where
  -- `run(ctx, provider, model)`
  pub run : ℕ → String → String → Result E R
  -- `ctx.Err() == context.Canceled`
  pub canceled : ℕ → Bool
  -- whether `ctx.Done()` is ready before the timer of the backoff is
  pub interrupted : ℕ → ℕ → Bool
  pub now : ℕ → ℕ
  -- `ClassifyError(err, provider, model)`
  pub classify : E → String → String → Option (FailoverError E)
  -- `IsImageDimensionError` or `IsImageSizeError` of the error's text in lower case
  pub is_image_error : E → Bool

-- What `Execute` and `ExecuteImage` return: the result, or the kinds of error.
pub data Outcome (E R : Type 0) : Type 0 where
  succeeded : R → String → String → List (FallbackAttempt E) → Outcome E R
  no_candidates canceled_by_user : Outcome E R
  unclassified : String → String → E → Outcome E R
  aborted : FailoverError E → Outcome E R
  exhausted : List (FallbackAttempt E) → Outcome E R

-- The state of a run.
pub record Progress (E : Type 0) : Type 0 where
  pub cooldown : CooldownTracker
  pub attempts : List (FallbackAttempt E)
  pub moment : ℕ

-- What a candidate's attempts come to: the next candidate, or the end of the run.
pub data Step (E R : Type 0) : Type 0 where
  next : Progress E → Step E R
  stop : Outcome E R → Progress E → Step E R

abbrev pub max_attempts_per_candidate : ℕ
max_attempts_per_candidate = 2

abbrev pub retry_backoff_base : ℕ
retry_backoff_base = 200 * millisecond

-- `retryBackoffDuration`
unfoldable pub retry_backoff_duration : FailoverReason → ℕ → ℕ
retry_backoff_duration reason zero = 0
retry_backoff_duration reason (suc n) =
    if same_text reason failover_timeout
      || same_text reason failover_rate_limit
      || same_text reason failover_unknown
    then suc n * retry_backoff_base
    else 0

module _ {E R : Type 0} (w : Surroundings E R) where
  -- `IsRetriable`
  unfoldable pub is_retriable : FailoverError E → Bool
  is_retriable e = not (same_text e.reason failover_format)

  -- The attempt that is recorded for a call of a candidate's model that failed.
  abbrev pub failed_attempt :
      LayeredCandidate → AttemptError E → FailoverReason → ℕ → ℕ → FallbackAttempt E
  failed_attempt l error reason moment attempt = record {
    provider = l.candidate.provider;
    model = l.candidate.model;
    error = error;
    reason = reason;
    duration = w.now (suc moment) - w.now moment;
    skipped = false;
    layer = l.layer;
    attempt = attempt;
  }

  abbrev pub record_attempt : FallbackAttempt E → Progress E → Progress E
  record_attempt a p = record p { attempts = p.attempts ++ a ∷ []; moment = suc p.moment }

  -- The inner loop of `Execute`, for a candidate with a number of attempts left.
  unfoldable pub try_candidate : LayeredCandidate → ℕ → Progress E → Step E R
  unfolding is_retriable
  try_candidate l zero p = next p
  try_candidate l (suc left) p =
      let c = l.candidate in
      let attempt = max_attempts_per_candidate - left in
      elim (w.run p.moment c.provider c.model) [
        | ok response ↦
            stop (succeeded response c.provider c.model p.attempts)
              (record p { cooldown = mark_success (key_of c) p.cooldown; moment = suc p.moment })
        | err e ↦ elim (w.canceled (suc p.moment)) [
          | true ↦
              stop canceled_by_user
                (record_attempt (failed_attempt l (raw e) "" p.moment attempt) p)
          | false ↦ elim (w.classify e c.provider c.model) [
            | none ↦
                stop (unclassified c.provider c.model e)
                  (record_attempt (failed_attempt l (raw e) "" p.moment attempt) p)
            | some failure ↦
                let failed =
                  record_attempt
                    (failed_attempt l (classified failure) failure.reason p.moment attempt) p in
                elim (is_retriable failure) [
                  | false ↦ stop (aborted failure) failed
                  | true ↦ elim left [
                    | zero ↦ next (record failed {
                      cooldown =
                          mark_failure (w.now failed.moment) (key_of c) failure.reason
                            failed.cooldown;
                    })
                    | suc _ ↦
                        let backoff = retry_backoff_duration failure.reason attempt in
                        elim (ltb 0 backoff && w.interrupted failed.moment backoff) [
                          | true ↦ stop canceled_by_user failed
                          | false ↦ try_candidate l left failed
                        ]
                  ]
                ]
          ]
        ]
      ]

  -- The attempt that is recorded for a candidate in its cooldown.
  abbrev pub skipped_attempt : LayeredCandidate → ℕ → FallbackAttempt E
  skipped_attempt l remaining = record {
    provider = l.candidate.provider;
    model = l.candidate.model;
    error = in_cooldown (key_of l.candidate) remaining;
    reason = failover_rate_limit;
    duration = 0;
    skipped = true;
    layer = l.layer;
    attempt = 0;
  }

  -- The outer loop of `Execute`.
  unfoldable pub try_layers : List LayeredCandidate → Progress E → Outcome E R × Progress E
  unfolding try_candidate
  try_layers [] p = (exhausted p.attempts, p)
  try_layers (l ∷ ls) p =
      let key = key_of l.candidate in
      elim (w.canceled p.moment) [
        | true ↦ (canceled_by_user, p)
        | false ↦ elim (is_available (w.now p.moment) key p.cooldown) [
          | false ↦
              let remaining = cooldown_remaining (w.now p.moment) key p.cooldown in
              try_layers ls (record_attempt (skipped_attempt l remaining) p)
          | true ↦ elim (try_candidate l max_attempts_per_candidate p) [
            | next p' ↦ try_layers ls p'
            | stop outcome p' ↦ (outcome, p')
          ]
        ]
      ]

  -- `Execute`, from a tracker; the outcome, and the state at the end.
  unfoldable pub execute : List FallbackCandidate → CooldownTracker → Outcome E R × Progress E
  execute [] cooldown = (no_candidates, record { cooldown = cooldown; attempts = []; moment = 0 })
  execute (c ∷ cs) cooldown =
      try_layers (build_layered_candidates (c ∷ cs))
        (record { cooldown = cooldown; attempts = []; moment = 0 })

  -- The attempt that `ExecuteImage` records.
  abbrev pub image_attempt : FallbackCandidate → E → FailoverReason → ℕ → FallbackAttempt E
  image_attempt c error reason moment = record {
    provider = c.provider;
    model = c.model;
    error = raw error;
    reason = reason;
    duration = w.now (suc moment) - w.now moment;
    skipped = false;
    layer = "";
    attempt = 0;
  }

  -- The error for an image that no model would take.
  abbrev pub image_error : FallbackCandidate → E → FailoverError E
  image_error c error = record {
    reason = failover_format;
    provider = c.provider;
    model = c.model;
    status = 0;
    wrapped = error;
  }

  -- The loop of `ExecuteImage`.
  unfoldable pub try_images : List FallbackCandidate → Progress E → Outcome E R × Progress E
  try_images [] p = (exhausted p.attempts, p)
  try_images (c ∷ cs) p = elim (w.canceled p.moment) [
    | true ↦ (canceled_by_user, p)
    | false ↦ elim (w.run p.moment c.provider c.model) [
      | ok response ↦
          (succeeded response c.provider c.model p.attempts, record p { moment = suc p.moment })
      | err e ↦
          let failed = record_attempt (image_attempt c e "" p.moment) p in
          elim (w.canceled (suc p.moment)) [
            | true ↦ (canceled_by_user, failed)
            | false ↦ elim (w.is_image_error e) [
              | true ↦ (
                aborted (image_error c e),
                record_attempt (image_attempt c e failover_format p.moment) p,
              )
              | false ↦ elim cs [
                | [] ↦ (exhausted failed.attempts, failed)
                | _ ∷ _ ↦ try_images cs failed
              ]
            ]
          ]
    ]
  ]

  -- `ExecuteImage`; the cooldowns are left alone.
  unfoldable pub execute_image : List FallbackCandidate → CooldownTracker → Outcome E R × Progress E
  unfolding try_images
  execute_image [] cooldown =
      (no_candidates, record { cooldown = cooldown; attempts = []; moment = 0 })
  execute_image (c ∷ cs) cooldown =
      try_images (c ∷ cs) (record { cooldown = cooldown; attempts = []; moment = 0 })
