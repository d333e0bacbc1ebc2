-- ===== src/Providers/Chain/Attempts.antt =====
-- The ways in which the attempts of one candidate end, `Execute` of fallback.go.
use mathlib.Core.List.{map-append}
use text.Mathlib.Text.{◌==◌ as same_text}
use myagent_bot.Base.{
  ℕ, zero, suc, ◌+◌, ◌-◌, ◌≤◌, ltb, String, ◌≡◌, refl, ap, ◌∙◌, Bool, true, false, ◌&&◌, ◌||◌, [],
  ◌∷◌, map, Result-cases, Option-cases, Bool-cases, ok, err, some, inl, inr, arith,
}
use myagent_bot.Base.Dict.{member, member-append, member_one}
use myagent_bot.Providers.Cooldown.{CooldownTracker, is_available}
use myagent_bot.Providers.Cooldown.Marks.{mark_success_available}
use myagent_bot.Providers.ModelRef.{model_key}
use myagent_bot.Providers.Fallback.{LayeredCandidate, key_of}
use myagent_bot.Providers.Chain.{
  FallbackAttempt, FailoverError, Surroundings, succeeded, no_candidates, canceled_by_user,
  unclassified, aborted, exhausted, Progress, Step, next, stop, record_attempt, try_candidate,
  is_retriable, classified, failed_attempt, max_attempts_per_candidate, retry_backoff_duration,
}

abbrev pub attempt_key : {E : Type 0} → FallbackAttempt E → String
attempt_key a = model_key a.provider a.model

-- Whether an attempt for a key is recorded.
abbrev pub attempted : {E : Type 0} → String → Progress E → Bool
attempted k p = member k (map attempt_key p.attempts)

pub attempted-record :
    {E R : Type 0} (w : Surroundings E R) (k : String) (a : FallbackAttempt E) (p : Progress E)
    → attempted k (record_attempt w a p) ≡ (attempted k p || same_text (attempt_key a) k)
attempted-record w k a p =
    ap (member k) (map-append attempt_key p.attempts (a ∷ []))
    ∙ ground (
      arith,
      member-append k (map attempt_key p.attempts) (attempt_key a ∷ []),
      member_one k (attempt_key a),
    )

module _ {E R : Type 0} (w : Surroundings E R) where
  -- A result was given by a call, and the tracker has its model available at any time.
  abbrev pub Answered : R → String → String → CooldownTracker → Type 0
  Answered r provider model ct =
      ((n : ℕ) × (w.run n provider model ≡ ok r))
      × ((t : ℕ) → is_available t (model_key provider model) ct ≡ true)

  -- What holds of the end of a candidate's attempts.
  abbrev pub Tried : LayeredCandidate → ℕ → Progress E → Step E R → Type 0
  Tried l left p (next p') =
      (p'.moment ≤ p.moment + left)
      × ((k : String)
          → attempted k p' ≡ (attempted k p || (ltb 0 left && same_text (key_of l.candidate) k)))
  Tried l left p (stop (succeeded r provider model _) p') =
      (p'.moment ≤ p.moment + left) × Answered r provider model p'.cooldown
  Tried l left p (stop no_candidates p') = p'.moment ≤ p.moment + left
  Tried l left p (stop canceled_by_user p') = p'.moment ≤ p.moment + left
  Tried l left p (stop (unclassified _ _ _) p') = p'.moment ≤ p.moment + left
  Tried l left p (stop (aborted _) p') = p'.moment ≤ p.moment + left
  Tried l left p (stop (exhausted _) p') = true ≡ false

  -- What holds of the end after one more attempt holds of it from before that attempt.
  after_attempt :
      (l : LayeredCandidate) (left : ℕ) (p : Progress E) (a : FallbackAttempt E)
      → attempt_key a ≡ key_of l.candidate
      → (s : Step E R) → Tried l (suc left) (record_attempt w a p) s
      → Tried l (suc (suc left)) p s
  after_attempt l left p a same (next p') tried =
      (omega (arith, tried.0), λ k. ground (arith, tried.1 k, attempted-record w k a p, same))
  after_attempt l left p a same (stop (succeeded r provider model _) p') tried =
      (omega (arith, tried.0), tried.1)
  after_attempt l left p a same (stop no_candidates p') tried = omega (arith, tried)
  after_attempt l left p a same (stop canceled_by_user p') tried = omega (arith, tried)
  after_attempt l left p a same (stop (unclassified _ _ _) p') tried = omega (arith, tried)
  after_attempt l left p a same (stop (aborted _) p') tried = omega (arith, tried)
  after_attempt l left p a same (stop (exhausted _) p') tried = tried

  -- After an error that may be tried again, the rest of the attempts decides.
  again-Tried :
      (l : LayeredCandidate) (left : ℕ) (p : Progress E) (e : E) (failure : FailoverError E)
      → w.run p.moment l.candidate.provider l.candidate.model ≡ err e
      → w.canceled (suc p.moment) ≡ false
      → w.classify e l.candidate.provider l.candidate.model ≡ some failure
      → is_retriable w failure ≡ true
      → ((p' : Progress E) → Tried l left p' (try_candidate w l left p'))
      → Tried l (suc left) p (try_candidate w l (suc left) p)
  unfolding try_candidate
  again-Tried l zero p e failure failed on known again rest =
      rw (failed, try_candidate, on, known, again)
        (
          omega arith,
          λ k.
              attempted-record w k
                (failed_attempt w l (classified failure) failure.reason p.moment 2) p,
        )
  again-Tried l (suc left) p e failure failed on known again rest =
      let attempt = max_attempts_per_candidate - suc left in
      let backoff = retry_backoff_duration failure.reason attempt in
      let a = failed_attempt w l (classified failure) failure.reason p.moment attempt in
      elim (Bool-cases (ltb 0 backoff && w.interrupted (suc p.moment) backoff)) [
        | inl over ↦ rw (failed, try_candidate, on, known, again, over) (omega arith)
        | inr waited ↦
            rw (failed, try_candidate, on, known, again, waited)
              (after_attempt l left p a refl _ (rest (record_attempt w a p)))
      ]

  pub try_candidate-Tried :
      (l : LayeredCandidate) (left : ℕ) (p : Progress E) → Tried l left p (try_candidate w l left p)
  unfolding try_candidate
  try_candidate-Tried l zero p = (omega arith, λ k. ground arith)
  try_candidate-Tried l (suc left) p =
      elim (Result-cases (w.run p.moment l.candidate.provider l.candidate.model)) [
        | inl (r, given) ↦
            rw (given, try_candidate)
              (
                omega arith,
                ((p.moment, given), λ t. mark_success_available t (key_of l.candidate) p.cooldown),
              )
        | inr (e, failed) ↦ elim (Bool-cases (w.canceled (suc p.moment))) [
          | inl over ↦ rw (failed, try_candidate, over) (omega arith)
          | inr on ↦ elim (Option-cases (w.classify e l.candidate.provider l.candidate.model)) [
            | inl unknown ↦ rw (failed, try_candidate, on, unknown) (omega arith)
            | inr (failure, known) ↦ elim (Bool-cases (is_retriable w failure)) [
              | inr final ↦ rw (failed, try_candidate, on, known, final) (omega arith)
              | inl again ↦
                  again-Tried l left p e failure failed on known again (try_candidate-Tried l left)
            ]
          ]
        ]
      ]
