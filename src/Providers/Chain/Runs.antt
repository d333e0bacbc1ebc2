-- ===== src/Providers/Chain/Runs.antt =====
-- Whole runs of `Execute`, fallback.go.
use text.Mathlib.Text.{◌==◌ as same_text}
use myagent_bot.Base.{
  ◌+◌, ◌*◌, ◌≤◌, String, ◌≡◌, refl, ◌∙◌, subst, true, false, ◌||◌, List, [], ◌∷◌, map, length,
  Bool-cases, inl, inr, arith,
}
use myagent_bot.Base.Dict.{member}
use myagent_bot.Providers.Cooldown.{CooldownTracker, is_available, cooldown_remaining}
use myagent_bot.Providers.Fallback.{
  FallbackCandidate, LayeredCandidate, key_of, build_layered_candidates,
}
use myagent_bot.Providers.Fallback.Layers.{layered_key, layered_keys, build_layered_length}
use myagent_bot.Providers.Chain.{
  FallbackAttempt, Surroundings, Outcome, succeeded, no_candidates, canceled_by_user, unclassified,
  aborted, exhausted, Progress, Step, next, stop, record_attempt, skipped_attempt, try_candidate,
  try_layers, execute, max_attempts_per_candidate,
}
use myagent_bot.Providers.Chain.Attempts.{
  attempt_key, attempted, attempted-record, Answered, Tried, try_candidate-Tried,
}

module _ {E R : Type 0} (w : Surroundings E R) where
  -- What holds of the end of a run over some layers.
  abbrev Ran : List LayeredCandidate → Progress E → Outcome E R × Progress E → Type 0
  Ran ls p (succeeded r provider model _, p') =
      (p'.moment ≤ p.moment + 2 * length ls) × Answered w r provider model p'.cooldown
  Ran ls p (exhausted attempts, p') =
      (p'.moment ≤ p.moment + 2 * length ls)
      × ((k : String)
          → member k (map attempt_key attempts) ≡ (attempted k p || member k (map layered_key ls)))
  Ran ls p (no_candidates, p') = p'.moment ≤ p.moment + 2 * length ls
  Ran ls p (canceled_by_user, p') = p'.moment ≤ p.moment + 2 * length ls
  Ran ls p (unclassified _ _ _, p') = p'.moment ≤ p.moment + 2 * length ls
  Ran ls p (aborted _, p') = p'.moment ≤ p.moment + 2 * length ls

  -- A run over the layers after the first, from where the first left off.
  after_layer :
      (l : LayeredCandidate) (ls : List LayeredCandidate) (p p' : Progress E)
      → p'.moment ≤ p.moment + 2
      → ((k : String) → attempted k p' ≡ (attempted k p || same_text (layered_key l) k))
      → (end : Outcome E R × Progress E) → Ran ls p' end
      → Ran (l ∷ ls) p end
  unfolding member
  after_layer l ls p p' late keys (succeeded r provider model _, p'') ran =
      (omega (arith, late, ran.0), ran.1)
  after_layer l ls p p' late keys (exhausted attempts, p'') ran =
      (omega (arith, late, ran.0), λ k. ground (arith, keys k, ran.1 k))
  after_layer l ls p p' late keys (no_candidates, p'') ran = omega (arith, late, ran)
  after_layer l ls p p' late keys (canceled_by_user, p'') ran = omega (arith, late, ran)
  after_layer l ls p p' late keys (unclassified _ _ _, p'') ran = omega (arith, late, ran)
  after_layer l ls p p' late keys (aborted _, p'') ran = omega (arith, late, ran)

  -- A run that the first layer ends.
  stop-Ran :
      (l : LayeredCandidate) (ls : List LayeredCandidate) (p p' : Progress E) (o : Outcome E R)
      → Tried w l 2 p (stop o p')
      → Ran (l ∷ ls) p (o, p')
  stop-Ran l ls p p' (succeeded r provider model _) tried = (omega (arith, tried.0), tried.1)
  stop-Ran l ls p p' (exhausted attempts) tried = cc
  stop-Ran l ls p p' no_candidates tried = omega (arith, tried)
  stop-Ran l ls p p' canceled_by_user tried = omega (arith, tried)
  stop-Ran l ls p p' (unclassified _ _ _) tried = omega (arith, tried)
  stop-Ran l ls p p' (aborted _) tried = omega (arith, tried)

  -- A run whose first layer is tried.
  next-Ran :
      (l : LayeredCandidate) (ls : List LayeredCandidate) (p : Progress E) (s : Step E R)
      → w.canceled p.moment ≡ false
      → is_available (w.now p.moment) (key_of l.candidate) p.cooldown ≡ true
      → try_candidate w l max_attempts_per_candidate p ≡ s
      → Tried w l 2 p s
      → ((p' : Progress E) → Ran ls p' (try_layers w ls p'))
      → Ran (l ∷ ls) p (try_layers w (l ∷ ls) p)
  unfolding try_layers
  next-Ran l ls p (next p') on free e tried rest =
      rw (try_layers, on, free, e) (after_layer l ls p p' tried.0 tried.1 _ (rest p'))
  next-Ran l ls p (stop o p') on free e tried rest =
      rw (try_layers, on, free, e) (stop-Ran l ls p p' o tried)

  try_layers-Ran : (ls : List LayeredCandidate) (p : Progress E) → Ran ls p (try_layers w ls p)
  unfolding try_layers member
  try_layers-Ran [] p = (omega arith, λ k. ground arith)
  try_layers-Ran (l ∷ ls) p =
      let key = key_of l.candidate in
      elim (Bool-cases (w.canceled p.moment)) [
        | inl over ↦ rw (try_layers, over) (omega arith)
        | inr on ↦ elim (Bool-cases (is_available (w.now p.moment) key p.cooldown)) [
          | inr cooling ↦
              let a = skipped_attempt w l (cooldown_remaining (w.now p.moment) key p.cooldown) in
              rw (try_layers, on, cooling)
                (after_layer l ls p (record_attempt w a p) (omega arith)
                  (λ k. attempted-record w k a p) _ (try_layers-Ran ls (record_attempt w a p)))
          | inl free ↦
              next-Ran l ls p (try_candidate w l max_attempts_per_candidate p) on free refl
                (try_candidate-Tried w l max_attempts_per_candidate p) (try_layers-Ran ls)
        ]
      ]

  abbrev start : CooldownTracker → Progress E
  start ct = record { cooldown = ct; attempts = []; moment = 0 }

  execute-Ran :
      (c : FallbackCandidate) (cs : List FallbackCandidate) (ct : CooldownTracker)
      → Ran (build_layered_candidates (c ∷ cs)) (start ct) (execute w (c ∷ cs) ct)
  unfolding execute
  execute-Ran c cs ct = try_layers-Ran (build_layered_candidates (c ∷ cs)) (start ct)

  moment-Ran :
      (ls : List LayeredCandidate) (p : Progress E) (end : Outcome E R × Progress E)
      → Ran ls p end
      → end.1.moment ≤ p.moment + 2 * length ls
  moment-Ran ls p (succeeded _ _ _ _, p') ran = ran.0
  moment-Ran ls p (exhausted _, p') ran = ran.0
  moment-Ran ls p (no_candidates, p') ran = ran
  moment-Ran ls p (canceled_by_user, p') ran = ran
  moment-Ran ls p (unclassified _ _ _, p') ran = ran
  moment-Ran ls p (aborted _, p') ran = ran

  -- The models called and the candidates skipped in a run are at most two for each candidate.
  pub execute_calls :
      (cs : List FallbackCandidate) (ct : CooldownTracker)
      → (execute w cs ct).1.moment ≤ 2 * length cs
  unfolding execute
  execute_calls [] ct = omega arith
  execute_calls (c ∷ cs) ct =
      let most = moment-Ran _ (start ct) _ (execute-Ran c cs ct) in
      omega (arith, most, build_layered_length (c ∷ cs))

  -- A response that a run hands out was given by a call of the model that it names, and at the end
  -- of the run that model is in no cooldown.
  pub execute-Answered :
      (cs : List FallbackCandidate) (ct : CooldownTracker) (r : R) (provider model : String)
      (attempts : List (FallbackAttempt E)) (end : Progress E)
      → execute w cs ct ≡ (succeeded r provider model attempts, end)
      → Answered w r provider model end.cooldown
  unfolding execute
  execute-Answered [] ct r provider model attempts end h = cc
  execute-Answered (c ∷ cs) ct r provider model attempts end h =
      (subst (Ran (build_layered_candidates (c ∷ cs)) (start ct)) h (execute-Ran c cs ct)).1

  -- A run that ends with all candidates exhausted has an attempt, a call or a skip, on record for
  -- each candidate's key, and for no other.
  pub execute_exhausted :
      (cs : List FallbackCandidate) (ct : CooldownTracker) (attempts : List (FallbackAttempt E))
      (end : Progress E) (k : String)
      → execute w cs ct ≡ (exhausted attempts, end)
      → member k (map attempt_key attempts) ≡ member k (map key_of cs)
  unfolding execute member
  execute_exhausted [] ct attempts end k h = cc
  execute_exhausted (c ∷ cs) ct attempts end k h =
      let ran =
        subst (Ran (build_layered_candidates (c ∷ cs)) (start ct)) h (execute-Ran c cs ct) in
      ran.1 k ∙ (layered_keys (c ∷ cs) k).1
