-- ===== src/Providers/Chain/Image.antt =====
-- The runs of `ExecuteImage`, fallback.go.
use mathlib.Core.List.{map-append}
use myagent_bot.Base.{
  ℕ, suc, ◌≡◌, refl, sym, ap, ◌∙◌, false, List, [], ◌∷◌, ◌++◌, map, Result-cases, ok, err,
  append_assoc, append-nil, String, subst, ◌≤◌, Bool-cases, inl, inr, arith,
}
use myagent_bot.Providers.Cooldown.{CooldownTracker}
use myagent_bot.Providers.Fallback.{FallbackCandidate}
use myagent_bot.Providers.Chain.{
  FallbackAttempt, Surroundings, Outcome, succeeded, no_candidates, canceled_by_user, unclassified,
  aborted, exhausted, Progress, record_attempt, image_attempt, try_images, execute_image,
}

-- The candidate that an attempt was for.
abbrev pub tried : {E : Type 0} → FallbackAttempt E → FallbackCandidate
tried a = record { provider = a.provider; model = a.model }

tried-record :
    {E R : Type 0} (w : Surroundings E R) (cs : List FallbackCandidate) (a : FallbackAttempt E)
    (p : Progress E)
    → map tried (record_attempt w a p).attempts ++ cs ≡ map tried p.attempts ++ tried a ∷ cs
tried-record w cs a p =
    ap (λ done. done ++ cs) (map-append tried p.attempts (a ∷ []))
    ∙ append_assoc (map tried p.attempts) (tried a ∷ []) cs

module _ {E R : Type 0} (w : Surroundings E R) where
  -- What holds of a run over the candidates that are left: the attempts go through them in order,
  -- and an exhausted run has one for each.
  abbrev Went : List FallbackCandidate → Progress E → Outcome E R × Progress E → Type 0
  Went cs p (exhausted attempts, p') = map tried attempts ≡ map tried p.attempts ++ cs
  Went cs p (succeeded r provider model attempts, p') =
      ((rest : List FallbackCandidate) × (map tried attempts
            ++ record { provider = provider; model = model } ∷ rest
          ≡ map tried p.attempts ++ cs))
      × ((n : ℕ) × (w.run n provider model ≡ ok r))
  Went cs p (_, p') = 0 ≤ p'.moment

  after_image :
      (c : FallbackCandidate) (cs : List FallbackCandidate) (a : FallbackAttempt E) (p : Progress E)
      → tried a ≡ c
      → (end : Outcome E R × Progress E) → Went cs (record_attempt w a p) end
      → Went (c ∷ cs) p end
  after_image c cs a p same (exhausted attempts, p') went =
      went ∙ tried-record w cs a p ∙ ap (λ x. map tried p.attempts ++ x ∷ cs) same
  after_image c cs a p same (succeeded r provider model attempts, p') went = (
    (went.0.0, went.0.1 ∙ tried-record w cs a p ∙ ap (λ x. map tried p.attempts ++ x ∷ cs) same),
    went.1,
  )
  after_image c cs a p same (no_candidates, p') went = went
  after_image c cs a p same (canceled_by_user, p') went = went
  after_image c cs a p same (unclassified _ _ _, p') went = went
  after_image c cs a p same (aborted _, p') went = went

  -- After an error that is passed over, the candidates that are left decide.
  last-Went :
      (c : FallbackCandidate) (cs : List FallbackCandidate) (p : Progress E) (e : E)
      → w.canceled p.moment ≡ false
      → w.run p.moment c.provider c.model ≡ err e
      → w.canceled (suc p.moment) ≡ false
      → w.is_image_error e ≡ false
      → ((p' : Progress E) → Went cs p' (try_images w cs p'))
      → Went (c ∷ cs) p (try_images w (c ∷ cs) p)
  unfolding try_images
  last-Went c [] p e on failed still good rest =
      rw (try_images, on, failed, still, good)
        (map-append tried p.attempts (image_attempt w c e "" p.moment ∷ []))
  last-Went c (d ∷ ds) p e on failed still good rest =
      let a = image_attempt w c e "" p.moment in
      rw (try_images, on, failed, still, good)
        (after_image c (d ∷ ds) a p refl _ (rest (record_attempt w a p)))

  try_images-Went : (cs : List FallbackCandidate) (p : Progress E) → Went cs p (try_images w cs p)
  unfolding try_images
  try_images-Went [] p = sym (append-nil (map tried p.attempts))
  try_images-Went (c ∷ cs) p = elim (Bool-cases (w.canceled p.moment)) [
    | inl over ↦ rw (try_images, over) (omega arith)
    | inr on ↦ elim (Result-cases (w.run p.moment c.provider c.model)) [
      | inl (r, given) ↦ rw (try_images, on, given) ((cs, refl), (p.moment, given))
      | inr (e, failed) ↦ elim (Bool-cases (w.canceled (suc p.moment))) [
        | inl stopped ↦ rw (try_images, on, failed, stopped) (omega arith)
        | inr still ↦ elim (Bool-cases (w.is_image_error e)) [
          | inl bad ↦ rw (try_images, on, failed, still, bad) (omega arith)
          | inr good ↦ last-Went c cs p e on failed still good (try_images-Went cs)
        ]
      ]
    ]
  ]

  -- An image run that ends with all candidates exhausted has one attempt for each candidate, in
  -- their order.
  pub execute_image_exhausted :
      (cs : List FallbackCandidate) (ct : CooldownTracker) (attempts : List (FallbackAttempt E))
      (end : Progress E)
      → execute_image w cs ct ≡ (exhausted attempts, end)
      → map tried attempts ≡ cs
  unfolding execute_image
  execute_image_exhausted [] ct attempts end h = cc
  execute_image_exhausted (c ∷ cs) ct attempts end h =
      let start : Progress E = record { cooldown = ct; attempts = []; moment = 0 } in
      subst (Went (c ∷ cs) start) h (try_images-Went (c ∷ cs) start)

  -- A response that an image run hands out was given by a call of the model that it names, and the
  -- attempts on record are the candidates before it, in their order.
  pub execute_image_answered :
      (cs : List FallbackCandidate) (ct : CooldownTracker) (r : R) (provider model : String)
      (attempts : List (FallbackAttempt E)) (end : Progress E)
      → execute_image w cs ct ≡ (succeeded r provider model attempts, end)
      → ((rest : List FallbackCandidate) × (map tried attempts
              ++ record { provider = provider; model = model } ∷ rest
            ≡ cs))
        × ((n : ℕ) × (w.run n provider model ≡ ok r))
  unfolding execute_image
  execute_image_answered [] ct r provider model attempts end h = cc
  execute_image_answered (c ∷ cs) ct r provider model attempts end h =
      let start : Progress E = record { cooldown = ct; attempts = []; moment = 0 } in
      subst (Went (c ∷ cs) start) h (try_images-Went (c ∷ cs) start)
