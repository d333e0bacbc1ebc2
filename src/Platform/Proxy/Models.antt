-- ===== src/Platform/Proxy/Models.antt =====
-- The official models that the service is given: `SetOfficialModels` of service.go, with the prices
-- filled in and the failure states of other models forgotten, and `ListOfficialModels`.
use text.Mathlib.Text.{◌==◌}
use myagent_bot.Base.{
  ℕ, String, Bool, true, false, ◌||◌, List, [], ◌∷◌, map, Option, none, some, Result, ◌≡◌, ◌≢◌,
  refl, sym, ap, ◌∙◌, inl, inr, Bool-cases, Option-cases, arith, eq_iff, if◌then◌else◌,
}
use myagent_bot.Base.Dict.{Dict, lookup, member}
use myagent_bot.Base.Int.{pos, leb_ℤ}
use myagent_bot.Base.Text.{trim_space, to_lower}
use myagent_bot.Base.TextLaws.{trim_space_twice}
use myagent_bot.Platform.Billing.{PricingRule, normalized_pricing_version, reserve_charge}
use myagent_bot.Platform.Failover.{
  PrimaryFailureState, Failover, failure_key, should_skip, count_error,
}
use myagent_bot.Platform.Proxy.Candidates.{OfficialModel}

-- what a price fills in of a model
unfoldable pub fill_in : PricingRule → OfficialModel → OfficialModel
fill_in rule model = record model {
  pricing_version =
      if trim_space model.pricing_version == ""
      then normalized_pricing_version rule
      else model.pricing_version;
  reserve_fen = if leb_ℤ model.reserve_fen (pos 0) then reserve_charge rule else model.reserve_fen;
}

unfoldable pub annotate_official_model : Dict PricingRule → OfficialModel → OfficialModel
annotate_official_model pricing model =
    let trimmed = record model { id = trim_space model.id } in
    elim (trimmed.id == "") [
      | true ↦ trimmed
      | false ↦ elim (lookup trimmed.id pricing) [
        | none ↦ trimmed
        | some rule ↦ fill_in rule trimmed
      ]
    ]

unfoldable pub active_model_ids : List OfficialModel → List String
active_model_ids [] = []
active_model_ids (model ∷ models) =
    let id = trim_space model.id in
    let later = active_model_ids models in if id == "" then later else id ∷ later

unfoldable pub active_model_keys : List OfficialModel → List String
active_model_keys [] = []
active_model_keys (model ∷ models) =
    let key = failure_key model.id in
    let later = active_model_keys models in if key == "" then later else key ∷ later

-- the loop over the failure states; there is nothing to do where there is none
unfoldable pub prune_states : List String → Dict PrimaryFailureState → Dict PrimaryFailureState
prune_states active [] = []
prune_states active (entry ∷ states) =
    let later = prune_states active states in if member entry.0 active then entry ∷ later else later

-- `prune` is the answer of the outside failure store to the ids, none where no store is set.
unfoldable pub set_official_models :
    (List String → Option (Result String Bool))
    → Dict PricingRule
    → List OfficialModel
    → Failover
    → List OfficialModel × Failover
set_official_models prune pricing models s =
    let cloned = map (annotate_official_model pricing) models in
    (
      cloned,
      record {
        primary_failures = prune_states (active_model_keys cloned) s.primary_failures;
        metrics = count_error (prune (active_model_ids cloned)) s.metrics;
      },
    )

unfoldable pub list_official_models : Dict PricingRule → List OfficialModel → List OfficialModel
list_official_models pricing models = map (annotate_official_model pricing) models

lookup-prune_states :
    (active : List String) (key : String) (states : Dict PrimaryFailureState)
    → lookup key (prune_states active states)
      ≡ (if member key active then lookup key states else none)
unfolding prune_states lookup
lookup-prune_states active key [] = ground arith
lookup-prune_states active key (entry ∷ states) =
    ground (arith, lookup-prune_states active key states, eq_iff entry.0 key)

-- one of the models goes by the key
abbrev pub is_configured : String → List OfficialModel → Bool
is_configured key [] = false
is_configured key (model ∷ models) = failure_key model.id == key || is_configured key models

annotated_id :
    (pricing : Dict PricingRule) (model : OfficialModel)
    → (annotate_official_model pricing model).id ≡ trim_space model.id
unfolding annotate_official_model fill_in
annotated_id pricing model = elim (Bool-cases (trim_space model.id == "")) [
  | inl empty ↦ rw (annotate_official_model, empty) refl
  | inr named ↦ elim (Option-cases (lookup (trim_space model.id) pricing)) [
    | inl free ↦ rw (annotate_official_model, named, free) refl
    | inr (rule, priced) ↦ rw (annotate_official_model, named, priced) refl
  ]
]

annotated_key :
    (pricing : Dict PricingRule) (model : OfficialModel)
    → failure_key (annotate_official_model pricing model).id ≡ failure_key model.id
unfolding failure_key
annotated_key pricing model =
    ap (λ id. to_lower (trim_space id)) (annotated_id pricing model)
    ∙ ap to_lower (trim_space_twice model.id)

member-active_model_keys :
    (pricing : Dict PricingRule) (key : String) (models : List OfficialModel)
    → key ≢ ""
    → member key (active_model_keys (map (annotate_official_model pricing) models))
      ≡ is_configured key models
unfolding active_model_keys member
member-active_model_keys pricing key [] named = refl
member-active_model_keys pricing key (model ∷ models) named = ground (
  arith,
  member-active_model_keys pricing key models named,
  annotated_key pricing model,
  eq_iff (failure_key model.id) key,
  eq_iff (failure_key model.id) "",
)

filled_in_twice :
    {A : Type 0} (missing : A → Bool) (d x : A)
    → (if missing (if missing x then d else x) then d else (if missing x then d else x))
      ≡ (if missing x then d else x)
filled_in_twice missing d x = ground arith

filled_twice :
    (rule : PricingRule) (model : OfficialModel)
    → fill_in rule (fill_in rule model) ≡ fill_in rule model
unfolding fill_in
filled_twice rule model =
    ap (λ v. record (fill_in rule (fill_in rule model)) { pricing_version = v })
      (filled_in_twice (λ v. trim_space v == "") (normalized_pricing_version rule)
        model.pricing_version)
    ∙ ap (λ r. record (fill_in rule model) { reserve_fen = r })
        (filled_in_twice (λ r. leb_ℤ r (pos 0)) (reserve_charge rule) model.reserve_fen)

annotate_twice :
    (pricing : Dict PricingRule) (model : OfficialModel)
    → annotate_official_model pricing (annotate_official_model pricing model)
      ≡ annotate_official_model pricing model
unfolding annotate_official_model fill_in
annotate_twice pricing model =
    let trimmed : OfficialModel = record model { id = trim_space model.id } in
    let same = trim_space_twice model.id in
    elim (Bool-cases (trim_space model.id == "")) [
      | inl empty ↦
          settled trimmed (rw (annotate_official_model, empty) refl)
            (rw (annotate_official_model, same, empty) (ap (λ i. record trimmed { id = i }) same))
      | inr named ↦ elim (Option-cases (lookup (trim_space model.id) pricing)) [
        | inl free ↦ settled trimmed (rw (annotate_official_model, named, free) refl) (
            rw (annotate_official_model, same, named, same, free)
              (ap (λ i. record trimmed { id = i }) same))
        | inr (rule, priced) ↦
            settled (fill_in rule trimmed) (rw (annotate_official_model, named, priced) refl) (
              rw (annotate_official_model, same, named, same, priced)
                (ap (λ i. fill_in rule (fill_in rule (record trimmed { id = i }))) same
                  ∙ filled_twice rule trimmed))
      ]
    ]
  where
    settled :
        (result : OfficialModel)
        → annotate_official_model pricing model ≡ result
        → annotate_official_model pricing result ≡ result
        → annotate_official_model pricing (annotate_official_model pricing model)
          ≡ annotate_official_model pricing model
    settled result once again = ap (annotate_official_model pricing) once ∙ again ∙ sym once

module _ (prune : List String → Option (Result String Bool)) (pricing : Dict PricingRule)
    (models : List OfficialModel) (s : Failover) where
  -- After the official models are set, a model that is one of them, by its id in any case, is skipped
  -- exactly when it was before, and any other is not skipped, as far as the local states decide.
  pub set_models_skips :
      (model : String) (t : ℕ)
      → (should_skip none model t (set_official_models prune pricing models s).1).0 ≡ (
          if is_configured (failure_key model) models
          then (should_skip none model t s).0
          else false)
  unfolding should_skip set_official_models
  set_models_skips model t = elim (Bool-cases (failure_key model == "")) [
    | inl blank ↦ ground (arith, blank)
    | inr named ↦
        let filled : failure_key model ≢ "" =
          ground (arith, named, eq_iff (failure_key model) "") in
        ground (
          arith,
          named,
          lookup-prune_states (active_model_keys (map (annotate_official_model pricing) models))
              (failure_key model) s.primary_failures,
          member-active_model_keys pricing (failure_key model) models filled,
        )
  ]

  -- the list that is shown afterwards, at the same prices, is the list that was stored
  list-set_official_models :
      list_official_models pricing (set_official_models prune pricing models s).0
      ≡ (set_official_models prune pricing models s).0
  unfolding list_official_models set_official_models
  list-set_official_models = all_twice models
    where
      all_twice :
          (ms : List OfficialModel)
          → map (annotate_official_model pricing) (map (annotate_official_model pricing) ms)
            ≡ map (annotate_official_model pricing) ms
      all_twice [] = refl
      all_twice (m ∷ ms) = rw (map, annotate_twice pricing m, all_twice ms) refl
