-- ===== src/Providers/Fallback/Resolve.antt =====
-- The candidates of a configuration, `ResolveCandidatesWithLookup` of fallback.go.
use mathlib.Core.List.{map-append}
use text.Mathlib.Text.{◌==◌ as same_text}
use myagent_bot.Base.{
  String, ◌≡◌, refl, sym, ap, ◌∙◌, Bool, true, false, ◌||◌, List, [], ◌∷◌, ◌++◌, map, Option, none,
  some, arith, eq_iff, Bool-cases, Option-cases, inl, inr,
}
use myagent_bot.Base.Text.{trim_space}
use myagent_bot.Base.Dict.{member, member-append, member_one}
use myagent_bot.Providers.ModelRef.{ModelRef, model_key, parse_model_ref}
use myagent_bot.Providers.Fallback.{
  FallbackCandidate, ModelConfig, Resolving, key_of, add_candidate, add_candidates,
  resolve_candidates_with_lookup,
}
use myagent_bot.Providers.Fallback.Keys.{distinct, distinct-snoc}

-- The candidate that a name stands for, after the aliases.
abbrev pub ref_of : (String → Option String) → String → String → Option ModelRef
ref_of aliases default_provider raw =
    let candidate_raw : String = elim (aliases (trim_space raw)) [
      | none ↦ trim_space raw
      | some resolved ↦ resolved
    ] in
    parse_model_ref candidate_raw default_provider

abbrev IsUnique : Resolving → Type 0
IsUnique r = (r.seen ≡ map key_of r.candidates) × (distinct r.seen ≡ true)

-- Whether one of the names stands for a candidate with the key.
abbrev pub is_named : (String → Option String) → String → String → List String → Bool
is_named aliases default_provider k [] = false
is_named aliases default_provider k (raw ∷ raws) =
    let here : Bool = elim (ref_of aliases default_provider raw) [
      | none ↦ false
      | some ref ↦ same_text (model_key ref.provider ref.model) k
    ] in
    here || is_named aliases default_provider k raws

module _ (aliases : String → Option String) (default_provider : String) where
  add_candidate-IsUnique :
      (raw : String) (r : Resolving)
      → IsUnique r
      → IsUnique (add_candidate aliases default_provider raw r)
  unfolding add_candidate
  add_candidate-IsUnique raw r unique = elim (Option-cases (ref_of aliases default_provider raw)) [
    | inl unparsed ↦ rw (add_candidate, unparsed) unique
    | inr (ref, parsed) ↦ elim (Bool-cases (member (model_key ref.provider ref.model) r.seen)) [
      | inl seen ↦ rw (add_candidate, parsed, seen) unique
      | inr new ↦
          let c : FallbackCandidate = record { provider = ref.provider; model = ref.model } in
          rw (add_candidate, parsed, new)
            (
              ap (λ ks. ks ++ key_of c ∷ []) unique.0
                  ∙ sym (map-append key_of r.candidates (c ∷ [])),
              distinct-snoc r.seen (key_of c) unique.1 new,
            )
    ]
  ]

  add_candidates-IsUnique :
      (raws : List String) (r : Resolving)
      → IsUnique r
      → IsUnique (add_candidates aliases default_provider raws r)
  unfolding add_candidates
  add_candidates-IsUnique [] r unique = unique
  add_candidates-IsUnique (raw ∷ raws) r unique =
      add_candidates-IsUnique raws _ (add_candidate-IsUnique raw r unique)

  add_candidate-seen :
      (k raw : String) (r : Resolving)
      → member k (add_candidate aliases default_provider raw r).seen
        ≡ (member k r.seen || is_named aliases default_provider k (raw ∷ []))
  unfolding add_candidate
  add_candidate-seen k raw r = elim (Option-cases (ref_of aliases default_provider raw)) [
    | inl unparsed ↦ rw (add_candidate, unparsed) (ground arith)
    | inr (ref, parsed) ↦
        let key = model_key ref.provider ref.model in
        rw (add_candidate, parsed)
          (ground (arith, member-append k r.seen (key ∷ []), member_one k key, eq_iff key k))
  ]

  add_candidates-seen :
      (k : String) (raws : List String) (r : Resolving)
      → member k (add_candidates aliases default_provider raws r).seen
        ≡ (member k r.seen || is_named aliases default_provider k raws)
  unfolding add_candidates
  add_candidates-seen k [] r = ground arith
  add_candidates-seen k (raw ∷ raws) r = ground (
    arith,
    add_candidate-seen k raw r,
    add_candidates-seen k raws (add_candidate aliases default_provider raw r),
  )

  -- No two candidates of a configuration have the same key, and a key is a candidate's exactly
  -- when the primary model or a fallback, after its alias, stands for it.
  pub resolve_keys :
      (cfg : ModelConfig) (k : String)
      → (distinct (map key_of (resolve_candidates_with_lookup cfg default_provider aliases)) ≡ true)
        × (member k (map key_of (resolve_candidates_with_lookup cfg default_provider aliases))
            ≡ is_named aliases default_provider k (cfg.primary ∷ cfg.fallbacks))
  unfolding resolve_candidates_with_lookup distinct member
  resolve_keys cfg k =
      let raws = cfg.primary ∷ cfg.fallbacks in
      let start : Resolving = record { seen = []; candidates = [] } in
      let unique = add_candidates-IsUnique raws start (refl, refl) in
      (
        ap distinct (sym unique.0) ∙ unique.1,
        ap (member k) (sym unique.0) ∙ add_candidates-seen k raws start,
      )
