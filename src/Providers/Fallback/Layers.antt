-- ===== src/Providers/Fallback/Layers.antt =====
-- The layers of `buildLayeredCandidates`, fallback.go, against the candidates.
use mathlib.Core.List.{map-append}
use text.Mathlib.Text.{◌==◌ as same_text}
use myagent_bot.Base.{
  ℕ, suc, ◌+◌, ◌≤◌, length, length-append, String, ◌≡◌, refl, sym, ap, ◌∙◌, Bool, true, false, ◌&&◌,
  ◌||◌, List, [], ◌∷◌, ◌++◌, map, arith, eq_iff, Bool-cases, inl, inr, if◌then◌else◌,
}
use myagent_bot.Base.Dict.{member, member-append, member_one}
use myagent_bot.Providers.Fallback.{
  FallbackCandidate, LayeredCandidate, Layering, key_of, append_unique, add_layer, switches_key,
  switches_model, switches_provider, layering_of, build_layered_candidates,
}
use myagent_bot.Providers.Fallback.Keys.{distinct, distinct-snoc}

abbrev pub layered_key : LayeredCandidate → String
layered_key l = key_of l.candidate

-- The keys put out are the keys seen, each once.
abbrev IsUnique : Layering → Type 0
IsUnique w = (w.seen ≡ map layered_key w.out) × (distinct w.seen ≡ true)

append_unique-IsUnique :
    (c : FallbackCandidate) (layer : String) (w : Layering)
    → IsUnique w
    → IsUnique (append_unique c layer w)
unfolding append_unique
append_unique-IsUnique c layer w unique = elim (Bool-cases (member (key_of c) w.seen)) [
  | inl seen ↦ rw (append_unique, seen) unique
  | inr new ↦
      rw (append_unique, new)
        (
          ap (λ ks. ks ++ key_of c ∷ []) unique.0
              ∙ sym (map-append layered_key w.out (record { candidate = c; layer = layer } ∷ [])),
          distinct-snoc w.seen (key_of c) unique.1 new,
        )
]

add_layer-IsUnique :
    (test : FallbackCandidate → Bool) (layer : String) (cs : List FallbackCandidate) (w : Layering)
    → IsUnique w
    → IsUnique (add_layer test layer cs w)
unfolding add_layer
add_layer-IsUnique test layer [] w unique = unique
add_layer-IsUnique test layer (c ∷ cs) w unique = elim (Bool-cases (test c)) [
  | inl pass ↦
      rw (add_layer, pass)
        (add_layer-IsUnique test layer cs _ (append_unique-IsUnique c layer w unique))
  | inr fail ↦ rw (add_layer, fail) (add_layer-IsUnique test layer cs w unique)
]

append_unique-seen :
    (k : String) (c : FallbackCandidate) (layer : String) (w : Layering)
    → member k (append_unique c layer w).seen ≡ (member k w.seen || same_text (key_of c) k)
unfolding append_unique
append_unique-seen k c layer w =
    ground
      (arith, member-append k w.seen (key_of c ∷ []), member_one k (key_of c), eq_iff (key_of c) k)

-- Whether a key is one of the candidates that pass a test.
abbrev passes : (FallbackCandidate → Bool) → String → List FallbackCandidate → Bool
passes test k [] = false
passes test k (c ∷ cs) = (test c && same_text (key_of c) k) || passes test k cs

add_layer-seen :
    (k : String) (test : FallbackCandidate → Bool) (layer : String) (cs : List FallbackCandidate)
    (w : Layering)
    → member k (add_layer test layer cs w).seen ≡ (member k w.seen || passes test k cs)
unfolding add_layer
add_layer-seen k test layer [] w = ground arith
add_layer-seen k test layer (c ∷ cs) w = ground (
  arith,
  add_layer-seen k test layer cs (if test c then append_unique c layer w else w),
  append_unique-seen k c layer w,
)

passes_all :
    (k : String) (anchor : FallbackCandidate) (cs : List FallbackCandidate)
    → (passes (switches_key anchor) k cs
        || passes (switches_model anchor) k cs
        || passes (switches_provider anchor) k cs)
      ≡ member k (map key_of cs)
unfolding member
passes_all k anchor [] = refl
passes_all k anchor (c ∷ cs) = ground (arith, passes_all k anchor cs)

layering-IsUnique :
    (anchor : FallbackCandidate) (others : List FallbackCandidate)
    → IsUnique (layering_of anchor others)
unfolding distinct
layering-IsUnique anchor others = add_layer-IsUnique _ _ others _ (
    add_layer-IsUnique _ _ others _ (
      add_layer-IsUnique _ _ others _
        (append_unique-IsUnique anchor "same_model_retry" _ (refl, refl))))

layering-seen :
    (k : String) (anchor : FallbackCandidate) (others : List FallbackCandidate)
    → member k (layering_of anchor others).seen ≡ member k (map key_of (anchor ∷ others))
unfolding member
layering-seen k anchor others =
    let first = append_unique anchor "same_model_retry" (record { seen = []; out = [] }) in
    let second = add_layer (switches_key anchor) "same_model_switch_key" others first in
    let third = add_layer (switches_model anchor) "same_provider_switch_model" others second in
    ground (
      arith,
      append_unique-seen k anchor "same_model_retry" (record { seen = []; out = [] }),
      add_layer-seen k (switches_key anchor) "same_model_switch_key" others first,
      add_layer-seen k (switches_model anchor) "same_provider_switch_model" others second,
      add_layer-seen k (switches_provider anchor) "cross_provider_switch_model" others third,
      passes_all k anchor others,
    )

-- The layers hold every key at most once, and exactly the keys of the candidates.
pub layered_keys :
    (cs : List FallbackCandidate) (k : String)
    → (distinct (map layered_key (build_layered_candidates cs)) ≡ true)
      × (member k (map layered_key (build_layered_candidates cs)) ≡ member k (map key_of cs))
unfolding build_layered_candidates member distinct
layered_keys [] k = (refl, refl)
layered_keys (anchor ∷ others) k =
    let unique = layering-IsUnique anchor others in
    (
      ap distinct (sym unique.0) ∙ unique.1,
      ap (member k) (sym unique.0) ∙ layering-seen k anchor others,
    )

-- How many candidates pass a test.
abbrev passing : (FallbackCandidate → Bool) → List FallbackCandidate → ℕ
passing test [] = 0
passing test (c ∷ cs) = if test c then suc (passing test cs) else passing test cs

append_unique-length :
    (c : FallbackCandidate) (layer : String) (w : Layering)
    → length (append_unique c layer w).out ≤ suc (length w.out)
unfolding append_unique
append_unique-length c layer w =
    ground (arith, length-append w.out (record { candidate = c; layer = layer } ∷ []))

add_layer-length :
    (test : FallbackCandidate → Bool) (layer : String) (cs : List FallbackCandidate) (w : Layering)
    → length (add_layer test layer cs w).out ≤ length w.out + passing test cs
unfolding add_layer
add_layer-length test layer [] w = omega arith
add_layer-length test layer (c ∷ cs) w = ground (
  arith,
  add_layer-length test layer cs (if test c then append_unique c layer w else w),
  append_unique-length c layer w,
)

passing_all :
    (anchor : FallbackCandidate) (cs : List FallbackCandidate)
    → passing (switches_key anchor) cs
        + passing (switches_model anchor) cs
        + passing (switches_provider anchor) cs
      ≡ length cs
passing_all anchor [] = refl
passing_all anchor (c ∷ cs) = ground (arith, passing_all anchor cs)

-- There are no more layers than candidates.
pub build_layered_length :
    (cs : List FallbackCandidate) → length (build_layered_candidates cs) ≤ length cs
unfolding build_layered_candidates
build_layered_length [] = omega arith
build_layered_length (anchor ∷ others) =
    let start : Layering = record { seen = []; out = [] } in
    let first = append_unique anchor "same_model_retry" start in
    let second = add_layer (switches_key anchor) "same_model_switch_key" others first in
    let third = add_layer (switches_model anchor) "same_provider_switch_model" others second in
    omega (
      arith,
      append_unique-length anchor "same_model_retry" start,
      add_layer-length (switches_key anchor) "same_model_switch_key" others first,
      add_layer-length (switches_model anchor) "same_provider_switch_model" others second,
      add_layer-length (switches_provider anchor) "cross_provider_switch_model" others third,
      passing_all anchor others,
    )
