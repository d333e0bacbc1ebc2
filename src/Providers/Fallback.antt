-- ===== src/Providers/Fallback.antt =====
-- The fallback chain, PinchBot/pkg/providers/fallback.go: the candidates that a configuration
-- names, and the layers in which they are tried.
pub mod Keys
pub mod Layers
pub mod Resolve
use Prim.Native.Char.{code}
use Prim.Native.String
use text.Mathlib.Text.{◌==◌ as same_text}
use myagent_bot.Base.{
  ℕ, zero, suc, String, ◌==◌, leb, Bool, true, false, not, ◌&&◌, ◌||◌, List, [], ◌∷◌, ◌++◌, Option,
  none, some, if◌then◌else◌,
}
use myagent_bot.Base.Dict.{member}
use myagent_bot.Base.Text.{trim_space, to_lower, has_prefix}
use myagent_bot.Providers.ModelRef.{normalize_provider, parse_model_ref, model_key}

pub record FallbackCandidate : Type 0 where
  pub provider : String
  pub model : String

pub record LayeredCandidate : Type 0 where
  pub candidate : FallbackCandidate
  pub layer : String

pub record ModelConfig : Type 0 where
  pub primary : String
  pub fallbacks : List String

abbrev pub key_of : FallbackCandidate → String
key_of c = model_key c.provider c.model

-- What `ResolveCandidatesWithLookup` has gathered.
pub record Resolving : Type 0 where
  pub seen : List String
  pub candidates : List FallbackCandidate

-- `addCandidate`. `aliases` is the function `lookup`, none for every name where it is nil.
unfoldable pub add_candidate : (String → Option String) → String → String → Resolving → Resolving
add_candidate aliases default_provider raw r =
    let candidate_raw : String = elim (aliases (trim_space raw)) [
      | none ↦ trim_space raw
      | some resolved ↦ resolved
    ] in
    elim (parse_model_ref candidate_raw default_provider) [
      | none ↦ r
      | some ref ↦
          let key = model_key ref.provider ref.model in
          if member key r.seen then r else record {
            seen = r.seen ++ key ∷ [];
            candidates = r.candidates ++ record { provider = ref.provider; model = ref.model } ∷ [];
          }
    ]

unfoldable pub add_candidates :
    (String → Option String) → String → List String → Resolving → Resolving
add_candidates aliases default_provider [] r = r
add_candidates aliases default_provider (raw ∷ raws) r =
    add_candidates aliases default_provider raws (add_candidate aliases default_provider raw r)

-- `ResolveCandidatesWithLookup`
unfoldable pub resolve_candidates_with_lookup :
    ModelConfig → String → (String → Option String) → List FallbackCandidate
unfolding add_candidates
resolve_candidates_with_lookup cfg default_provider aliases =
    (add_candidates aliases default_provider (cfg.primary ∷ cfg.fallbacks)
      (record { seen = []; candidates = [] })).candidates

-- `ResolveCandidates`
unfoldable pub resolve_candidates : ModelConfig → String → List FallbackCandidate
resolve_candidates cfg default_provider =
    resolve_candidates_with_lookup cfg default_provider (λ raw. none)

unfoldable all_digits : String → Bool
all_digits String.[] = true
all_digits (String.◌∷◌ c s) = leb b'0' (code c) && leb (code c) b'9' && all_digits s

-- The text after the prefix of a length.
unfoldable skip : ℕ → String → String
skip zero s = s
skip (suc n) String.[] = String.[]
skip (suc n) (String.◌∷◌ c s) = skip n s

-- Whether the whole text matches `__key_\d+`.
unfoldable is_key_suffix : String → Bool
unfolding all_digits skip
is_key_suffix s = has_prefix s "__key_" && not (same_text (skip 6 s) "") && all_digits (skip 6 s)

-- `multiKeySuffixPattern.ReplaceAllString(model, "")`: the leftmost suffix that matches goes.
unfoldable pub drop_key_suffix : String → String
unfolding is_key_suffix
drop_key_suffix String.[] = String.[]
drop_key_suffix (String.◌∷◌ c s) =
    let rest = drop_key_suffix s in if is_key_suffix (String.◌∷◌ c s) then "" else String.◌∷◌ c rest

-- `normalizeModelFamily`
unfoldable pub normalize_model_family : String → String
normalize_model_family model = drop_key_suffix (to_lower (trim_space model))

-- `sameProvider`
unfoldable pub same_provider : String → String → Bool
same_provider a b = same_text (normalize_provider a) (normalize_provider b)

-- `sameModelFamily`
unfoldable pub same_model_family : String → String → Bool
same_model_family a b = same_text (normalize_model_family a) (normalize_model_family b)

-- What `buildLayeredCandidates` has put out.
pub record Layering : Type 0 where
  pub seen : List String
  pub out : List LayeredCandidate

-- `appendUnique`
unfoldable pub append_unique : FallbackCandidate → String → Layering → Layering
append_unique c layer w = if member (key_of c) w.seen then w else record {
  seen = w.seen ++ key_of c ∷ [];
  out = w.out ++ record { candidate = c; layer = layer } ∷ [];
}

-- One loop of `buildLayeredCandidates`: the candidates that pass its test.
unfoldable pub add_layer :
    (FallbackCandidate → Bool) → String → List FallbackCandidate → Layering → Layering
add_layer test layer [] w = w
add_layer test layer (c ∷ cs) w =
    add_layer test layer cs (if test c then append_unique c layer w else w)

abbrev pub switches_key : FallbackCandidate → FallbackCandidate → Bool
switches_key anchor c =
    same_provider anchor.provider c.provider && same_model_family anchor.model c.model

abbrev pub switches_model : FallbackCandidate → FallbackCandidate → Bool
switches_model anchor c =
    same_provider anchor.provider c.provider && not (same_model_family anchor.model c.model)

abbrev pub switches_provider : FallbackCandidate → FallbackCandidate → Bool
switches_provider anchor c = not (same_provider anchor.provider c.provider)

abbrev pub layering_of : FallbackCandidate → List FallbackCandidate → Layering
layering_of anchor others =
    add_layer (switches_provider anchor) "cross_provider_switch_model" others (
      add_layer (switches_model anchor) "same_provider_switch_model" others (
        add_layer (switches_key anchor) "same_model_switch_key" others
          (append_unique anchor "same_model_retry" (record { seen = []; out = [] }))))

-- `buildLayeredCandidates`
unfoldable pub build_layered_candidates : List FallbackCandidate → List LayeredCandidate
build_layered_candidates [] = []
build_layered_candidates (anchor ∷ others) = (layering_of anchor others).out
