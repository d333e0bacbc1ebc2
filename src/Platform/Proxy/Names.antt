-- ===== src/Platform/Proxy/Names.antt =====
-- The names by which a request may call an official model: `resolveEnabledOfficialModelID` of service.go.
-- `is_word` is `unicode.IsLetter(r) || unicode.IsDigit(r)`.
use Prim.Native.Char.{Char}
use Prim.Native.Nat.{Ordering}
use Prim.Native.String.{compare}
use text.Mathlib.Text.{◌==◌}
use myagent_bot.Base.{
  ℕ, suc, String, Bool, true, false, not, ◌&&◌, ◌||◌, List, [], ◌∷◌, Option, none, some, Result, ok,
  err, if◌then◌else◌,
}
use myagent_bot.Base.Int.{ℤ, pos, ltb_ℤ, eqb_ℤ}
use myagent_bot.Base.Text.{
  trim_space, to_lower, lower_char, equal_fold, has_prefix, trim_prefix, has_suffix, trim_suffix,
}
use myagent_bot.Platform.Types.{Error, unknown_model, model_disabled}
use myagent_bot.Platform.Proxy.Candidates.{OfficialModel, priority_of}
use myagent_bot.Routing.AgentId.{strip_leading_dashes, strip_trailing_dashes}

-- the loop over the runes: other characters become dashes, one for each run of them
unfoldable pub dash_words : (Char → Bool) → Bool → String → String
dash_words is_word separated String.[] = String.[]
dash_words is_word separated (String.◌∷◌ c s) = elim (is_word c) [
  | true ↦ String.◌∷◌ (lower_char c) (dash_words is_word false s)
  | false ↦ elim separated [
    | true ↦ dash_words is_word true s
    | false ↦ String.◌∷◌ "-" (dash_words is_word true s)
  ]
]

-- the text without the prefix "official/"
unfoldable pub without_official : String → String
without_official value =
    if has_prefix value "official/" then trim_space (trim_prefix value "official/") else value

-- `strings.Trim` of the dashes around the words
unfoldable pub words_of : (Char → Bool) → String → String
words_of is_word value =
    strip_trailing_dashes (strip_leading_dashes (dash_words is_word false value))

unfoldable pub normalize_alias_key : (Char → Bool) → String → String
normalize_alias_key is_word raw =
    let value = to_lower (trim_space raw) in
    let name = without_official value in
    let stem = trim_space (trim_suffix name "/default") in
    if value == ""
    then ""
    else if has_suffix name "/default"
    then if stem == "" then "default" else words_of is_word stem
    else words_of is_word name

-- `officialModelMatchesAlias`
unfoldable pub matches_alias : (Char → Bool) → OfficialModel → String → Bool
matches_alias is_word model alias =
    let by_id = normalize_alias_key is_word model.id in
    let by_stem = normalize_alias_key is_word (trim_prefix (trim_space model.id) "official-") in
    let by_name = normalize_alias_key is_word model.name in
    not (alias == "")
    && ((not (by_id == "") && by_id == alias)
        || (not (by_stem == "") && by_stem == alias)
        || (not (by_name == "") && by_name == alias))

-- the first loop: the model whose id is the name, in any case
unfoldable pub model_named : String → List OfficialModel → Option String
model_named requested [] = none
model_named requested (model ∷ models) =
    let id = trim_space model.id in
    let later = model_named requested models in
    if not (id == "") && equal_fold id requested then some id else later

-- the second loop: the one id that the alias stands for; none where it stands for several, or for none
unfoldable pub model_aliased : (Char → Bool) → String → String → List OfficialModel → Option String
model_aliased is_word alias resolved [] = if resolved == "" then none else some resolved
model_aliased is_word alias resolved (model ∷ models) =
    let id = trim_space model.id in
    let left_out = id == "" || not (matches_alias is_word model alias) in
    elim (not left_out && not (resolved == "") && not (equal_fold resolved id)) [
      | true ↦ none
      | false ↦ model_aliased is_word alias (if left_out then resolved else id) models
    ]

-- whether a model goes before the best so far
unfoldable pub goes_first : ℤ → String → ℤ → String → Bool
goes_first priority id best_priority best_id =
    best_id == ""
    || ltb_ℤ priority best_priority
    || (eqb_ℤ priority best_priority
        && (elim (compare id best_id) [ Ordering.lt ↦ true | _ ↦ false ]))

-- the best of the models, of the enabled ones only if the flag says so: its priority and id
unfoldable pub best_model : Bool → ℤ × String → List OfficialModel → ℤ × String
unfolding goes_first
best_model enabled_only best [] = best
best_model enabled_only best (model ∷ models) =
    let id = trim_space model.id in
    let better =
      not (id == "")
      && (not enabled_only || model.enabled)
      && goes_first (priority_of model) id best.0 best.1 in
    best_model enabled_only (if better then (priority_of model, id) else best) models

-- how many models have an id
unfoldable pub count_models : List OfficialModel → ℕ
count_models [] = 0
count_models (model ∷ models) =
    let later = count_models models in if trim_space model.id == "" then later else suc later

-- `defaultOfficialModelIDLocked`; there is an enabled model where the best of them has an id
unfoldable pub default_official_model : List OfficialModel → Option String
default_official_model models =
    let enabled = best_model true (pos 0, "") models in
    let any = best_model false (pos 0, "") models in
    if not (enabled.1 == "")
    then some enabled.1
    else if eqb_ℤ (pos (count_models models)) (pos 1)
    then some any.1
    else none

unfoldable pub resolve_official_model_id :
    (Char → Bool) → List OfficialModel → String → Option String
resolve_official_model_id is_word models name =
    let requested = trim_space name in
    let alias = normalize_alias_key is_word requested in
    if requested == "" then none else elim (model_named requested models) [
      | some id ↦ some id
      | none ↦
          if alias == ""
          then none
          else if alias == "default"
          then default_official_model models
          else model_aliased is_word alias "" models
    ]

-- the last loop: whether the first model with the id is enabled
unfoldable pub enabled_model_id : String → List OfficialModel → Result Error String
enabled_model_id id [] = err unknown_model
enabled_model_id id (model ∷ models) = elim (trim_space model.id == id) [
  | true ↦ if model.enabled then ok id else err model_disabled
  | false ↦ enabled_model_id id models
]

unfoldable pub resolve_enabled_official_model_id :
    (Char → Bool) → List OfficialModel → String → Result Error String
resolve_enabled_official_model_id is_word models name =
    elim (resolve_official_model_id is_word models name) [
      | some id ↦ enabled_model_id id models
      | none ↦ elim models [ [] ↦ ok (trim_space name) | _ ∷ _ ↦ err unknown_model ]
    ]
