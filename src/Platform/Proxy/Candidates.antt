-- ===== src/Platform/Proxy/Candidates.antt =====
-- The models that a proxied chat may be answered by: `officialProxyCandidateModelIDs` of service.go.
use Prim.Native.Nat.{Ordering}
use Prim.Native.String.{compare}
use text.Mathlib.Text.{◌==◌}
use myagent_bot.Base.{
  String, Bool, true, false, not, ◌&&◌, ◌||◌, List, [], ◌∷◌, ◌++◌, if◌then◌else◌,
}
use myagent_bot.Base.Dict.{member}
use myagent_bot.Base.Int.{ℤ, pos, ltb_ℤ, eqb_ℤ}
use myagent_bot.Base.Text.{trim_space, to_lower}

pub record OfficialModel : Type 0 where
  pub id : String
  pub name : String
  pub description : String
  pub enabled : Bool
  pub fallback_priority : ℤ
  pub pricing_version : String
  pub reserve_fen : ℤ

-- the guards of the first loop, on a model whose id is trimmed
unfoldable pub is_fallback : List String → OfficialModel → Bool
is_fallback seen model =
    not (model.id == "" || not model.enabled) && not (member (to_lower model.id) seen)

unfoldable pub fallbacks_of : List String → List OfficialModel → List OfficialModel
fallbacks_of seen [] = []
fallbacks_of seen (model ∷ models) =
    let trimmed = record model { id = trim_space model.id } in
    let later = fallbacks_of seen models in
    if is_fallback seen trimmed then trimmed ∷ later else later

-- a negative priority counts as 0
unfoldable pub priority_of : OfficialModel → ℤ
priority_of model = if ltb_ℤ model.fallback_priority (pos 0) then pos 0 else model.fallback_priority

-- the order that `sort.Slice` is given
unfoldable pub ranks_before : OfficialModel → OfficialModel → Bool
unfolding priority_of
ranks_before a b =
    if eqb_ℤ (priority_of a) (priority_of b)
    then elim (compare a.id b.id) [ Ordering.lt ↦ true | _ ↦ false ]
    else ltb_ℤ (priority_of a) (priority_of b)

unfoldable pub insert_ranked : OfficialModel → List OfficialModel → List OfficialModel
insert_ranked model [] = model ∷ []
insert_ranked model (m ∷ ms) =
    let later = insert_ranked model ms in if ranks_before m model then m ∷ later else model ∷ m ∷ ms

-- `sort.Slice`; models that neither goes before have one id, which is all that is read of them
unfoldable pub sort_ranked : List OfficialModel → List OfficialModel
sort_ranked [] = []
sort_ranked (model ∷ models) = insert_ranked model (sort_ranked models)

-- the second loop, which leaves out ids that were seen in another case
unfoldable pub unseen_ids : List String → List OfficialModel → List String
unseen_ids seen [] = []
unseen_ids seen (model ∷ models) = elim (member (to_lower model.id) seen) [
  | true ↦ unseen_ids seen models
  | false ↦ model.id ∷ unseen_ids (to_lower model.id ∷ seen) models
]

unfoldable pub candidate_model_ids : String → List OfficialModel → List String
candidate_model_ids primary models =
    let id = trim_space primary in
    let first = if id == "" then [] else id ∷ [] in
    let seen = if id == "" then [] else to_lower id ∷ [] in
    first ++ unseen_ids seen (sort_ranked (fallbacks_of seen models))
