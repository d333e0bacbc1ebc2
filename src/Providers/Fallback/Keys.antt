-- ===== src/Providers/Fallback/Keys.antt =====
-- Lists of keys without repetition.
use myagent_bot.Base.{
  String, ◌≡◌, refl, Bool, true, false, not, ◌&&◌, List, [], ◌∷◌, ◌++◌, arith, eq_iff,
}
use myagent_bot.Base.Dict.{member, member-append}

unfoldable pub distinct : List String → Bool
distinct [] = true
distinct (k ∷ ks) = not (member k ks) && distinct ks

pub distinct-snoc :
    (ks : List String) (k : String)
    → distinct ks ≡ true
    → member k ks ≡ false
    → distinct (ks ++ k ∷ []) ≡ true
unfolding distinct member
distinct-snoc [] k d new = refl
distinct-snoc (j ∷ ks) k d new =
    ground (arith, distinct-snoc ks k, member-append j ks (k ∷ []), eq_iff j k, eq_iff k j)
