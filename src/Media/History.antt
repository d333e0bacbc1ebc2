-- ===== src/Media/History.antt =====
-- The states that the calls of the media store, store.go, lead to.
use myagent_bot.Base.{ℕ, String, ◌≡◌, refl, Bool, false}
use myagent_bot.Base.Dict.{contains, lookup, member}
use myagent_bot.Media.{
  MediaMeta, FileMediaStore, new_file_media_store, store, release_all, clean_expired,
}
use myagent_bot.Media.Consistent.{
  IsConsistent, store-IsConsistent, release_all-IsConsistent, clean_expired-IsConsistent,
}

-- The stores that calls lead to, from an empty one, where each new ref is fresh.
pub data Reach : FileMediaStore → Type 0 where
  starts : Reach new_file_media_store
  stores :
      (exists : Bool) (ref : String) (now : ℕ) (path : String) (meta : MediaMeta) (scope : String)
      (s : FileMediaStore)
      → contains ref s.refs ≡ false
      → Reach s
      → Reach (store exists ref now path meta scope s).1
  releases : (scope : String) (s : FileMediaStore) → Reach s → Reach (release_all scope s).1
  cleans : (now age : ℕ) (s : FileMediaStore) → Reach s → Reach (clean_expired now age s).1

new_file_media_store-IsConsistent : IsConsistent new_file_media_store
unfolding new_file_media_store lookup member
new_file_media_store-IsConsistent = (λ r. refl, λ r sc. refl)

-- In every store that calls lead to from an empty one, where a new ref has no entry yet, a ref has
-- an entry when it has a scope, and a scope's set holds exactly the refs with this scope.
pub Reach-IsConsistent : (s : FileMediaStore) → Reach s → IsConsistent s
Reach-IsConsistent _ starts = new_file_media_store-IsConsistent
Reach-IsConsistent _ (stores exists ref now path meta scope s fresh reach) =
    store-IsConsistent exists ref now path meta scope s fresh (Reach-IsConsistent s reach)
Reach-IsConsistent _ (releases scope s reach) =
    release_all-IsConsistent scope s (Reach-IsConsistent s reach)
Reach-IsConsistent _ (cleans now age s reach) =
    clean_expired-IsConsistent now age s (Reach-IsConsistent s reach)
