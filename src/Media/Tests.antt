-- ===== src/Media/Tests.antt =====
-- The theorems on the media store at concrete inputs.
use myagent_bot.Base.{◌-◌, ◌≡◌, refl, true, [], ◌∷◌, err, if◌then◌else◌}
use myagent_bot.Base.Dict.{lookup, insert, member, include, erase, erase_all}
use myagent_bot.Media.{
  MediaMeta, FileMediaStore, unknown_ref, new_file_media_store, store, resolve, release_all,
  clean_expired,
}
use myagent_bot.Media.Consistent.{IsConsistent, is_scoped}
use myagent_bot.Media.Release.{release_resolve}
use myagent_bot.Media.Expire.{expired_at, clean_resolve}
use myagent_bot.Media.History.{Reach, starts, stores, Reach-IsConsistent}

abbrev photo : MediaMeta
photo = record { filename = "p.png"; content_type = "image/png"; source = "telegram" }

-- A photo and a file under one scope.
abbrev with_photo : FileMediaStore
with_photo = (store true "media://1" 100 "/tmp/p.png" photo "chat:1" new_file_media_store).1

abbrev with_both : FileMediaStore
with_both = (store true "media://2" 200 "/tmp/f.pdf" photo "chat:2" with_photo).1

fresh_1 : Reach with_photo
unfolding new_file_media_store lookup
fresh_1 = stores true "media://1" 100 "/tmp/p.png" photo "chat:1" new_file_media_store refl starts

with_both-Reach : Reach with_both
unfolding store new_file_media_store lookup insert
with_both-Reach = stores true "media://2" 200 "/tmp/f.pdf" photo "chat:2" with_photo refl fresh_1

Reach-IsConsistent_example : IsConsistent with_both
Reach-IsConsistent_example = Reach-IsConsistent with_both with_both-Reach

release_resolve_example : resolve "media://1" (release_all "chat:1" with_both).1 ≡ (
    if is_scoped "media://1" "chat:1" with_both
    then err (unknown_ref "media://1")
    else resolve "media://1" with_both)
release_resolve_example =
    release_resolve "chat:1" "media://1" with_both (Reach-IsConsistent with_both with_both-Reach)

clean_resolve_example : resolve "media://1" (clean_expired 300 150 with_both).1 ≡ (
    if expired_at (300 - 150) "media://1" with_both
    then err (unknown_ref "media://1")
    else resolve "media://1" with_both)
clean_resolve_example = clean_resolve 300 149 "media://1" with_both

released_test :
    resolve "media://1" (release_all "chat:1" with_both).1 ≡ err (unknown_ref "media://1")
unfolding resolve release_all store new_file_media_store lookup insert include member erase_all
    erase
released_test = refl

expired_test : (clean_expired 300 150 with_both).0 ≡ ("media://1", "/tmp/p.png") ∷ []
unfolding clean_expired store new_file_media_store lookup insert include member erase
expired_test = refl
