-- ===== src/Media/Release.antt =====
-- What `ReleaseAll` of store.go takes away, and what it leaves.
use myagent_bot.Base.{String, ◌≡◌, err, if◌then◌else◌, Option-cases, inl, inr, arith}
use myagent_bot.Base.Dict.{lookup, member, lookup-erase_all}
use myagent_bot.Media.{FileMediaStore, unknown_ref, resolve, release_all}
use myagent_bot.Media.Consistent.{is_scoped, IsConsistent}

-- Where the maps agree, a release makes the refs of its scope unknown, and every other ref
-- resolves as before.
pub release_resolve :
    (scope ref : String) (s : FileMediaStore)
    → IsConsistent s
    → resolve ref (release_all scope s).1
      ≡ (if is_scoped ref scope s then err (unknown_ref ref) else resolve ref s)
unfolding resolve release_all member
release_resolve scope ref s c = elim (Option-cases (lookup scope s.scope_to_refs)) [
  | inl unknown ↦ rw (unknown, release_all) (ground (arith, unknown, c.1 ref scope))
  | inr (refs, known) ↦
      rw (known, release_all)
        (ground (arith, known, lookup-erase_all refs ref s.refs, c.1 ref scope))
]
