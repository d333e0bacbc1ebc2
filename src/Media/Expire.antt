-- ===== src/Media/Expire.antt =====
-- What `CleanExpired` of store.go takes away, and what it leaves.
use myagent_bot.Base.{
  ℕ, suc, ◌-◌, String, ◌≡◌, refl, Bool, false, ◌&&◌, List, [], ◌∷◌, none, some, err, if◌then◌else◌,
  Option-cases, Bool-cases, inl, inr, arith, eq_iff,
}
use myagent_bot.Base.Dict.{lookup, member, keys, lookup-erase, member-keys}
use myagent_bot.Media.{
  FileMediaStore, unknown_ref, resolve, drop_ref, is_expired, expire_refs, clean_expired,
}

-- Whether a ref has an entry that is expired.
abbrev pub expired_at : ℕ → String → FileMediaStore → Bool
expired_at cutoff ref s = elim (lookup ref s.refs) [
  | none ↦ false
  | some entry ↦ is_expired cutoff entry
]

lookup-expire_refs :
    (cutoff : ℕ) (refs : List String) (r : String) (s : FileMediaStore)
    → lookup r (expire_refs cutoff refs s).1.refs
      ≡ (if member r refs && expired_at cutoff r s then none else lookup r s.refs)
unfolding expire_refs drop_ref member
lookup-expire_refs cutoff [] r s = refl
lookup-expire_refs cutoff (ref ∷ refs) r s = elim (Option-cases (lookup ref s.refs)) [
  | inl unknown ↦
      rw (unknown, expire_refs)
        (ground (arith, unknown, lookup-expire_refs cutoff refs r s, eq_iff ref r))
  | inr (entry, known) ↦ elim (Bool-cases (is_expired cutoff entry)) [
    | inl old ↦
        rw (known, expire_refs, old)
          (ground (
            arith,
            known,
            old,
            lookup-expire_refs cutoff refs r (drop_ref ref s),
            lookup-erase ref r s.refs,
            eq_iff ref r,
          ))
    | inr young ↦
        rw (known, expire_refs, young)
          (ground (arith, known, young, lookup-expire_refs cutoff refs r s, eq_iff ref r))
  ]
]

-- A cleaning with a positive age makes unknown the refs whose entries are older than the age, and
-- every other ref resolves as before.
pub clean_resolve :
    (now age : ℕ) (ref : String) (s : FileMediaStore)
    → resolve ref (clean_expired now (suc age) s).1
      ≡ (if expired_at (now - suc age) ref s then err (unknown_ref ref) else resolve ref s)
unfolding clean_expired resolve
clean_resolve now age ref s =
    let found = lookup-expire_refs (now - suc age) (keys s.refs) ref s in
    ground (arith, found, member-keys ref s.refs)
