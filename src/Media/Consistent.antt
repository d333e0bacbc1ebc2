-- ===== src/Media/Consistent.antt =====
-- The three maps of store.go agree: a ref has an entry when it has a scope, and a scope's set holds
-- the refs that have this scope.
use text.Mathlib.Text.{◌==◌}
use myagent_bot.Base.{
  ℕ, zero, suc, ◌-◌, String, ◌≡◌, refl, Bool, true, false, ◌&&◌, List, [], ◌∷◌, none, some,
  if◌then◌else◌, Option-cases, Bool-cases, inl, inr, arith, eq_iff,
}
use myagent_bot.Base.Dict.{
  Dict, lookup, lookup_or, contains, member, remove, include, keys, lookup-insert, lookup-erase,
  lookup-erase_all, member-include, member-remove,
}
use myagent_bot.Media.{
  MediaMeta, MediaEntry, FileMediaStore, store, release_all, unscope, drop_ref, is_expired,
  expire_refs, clean_expired,
}

-- Whether a ref has the scope.
abbrev pub is_scoped : String → String → FileMediaStore → Bool
is_scoped ref scope s = elim (lookup ref s.ref_to_scope) [ none ↦ false | some own ↦ own == scope ]

-- Whether the set of a scope holds a ref.
abbrev pub in_scope : String → String → Dict (List String) → Bool
in_scope ref scope scopes = member ref (lookup_or [] scope scopes)

abbrev pub IsConsistent : FileMediaStore → Type 0
IsConsistent s =
    ((ref : String) → contains ref s.refs ≡ contains ref s.ref_to_scope)
    × ((ref scope : String) → in_scope ref scope s.scope_to_refs ≡ is_scoped ref scope s)

pub store-IsConsistent :
    (exists : Bool) (ref : String) (now : ℕ) (path : String) (meta : MediaMeta) (scope : String)
    (s : FileMediaStore)
    → contains ref s.refs ≡ false
    → IsConsistent s
    → IsConsistent (store exists ref now path meta scope s).1
unfolding store
store-IsConsistent false ref now path meta scope s fresh c = c
store-IsConsistent true ref now path meta scope s fresh c =
    let entry : MediaEntry = record { path = path; meta = meta; stored_at = now } in
    let old = lookup_or [] scope s.scope_to_refs in
    (
      λ r. ground (
        arith,
        lookup-insert ref r entry s.refs,
        lookup-insert ref r scope s.ref_to_scope,
        c.0 r,
      ),
      λ r sc. ground (
        arith,
        lookup-insert scope sc (include ref old) s.scope_to_refs,
        lookup-insert ref r scope s.ref_to_scope,
        member-include ref r old,
        c.0 ref,
        fresh,
        c.1 r sc,
        c.1 r scope,
        eq_iff ref r,
        eq_iff scope sc,
      ),
    )

-- A ref that has a scope is in no other.
one_scope :
    (ref scope other : String) (s : FileMediaStore)
    → is_scoped ref scope s ≡ true
    → (scope == other) ≡ false
    → is_scoped ref other s ≡ false
one_scope ref scope other s here apart = elim (Option-cases (lookup ref s.ref_to_scope)) [
  | inl none_known ↦ ground (arith, none_known)
  | inr (own, known) ↦ ground (arith, known, here, apart, eq_iff own scope, eq_iff own other)
]

pub release_all-IsConsistent :
    (scope : String) (s : FileMediaStore) → IsConsistent s → IsConsistent (release_all scope s).1
unfolding release_all member
release_all-IsConsistent scope s c = elim (Option-cases (lookup scope s.scope_to_refs)) [
  | inl unknown ↦ rw (unknown, release_all) c
  | inr (refs, known) ↦
      rw (known, release_all)
        (
          λ r. ground (
            arith,
            lookup-erase_all refs r s.refs,
            lookup-erase_all refs r s.ref_to_scope,
            c.0 r,
          ),
          λ r sc. ground (
            arith,
            known,
            lookup-erase scope sc s.scope_to_refs,
            lookup-erase_all refs r s.ref_to_scope,
            c.1 r sc,
            c.1 r scope,
            eq_iff scope sc,
            one_scope r scope sc s,
          ),
        )
]

in_scope-unscope :
    (ref scope r sc : String) (scopes : Dict (List String))
    → in_scope r sc (unscope ref scope scopes)
      ≡ (if (scope == sc) && (ref == r) then false else in_scope r sc scopes)
unfolding unscope member
in_scope-unscope ref scope r sc scopes = elim (Option-cases (lookup scope scopes)) [
  | inl unknown ↦ rw (unknown, unscope) (ground (arith, unknown, eq_iff scope sc))
  | inr (refs, known) ↦ go refs (remove ref refs) known refl
]
  where
    go :
        (refs left : List String)
        → lookup scope scopes ≡ some refs
        → remove ref refs ≡ left
        → in_scope r sc (unscope ref scope scopes)
          ≡ (if (scope == sc) && (ref == r) then false else in_scope r sc scopes)
    go refs [] known e =
        rw (known, unscope, e)
          (ground (
            arith,
            known,
            e,
            lookup-erase scope sc scopes,
            member-remove ref r refs,
            eq_iff scope sc,
          ))
    go refs (l ∷ ls) known e =
        rw (known, unscope, e)
          (ground (
            arith,
            known,
            e,
            lookup-insert scope sc (l ∷ ls) scopes,
            member-remove ref r refs,
            eq_iff scope sc,
          ))

pub drop_ref-IsConsistent :
    (ref : String) (s : FileMediaStore) → IsConsistent s → IsConsistent (drop_ref ref s)
unfolding drop_ref
drop_ref-IsConsistent ref s c = (
  λ r. ground (arith, lookup-erase ref r s.refs, lookup-erase ref r s.ref_to_scope, c.0 r),
  λ r sc. elim (Option-cases (lookup ref s.ref_to_scope)) [
    | inl unknown ↦
        rw (unknown, drop_ref)
          (ground (arith, unknown, lookup-erase ref r s.ref_to_scope, c.1 r sc, eq_iff ref r))
    | inr (scope, known) ↦
        rw (known, drop_ref)
          (ground (
            arith,
            known,
            lookup-erase ref r s.ref_to_scope,
            c.1 r sc,
            eq_iff ref r,
            eq_iff scope sc,
            in_scope-unscope ref scope r sc s.scope_to_refs,
          ))
  ],
)

expire_refs-IsConsistent :
    (cutoff : ℕ) (refs : List String) (s : FileMediaStore)
    → IsConsistent s
    → IsConsistent (expire_refs cutoff refs s).1
unfolding expire_refs
expire_refs-IsConsistent cutoff [] s c = c
expire_refs-IsConsistent cutoff (ref ∷ refs) s c = elim (Option-cases (lookup ref s.refs)) [
  | inl unknown ↦ rw (unknown, expire_refs) (expire_refs-IsConsistent cutoff refs s c)
  | inr (entry, known) ↦ elim (Bool-cases (is_expired cutoff entry)) [
    | inl old ↦
        rw (known, expire_refs, old)
          (expire_refs-IsConsistent cutoff refs (drop_ref ref s) (drop_ref-IsConsistent ref s c))
    | inr young ↦ rw (known, expire_refs, young) (expire_refs-IsConsistent cutoff refs s c)
  ]
]

pub clean_expired-IsConsistent :
    (now age : ℕ) (s : FileMediaStore) → IsConsistent s → IsConsistent (clean_expired now age s).1
unfolding clean_expired
clean_expired-IsConsistent now zero s c = c
clean_expired-IsConsistent now (suc age) s c =
    expire_refs-IsConsistent (now - suc age) (keys s.refs) s c
