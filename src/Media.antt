-- ===== src/Media.antt =====
-- The media store, PinchBot/pkg/media/store.go. The lock makes the first phase of a method one
-- step; the second, which deletes files, is the list of paths that a method hands out. The order
-- of a Go map's keys is the order in which they were put in.
pub mod Consistent
pub mod Release
pub mod Expire
pub mod History
mod Tests
use text.Mathlib.Text.{◌==◌}
use myagent_bot.Base.{
  ℕ, zero, suc, ◌-◌, ltb, String, Bool, true, false, List, [], ◌∷◌, ◌++◌, Option, none, some,
  Result, ok, err, if◌then◌else◌,
}
use myagent_bot.Base.Dict.{Dict, lookup, lookup_or, insert, erase, erase_all, keys, remove, include}

pub record MediaMeta : Type 0 where
  pub filename : String
  pub content_type : String
  pub source : String

-- `stored_at` is in nanoseconds since 1970.
pub record MediaEntry : Type 0 where
  pub path : String
  pub meta : MediaMeta
  pub stored_at : ℕ

-- The three maps; a set of refs is a list.
pub record FileMediaStore : Type 0 where
  pub refs : Dict MediaEntry
  pub scope_to_refs : Dict (List String)
  pub ref_to_scope : Dict String

pub data Error : Type 0 where
  no_file unknown_ref : String → Error

-- `NewFileMediaStore`
unfoldable pub new_file_media_store : FileMediaStore
new_file_media_store = record { refs = []; scope_to_refs = []; ref_to_scope = [] }

-- `Store`. Whether the file exists, and the new ref that the package uuid gives, are parameters.
unfoldable pub store :
    Bool
    → String
    → ℕ
    → String
    → MediaMeta
    → String
    → FileMediaStore
    → Result Error String × FileMediaStore
store exists ref now local_path meta scope s =
    if exists
    then (
      ok ref,
      record {
        refs = insert ref (record { path = local_path; meta = meta; stored_at = now }) s.refs;
        scope_to_refs =
            insert scope (include ref (lookup_or [] scope s.scope_to_refs)) s.scope_to_refs;
        ref_to_scope = insert ref scope s.ref_to_scope;
      },
    )
    else (err (no_file local_path), s)

-- `ResolveWithMeta`
unfoldable pub resolve_with_meta : String → FileMediaStore → Result Error (String × MediaMeta)
resolve_with_meta ref s = elim (lookup ref s.refs) [
  | none ↦ err (unknown_ref ref)
  | some entry ↦ ok (entry.path, entry.meta)
]

-- `Resolve`
unfoldable pub resolve : String → FileMediaStore → Result Error String
resolve ref s = elim (lookup ref s.refs) [
  | none ↦ err (unknown_ref ref)
  | some entry ↦ ok entry.path
]

-- The paths of the refs that have an entry.
unfoldable pub paths_of : List String → Dict MediaEntry → List String
paths_of [] m = []
paths_of (ref ∷ refs) m = elim (lookup ref m) [
  | none ↦ paths_of refs (erase ref m)
  | some entry ↦ entry.path ∷ paths_of refs (erase ref m)
]

-- `ReleaseAll`: the paths to be deleted, and the store.
unfoldable pub release_all : String → FileMediaStore → List String × FileMediaStore
unfolding paths_of
release_all scope s = elim (lookup scope s.scope_to_refs) [
  | none ↦ ([], s)
  | some refs ↦ (
    paths_of refs s.refs,
    record {
      refs = erase_all refs s.refs;
      scope_to_refs = erase scope s.scope_to_refs;
      ref_to_scope = erase_all refs s.ref_to_scope;
    },
  )
]

-- The scopes without a ref; a scope that has no ref left goes.
unfoldable pub unscope : String → String → Dict (List String) → Dict (List String)
unscope ref scope scopes = elim (lookup scope scopes) [
  | none ↦ scopes
  | some refs ↦ elim (remove ref refs) [
    | [] ↦ erase scope scopes
    | left ∷ more ↦ insert scope (left ∷ more) scopes
  ]
]

-- The store without a ref.
unfoldable pub drop_ref : String → FileMediaStore → FileMediaStore
unfolding unscope
drop_ref ref s =
    let scopes : Dict (List String) = elim (lookup ref s.ref_to_scope) [
      | none ↦ s.scope_to_refs
      | some scope ↦ unscope ref scope s.scope_to_refs
    ] in
    record {
      refs = erase ref s.refs;
      scope_to_refs = scopes;
      ref_to_scope = erase ref s.ref_to_scope;
    }

-- `entry.storedAt.Before(cutoff)`
abbrev pub is_expired : ℕ → MediaEntry → Bool
is_expired cutoff entry = ltb entry.stored_at cutoff

-- The loop of `CleanExpired` over the refs: those that expired, with their paths, and the store.
unfoldable pub expire_refs :
    ℕ → List String → FileMediaStore → List (String × String) × FileMediaStore
unfolding drop_ref
expire_refs cutoff [] s = ([], s)
expire_refs cutoff (ref ∷ refs) s = elim (lookup ref s.refs) [
  | none ↦ expire_refs cutoff refs s
  | some entry ↦ elim (is_expired cutoff entry) [
    | false ↦ expire_refs cutoff refs s
    | true ↦
        let rest = expire_refs cutoff refs (drop_ref ref s) in ((ref, entry.path) ∷ rest.0, rest.1)
  ]
]

-- `CleanExpired`, at a time and for a `MaxAge` that is not negative.
unfoldable pub clean_expired : ℕ → ℕ → FileMediaStore → List (String × String) × FileMediaStore
unfolding expire_refs
clean_expired now zero s = ([], s)
clean_expired now (suc age) s = expire_refs (now - suc age) (keys s.refs) s
