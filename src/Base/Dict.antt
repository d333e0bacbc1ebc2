-- ===== src/Base/Dict.antt =====
-- A Go map keyed by strings, as an association list with at most one entry for a key.
use Prim.Native.String.{String}
use mathlib.Core.Bool.{Bool, true, false, ◌||◌}
use mathlib.Core.List.{List, [], ◌∷◌, ◌++◌}
use mathlib.Core.Logic.{inl, inr}
use mathlib.Core.Option.{Option, none, some}
use mathlib.Core.Path.{◌≡◌, refl, subst}
use native.Mathlib.Omega.{arith}
use text.Mathlib.Text.{◌==◌}
use text.Mathlib.TextEquality.{eq_iff}
use text.Mathlib.TextPositions.{eq_refl}
use myagent_bot.Base.Tests.{if◌then◌else◌, Bool-cases}

abbrev pub Dict {ℓ} : Type ℓ → Type ℓ
Dict V = List (String × V)

module _ {ℓ} {V : Type ℓ} where
  -- `v, ok := m[key]`
  unfoldable pub lookup : (key : String) (m : Dict V) → Option V
  lookup key [] = none
  lookup key (entry ∷ rest) =
      let later = lookup key rest in if entry.0 == key then some entry.1 else later

  -- `m[key] = value`
  unfoldable pub insert : (key : String) (value : V) (m : Dict V) → Dict V
  insert key value [] = (key, value) ∷ []
  insert key value (entry ∷ rest) =
      let later = insert key value rest in
      if entry.0 == key then (key, value) ∷ rest else entry ∷ later

  -- `delete(m, key)`; every entry with the key goes
  unfoldable pub erase : (key : String) (m : Dict V) → Dict V
  erase key [] = []
  erase key (entry ∷ rest) =
      let later = erase key rest in if entry.0 == key then later else entry ∷ later

  -- `v := m[k]`, with the zero value of a key that is missing
  abbrev pub lookup_or : V → String → Dict V → V
  lookup_or d k m = elim (lookup k m) [ none ↦ d | some v ↦ v ]

  abbrev pub contains : String → Dict V → Bool
  contains k m = elim (lookup k m) [ none ↦ false | some _ ↦ true ]

  pub lookup-insert :
      (set asked : String) (value : V) (m : Dict V)
      → lookup asked (insert set value m) ≡ (if set == asked then some value else lookup asked m)
  unfolding lookup insert
  lookup-insert set asked value [] = refl
  lookup-insert set asked value (entry ∷ rest) = ground (
    lookup-insert set asked value rest,
    eq_iff entry.0 asked,
    eq_iff entry.0 set,
    eq_iff set asked,
    arith,
  )

  pub lookup-erase :
      (gone asked : String) (m : Dict V)
      → lookup asked (erase gone m) ≡ (if gone == asked then none else lookup asked m)
  unfolding lookup erase
  lookup-erase gone asked [] = ground arith
  lookup-erase gone asked (entry ∷ rest) = ground (
    lookup-erase gone asked rest,
    eq_iff entry.0 asked,
    eq_iff entry.0 gone,
    eq_iff gone asked,
    arith,
  )

module _ {ℓ κ} {V : Type ℓ} (P : V → Type κ) where
  -- What holds of every value and of a new one holds of every value after the insertion.
  pub insert_all :
      (k : String) (v : V) (m : Dict V)
      → P v
      → ((i : String) (x : V) → lookup i m ≡ some x → P x)
      → (i : String) (x : V) → lookup i (insert k v m) ≡ some x
      → P x
  insert_all k v m new old i x h = elim (Bool-cases (k == i)) [
    | inl same ↦ let e : v ≡ x = ground (arith, lookup-insert k i v m) in subst P e new
    | inr other ↦ old i x (ground (arith, lookup-insert k i v m))
  ]

-- Whether a set of texts, a Go map with no values, has a text.
unfoldable pub member : String → List String → Bool
member k [] = false
member k (j ∷ ks) = j == k || member k ks

-- `delete(set, k)`
unfoldable pub remove : String → List String → List String
remove k [] = []
remove k (j ∷ ks) = let rest = remove k ks in if j == k then rest else j ∷ rest

-- `set[k] = struct{}{}`
unfoldable pub include : String → List String → List String
include k ks = if member k ks then ks else ks ++ k ∷ []

pub member-append :
    (k : String) (xs ys : List String) → member k (xs ++ ys) ≡ (member k xs || member k ys)
unfolding member
member-append k [] ys = refl
member-append k (x ∷ xs) ys = ground (arith, member-append k xs ys)

pub member_one : (k j : String) → member k (j ∷ []) ≡ (j == k)
unfolding member
member_one k j = ground arith

pub member-remove :
    (k j : String) (ks : List String)
    → member j (remove k ks) ≡ (if k == j then false else member j ks)
unfolding member remove
member-remove k j [] = ground arith
member-remove k j (i ∷ ks) =
    ground (arith, member-remove k j ks, eq_iff i k, eq_iff i j, eq_iff k j)

pub member-include :
    (k j : String) (ks : List String) → member j (include k ks) ≡ ((k == j) || member j ks)
unfolding include
member-include k j ks = ground (arith, member-append j ks (k ∷ []), member_one j k, eq_iff k j)

module _ {ℓ} {V : Type ℓ} where
  abbrev pub keys : Dict V → List String
  keys [] = []
  keys ((k, v) ∷ m) = k ∷ keys m

  -- The keys of a map are those that it has a value for.
  pub member-keys : (k : String) (m : Dict V) → member k (keys m) ≡ contains k m
  unfolding member lookup
  member-keys k [] = refl
  member-keys k ((j, v) ∷ m) = ground (arith, member-keys k m)

  unfoldable pub erase_all : List String → Dict V → Dict V
  erase_all [] m = m
  erase_all (k ∷ ks) m = erase_all ks (erase k m)

  pub lookup-erase_all :
      (ks : List String) (k : String) (m : Dict V)
      → lookup k (erase_all ks m) ≡ (if member k ks then none else lookup k m)
  unfolding erase_all member
  lookup-erase_all [] k m = refl
  lookup-erase_all (j ∷ ks) k m =
      ground (arith, lookup-erase_all ks k (erase j m), lookup-erase j k m)

pub ruleset dict_laws = (lookup-insert, lookup-erase, eq_refl)
