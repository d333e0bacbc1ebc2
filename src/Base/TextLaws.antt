-- ===== src/Base/TextLaws.antt =====
-- Laws of the functions on texts.
use Prim.Native.Char.{Char, code}
use Prim.Native.Nat.{ℕ, zero, suc, ◌-◌}
use Prim.Native.String.{String}
use Prim.Native.String.compare
use mathlib.Core.Bool.{Bool, true, false, not, ◌&&◌, true≢false}
use mathlib.Core.Logic.{◌≢◌, inl, inr}
use mathlib.Core.Path.{◌≡◌, refl, ap, sym, ◌∙◌}
use native.Mathlib.Omega.{arith}
use text.Mathlib.Text.{is_eq, ◌==◌ as str_eq}
use text.Mathlib.TextEquality.{eq_iff}
use myagent_bot.Base.Tests.{leb, Bool-cases}
use myagent_bot.Base.Text.{
  is_space, trim_left, trim_right, trim_space, char_or, lower_char, to_lower, ◌+++◌, all_chars,
}

-- A test of a text is that of each character a position can name.
pub char_or-all_chars :
    (p : Char → Bool) (d : Char) (s : String) (n : ℕ)
    → all_chars p s ≡ true
    → p d ≡ true
    → p (char_or d s n) ≡ true
unfolding char_or all_chars
char_or-all_chars p d String.[] n h e = e
char_or-all_chars p d (String.◌∷◌ c s) zero h e = ground arith
char_or-all_chars p d (String.◌∷◌ c s) (suc n) h e = char_or-all_chars p d s n (ground arith) e

pub +++_assoc : (s t u : String) → (s +++ t) +++ u ≡ s +++ (t +++ u)
unfolding ◌+++◌
+++_assoc String.[] t u = refl
+++_assoc (String.◌∷◌ c s) t u = ap (String.◌∷◌ c) (+++_assoc s t u)

pub cons_not_empty : (c : Char) (s : String) → str_eq (String.◌∷◌ c s) "" ≡ false
cons_not_empty c s = ap is_eq (compare.cons-nil c s)

pub empty-to_lower : (s : String) → str_eq (to_lower s) "" ≡ str_eq s ""
unfolding to_lower
empty-to_lower String.[] = refl
empty-to_lower (String.◌∷◌ c s) =
    cons_not_empty (lower_char c) (to_lower s) ∙ sym (cons_not_empty c s)

pub filled-+++ : (s t : String) → t ≢ "" → str_eq (s +++ t) "" ≡ false
unfolding ◌+++◌
filled-+++ String.[] t n = ground (arith, eq_iff t "")
filled-+++ (String.◌∷◌ c s) t n = cons_not_empty c (s +++ t)

abbrev not_space : Char → Bool
not_space c = not (is_space c)

abbrev is_upper : Char → Bool
is_upper c = leb b'A' (code c) && leb (code c) b'Z'

is_upper-not_space : (c : Char) → is_upper c ≡ true → is_space c ≡ false
unfolding is_space
is_upper-not_space c h = ground arith

-- Lower case leaves white space and makes none.
pub is_space-lower_char : (c : Char) → is_space (lower_char c) ≡ is_space c
unfolding lower_char
is_space-lower_char c = elim (Bool-cases (is_upper c)) [
  | inl up ↦
      let letters : String = "abcdefghijklmnopqrstuvwxyz" in
      let plain = is_upper-not_space c up in
      let letter =
        char_or-all_chars not_space c letters (code c - b'A') (unfold all_chars is_space in refl)
          (ap not plain) in
      rw up (not_true _ letter ∙ sym plain)
  | inr low ↦ rw low refl
]
  where
    not_true : (b : Bool) → not b ≡ true → b ≡ false
    not_true true h = absurd (true≢false (sym h))
    not_true false h = refl

pub trim_right_twice : (s : String) → trim_right (trim_right s) ≡ trim_right s
unfolding trim_right
trim_right_twice String.[] = refl
trim_right_twice (String.◌∷◌ c s) = elim (Bool-cases (is_space c && str_eq (trim_right s) "")) [
  | inl blank ↦ rw blank refl
  | inr kept ↦ rw kept (unfold trim_right in rw (trim_right_twice s, kept) refl)
]

pub trim_right-to_lower : (s : String) → trim_right (to_lower s) ≡ to_lower (trim_right s)
unfolding trim_right to_lower
trim_right-to_lower String.[] = refl
trim_right-to_lower (String.◌∷◌ c s) =
    rw (is_space-lower_char c, trim_right-to_lower s, empty-to_lower (trim_right s))
      elim (Bool-cases (is_space c && str_eq (trim_right s) "")) [
        | inl blank ↦ rw blank refl
        | inr kept ↦ rw kept refl
      ]

-- What ends in a trimmed text that is not empty is trimmed on the right.
pub trim_right-+++ : (s t : String) → trim_right t ≡ t → t ≢ "" → trim_right (s +++ t) ≡ s +++ t
unfolding trim_right ◌+++◌
trim_right-+++ String.[] t e n = e
trim_right-+++ (String.◌∷◌ c s) t e n = rw (trim_right-+++ s t e n) (
    rw (filled-+++ s t n)
      elim (Bool-cases (is_space c)) [ inl blank ↦ rw blank refl | inr kept ↦ rw kept refl ])

abbrev starts_blank : String → Bool
starts_blank String.[] = false
starts_blank (String.◌∷◌ c s) = is_space c

unblank-trim_left : (s : String) → starts_blank (trim_left s) ≡ false
unfolding trim_left
unblank-trim_left String.[] = refl
unblank-trim_left (String.◌∷◌ c s) = ground (arith, unblank-trim_left s)

trim_left_unblank : (s : String) → starts_blank s ≡ false → trim_left s ≡ s
unfolding trim_left
trim_left_unblank String.[] h = refl
trim_left_unblank (String.◌∷◌ c s) h = rw h refl

unblank-trim_right : (s : String) → starts_blank s ≡ false → starts_blank (trim_right s) ≡ false
unfolding trim_right
unblank-trim_right String.[] h = refl
unblank-trim_right (String.◌∷◌ c s) h = rw h h

pub trim_space_twice : (s : String) → trim_space (trim_space s) ≡ trim_space s
unfolding trim_space
trim_space_twice s =
    ap trim_right (
      trim_left_unblank (trim_right (trim_left s))
        (unblank-trim_right (trim_left s) (unblank-trim_left s)))
    ∙ trim_right_twice (trim_left s)
