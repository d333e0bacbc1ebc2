-- ===== src/Base/Int64.antt =====
-- Go's int64: integers that wrap around at 2 ^ 63.
use Prim.Native.Nat.{ℕ, ◌+◌, ◌-◌, ◌%◌, ◌^◌, ◌≤◌, ◌<◌}
use mathlib.Core.Logic.{◌≢◌}
use mathlib.Core.Path.{◌≡◌, ap, ◌∙◌}
use native.Mathlib.Omega.{arith}
use myagent_bot.Base.Tests.{ltb, if◌then◌else◌}
use myagent_bot.Base.Int.{
  ℤ, pos, negsuc, pos_part, neg_part, ◌+ℤ◌, ◌-ℤ◌, ◌*ℤ◌, +ℤ_parts, -ℤ_parts, eq_of_parts,
}

-- The integer that a pattern of 64 bits stands for.
abbrev pub signed64 : ℕ → ℤ
signed64 w = if ltb w (2 ^ 63) then pos w else negsuc (2 ^ 64 - w - 1)

unfoldable pub wrap64 : ℤ → ℤ
wrap64 z = signed64 ((pos_part z + (2 ^ 64 - neg_part z % 2 ^ 64)) % 2 ^ 64)

unfoldable pub add64 : ℤ → ℤ → ℤ
unfolding wrap64 ◌+ℤ◌
add64 a b = wrap64 (a +ℤ b)

unfoldable pub sub64 : ℤ → ℤ → ℤ
unfolding wrap64 ◌-ℤ◌
sub64 a b = wrap64 (a -ℤ b)

unfoldable pub mul64 : ℤ → ℤ → ℤ
unfolding wrap64 ◌*ℤ◌
mul64 a b = wrap64 (a *ℤ b)

-- `-x`, which for the least int64 is that number itself.
unfoldable pub neg64 : ℤ → ℤ
unfolding sub64
neg64 a = sub64 (pos 0) a

-- What a variable of type int64 can hold.
abbrev pub IsInt64 : ℤ → Type 0
IsInt64 z = (pos_part z < 2 ^ 63) × (neg_part z ≤ 2 ^ 63)

abbrev pub min_int64 : ℤ
min_int64 = negsuc (2 ^ 63 - 1)

pub wrap64-IsInt64 : (z : ℤ) → IsInt64 (wrap64 z)
unfolding wrap64
wrap64-IsInt64 z = ground arith

pub wrap64_of_IsInt64 : (z : ℤ) → IsInt64 z → wrap64 z ≡ z
unfolding wrap64
wrap64_of_IsInt64 z h = ground arith

-- Subtracting is adding the opposite, also where either wraps.
pub sub64-eq-add64-neg64 : (a b : ℤ) → sub64 a b ≡ add64 a (neg64 b)
unfolding sub64 add64 neg64
sub64-eq-add64-neg64 a b = ground arith

-- What was taken away and given back leaves the number as it was, also across a wrap.
pub add64-sub64 : (a b : ℤ) → IsInt64 a → add64 (sub64 a b) b ≡ a
unfolding sub64 add64
add64-sub64 a b h = ground arith

-- Where the true sum fits there is no wrap.
pub add64_of_IsInt64 : (a b : ℤ) → IsInt64 (a +ℤ b) → add64 a b ≡ a +ℤ b
unfolding add64
add64_of_IsInt64 a b h = wrap64_of_IsInt64 (a +ℤ b) h

pub sub64_of_IsInt64 : (a b : ℤ) → IsInt64 (a -ℤ b) → sub64 a b ≡ a -ℤ b
unfolding sub64
sub64_of_IsInt64 a b h = wrap64_of_IsInt64 (a -ℤ b) h

-- The opposite of any int64 but the least.
pub neg64_parts :
    (a : ℤ)
    → IsInt64 a
    → a ≢ min_int64
    → (pos_part (neg64 a) ≡ neg_part a) × (neg_part (neg64 a) ≡ pos_part a)
unfolding neg64
neg64_parts a h m = ground arith

-- A sum or difference that wraps may wrap its parts first.
wrap64_plus : (x y : ℤ) → wrap64 (wrap64 x +ℤ y) ≡ wrap64 (x +ℤ y)
unfolding wrap64 ◌+ℤ◌
wrap64_plus x y = ground arith

wrap64_minus : (x y : ℤ) → wrap64 (x -ℤ wrap64 y) ≡ wrap64 (x -ℤ y)
unfolding wrap64 ◌-ℤ◌
wrap64_minus x y = ground arith

+ℤ_comm : (x y : ℤ) → x +ℤ y ≡ y +ℤ x
+ℤ_comm x y = eq_of_parts (x +ℤ y) (y +ℤ x) (omega (arith, +ℤ_parts x y, +ℤ_parts y x))

-- Taking `b - r` and then `r - c` more is `b - c`, also where any of them wraps.
pub add64-sub64-sub64 : (b r c : ℤ) → add64 (sub64 b r) (sub64 r c) ≡ sub64 b c
unfolding add64 sub64
add64-sub64-sub64 b r c =
    let true_sum : (r -ℤ c) +ℤ (b -ℤ r) ≡ b -ℤ c =
      eq_of_parts _ _
        (omega (arith, +ℤ_parts (r -ℤ c) (b -ℤ r), -ℤ_parts r c, -ℤ_parts b r, -ℤ_parts b c)) in
    wrap64_plus (b -ℤ r) (wrap64 (r -ℤ c))
    ∙ ap wrap64 (+ℤ_comm (b -ℤ r) (wrap64 (r -ℤ c)))
    ∙ wrap64_plus (r -ℤ c) (b -ℤ r)
    ∙ ap wrap64 true_sum

pub neg64-sub64 : (c r : ℤ) → neg64 (sub64 c r) ≡ sub64 r c
unfolding neg64 sub64
neg64-sub64 c r =
    let opposite : pos 0 -ℤ (c -ℤ r) ≡ r -ℤ c =
      eq_of_parts _ _ (omega (arith, -ℤ_parts (pos 0) (c -ℤ r), -ℤ_parts c r, -ℤ_parts r c)) in
    wrap64_minus (pos 0) (c -ℤ r) ∙ ap wrap64 opposite
