-- ===== src/Providers/Cooldown/Backoff.antt =====
-- The lengths of the cooldowns, cooldown.go, against the tables in its comments.
use Prim.Native.Nat.pow
use myagent_bot.Base.{ℕ, zero, suc, ◌-◌, ◌*◌, ◌≤◌, ◌≡◌, refl, ap, ◌^◌, min, max, arith}
use myagent_bot.Providers.Cooldown.{
  millisecond, hour, calculate_standard_cooldown, calculate_billing_cooldown,
}

abbrev pub minute : ℕ
minute = 60_000_000_000

-- 1 error: 1 min; 2: 5 min; 3: 25 min; 4 or more: 1 hour
abbrev pub standard_table : ℕ → ℕ
standard_table zero = minute
standard_table (suc zero) = minute
standard_table (suc (suc zero)) = 5 * minute
standard_table (suc (suc (suc zero))) = 25 * minute
standard_table _ = hour

-- 1 error: 5 hours; 2: 10 hours; 3: 20 hours; 4 or more: 24 hours
abbrev pub billing_table : ℕ → ℕ
billing_table zero = 5 * hour
billing_table (suc zero) = 5 * hour
billing_table (suc (suc zero)) = 10 * hour
billing_table (suc (suc (suc zero))) = 20 * hour
billing_table _ = 24 * hour

exponent_3 : (n : ℕ) → min (max 1 (suc (suc (suc (suc n)))) - 1) 3 ≡ 3
exponent_3 n = ground arith

pow_8 : (exp : ℕ) → 3 ≤ exp → 8 ≤ 2 ^ exp
pow_8 zero h = omega arith
pow_8 (suc zero) h = omega arith
pow_8 (suc (suc zero)) h = omega arith
pow_8 (suc (suc (suc zero))) h = omega arith
pow_8 (suc (suc (suc (suc e)))) h =
    omega (arith, pow_8 (suc (suc (suc e))) (omega arith), pow.suc 2 (suc (suc (suc e))))

-- The standard cooldown is 1 minute for at most one failure, 5 minutes for 2, 25 minutes for 3,
-- and 1 hour from 4 on.
pub standard_cooldown_table : (n : ℕ) → calculate_standard_cooldown n ≡ standard_table n
unfolding calculate_standard_cooldown
standard_cooldown_table zero = refl
standard_cooldown_table (suc zero) = refl
standard_cooldown_table (suc (suc zero)) = refl
standard_cooldown_table (suc (suc (suc zero))) = refl
standard_cooldown_table (suc (suc (suc (suc n)))) =
    ap (λ exp. min 3_600_000 (60_000 * 5 ^ exp) * millisecond) (exponent_3 n)

-- From the exponent 3 on, the power is past the cap.
billing_capped :
    (exp : ℕ)
    → 3 ≤ exp
    → min (24 * 60 * 60 * 1_000) (5 * 60 * 60 * 1_000 * 2 ^ exp) ≡ 24 * 60 * 60 * 1_000
billing_capped exp h = let big : 8 ≤ 2 ^ exp = pow_8 exp h in ground arith

-- The billing cooldown is 5 hours for at most one failure, 10 hours for 2, 20 hours for 3, and 24
-- hours from 4 on.
pub billing_cooldown_table : (n : ℕ) → calculate_billing_cooldown n ≡ billing_table n
unfolding calculate_billing_cooldown
billing_cooldown_table zero = refl
billing_cooldown_table (suc zero) = refl
billing_cooldown_table (suc (suc zero)) = refl
billing_cooldown_table (suc (suc (suc zero))) = refl
billing_cooldown_table (suc (suc (suc (suc n)))) =
    ap (λ ms. ms * millisecond)
      (billing_capped (min (max 1 (suc (suc (suc (suc n)))) - 1) 10) (ground arith))

standard_within : (n : ℕ) → (minute ≤ standard_table n) × (standard_table n ≤ hour)
standard_within zero = (omega arith, omega arith)
standard_within (suc zero) = (omega arith, omega arith)
standard_within (suc (suc zero)) = (omega arith, omega arith)
standard_within (suc (suc (suc zero))) = (omega arith, omega arith)
standard_within (suc (suc (suc (suc n)))) = (omega arith, omega arith)

billing_within : (n : ℕ) → (5 * hour ≤ billing_table n) × (billing_table n ≤ 24 * hour)
billing_within zero = (omega arith, omega arith)
billing_within (suc zero) = (omega arith, omega arith)
billing_within (suc (suc zero)) = (omega arith, omega arith)
billing_within (suc (suc (suc zero))) = (omega arith, omega arith)
billing_within (suc (suc (suc (suc n)))) = (omega arith, omega arith)

pub standard_cooldown_within :
    (n : ℕ) → (minute ≤ calculate_standard_cooldown n) × (calculate_standard_cooldown n ≤ hour)
standard_cooldown_within n =
    let within = standard_within n in
    (
      omega (arith, within.0, standard_cooldown_table n),
      omega (arith, within.1, standard_cooldown_table n),
    )

pub billing_cooldown_within :
    (n : ℕ) → (5 * hour ≤ calculate_billing_cooldown n) × (calculate_billing_cooldown n ≤ 24 * hour)
billing_cooldown_within n =
    let within = billing_within n in
    (
      omega (arith, within.0, billing_cooldown_table n),
      omega (arith, within.1, billing_cooldown_table n),
    )
