-- ===== src/Queue/Backoff.antt =====
-- The delays of `backoffSeconds`.
use native.Mathlib.Nat.{pow-suc}
use notification_api_spec.Base.{ℕ, zero, suc, ◌≡◌, ◌≤◌, ◌*◌, ◌^◌, refl, sym, ◌∙◌, arith, min}
use notification_api_spec.Queue.{Attributes, receive_count, capped_seconds, backoff_seconds}

double : (n : ℕ) → 2 ^ suc n ≡ 2 ^ n * 2
double n = pow-suc 2 n

power_bound : (n : ℕ) → 32 ≤ 2 ^ suc (suc (suc (suc (suc n))))
power_bound zero = omega arith
power_bound (suc n) = omega (arith, power_bound n, double (suc (suc (suc (suc (suc n))))))

min_late : (m : ℕ) → 32 ≤ m → min (60 * m) 900 ≡ 900
min_late m h = omega arith

late : (n : ℕ) → 5 ≤ n → capped_seconds (suc n) ≡ 900
unfolding capped_seconds
late n h = ground arith

capped_late : (n : ℕ) → 5 ≤ n → 32 ≤ 2 ^ n → capped_seconds (suc n) ≡ min (60 * 2 ^ n) 900
unfolding capped_seconds
capped_late n h k = late n h ∙ sym (min_late (2 ^ n) k)

-- The delay doubles with every receive, from one minute up to fifteen.
capped_seconds_lem : (n : ℕ) → capped_seconds (suc n) ≡ min (60 * 2 ^ n) 900
unfolding capped_seconds
capped_seconds_lem zero = refl
capped_seconds_lem (suc zero) = refl
capped_seconds_lem (suc (suc zero)) = refl
capped_seconds_lem (suc (suc (suc zero))) = refl
capped_seconds_lem (suc (suc (suc (suc zero)))) = refl
capped_seconds_lem (suc (suc (suc (suc (suc n))))) =
    capped_late (suc (suc (suc (suc (suc n))))) (omega arith) (power_bound n)

one_le_power : (n : ℕ) → 1 ≤ 2 ^ n
one_le_power zero = omega arith
one_le_power (suc n) = omega (arith, one_le_power n, pow-suc 2 n)

capped_bounds : (count : ℕ) → (60 ≤ capped_seconds count) × (capped_seconds count ≤ 900)
unfolding capped_seconds
capped_bounds zero = (omega arith, omega arith)
capped_bounds (suc n) = omega (arith, capped_seconds_lem n, one_le_power n)

-- Between one minute and fifteen, whatever the attributes say.
backoff_seconds-bounds :
    (attributes : Attributes)
    → (60 ≤ backoff_seconds attributes) × (backoff_seconds attributes ≤ 900)
unfolding backoff_seconds
backoff_seconds-bounds attributes = capped_bounds (receive_count attributes)
