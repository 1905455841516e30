-- ===== src/Base/Divide.antt =====
-- Multiples and remainders, for alignment and page arithmetic.
use Prim.Native.Nat.{ℕ, zero, suc, ◌+◌, ◌-◌, ◌/◌, ◌%◌, ◌^◌, ◌≤◌, max}
use mathlib.Core.Path.{◌≡◌}
use mathlib.Core.Logic.{◌≢◌}
use native.Mathlib.Nat.{mul-mod_left, pow-suc}
use native.Mathlib.Omega.{arith}

pub sub-mod-mod : (n d : ℕ) → (n - n % d) % d ≡ 0
sub-mod-mod n d = grind (arith, mul-mod_left (n / d) d)

pub round-mod : (n d : ℕ) → (n - n % d + d) % d ≡ 0
round-mod n d = grind (arith, mul-mod_left (n / d + 1) d)

-- A multiple of `d` that is not below `n` is not below the next one after `n - n % d`.
pub round-least : (n d m : ℕ) → n % d ≢ 0 → n ≤ m → m % d ≡ 0 → n - n % d + d ≤ m
round-least n d m ne le e = grind arith

-- Two powers of two: the larger is a multiple of the smaller.
pub max_eight-mod : (k : ℕ) → max (2 ^ k) 8 % 8 ≡ 0
max_eight-mod zero = omega arith
max_eight-mod (suc zero) = omega arith
max_eight-mod (suc (suc zero)) = omega arith
max_eight-mod (suc (suc (suc k))) =
    omega (arith, pow-suc 2 (suc (suc k)), pow-suc 2 (suc k), pow-suc 2 k)
