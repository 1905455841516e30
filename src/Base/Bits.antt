-- ===== src/Base/Bits.antt =====
-- `|` of fields that share no bit is a sum, and `&` with a run of ones is a remainder: the laws by
-- which register layouts are read.
use Prim.Native.Nat.{
  ℕ, zero, suc, ◌+◌, ◌-◌, ◌*◌, ◌/◌, ◌%◌, ◌^◌, ◌≤◌, ◌<◌, min, max, bit_and, bit_or, digits,
  bit_and-bitwise, bit_or-bitwise,
}
use mathlib.Core.Path.{◌≡◌, refl, ap, ◌∙◌}
use native.Mathlib.Nat.{mul-mod_left, pow-suc, one-le-pow}
use native.Mathlib.Omega.{arith}

-- The native operations stand for a recursion on binary digits whose fuel is its first operand.
-- Any two amounts of fuel that cover the operand give the same digits.
module _ (rest : ℕ → ℕ) (digit : ℕ → ℕ → ℕ) where
  digits_enough : (m n a b : ℕ) → a ≤ m → a ≤ n → digits rest digit m a b ≡ digits rest digit n a b
  digits_enough zero zero zero b p q = refl
  digits_enough zero (suc n) zero b p q = refl
  digits_enough (suc m) zero zero b p q = refl
  digits_enough (suc m) (suc n) zero b p q = refl
  digits_enough zero n (suc a) b p q = absurd (omega arith)
  digits_enough (suc m) zero (suc a) b p q = absurd (omega arith)
  digits_enough (suc m) (suc n) (suc a) b p q =
      omega (arith, digits_enough m n (suc a / 2) (b / 2) (omega arith) (omega arith))

bit_and-halves : (a b : ℕ) → bit_and a b ≡ 2 * bit_and (a / 2) (b / 2) + min (a % 2) (b % 2)
bit_and-halves zero b = omega (arith, bit_and-bitwise 0 b, bit_and-bitwise 0 (b / 2))
bit_and-halves (suc a) b = omega (
  arith,
  bit_and-bitwise (suc a) b,
  bit_and-bitwise (suc a / 2) (b / 2),
  digits_enough (λ _. zero) min a (suc a / 2) (suc a / 2) (b / 2) (omega arith) (omega arith),
)

bit_or-halves : (a b : ℕ) → bit_or a b ≡ 2 * bit_or (a / 2) (b / 2) + max (a % 2) (b % 2)
bit_or-halves zero b = omega (arith, bit_or-bitwise 0 b, bit_or-bitwise 0 (b / 2))
bit_or-halves (suc a) b = omega (
  arith,
  bit_or-bitwise (suc a) b,
  bit_or-bitwise (suc a / 2) (b / 2),
  digits_enough (λ n. n) max a (suc a / 2) (suc a / 2) (b / 2) (omega arith) (omega arith),
)

bit_and-nothing : (bound a : ℕ) → a ≤ bound → bit_and a 0 ≡ 0
bit_and-nothing bound zero h = refl
bit_and-nothing zero (suc a) h = absurd (omega arith)
bit_and-nothing (suc n) (suc a) h =
    omega (arith, bit_and-halves (suc a) 0, bit_and-nothing n (suc a / 2) (omega arith))

bit_or-nothing : (bound a : ℕ) → a ≤ bound → bit_or a 0 ≡ a
bit_or-nothing bound zero h = refl
bit_or-nothing zero (suc a) h = absurd (omega arith)
bit_or-nothing (suc n) (suc a) h =
    omega (arith, bit_or-halves (suc a) 0, bit_or-nothing n (suc a / 2) (omega arith))

double-pow : (k q : ℕ) → q * 2 ^ suc k ≡ 2 * (q * 2 ^ k)
double-pow k q = omega (arith, ap (λ (t : ℕ). q * t) (pow-suc 2 k))

bit_and-ones_sum : (k q r : ℕ) → r < 2 ^ k → bit_and (q * 2 ^ k + r) (2 ^ k - 1) ≡ r
bit_and-ones_sum zero q r h =
    ground (arith, bit_and-nothing (q * 2 ^ 0 + r) (q * 2 ^ 0 + r) (omega arith))
bit_and-ones_sum (suc k) q r h = ground (
  arith,
  bit_and-halves (q * 2 ^ suc k + r) (2 ^ suc k - 1),
  double-pow k q,
  pow-suc 2 k,
  one-le-pow k 2,
  bit_and-ones_sum k q (r / 2),
)

bit_and-shifted_sum :
    (k q r m : ℕ) → r < 2 ^ k → bit_and (q * 2 ^ k + r) (m * 2 ^ k) ≡ bit_and q m * 2 ^ k
bit_and-shifted_sum zero q r m h = let e : r ≡ 0 = omega arith in ground arith
bit_and-shifted_sum (suc k) q r m h = ground (
  arith,
  bit_and-halves (q * 2 ^ suc k + r) (m * 2 ^ suc k),
  double-pow k q,
  double-pow k m,
  double-pow k (bit_and q m),
  pow-suc 2 k,
  bit_and-shifted_sum k q (r / 2) m,
)

-- `x & ((1 << k) - 1)` keeps the low `k` bits.
pub bit_and-ones : (k x : ℕ) → bit_and x (2 ^ k - 1) ≡ x % 2 ^ k
bit_and-ones k x = ground (arith, one-le-pow k 2, bit_and-ones_sum k (x / 2 ^ k) (x % 2 ^ k))

-- A mask whose low `k` bits are clear is a mask of the shifted value.
pub bit_and-shifted : (k x m : ℕ) → bit_and x (m * 2 ^ k) ≡ bit_and (x / 2 ^ k) m * 2 ^ k
bit_and-shifted k x m =
    ground (arith, one-le-pow k 2, bit_and-shifted_sum k (x / 2 ^ k) (x % 2 ^ k) m)

bit_or-sum : (k q r : ℕ) → r < 2 ^ k → bit_or (q * 2 ^ k) r ≡ q * 2 ^ k + r
bit_or-sum zero q r h = ground (arith, bit_or-nothing q q)
bit_or-sum (suc k) q r h =
    ground
      (arith, bit_or-halves (q * 2 ^ suc k) r, double-pow k q, pow-suc 2 k, bit_or-sum k q (r / 2))

bit_or-sum_swapped : (k q r : ℕ) → r < 2 ^ k → bit_or r (q * 2 ^ k) ≡ q * 2 ^ k + r
bit_or-sum_swapped zero q r h =
    let e : r ≡ 0 = omega arith in ground (arith, bit_or-bitwise 0 (q * 2 ^ 0))
bit_or-sum_swapped (suc k) q r h = ground (
  arith,
  bit_or-halves r (q * 2 ^ suc k),
  double-pow k q,
  pow-suc 2 k,
  bit_or-sum_swapped k q (r / 2),
)

-- A field below bit `k` joins a value whose low `k` bits are clear.
pub bit_or-below : (k x r : ℕ) → x % 2 ^ k ≡ 0 → r < 2 ^ k → bit_or x r ≡ x + r
bit_or-below k x r clear h = ground (arith, bit_or-sum k (x / 2 ^ k) r)

pub bit_or-above : (k x r : ℕ) → x % 2 ^ k ≡ 0 → r < 2 ^ k → bit_or r x ≡ x + r
bit_or-above k x r clear h = ground (arith, bit_or-sum_swapped k (x / 2 ^ k) r)

-- One more field above the ones that are there.
pub bit_or-field :
    (k d acc : ℕ) {s : ℕ} → acc ≡ s → s < 2 ^ k → bit_or acc (d * 2 ^ k) ≡ s + d * 2 ^ k
bit_or-field k d acc {s} e h =
    ap (λ a. bit_or a (d * 2 ^ k)) e
    ∙ bit_or-above k (d * 2 ^ k) s (mul-mod_left d (2 ^ k)) h
    ∙ omega arith

bit_or-shifted_sum :
    (k p q r : ℕ) → r < 2 ^ k → bit_or (p * 2 ^ k) (q * 2 ^ k + r) ≡ bit_or p q * 2 ^ k + r
bit_or-shifted_sum zero p q r h = let e : r ≡ 0 = omega arith in ground arith
bit_or-shifted_sum (suc k) p q r h = ground (
  arith,
  bit_or-halves (p * 2 ^ suc k) (q * 2 ^ suc k + r),
  double-pow k p,
  double-pow k q,
  double-pow k (bit_or p q),
  pow-suc 2 k,
  bit_or-shifted_sum k p q (r / 2),
)

bit_or-one : (q : ℕ) → bit_or 1 q ≡ q + (1 - q % 2)
bit_or-one q = ground (arith, bit_or-halves 1 q, bit_or-bitwise 0 (q / 2))

-- Setting bit `k` sets it, and no other.
pub bit_or-bit : (k x : ℕ) → bit_or (2 ^ k) x ≡ x + (1 - x / 2 ^ k % 2) * 2 ^ k
bit_or-bit k x =
    let q = x / 2 ^ k in
    let sum : bit_or (1 * 2 ^ k) (q * 2 ^ k + x % 2 ^ k) ≡ bit_or 1 q * 2 ^ k + x % 2 ^ k =
      ground (arith, one-le-pow k 2, bit_or-shifted_sum k 1 q (x % 2 ^ k)) in
    let one : bit_or 1 q * 2 ^ k ≡ (q + (1 - q % 2)) * 2 ^ k = ap (λ t. t * 2 ^ k) (bit_or-one q) in
    let whole : q * 2 ^ k + x % 2 ^ k ≡ x = ground (arith, one-le-pow k 2) in
    let unit : 1 * 2 ^ k ≡ 2 ^ k = omega arith in
    ap (λ t. bit_or t x) (omega arith)
    ∙ ap (λ t. bit_or (1 * 2 ^ k) t) (omega (arith, whole))
    ∙ sum
    ∙ omega (arith, one, whole)
