-- ===== src/Base/Panics.antt =====
-- Code that can panic. The kernel is built with overflow checks and debug assertions (the dev
-- profile of Cargo, which the repository's manifests leave as it is), so `+`, `-` and a narrowing
-- product panic where the exact result does not fit, and `assert!`, `unwrap` and `expect` panic.
use Prim.Native.Nat.{ℕ, ◌+◌, ◌-◌, ◌*◌, ◌%◌, ◌^◌}
use mathlib.Core.Path.{◌≡◌, refl}
use mathlib.Core.Logic.{◌≢◌}
use mathlib.Core.Bool.{Bool, true, false}
use mathlib.Core.Option.{Option, none, some}
use nocciolo.Base.Tests.{ltb, leb, if◌then◌else◌}

pub data Outcome {ℓ} (A : Type ℓ) : Type ℓ where
  ok : A → Outcome A
  panic : Outcome A

infixl 5 ◌>>=◌ ◌>>◌
abbrev pub ◌>>=◌ {ℓ κ} : {A : Type ℓ} {B : Type κ} → Outcome A → (A → Outcome B) → Outcome B
ok a >>= f = f a
panic >>= f = panic

abbrev pub ◌>>◌ {ℓ} : {B : Type ℓ} → Outcome (Unit {0}) → Outcome B → Outcome B
m >> k = m >>= λ _. k

-- `assert!` and `debug_assert!`.
abbrev pub assert : Bool → Outcome (Unit {0})
assert true = ok tt
assert false = panic

-- `unwrap` and `expect`.
abbrev pub unwrap {ℓ} : {A : Type ℓ} → Option A → Outcome A
unwrap (some a) = ok a
unwrap none = panic

-- Addition and subtraction of `w`-bit integers, with the overflow check.
abbrev pub add_in : ℕ → ℕ → ℕ → Outcome ℕ
add_in w a b = if ltb (a + b) (2 ^ w) then ok (a + b) else panic

abbrev pub sub_in : ℕ → ℕ → Outcome ℕ
sub_in a b = if leb b a then ok (a - b) else panic

abbrev pub mul_in : ℕ → ℕ → ℕ → Outcome ℕ
mul_in w a b = if ltb (a * b) (2 ^ w) then ok (a * b) else panic

-- `usize::checked_add`, on a 64-bit target.
abbrev pub checked_add : ℕ → ℕ → Option ℕ
checked_add a b = if ltb (a + b) (2 ^ 64) then some (a + b) else none

-- A `w`-bit `as` cast.
abbrev pub cast : ℕ → ℕ → ℕ
cast w n = n % 2 ^ w

-- A run that does not panic has a result.
pub ok_of_ne-panic {ℓ} : {A : Type ℓ} (m : Outcome A) → m ≢ panic → (a : A) × (m ≡ ok a)
ok_of_ne-panic (ok a) h = (a, refl)
ok_of_ne-panic panic h = absurd (h refl)

-- Inversion of a run that returned.
pub >>=-eq-ok {ℓ κ} :
    {A : Type ℓ} {B : Type κ} (first : Outcome A) (rest : A → Outcome B) {result : B}
    → (first >>= rest) ≡ ok result
    → (between : A) × (first ≡ ok between) × (rest between ≡ ok result)
>>=-eq-ok panic rest returned = cc
>>=-eq-ok (ok between) rest returned = (between, refl, returned)

pub ok-pair {ℓ κ} :
    {A : Type ℓ} {B : Type κ} {a c : A} {b d : B}
    → ◌≡◌ {A = Outcome (A × B)} (ok (a, b)) (ok (c, d))
    → (a ≡ c) × (b ≡ d)
ok-pair same = (cc, cc)
