-- ===== src/Alloc/Align.antt =====
-- kernel/src/allocator.rs, `align_up`: alignment, which every allocator uses. Addresses are 64-bit.
use native.Mathlib.Nat.{mod-lt}
use nocciolo.Base.{
  ℕ, ◌+◌, ◌-◌, ◌%◌, ◌^◌, ◌≤◌, ◌<◌, ◌≡◌, Outcome, ok, panic, ◌>>=◌, add_in, sub_in, ◌==◌,
  if◌then◌else◌, arith, round-mod, round-least,
}

-- Align the given address `addr` upwards to alignment `align`. `%` by zero panics.
unfoldable pub align_up : ℕ → ℕ → Outcome ℕ
align_up addr align =
    if align == 0
    then panic
    else let remainder = addr % align in
      if remainder == 0 then ok addr else do down ← sub_in addr remainder; add_in 64 down align

-- Whatever align_up returns is the least multiple of the alignment that is not below the address,
-- and less than one alignment above it.
pub align_up-least :
    (addr align : ℕ) {a : ℕ}
    → align_up addr align ≡ ok a
    → (a % align ≡ 0)
      × (addr ≤ a)
      × (a < addr + align)
      × ((m : ℕ) → addr ≤ m → m % align ≡ 0 → a ≤ m)
unfolding align_up
align_up-least addr align {a} h = (
  ground (arith, round-mod addr align),
  grind (arith, mod-lt),
  grind (arith, mod-lt),
  λ m le e. ground (arith, round-least addr align m),
)

-- Align_up returns for every positive alignment and every address that is at least one alignment
-- below the end of the address space.
pub align_up_total :
    (addr align : ℕ) → 0 < align → addr + align ≤ 2 ^ 64 → (a : ℕ) × (align_up addr align ≡ ok a)
unfolding align_up
align_up_total addr align pos room =
    (if addr % align == 0 then addr else addr - addr % align + align, grind (arith, mod-lt))

-- An aligned address stays where it is.
pub align_up-eq_self :
    (addr align : ℕ) → 0 < align → addr % align ≡ 0 → align_up addr align ≡ ok addr
unfolding align_up
align_up-eq_self addr align pos h = ground arith
