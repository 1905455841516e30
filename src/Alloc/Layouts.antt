-- ===== src/Alloc/Layouts.antt =====
-- The `Layout` of Rust's core library, with which the allocators of kernel/src/allocator are called.
use nocciolo.Base.{
  ℕ, ◌+◌, ◌-◌, ◌*◌, ◌/◌, ◌^◌, ◌≤◌, ◌<◌, ◌≡◌, max, Outcome, ok, panic, leb, if◌then◌else◌, arith,
  Bool, not, ◌&&◌, ◌==◌, bit_and, Option, none, some,
}
use native.Mathlib.Nat.{one-le-pow}

-- The null pointer that an allocator returns when it has no block.
abbrev pub null : ℕ
null = 0

pub record Layout : Type 0 where
  pub size : ℕ
  pub align : ℕ

-- What Rust promises of a `Layout`: the alignment is a power of two, and the size rounded up to it
-- fits `isize`.
pub record IsLayout (l : Layout) : Type 0 where
  pub log : ℕ
  pub power : l.align ≡ 2 ^ log
  pub fits : l.size + l.align ≤ 2 ^ 63

-- `Layout::align_to(align).expect(..)`: at least the given alignment, if the size still fits.
unfoldable pub align_to : Layout → ℕ → Outcome Layout
align_to l align =
    let larger = max l.align align in
    if leb (l.size + larger) (2 ^ 63) then ok (record l { align = larger }) else panic

-- `Layout::pad_to_align`: the size, rounded up to the alignment.
unfoldable pub pad_to_align : Layout → Layout
pad_to_align l = record l { size = (l.size + l.align - 1) / l.align * l.align }

pub align_pos : {l : Layout} → IsLayout l → 0 < l.align
align_pos v = omega (arith, v.power, one-le-pow v.log 2)

-- `usize::is_power_of_two`: one bit is set.
pub is_power_of_two : ℕ → Bool
is_power_of_two n = not (n == 0) && bit_and n (n - 1) == 0

-- `Layout::from_size_align`.
unfoldable pub from_size_align : ℕ → ℕ → Option Layout
unfolding is_power_of_two
from_size_align size align =
    if is_power_of_two align && leb (size + align) (2 ^ 63)
    then some (record { size = size; align = align })
    else none
