-- ===== src/Alloc/LinkedList/Sizes.antt =====
-- `size_align` of linked_list.rs: the size and alignment that a block really gets.
use native.Mathlib.Nat.{
  mod-mod_of_dvd, dvd_of_mod-eq-zero, one-le-pow, mul-mod_left, mod-lt, mod_self, pow-suc, zero-mod,
}
use nocciolo.Base.{
  ℕ, zero, suc, ◌+◌, ◌-◌, ◌*◌, ◌/◌, ◌%◌, ◌^◌, ◌≤◌, ◌<◌, ◌≡◌, ap, max, ok, arith, max_eight-mod,
}
use nocciolo.Alloc.Layouts.{Layout, IsLayout}
use nocciolo.Alloc.LinkedList.{node_size, node_align, size_align}

-- The adjusted alignment, and the bytes that a block of the layout takes.
abbrev pub block_align : Layout → ℕ
block_align l = max l.align node_align

abbrev pub block_size : Layout → ℕ
block_size l = max ((l.size + block_align l - 1) / block_align l * block_align l) node_size

round_up-le : (n d : ℕ) → 0 < d → n ≤ (n + d - 1) / d * d
round_up-le n d pos = grind (arith, mod-lt (n + d - 1) pos)

max_eight-multiple : (k : ℕ) → max (2 ^ k) 8 % 2 ^ k ≡ 0
max_eight-multiple zero = omega arith
max_eight-multiple (suc zero) = omega arith
max_eight-multiple (suc (suc zero)) = omega arith
max_eight-multiple (suc (suc (suc k))) = ground (
  arith,
  pow-suc 2 (suc (suc k)),
  pow-suc 2 (suc k),
  pow-suc 2 k,
  one-le-pow k 2,
  mod_self (2 ^ suc (suc (suc k))),
)

module _ (l : Layout) (v : IsLayout l) where
  pub block_align-multiple : block_align l % 8 ≡ 0
  block_align-multiple = rw v.power (max_eight-mod v.log)

  pub block_size-multiple : block_size l % 8 ≡ 0
  block_size-multiple =
      let n = (l.size + block_align l - 1) / block_align l in
      let padded : (n * block_align l) % 8 ≡ 0 = omega (
        arith,
        mod-mod_of_dvd 8 (n * block_align l) (dvd_of_mod-eq-zero 8 block_align-multiple),
        ap (λ (t : ℕ). t % 8) (mul-mod_left n (block_align l)),
      ) in
      ground arith

  pub size-le-block_size : l.size ≤ block_size l
  size-le-block_size = omega (arith, round_up-le l.size (block_align l) (omega arith))

  -- An address that suits the block suits the layout.
  pub aligned_of_block : (p : ℕ) → p % block_align l ≡ 0 → p % l.align ≡ 0
  aligned_of_block p h =
      let multiple : block_align l % l.align ≡ 0 = rw v.power (max_eight-multiple v.log) in
      omega (
        arith,
        mod-mod_of_dvd l.align p (dvd_of_mod-eq-zero l.align multiple),
        ap (λ (t : ℕ). t % l.align) h,
        zero-mod l.align,
      )

  -- The adjustment fails only for layouts within 8 bytes of the largest.
  pub size_align_lem : l.size + 8 ≤ 2 ^ 63 → size_align l ≡ ok (block_size l, block_align l)
  unfolding size_align
  size_align_lem room = ground (arith, v.fits)
