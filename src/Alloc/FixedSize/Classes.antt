-- ===== src/Alloc/FixedSize/Classes.antt =====
-- The size classes of fixed_size_block.rs: which list serves a layout, and why its blocks suit it.
use Prim.Native.Nat.add
use Prim.Native.Nat.{◌∣◌}
use native.Mathlib.Nat.{
  dvd_of_mod-eq-zero, mod-eq-zero_of_dvd, dvd_refl, dvd_trans, dvd-mul_right_of_dvd, pow-suc,
  one-le-pow,
}
use nocciolo.Base.{
  ℕ, zero, suc, ◌+◌, ◌-◌, ◌*◌, ◌%◌, ◌^◌, ◌≤◌, ◌<◌, ◌≡◌, refl, max, Option, none, some, List, [],
  ◌∷◌, get_elem?, arith, Bool-cases, leb, ltb, inl, inr,
}
use nocciolo.Alloc.Layouts.{Layout, IsLayout}
use nocciolo.Alloc.FixedSize.{block_sizes, list_index, position}

-- `i` is the first index whose block size is at least `n`.
abbrev pub IsFirst : List ℕ → ℕ → ℕ → Type 0
IsFirst sizes n i =
    ((b : ℕ) × (get_elem? sizes i ≡ some b) × (n ≤ b))
    × ((j b : ℕ) → j < i → get_elem? sizes j ≡ some b → b < n)

abbrev pub Positioned : List ℕ → ℕ → Option ℕ → Type 0
Positioned sizes n (some i) = IsFirst sizes n i
Positioned sizes n none = (j b : ℕ) → get_elem? sizes j ≡ some b → b < n

later-Positioned :
    (s : ℕ) (rest : List ℕ) (n : ℕ) (o : Option ℕ)
    → s < n
    → Positioned rest n o
    → Positioned (s ∷ rest) n (elim o [ some i ↦ some (suc i) | none ↦ none ])
later-Positioned s rest n none miss p = λ j b h. after-head j b h
  where
    after-head : (j b : ℕ) → get_elem? (s ∷ rest) j ≡ some b → b < n
    after-head zero b h = ground arith
    after-head (suc j) b h = p j b h
later-Positioned s rest n (some i) miss p = (p.0, after-head)
  where
    after-head : (j b : ℕ) → j < suc i → get_elem? (s ∷ rest) j ≡ some b → b < n
    after-head zero b lt h = ground arith
    after-head (suc j) b lt h = p.1 j b (omega arith) h

position-Positioned : (sizes : List ℕ) (n : ℕ) → Positioned sizes n (position sizes n)
unfolding position
position-Positioned [] n = λ j b h. cc
position-Positioned (s ∷ rest) n = elim (Bool-cases (leb n s)) [
  | inl fits ↦ rw fits ((s, refl, ground arith), λ j b lt h. absurd (omega arith))
  | inr small ↦
      rw small
        (later-Positioned s rest n (position rest n) (ground arith) (position-Positioned rest n))
]

-- The class of a layout is the first block size that is at least its size and its alignment, and a
-- layout has no class only when every block size is too small.
pub list_index-Positioned :
    (l : Layout) → Positioned block_sizes (max l.size l.align) (list_index l)
unfolding list_index
list_index-Positioned l = position-Positioned block_sizes (max l.size l.align)

-- Each block size is a power of two from 8 on.
pub block_sizes-pow : (i : ℕ) {b : ℕ} → get_elem? block_sizes i ≡ some b → b ≡ 2 ^ (i + 3)
block_sizes-pow zero h = ground arith
block_sizes-pow (suc zero) h = ground arith
block_sizes-pow (suc (suc zero)) h = ground arith
block_sizes-pow (suc (suc (suc zero))) h = ground arith
block_sizes-pow (suc (suc (suc (suc zero)))) h = ground arith
block_sizes-pow (suc (suc (suc (suc (suc zero))))) h = ground arith
block_sizes-pow (suc (suc (suc (suc (suc (suc zero)))))) h = ground arith
block_sizes-pow (suc (suc (suc (suc (suc (suc (suc zero))))))) h = ground arith
block_sizes-pow (suc (suc (suc (suc (suc (suc (suc (suc zero)))))))) h = ground arith
block_sizes-pow (suc (suc (suc (suc (suc (suc (suc (suc (suc i))))))))) h = cc

pow-dvd : (d k : ℕ) → 2 ^ k ∣ 2 ^ (d + k)
pow-dvd zero k = rw add.zero (dvd_refl (2 ^ k))
pow-dvd (suc d) k =
    rw (add.suc d k, pow-suc 2 (d + k)) (dvd-mul_right_of_dvd (2 ^ k) (pow-dvd d k) 2)

pow_mono : (j k : ℕ) → j < k → 2 * 2 ^ j ≤ 2 ^ k
pow_mono j zero h = absurd (omega arith)
pow_mono j (suc k) h = elim (Bool-cases (ltb j k)) [
  | inl lt ↦ omega (arith, pow_mono j k (ground arith), pow-suc 2 k)
  | inr ge ↦ let e : j ≡ k = ground arith in rw e (omega (arith, pow-suc 2 k))
]

log-le : (j k : ℕ) → 2 ^ j ≤ 2 ^ k → j ≤ k
log-le j k h = elim (Bool-cases (ltb k j)) [
  | inl lt ↦ absurd (omega (arith, pow_mono k j (ground arith), one-le-pow k 2))
  | inr ge ↦ ground arith
]

-- A block of the class of a valid layout is large enough for it, and an address that is a multiple
-- of the block size is aligned for it.
pub class_suits :
    (l : Layout) (i b p : ℕ)
    → IsLayout l
    → list_index l ≡ some i
    → get_elem? block_sizes i ≡ some b
    → p % b ≡ 0
    → (l.size ≤ b) × (p % l.align ≡ 0)
class_suits l i b p v h e aligned =
    let place = rw h at (list_index-Positioned l) in
    let big : max l.size l.align ≤ b = ground (arith, place.0.1, place.0.2) in
    let pow = block_sizes-pow i e in
    let log : v.log ≤ i + 3 = log-le v.log (i + 3) (omega (arith, pow, v.power)) in
    let same : i + 3 - v.log + v.log ≡ i + 3 = omega arith in
    let multiple : l.align ∣ b = rw (v.power, pow) (rw same at (pow-dvd (i + 3 - v.log) v.log)) in
    (
      omega arith,
      mod-eq-zero_of_dvd l.align (dvd_trans l.align multiple (dvd_of_mod-eq-zero b aligned)),
    )
