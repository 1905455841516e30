-- ===== src/Alloc/Ranges.antt =====
-- Ranges of addresses, by which the allocators' promises are stated: `(a, n)` is `a .. a + n`.
use nocciolo.Base.{ℕ, ◌+◌, ◌≤◌, ◌⊎◌, arith}

abbrev pub Range : Type 0
Range = ℕ × ℕ

-- The two ranges share no address.
abbrev pub Apart : Range → Range → Type 0
Apart r s = (r.0 + r.1 ≤ s.0) ⊎ (s.0 + s.1 ≤ r.0)

abbrev pub Inside : Range → Range → Type 0
Inside r s = (s.0 ≤ r.0) × (r.0 + r.1 ≤ s.0 + s.1)

pub Apart-sym : (r s : Range) → Apart r s → Apart s r
Apart-sym r s h = omega arith

pub Apart-Inside : (q r s : Range) → Inside s r → Apart q r → Apart q s
Apart-Inside q r s i h = omega arith
