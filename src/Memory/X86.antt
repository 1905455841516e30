-- ===== src/Memory/X86.antt =====
-- The crate `x86_64`, as a parameter: addresses, pages, frames and the page tables behind a mapper.
-- Addresses are numbers, and a page or a frame is the address that it starts at.
use nocciolo.Base.{
  List, [], ◌∷◌, zero, ℕ, suc, ◌+◌, ◌-◌, ◌*◌, ◌/◌, ◌%◌, ◌^◌, ◌≤◌, ◌<◌, ◌≡◌, ◌≢◌, Outcome, ok,
  Option, none, some,
}

-- So many pages, from one on.
abbrev pub pages_from : ℕ → ℕ → List ℕ
pages_from zero page = []
pages_from (suc count) page = page ∷ pages_from count (page + 4096)

pub record X86 : Type 1 where
  pub Mapper : Type 0
  -- `PhysAddr::new`, `align_down(4096)`, `align_up(4096)` `+` and `-`.
  pub phys_new : ℕ → Outcome ℕ
  pub phys_align_down : ℕ → ℕ
  pub phys_align_up : ℕ → Outcome ℕ
  pub phys_add : ℕ → ℕ → Outcome ℕ
  pub phys_sub : ℕ → ℕ → Outcome ℕ
  -- `VirtAddr::new` and `+`.
  pub virt_new : ℕ → Outcome ℕ
  pub virt_add : ℕ → ℕ → Outcome ℕ
  -- `PhysFrame::containing_address`, `Page::containing_address` and `Page::from_start_address`.
  pub frame_containing : ℕ → ℕ
  pub page_containing : ℕ → ℕ
  pub page_from_start : ℕ → Option ℕ
  -- The pages that `Page::range_inclusive` yields.
  pub range_inclusive : ℕ → ℕ → List ℕ
  -- `map_to`, which asks a frame allocator for the frames of new page tables, and `unmap`; `none` is an
  -- error.
  pub map_to :
      {A : Type 0} → (A → Outcome (Option ℕ × A)) → Mapper → A → ℕ → ℕ → Outcome (Option Mapper × A)
  pub unmap : Mapper → ℕ → Option Mapper

-- The documented behaviour of addresses that stay within the address space.
pub record IsX86 (X : X86) : Type 0 where
  pub phys_new-low : (a : ℕ) → a < 2 ^ 52 → X.phys_new a ≡ ok a
  pub phys_align_down-low : (a : ℕ) → X.phys_align_down a ≡ a - a % 4096
  pub phys_align_up-low :
      (a : ℕ) → a + 4096 ≤ 2 ^ 52 → X.phys_align_up a ≡ ok ((a + 4095) / 4096 * 4096)
  pub phys_add-low : (a n : ℕ) → a + n < 2 ^ 52 → X.phys_add a n ≡ ok (a + n)
  pub phys_sub-le : (a b : ℕ) → b ≤ a → X.phys_sub a b ≡ ok (a - b)
  pub virt_new-low : (a : ℕ) → a < 2 ^ 47 → X.virt_new a ≡ ok a
  pub virt_add-low : (a n : ℕ) → a + n < 2 ^ 47 → X.virt_add a n ≡ ok (a + n)
  pub frame_containing-low : (a : ℕ) → X.frame_containing a ≡ a - a % 4096
  pub page_containing-low : (a : ℕ) → X.page_containing a ≡ a - a % 4096
  pub range_inclusive-pages :
      (a count : ℕ)
      → a % 4096 ≡ 0
      → X.range_inclusive a (a + count * 4096) ≡ pages_from (suc count) a
  pub page_from_start-aligned : (a : ℕ) → a % 4096 ≡ 0 → X.page_from_start a ≡ some a

-- An allocator with at least `n` frames left: it yields one and has one fewer.
pub record IsSupply {A : Type 0} (alloc : A → Outcome (Option ℕ × A)) (Left : ℕ → A → Type 0)
    : Type 0 where
  pub fewer : (n : ℕ) (a : A) → Left (suc n) a → Left n a
  pub yields :
      (n : ℕ) (a : A)
      → Left (suc n) a
      → (f : ℕ) × (a' : A) × (alloc a ≡ ok (some f, a')) × Left n a'

-- The documented behaviour of the page tables: a page that is not mapped can be, with at most three
-- new tables, and a page that is mapped can be unmapped; no other page changes.
pub record IsPaging (X : X86) : Type 1 where
  pub translate : X.Mapper → ℕ → Option ℕ
  pub map_to-new :
      {A : Type 0} (alloc : A → Outcome (Option ℕ × A)) (Left : ℕ → A → Type 0) (n : ℕ)
      (m : X.Mapper) (a : A) (page frame : ℕ)
      → IsSupply alloc Left
      → Left (3 + n) a
      → translate m page ≡ none
      → (m' : X.Mapper) × (a' : A) × (X.map_to alloc m a page frame ≡ ok (some m', a'))
        × Left n a'
        × (translate m' page ≡ some frame)
        × ((q : ℕ) → q ≢ page → translate m' q ≡ translate m q)
  pub unmap-mapped :
      (m : X.Mapper) (page frame : ℕ)
      → translate m page ≡ some frame
      → (m' : X.Mapper) × (X.unmap m page ≡ some m')
        × (translate m' page ≡ none)
        × ((q : ℕ) → q ≢ page → translate m' q ≡ translate m q)
