-- ===== src/Alloc/FixedSize.antt =====
-- kernel/src/allocator/fixed_size_block.rs, the kernel's global allocator: nine lists of free blocks,
-- one for each size, above a fallback heap of the crate `linked_list_allocator`, which is a parameter.
-- A list of blocks is threaded through the blocks themselves by owned references, so it is the list
-- of their addresses, the one that is given out next first.
mod Examples
pub mod Classes
pub mod Blocks
use nocciolo.Base.{
  ℕ, zero, suc, ◌+◌, ◌-◌, ◌^◌, ◌≡◌, ◌≤◌, max, bit_and, Outcome, ok, panic, ◌>>=◌, ◌>>◌, assert,
  unwrap, leb, ltb, ◌==◌, not, if◌then◌else◌, Option, none, some, List, [], ◌∷◌, get_elem?, set,
  length, replicate,
}
use nocciolo.Alloc.Layouts.{Layout, null, from_size_align}

-- The sizes must each be a power of 2 because they are also used as the block alignment.
abbrev pub block_sizes : List ℕ
block_sizes = 8 ∷ 16 ∷ 32 ∷ 64 ∷ 128 ∷ 256 ∷ 512 ∷ 1024 ∷ 2048 ∷ []

-- `size_of` and `align_of` a `ListNode`: one optional reference.
abbrev pub node_size : ℕ
node_size = 8

-- The fallback heap: `linked_list_allocator::Heap`.
pub record Fallback : Type 1 where
  pub Heap : Type 0
  pub empty : Heap
  pub init : Heap → ℕ → ℕ → Heap
  pub allocate_first_fit : Heap → Layout → Option ℕ × Heap
  pub deallocate : Heap → ℕ → Layout → Heap

-- The index of the first entry that is at least `n`: `iter().position(|&s| s >= n)`.
position : List ℕ → ℕ → Option ℕ
position [] n = none
position (s ∷ rest) n =
    let later = position rest n in
    if leb n s then some 0 else elim later [ some i ↦ some (suc i) | none ↦ none ]

-- The index of the block size for a layout.
pub list_index : Layout → Option ℕ
unfolding position
list_index l = position block_sizes (max l.size l.align)

module _ (F : Fallback) where
  open F use {Heap, empty, allocate_first_fit, deallocate}

  pub record FixedSizeBlockAllocator : Type 0 where
    pub list_heads : List (List ℕ)
    pub fallback_allocator : Heap

  pub new : FixedSizeBlockAllocator
  new = record { list_heads = replicate (length block_sizes) []; fallback_allocator = empty }

  pub init : FixedSizeBlockAllocator → ℕ → ℕ → FixedSizeBlockAllocator
  init a start size = record a { fallback_allocator = F.init a.fallback_allocator start size }

  -- The report of an exhausted heap goes to the serial port and changes nothing here.
  pub fallback_alloc : FixedSizeBlockAllocator → Layout → ℕ × FixedSizeBlockAllocator
  fallback_alloc a l =
      let (found, heap) = allocate_first_fit a.fallback_allocator l in
      let after = record a { fallback_allocator = heap } in
      elim found [ some ptr ↦ (ptr, after) | none ↦ (null, after) ]

  -- `alloc`, once the size class is known.
  pub alloc_class : FixedSizeBlockAllocator → ℕ → Outcome (ℕ × FixedSizeBlockAllocator)
  alloc_class a index = do
    head ← unwrap (get_elem? a.list_heads index)
    elim head [
      | node ∷ next ↦ ok (node, record a { list_heads = set a.list_heads index next })
      | [] ↦ do
        block_size ← unwrap (get_elem? block_sizes index)
        layout ← unwrap (from_size_align block_size block_size)
        ok (fallback_alloc a layout)
    ]

  pub alloc : FixedSizeBlockAllocator → Layout → Outcome (ℕ × FixedSizeBlockAllocator)
  alloc a l = elim (list_index l) [
    | some index ↦ alloc_class a index
    | none ↦ ok (fallback_alloc a l)
  ]

  -- `dealloc`, once the size class is known.
  pub dealloc_class : FixedSizeBlockAllocator → ℕ → ℕ → Outcome FixedSizeBlockAllocator
  dealloc_class a ptr index = do
    next ← unwrap (get_elem? a.list_heads index)
    block_size ← unwrap (get_elem? block_sizes index)
    assert (leb node_size block_size)
    ok (record a { list_heads = set a.list_heads index (ptr ∷ next) })

  pub dealloc : FixedSizeBlockAllocator → ℕ → Layout → Outcome FixedSizeBlockAllocator
  dealloc a ptr l = elim (list_index l) [
    | some index ↦ dealloc_class a ptr index
    | none ↦ do
      assert (not (ptr == null))
      ok (record a { fallback_allocator = deallocate a.fallback_allocator ptr l })
  ]
