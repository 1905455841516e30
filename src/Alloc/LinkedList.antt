-- ===== src/Alloc/LinkedList.antt =====
-- kernel/src/allocator/linked_list.rs: a first-fit allocator whose free regions hold the list that
-- threads them. A node's `next` is an owned reference, so the chain from `head` is a list: each
-- region stands with its address (`self as *const Self`) and the size written at it.
mod Examples
pub mod Regions
pub mod Carve
pub mod Sizes
pub mod Calls
pub mod Histories
use nocciolo.Base.{
  ℕ, ◌+◌, ◌^◌, ◌≡◌, max, Outcome, ok, ◌>>=◌, ◌>>◌, assert, unwrap, add_in, sub_in, checked_add, ltb,
  leb, ◌==◌, ◌&&◌, if◌then◌else◌, Option, none, some, List, [], ◌∷◌,
}
use nocciolo.Alloc.Align.{align_up}
use nocciolo.Alloc.Layouts.{Layout, null, align_to, pad_to_align}

pub record ListNode : Type 0 where
  pub start_addr : ℕ
  pub size : ℕ

-- `size_of` and `align_of` a `ListNode`: a `usize` and an optional reference.
abbrev pub node_size : ℕ
node_size = 16

abbrev pub node_align : ℕ
node_align = 8

pub end_addr : ListNode → Outcome ℕ
end_addr n = add_in 64 n.start_addr n.size

-- The regions behind `head`, which itself has size 0 and is never given away.
pub record LinkedListAllocator : Type 0 where
  pub free : List ListNode

pub new : LinkedListAllocator
new = record { free = [] }

pub add_free_region : LinkedListAllocator → ℕ → ℕ → Outcome LinkedListAllocator
add_free_region a addr size = do
  aligned ← align_up addr node_align
  assert (aligned == addr)
  assert (leb node_size size)
  ok (record { free = record { start_addr = addr; size = size } ∷ a.free })

pub init : LinkedListAllocator → ℕ → ℕ → Outcome LinkedListAllocator
unfolding add_free_region
init a heap_start heap_size = add_free_region a heap_start heap_size

-- The start of the allocation; `none` is the source's `Err(())`.
pub alloc_from_region : ListNode → ℕ → ℕ → Outcome (Option ℕ)
unfolding end_addr
alloc_from_region region size align = do
  alloc_start ← align_up region.start_addr align
  elim (checked_add alloc_start size) [
    | none ↦ ok none
    | some alloc_end ↦ do
      region_end ← end_addr region
      if ltb region_end alloc_end then ok none else do
        excess ← sub_in region_end alloc_end
        ok (if ltb 0 excess && ltb excess node_size then none else some alloc_start)
  ]

-- What `find_region` hands back, with the list that it leaves.
pub record Found : Type 0 where
  pub region : ListNode
  pub alloc_start : ℕ
  pub left : List ListNode

pub find_region : List ListNode → ℕ → ℕ → Outcome (Option Found)
find_region [] size align = ok none
find_region (r ∷ rs) size align = do
  fit ← alloc_from_region r size align
  elim fit [
    | some start ↦ ok (some (record { region = r; alloc_start = start; left = rs }))
    | none ↦ do
      later ← find_region rs size align
      ok (elim later [ some f ↦ some (record f { left = r ∷ f.left }) | none ↦ none ])
  ]

-- Room for a `ListNode` in every block.
pub size_align : Layout → Outcome (ℕ × ℕ)
unfolding align_to pad_to_align
size_align l = do
  aligned ← align_to l node_align
  let padded = pad_to_align aligned
  ok (max padded.size node_size, padded.align)

-- `alloc`, once the layout is adjusted.
pub alloc_adjusted : LinkedListAllocator → ℕ → ℕ → Outcome (ℕ × LinkedListAllocator)
alloc_adjusted a size align = do
  found ← find_region a.free size align
  elim found [
    | none ↦ ok (null, a)
    | some f ↦ do
      alloc_end ← unwrap (checked_add f.alloc_start size)
      region_end ← end_addr f.region
      excess ← sub_in region_end alloc_end
      a' ←
          (if ltb 0 excess
            then add_free_region (record { free = f.left }) alloc_end excess
            else ok (record { free = f.left }))
      ok (f.alloc_start, a')
  ]

pub alloc : LinkedListAllocator → Layout → Outcome (ℕ × LinkedListAllocator)
unfolding alloc_adjusted size_align
alloc a l = do (size, align) ← size_align l; alloc_adjusted a size align

pub dealloc : LinkedListAllocator → ℕ → Layout → Outcome LinkedListAllocator
unfolding size_align add_free_region
dealloc a ptr l = do (size, _) ← size_align l; add_free_region a ptr size
