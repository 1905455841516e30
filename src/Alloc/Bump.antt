-- ===== src/Alloc/Bump.antt =====
-- kernel/src/allocator/bump.rs: the allocator that moves one pointer up. The `Locked` wrapper gives
-- each call the state to itself.
pub mod Blocks
use nocciolo.Base.{
  ℕ, ◌+◌, ◌≤◌, ◌<◌, ◌≡◌, ◌^◌, Outcome, ok, ◌>>=◌, add_in, sub_in, checked_add, ltb, ◌==◌,
  if◌then◌else◌, none, some,
}
use nocciolo.Alloc.Align.{align_up}
use nocciolo.Alloc.Layouts.{Layout, null}

pub record BumpAllocator : Type 0 where
  pub heap_start : ℕ
  pub heap_end : ℕ
  pub next : ℕ
  pub allocations : ℕ

pub new : BumpAllocator
new = record { heap_start = 0; heap_end = 0; next = 0; allocations = 0 }

pub init : BumpAllocator → ℕ → ℕ → Outcome BumpAllocator
init bump start size = do
  end ← add_in 64 start size
  ok (record bump { heap_start = start; heap_end = end; next = start })

pub alloc : BumpAllocator → Layout → Outcome (ℕ × BumpAllocator)
alloc bump layout = do
  alloc_start ← align_up bump.next layout.align
  elim (checked_add alloc_start layout.size) [
    | none ↦ ok (null, bump)
    | some alloc_end ↦ if ltb bump.heap_end alloc_end then ok (null, bump) else do
      allocations ← add_in 64 bump.allocations 1
      ok (alloc_start, record bump { next = alloc_end; allocations = allocations })
  ]

pub dealloc : BumpAllocator → ℕ → Layout → Outcome BumpAllocator
dealloc bump ptr layout = do
  allocations ← sub_in bump.allocations 1
  let left = record bump { allocations = allocations }
  ok (if allocations == 0 then record left { next = left.heap_start } else left)
