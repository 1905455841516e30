-- ===== src/Memory/Heap.antt =====
-- `init_heap` of kernel/src/allocator.rs and of kernel/src/main.rs: the pages of the heap are mapped
-- to frames of the memory map, and the global allocator is given their range.
pub mod Pages
pub mod Examples
use nocciolo.Base.{
  ℕ, ◌+◌, ◌-◌, ◌/◌, Bool, true, false, Outcome, ok, panic, ◌>>=◌, unwrap, sub_in, Option, none,
  some, List, [], ◌∷◌,
}
use nocciolo.Memory.X86.{X86}
use nocciolo.Memory.Frames.{MemoryRegion, BootInfoFrameAllocator, init, allocate_frame, steps}
use nocciolo.Alloc.FixedSize as FixedSize

-- `HEAP_START` and `HEAP_SIZE`.
abbrev pub heap_start : ℕ
heap_start = 0x444444440000

abbrev pub heap_size : ℕ
heap_size = 1048576

module _ (X : X86) where
  -- The page tables and the frame allocator while the loop runs, and whether it went to its end.
  pub record Mapping : Type 0 where
    pub done : Bool
    pub mapper : X.Mapper
    pub frame_allocator : BootInfoFrameAllocator

  -- After `map_to`: the rest of the loop, unless it failed.
  pub continue_with :
      (X.Mapper → BootInfoFrameAllocator → Outcome Mapping)
      → X.Mapper
      → Option X.Mapper × BootInfoFrameAllocator
      → Outcome Mapping
  continue_with rest mapper (none, allocator) =
      ok (record { done = false; mapper = mapper; frame_allocator = allocator })
  continue_with rest mapper (some mapper', allocator) = rest mapper' allocator

  -- The frame for a page, unless there is none, and the rest of the loop.
  pub map_frame :
      (X.Mapper → BootInfoFrameAllocator → Outcome Mapping)
      → ℕ
      → X.Mapper
      → Option ℕ × BootInfoFrameAllocator
      → Outcome Mapping
  unfolding continue_with
  map_frame rest page mapper (none, allocator) =
      ok (record { done = false; mapper = mapper; frame_allocator = allocator })
  map_frame rest page mapper (some frame, allocator) =
      X.map_to (allocate_frame X) mapper allocator page frame >>= continue_with rest mapper

  -- The loop over the pages.
  pub map_heap_pages : List ℕ → X.Mapper → BootInfoFrameAllocator → Outcome Mapping
  unfolding map_frame
  map_heap_pages [] mapper allocator =
      ok (record { done = true; mapper = mapper; frame_allocator = allocator })
  map_heap_pages (page ∷ pages) mapper allocator =
      let rest = map_heap_pages pages in allocate_frame X allocator >>= map_frame rest page mapper

  pub map_heap : X.Mapper → BootInfoFrameAllocator → Outcome Mapping
  unfolding map_heap_pages
  map_heap mapper allocator = do
    above ← X.virt_add heap_start heap_size
    heap_end ← sub_in above 1
    map_heap_pages (X.range_inclusive (X.page_containing heap_start) (X.page_containing heap_end))
        mapper allocator

  -- The range goes to the global allocator, unless the loop failed; the caller `expect`s that it
  -- did not.
  pub initialized :
      (F : FixedSize.Fallback)
      → FixedSize.FixedSizeBlockAllocator F
      → Bool
      → Mapping
      → Outcome (FixedSize.FixedSizeBlockAllocator F × Mapping)
  initialized F heap false mapping = panic
  initialized F heap true mapping = ok (FixedSize.init F heap heap_start heap_size, mapping)

  pub init_heap :
      (F : FixedSize.Fallback)
      → FixedSize.FixedSizeBlockAllocator F
      → X.Mapper
      → BootInfoFrameAllocator
      → Outcome (FixedSize.FixedSizeBlockAllocator F × Mapping)
  unfolding map_heap initialized
  init_heap F heap mapper allocator =
      map_heap mapper allocator >>= λ mapping. initialized F heap mapping.done mapping
