-- ===== src/Memory/Heap/Examples.antt =====
-- The heap of a machine with eight mebibytes of memory.
use nocciolo.Base.{ℕ, ◌+◌, none, [], ◌∷◌, true, arith}
use nocciolo.Memory.Frames.{BootInfoFrameAllocator, frame_addresses, step_by_page, steps}
use nocciolo.Memory.Mapping.Loops.{HasLeft}
use nocciolo.Alloc.FixedSize as FixedSize

abbrev large_memory : BootInfoFrameAllocator
large_memory = record {
  memory_regions = record { start = 0x100000; end = 0x900000; usable = true } ∷ [];
  next = 0;
}

large_memory-HasLeft : HasLeft (1024 + 7) large_memory
unfolding frame_addresses step_by_page steps
large_memory-HasLeft = record {
  valid = record { regions = ground arith; apart = ground arith };
  room = omega arith;
  left = omega arith;
}

-- A fallback heap that is its range.
abbrev pub range_heap : FixedSize.Fallback
range_heap = record {
  Heap = ℕ × ℕ;
  empty = (0, 0);
  init = λ h start size. (start, size);
  allocate_first_fit = λ h l. (none, h);
  deallocate = λ h a l. h;
}
