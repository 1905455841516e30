-- ===== src/Alloc/Bump/Blocks/Examples.antt =====
-- Runs of the bump allocator on a small heap.
use nocciolo.Base.{◌≡◌, refl, ok, List, [], ◌∷◌, arith}
use nocciolo.Alloc.Align.{align_up}
use nocciolo.Alloc.Layouts.{Layout, IsLayout}
use nocciolo.Alloc.Ranges.{Range}
use nocciolo.Alloc.Bump.{BumpAllocator, alloc}
use nocciolo.Alloc.Bump.Blocks.{IsReady, AreLaidOut, alloc_all, alloc_all-AreLaidOut}

abbrev bump_heap : BumpAllocator
bump_heap = record { heap_start = 0x1000; heap_end = 0x2000; next = 0x1000; allocations = 0 }

abbrev bump_after : BumpAllocator
bump_after = record { heap_start = 0x1000; heap_end = 0x2000; next = 0x1018; allocations = 2 }

abbrev byte : Layout
byte = record { size = 3; align = 1 }

abbrev words : Layout
words = record { size = 16; align = 8 }

abbrev granted : List Range
granted = (0x1008, 16) ∷ (0x1000, 3) ∷ []

bump_heap-IsReady : IsReady bump_heap
bump_heap-IsReady = record { placed = omega arith; started = omega arith; within = omega arith }

words-IsLayout : IsLayout words
words-IsLayout = record { log = 3; power = refl; fits = omega arith }

alloc_all_run : alloc_all bump_heap [] (byte ∷ words ∷ []) ≡ ok (granted, bump_after)
unfolding alloc_all alloc align_up
alloc_all_run = refl

alloc_all-AreLaidOut_example :
    IsReady bump_after
    × AreLaidOut bump_after granted
    × (bump_after.heap_start ≡ bump_heap.heap_start)
    × (bump_after.heap_end ≡ bump_heap.heap_end)
alloc_all-AreLaidOut_example =
    alloc_all-AreLaidOut bump_heap [] (byte ∷ words ∷ []) bump_heap-IsReady (tt, tt) alloc_all_run
