-- ===== src/Alloc/FixedSize/Examples.antt =====
-- Runs of the kernel's allocator above a fallback heap that has nothing left.
use nocciolo.Base.{ℕ, ◌%◌, ◌≡◌, refl, ok, none, some, List, [], ◌∷◌, get_elem?, arith}
use nocciolo.Alloc.Layouts.{Layout, IsLayout}
use nocciolo.Alloc.FixedSize.{
  Fallback, FixedSizeBlockAllocator, block_sizes, list_index, alloc, dealloc, dealloc_class,
}
use nocciolo.Alloc.FixedSize.Blocks.{
  Stocked, IsAligning, Served, alloc-dealloc, alloc-Served, dealloc-Stocked,
}

abbrev empty_heap : Fallback
empty_heap = record {
  Heap = Unit {0};
  empty = tt;
  init = λ h start size. h;
  allocate_first_fit = λ h l. (none, h);
  deallocate = λ h p l. h;
}

empty_heap-IsAligning : IsAligning empty_heap
empty_heap-IsAligning h l p v e = cc

abbrev stocked_lists : List (List ℕ)
stocked_lists = [] ∷ (0x4010 ∷ []) ∷ [] ∷ [] ∷ [] ∷ [] ∷ [] ∷ [] ∷ [] ∷ []

abbrev stocked_allocator : FixedSizeBlockAllocator empty_heap
stocked_allocator = record { list_heads = stocked_lists; fallback_allocator = tt }

abbrev twelve : Layout
twelve = record { size = 12; align = 4 }

twelve-IsLayout : IsLayout twelve
twelve-IsLayout = record { log = 2; power = refl; fits = omega arith }

stocked_lists-Stocked : Stocked block_sizes stocked_lists
stocked_lists-Stocked =
    (tt, (((refl, omega arith), tt), (tt, (tt, (tt, (tt, (tt, (tt, (tt, tt)))))))))

list_index_run : list_index twelve ≡ some 1
unfolding list_index
list_index_run = refl

abbrev two_blocks : FixedSizeBlockAllocator empty_heap
two_blocks = record stocked_allocator {
  list_heads = [] ∷ (0x4020 ∷ 0x4010 ∷ []) ∷ [] ∷ [] ∷ [] ∷ [] ∷ [] ∷ [] ∷ [] ∷ [];
}

dealloc_class_run : dealloc empty_heap stocked_allocator 0x4020 twelve ≡ ok two_blocks
unfolding dealloc list_index dealloc_class
dealloc_class_run = refl

alloc-Served_example :
    (r : ℕ × FixedSizeBlockAllocator empty_heap) × (alloc empty_heap stocked_allocator twelve
      ≡ ok r)
    × Served empty_heap twelve r
alloc-Served_example =
    alloc-Served empty_heap empty_heap-IsAligning stocked_allocator twelve stocked_lists-Stocked
      twelve-IsLayout

alloc-dealloc_example : alloc empty_heap two_blocks twelve ≡ ok (0x4020, stocked_allocator)
alloc-dealloc_example =
    alloc-dealloc empty_heap stocked_allocator 0x4020 twelve twelve 1 list_index_run list_index_run
      dealloc_class_run

aligned_for_class :
    (i b : ℕ) → list_index twelve ≡ some i → get_elem? block_sizes i ≡ some b → 0x4020 % b ≡ 0
aligned_for_class i b h e =
    let is : i ≡ 1 = ground (arith, list_index_run) in
    let same : get_elem? block_sizes 1 ≡ some b = rw is at e in
    let size : b ≡ 16 = ground arith in rw size refl

dealloc-Stocked_example :
    (a' : FixedSizeBlockAllocator empty_heap) × (dealloc empty_heap stocked_allocator 0x4020 twelve
      ≡ ok a')
    × Stocked block_sizes a'.list_heads
dealloc-Stocked_example =
    dealloc-Stocked empty_heap stocked_allocator 0x4020 twelve stocked_lists-Stocked (omega arith)
      aligned_for_class
