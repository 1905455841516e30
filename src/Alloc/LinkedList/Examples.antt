-- ===== src/Alloc/LinkedList/Examples.antt =====
-- Runs of the linked-list allocator: a heap of one page, one block taken and given back.
use nocciolo.Base.{ℕ, ◌≡◌, ◌≢◌, inl, refl, ok, panic, Option, [], ◌∷◌, arith}
use nocciolo.Alloc.Align.{align_up}
use nocciolo.Alloc.Layouts.{Layout, IsLayout, align_to, pad_to_align}
use nocciolo.Alloc.LinkedList.{
  LinkedListAllocator, Found, new, init, alloc, dealloc, find_region, add_free_region,
  alloc_from_region,
}
use nocciolo.Alloc.LinkedList.Sizes.{block_align, block_size}
use nocciolo.Alloc.LinkedList.Regions.{node_at, IsRegion, Searched, find_region-Searched}
use nocciolo.Alloc.LinkedList.Carve.{IsHeap}
use nocciolo.Alloc.LinkedList.Calls.{Allocated, alloc-Allocated}
use nocciolo.Alloc.LinkedList.Histories.{
  Usage, Step, allocates, frees, here, next, IsConsistent, Reach-IsConsistent, dealloc_returns,
}

abbrev one_page : LinkedListAllocator
one_page = record { free = node_at 0x1000 0x1000 ∷ [] }

abbrev three_words : Layout
three_words = record { size = 24; align = 8 }

abbrev page_taken : LinkedListAllocator
page_taken = record { free = node_at 0x1018 0xfe8 ∷ [] }

abbrev page_back : LinkedListAllocator
page_back = record { free = node_at 0x1000 24 ∷ node_at 0x1018 0xfe8 ∷ [] }

three_words-IsLayout : IsLayout three_words
three_words-IsLayout = record { log = 3; power = refl; fits = omega arith }

page-IsRegion : IsRegion (node_at 0x1000 0x1000)
page-IsRegion = record {
  aligned = refl;
  placed = omega arith;
  holds_node = omega arith;
  low = omega arith;
}

tail-IsRegion : IsRegion (node_at 0x1018 0xfe8)
tail-IsRegion = record {
  aligned = refl;
  placed = omega arith;
  holds_node = omega arith;
  low = omega arith;
}

one_page-IsHeap : IsHeap one_page.free
one_page-IsHeap = record { regions = (page-IsRegion, tt); apart = (tt, tt) }

page_taken-IsHeap : IsHeap page_taken.free
page_taken-IsHeap = record { regions = (tail-IsRegion, tt); apart = (tt, tt) }

alloc_run : alloc one_page three_words ≡ ok (0x1000, page_taken)
unfolding alloc align_to pad_to_align find_region alloc_from_region align_up add_free_region
alloc_run = refl

dealloc_run : dealloc page_taken 0x1000 three_words ≡ ok page_back
unfolding dealloc align_to pad_to_align align_up
dealloc_run = refl

init_run : init new 0x1000 0x1000 ≡ ok one_page
unfolding init new align_up
init_run = refl

abbrev fresh : Usage
fresh = record { allocator = one_page; live = [] }

abbrev used : Usage
used = record { allocator = page_taken; live = (0x1000, three_words) ∷ [] }

abbrev returned : Usage
returned = record { allocator = page_back; live = [] }

fresh-IsConsistent : IsConsistent fresh
fresh-IsConsistent = record { heap = one_page-IsHeap; blocks = tt; apart = tt; clear = tt }

taking : Step fresh used
taking =
    allocates three_words three_words-IsLayout (omega arith) 0x1000 (omega arith) alloc_run refl

used-IsConsistent : IsConsistent used
used-IsConsistent = record {
  heap = page_taken-IsHeap;
  blocks = (
    record {
      layout = three_words-IsLayout;
      room = omega arith;
      aligned = refl;
      placed = omega arith;
      low = omega arith;
    },
    tt,
  );
  apart = (tt, tt);
  clear = ((inl (omega arith), tt), tt);
}

Reach-IsConsistent_example : IsConsistent returned
Reach-IsConsistent_example =
    Reach-IsConsistent
      (next (next here taking) (frees [] (0x1000, three_words) [] refl dealloc_run refl))
      fresh-IsConsistent

alloc-Allocated_example :
    (r : ℕ × LinkedListAllocator) × (alloc one_page three_words ≡ ok r)
    × Allocated one_page (block_size three_words) (block_align three_words) r
alloc-Allocated_example =
    alloc-Allocated one_page three_words one_page-IsHeap three_words-IsLayout (omega arith)

dealloc_returns_example : dealloc page_taken 0x1000 three_words ≢ panic
dealloc_returns_example = dealloc_returns used [] (0x1000, three_words) [] used-IsConsistent refl

find_region-Searched_example :
    (o : Option Found) × (find_region one_page.free 24 16 ≡ ok o) × Searched one_page.free 24 16 o
find_region-Searched_example =
    find_region-Searched 24 16 one_page.free one_page-IsHeap.regions (omega arith) (omega arith)
