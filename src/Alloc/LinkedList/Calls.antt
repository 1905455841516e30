-- ===== src/Alloc/LinkedList/Calls.antt =====
-- `alloc` and `dealloc` of linked_list.rs, whole calls.
use nocciolo.Base.{
  ℕ, ◌+◌, ◌%◌, ◌^◌, ◌≤◌, ◌<◌, ◌≡◌, ◌⊎◌, inl, inr, refl, ok, Option, none, some, List, ◌∷◌, ◌++◌,
  arith, All-extract, Pairs-extract,
}
use nocciolo.Alloc.Layouts.{Layout, IsLayout, null}
use nocciolo.Alloc.Ranges.{Range, Apart, Apart-sym}
use nocciolo.Alloc.LinkedList.{
  ListNode, LinkedListAllocator, Found, end_addr, find_region, alloc_adjusted, alloc, dealloc,
}
use nocciolo.Alloc.LinkedList.Sizes.{
  block_align, block_size, block_align-multiple, block_size-multiple, size_align_lem,
}
use nocciolo.Alloc.LinkedList.Regions.{
  node_at, range, IsRegion, NoneFit, IsFirstFit, Searched, find_region-Searched,
}
use nocciolo.Alloc.LinkedList.Carve.{
  ApartNodes, IsHeap, Clear, total, total-extract, IsCarved, add_free_region-IsHeap, exact-IsCarved,
  split-IsCarved, tail, tail-IsRegion, tail-Clear,
}

-- What taking one region out of a heap leaves.
record IsTakenOut (free : List ListNode) (r : ListNode) (left : List ListNode) : Type 0 where
  region : IsRegion r
  heap : IsHeap left
  clear : Clear (range r) left
  parts : (q : Range) → Clear q free → Apart q (range r) × Clear q left
  sum : total free ≡ r.size + total left

take_out :
    (before : List ListNode) (r : ListNode) (after : List ListNode)
    → IsHeap (before ++ r ∷ after)
    → IsTakenOut (before ++ r ∷ after) r (before ++ after)
take_out before r after v =
    let regions = All-extract IsRegion before r after v.regions in
    let apart =
      Pairs-extract ApartNodes (λ m n. Apart-sym (range m) (range n)) before r after v.apart in
    record {
      region = regions.0;
      heap = record { regions = regions.1; apart = apart.1 };
      clear = apart.0;
      parts = λ q. All-extract (λ n. Apart q (range n)) before r after;
      sum = total-extract before r after;
    }

first_fit-IsTakenOut :
    {free : List ListNode} {size align : ℕ} {f : Found}
    → IsHeap free
    → IsFirstFit free size align f
    → IsTakenOut free f.region f.left
first_fit-IsTakenOut {free} {size} {align} {f} v s =
    let v' = rw s.whole at v in rw (s.whole, s.rest) (take_out s.before f.region s.after v')

-- The result of an allocation: a block, or null and an unchanged list in which nothing fits.
abbrev pub Allocated : LinkedListAllocator → ℕ → ℕ → ℕ × LinkedListAllocator → Type 0
Allocated a size align r =
    ((r.0 ≡ null) × (r.1 ≡ a) × NoneFit size align a.free) ⊎ IsCarved a.free size align r.0 r.1.free

module _ (a : LinkedListAllocator) (size align : ℕ) (v : IsHeap a.free) (multiple : align % 8 ≡ 0)
    (pos : 0 < align) (low : align ≤ 2 ^ 63) (whole : size % 8 ≡ 0) where
  Allocated-from :
      (o : Option Found)
      → find_region a.free size align ≡ ok o
      → Searched a.free size align o
      → (r : ℕ × LinkedListAllocator) × (alloc_adjusted a size align ≡ ok r)
        × Allocated a size align r
  unfolding alloc_adjusted
  Allocated-from none e s = ((null, a), rw (e, alloc_adjusted), inl (refl, refl, s))
  Allocated-from (some f) e s =
      let t = first_fit-IsTakenOut v s in
      elim s.fits.excess [
        | inl exact ↦ (
          (f.alloc_start, record { free = f.left }),
          unfold end_addr in ground (arith, e, t.region.low),
          inr (
              exact-IsCarved size align multiple pos whole a.free f.region f.left f.alloc_start
                t.region t.heap t.clear t.parts t.sum s.fits),
        )
        | inr room ↦
            let left = tail f.region f.alloc_start size in
            let wf =
              tail-IsRegion size align multiple pos whole a.free f.region f.left f.alloc_start
                t.region t.heap t.clear t.parts t.sum s.fits room in
            let cl =
              tail-Clear size align multiple pos whole a.free f.region f.left f.alloc_start t.region
                t.heap t.clear t.parts t.sum s.fits room in
            let added = add_free_region-IsHeap (record { free = f.left }) left t.heap wf cl in
            (
              (f.alloc_start, record { free = left ∷ f.left }),
              unfold end_addr in ground (arith, e, t.region.low, added.0),
              inr (
                  split-IsCarved size align multiple pos whole a.free f.region f.left f.alloc_start
                    t.region t.heap t.clear t.parts t.sum s.fits room),
            )
      ]

-- On a heap of regions and for a valid layout that leaves room for a list node, alloc returns:
-- either null with the list unchanged, and then no region has a fit, or an aligned block that was
-- free, carved out of the list.
pub alloc-Allocated :
    (a : LinkedListAllocator) (l : Layout)
    → IsHeap a.free
    → IsLayout l
    → l.size + 8 ≤ 2 ^ 63
    → (r : ℕ × LinkedListAllocator) × (alloc a l ≡ ok r)
      × Allocated a (block_size l) (block_align l) r
unfolding alloc
alloc-Allocated a l v w room =
    let multiple = block_align-multiple l w in
    let low : block_align l ≤ 2 ^ 63 = omega (arith, w.fits) in
    let whole = block_size-multiple l w in
    let (o, e, s) =
      find_region-Searched (block_size l) (block_align l) a.free v.regions (omega arith) low in
    let (r, h, k) =
      Allocated-from a (block_size l) (block_align l) v multiple (omega arith) low whole o e s in
    (r, rw (size_align_lem l w room, alloc) h, k)

-- On a heap and for a valid layout that leaves room for a list node, a block of the adjusted size
-- at an aligned address in the lower half of memory, apart from the free regions, is taken back as
-- the first region, and the list stays a heap.
pub dealloc-IsHeap :
    (a : LinkedListAllocator) (p : ℕ) (l : Layout)
    → IsHeap a.free
    → IsLayout l
    → l.size + 8 ≤ 2 ^ 63
    → p % 8 ≡ 0
    → 0 < p
    → p + block_size l ≤ 2 ^ 63
    → Clear (p, block_size l) a.free
    → (dealloc a p l ≡ ok (record { free = node_at p (block_size l) ∷ a.free }))
      × IsHeap (node_at p (block_size l) ∷ a.free)
unfolding dealloc
dealloc-IsHeap a p l v w room aligned placed low clear =
    let region : IsRegion (node_at p (block_size l)) = record {
      aligned = aligned;
      placed = placed;
      holds_node = omega arith;
      low = low;
    } in
    let added = add_free_region-IsHeap a (node_at p (block_size l)) v region clear in
    (rw (size_align_lem l w room, dealloc) added.0, added.1)
