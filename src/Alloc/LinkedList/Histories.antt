-- ===== src/Alloc/LinkedList/Histories.antt =====
-- Any history of calls to the linked-list allocator: the blocks that are out stay apart.
use nocciolo.Base.{
  ℕ, ◌+◌, ◌%◌, ◌^◌, ◌≤◌, ◌<◌, ◌≡◌, ◌≢◌, inl, inr, refl, sym, subst, ok, panic, List, [], ◌∷◌, ◌++◌,
  arith, All, Pairs, All_mono, All_zip, All-extract, Pairs-extract,
}
use nocciolo.Alloc.Align.{align_up}
use nocciolo.Alloc.Layouts.{Layout, IsLayout, null}
use nocciolo.Alloc.Ranges.{Range, Apart, Apart-sym}
use nocciolo.Alloc.LinkedList.{LinkedListAllocator, new, init, add_free_region, alloc, dealloc}
use nocciolo.Alloc.LinkedList.Sizes.{block_align, block_size, block_align-multiple}
use nocciolo.Alloc.LinkedList.Regions.{node_at}
use nocciolo.Alloc.LinkedList.Carve.{IsHeap, Clear, IsCarved, multiple-eight}
use nocciolo.Alloc.LinkedList.Calls.{Allocated, alloc-Allocated, dealloc-IsHeap}

abbrev pub Block : Type 0
Block = ℕ × Layout

-- The bytes that a block takes.
abbrev pub extent : Block → Range
extent b = (b.0, block_size b.1)

pub record Usage : Type 0 where
  pub allocator : LinkedListAllocator
  pub live : List Block

pub data Step (u w : Usage) : Type 0 where
  allocates :
      (l : Layout)
      → IsLayout l
      → l.size + 8 ≤ 2 ^ 63
      → (p : ℕ) → p ≢ null
      → alloc u.allocator l ≡ ok (p, w.allocator)
      → w.live ≡ (p, l) ∷ u.live
      → Step u w
  fails :
      (l : Layout)
      → IsLayout l
      → l.size + 8 ≤ 2 ^ 63
      → alloc u.allocator l ≡ ok (null, w.allocator)
      → w.live ≡ u.live
      → Step u w
  frees :
      (before : List Block) (b : Block) (after : List Block)
      → u.live ≡ before ++ b ∷ after
      → dealloc u.allocator b.0 b.1 ≡ ok w.allocator
      → w.live ≡ before ++ after
      → Step u w

pub data Reach (u : Usage) : Usage → Type 0 where
  here : Reach u u
  next : {v w : Usage} → Reach u v → Step v w → Reach u w

-- A block that is out: valid, aligned for its layout, and not null.
pub record IsBlock (b : Block) : Type 0 where
  pub layout : IsLayout b.1
  pub room : b.1.size + 8 ≤ 2 ^ 63
  pub aligned : b.0 % block_align b.1 ≡ 0
  pub placed : b.0 ≢ null
  pub low : b.0 + block_size b.1 ≤ 2 ^ 63

abbrev pub ApartBlocks : Block → Block → Type 0
ApartBlocks b c = Apart (extent b) (extent c)

-- The free list is a heap, the blocks that are out are valid, and all of these are apart.
pub record IsConsistent (u : Usage) : Type 0 where
  pub heap : IsHeap u.allocator.free
  pub blocks : All IsBlock u.live
  pub apart : Pairs ApartBlocks u.live
  pub clear : All (λ b. Clear (extent b) u.allocator.free) u.live

module _ (a a' : LinkedListAllocator) where
  carve-IsConsistent :
      (live : List Block) (l : Layout) (p : ℕ)
      → IsConsistent (record { allocator = a; live = live })
      → IsLayout l
      → l.size + 8 ≤ 2 ^ 63
      → IsCarved a.free (block_size l) (block_align l) p a'.free
      → IsConsistent (record { allocator = a'; live = (p, l) ∷ live })
  carve-IsConsistent live l p c v room k = record {
    heap = k.heap;
    blocks = (
      record { layout = v; room = room; aligned = k.aligned; placed = k.placed; low = k.low },
      c.blocks,
    );
    apart = (
      All_mono (λ b q. Apart-sym (extent b) (p, block_size l) (k.frame (extent b) q).0) live
          c.clear,
      c.apart,
    );
    clear = (k.clear, All_mono (λ b q. (k.frame (extent b) q).1) live c.clear);
  }

  free-IsConsistent :
      (before : List Block) (b : Block) (after : List Block)
      → IsConsistent (record { allocator = a; live = before ++ b ∷ after })
      → dealloc a b.0 b.1 ≡ ok a'
      → IsConsistent (record { allocator = a'; live = before ++ after })
  free-IsConsistent before b after c e =
      let blocks = All-extract IsBlock before b after c.blocks in
      let apart =
        Pairs-extract ApartBlocks (λ x y. Apart-sym (extent x) (extent y)) before b after c.apart in
      let clear = All-extract (λ x. Clear (extent x) a.free) before b after c.clear in
      let v = blocks.0 in
      let back =
        dealloc-IsHeap a b.0 b.1 c.heap v.layout v.room
          (multiple-eight 8 (block_align b.1) (block_align-multiple b.1 v.layout) (omega arith) refl
            b.0 v.aligned)
          (omega (arith, v.placed)) v.low clear.0 in
      let same : record { free = node_at b.0 (block_size b.1) ∷ a.free } ≡ a' = cc (e, back.0) in
      rw (← same) (record {
        heap = back.1;
        blocks = blocks.1;
        apart = apart.1;
        clear =
            All_zip (λ x p q. (Apart-sym (extent b) (extent x) p, q)) (before ++ after) apart.0
              clear.1;
      })

-- `Allocated` at a pointer that is known to be null or not.
IsCarved-of_Allocated :
    (a : LinkedListAllocator) (size align : ℕ) {r : ℕ × LinkedListAllocator}
    → r.0 ≢ null
    → Allocated a size align r
    → IsCarved a.free size align r.0 r.1.free
IsCarved-of_Allocated a size align ne (inl h) = absurd (ne h.0)
IsCarved-of_Allocated a size align ne (inr h) = h

same_of_Allocated :
    (a : LinkedListAllocator) (size align : ℕ) {r : ℕ × LinkedListAllocator}
    → r.0 ≡ null
    → Allocated a size align r
    → r.1 ≡ a
same_of_Allocated a size align e (inl h) = h.1
same_of_Allocated a size align e (inr h) = absurd (h.placed e)

-- The result of a call that is known, in place of the one that the lemma gives.
Allocated-at :
    (a : LinkedListAllocator) (l : Layout) {r : ℕ × LinkedListAllocator}
    → IsHeap a.free
    → IsLayout l
    → l.size + 8 ≤ 2 ^ 63
    → alloc a l ≡ ok r
    → Allocated a (block_size l) (block_align l) r
Allocated-at a l {r} v w room e =
    let (q, h, k) = alloc-Allocated a l v w room in let same : q ≡ r = cc (e, h) in rw (← same) k

abbrev WithLive : LinkedListAllocator → List Block → Type 0
WithLive a live = IsConsistent (record { allocator = a; live = live })

Step-IsConsistent : {u w : Usage} → Step u w → IsConsistent u → IsConsistent w
Step-IsConsistent {u} {w} (allocates l v room p ne e out) c =
    subst (WithLive w.allocator) (sym out) (
      carve-IsConsistent u.allocator w.allocator u.live l p c v room
        (IsCarved-of_Allocated u.allocator _ _ ne (Allocated-at u.allocator l c.heap v room e)))
Step-IsConsistent {u} {w} (fails l v room e out) c =
    let same =
      same_of_Allocated u.allocator _ _ refl (Allocated-at u.allocator l c.heap v room e) in
    subst (WithLive w.allocator) (sym out) (subst (λ a. WithLive a u.live) (sym same) c)
Step-IsConsistent {u} {w} (frees before b after whole e out) c =
    subst (WithLive w.allocator) (sym out) (
      free-IsConsistent u.allocator w.allocator before b after
        (subst (WithLive u.allocator) whole c) e)

-- After any history of allocations, failed allocations and releases from a consistent state, the
-- free list is a heap of aligned, non-overlapping regions, every block that is out is aligned for
-- its layout and not null, and no two blocks that are out, nor such a block and a free region,
-- share an address.
pub Reach-IsConsistent : {u w : Usage} → Reach u w → IsConsistent u → IsConsistent w
Reach-IsConsistent here c = c
Reach-IsConsistent (next r s) c = Step-IsConsistent s (Reach-IsConsistent r c)

-- In a consistent state every block that is out can be given back: the release does not panic.
pub dealloc_returns :
    (u : Usage) (before : List Block) (b : Block) (after : List Block)
    → IsConsistent u
    → u.live ≡ before ++ b ∷ after
    → dealloc u.allocator b.0 b.1 ≢ panic
dealloc_returns u before b after c whole h =
    let c' = subst (WithLive u.allocator) whole c in
    let v = (All-extract IsBlock before b after c'.blocks).0 in
    let back =
      dealloc-IsHeap u.allocator b.0 b.1 c.heap v.layout v.room
        (multiple-eight 8 (block_align b.1) (block_align-multiple b.1 v.layout) (omega arith) refl
          b.0 v.aligned)
        (omega (arith, v.placed)) v.low
        (All-extract (λ x. Clear (extent x) u.allocator.free) before b after c'.clear).0 in
    cc (h, back.0)

-- The heap, as init sets it up above address 0 and in the lower half of memory, is consistent with
-- no block out.
pub init-IsConsistent :
    (start size : ℕ) {a : LinkedListAllocator}
    → 0 < start
    → start + size ≤ 2 ^ 63
    → init new start size ≡ ok a
    → IsConsistent (record { allocator = a; live = [] })
unfolding init add_free_region align_up
init-IsConsistent start size {a} placed low h =
    let is : a ≡ record { free = node_at start size ∷ [] } = unfold new in ground arith in
    rw is (record {
      heap = record {
        regions = (
          record { aligned = ground arith; placed = placed; holds_node = ground arith; low = low },
          tt,
        );
        apart = (tt, tt);
      };
      blocks = tt;
      apart = tt;
      clear = tt;
    })
