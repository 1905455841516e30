-- ===== src/Alloc/LinkedList/Carve.antt =====
-- One allocation and one release of linked_list.rs, as changes of the set of free regions.
use native.Mathlib.Nat.{mod-mod_of_dvd, dvd_of_mod-eq-zero}
use nocciolo.Base.{
  ℕ, ◌+◌, ◌-◌, ◌%◌, ◌^◌, ◌≤◌, ◌<◌, ◌≡◌, ◌≢◌, inl, refl, ap, ok, List, [], ◌∷◌, ◌++◌, arith, All,
  Pairs, All_mono,
}
use nocciolo.Alloc.Align.{align_up-eq_self}
use nocciolo.Alloc.Layouts.{null}
use nocciolo.Alloc.Ranges.{Range, Apart, Inside, Apart-sym, Apart-Inside}
use nocciolo.Alloc.LinkedList.{ListNode, LinkedListAllocator, node_size, add_free_region}
use nocciolo.Alloc.LinkedList.Regions.{range, IsRegion, IsFit}

abbrev pub ApartNodes : ListNode → ListNode → Type 0
ApartNodes r s = Apart (range r) (range s)

-- The free list: well-formed regions, no two of which overlap.
pub record IsHeap (free : List ListNode) : Type 0 where
  pub regions : All IsRegion free
  pub apart : Pairs ApartNodes free

abbrev pub Clear : Range → List ListNode → Type 0
Clear q = All (λ r. Apart q (range r))

abbrev pub total : List ListNode → ℕ
total [] = 0
total (r ∷ rs) = r.size + total rs

pub total-extract :
    (xs : List ListNode) (y : ListNode) (ys : List ListNode)
    → total (xs ++ y ∷ ys) ≡ y.size + total (xs ++ ys)
total-extract [] y ys = refl
total-extract (x ∷ xs) y ys = omega (arith, total-extract xs y ys)

-- A region that is aligned, holds a node and is apart from the free ones joins the list.
pub add_free_region-IsHeap :
    (a : LinkedListAllocator) (r : ListNode)
    → IsHeap a.free
    → IsRegion r
    → Clear (range r) a.free
    → (add_free_region a r.start_addr r.size ≡ ok (record { free = r ∷ a.free }))
      × IsHeap (r ∷ a.free)
unfolding add_free_region
add_free_region-IsHeap a r v w clear = (
  ground (arith, align_up-eq_self r.start_addr 8 (omega arith) w.aligned, w.holds_node),
  record { regions = (w, v.regions); apart = (clear, v.apart) },
)

-- What a successful allocation of `size` bytes at `p` does to the free list.
pub record IsCarved (free : List ListNode) (size align p : ℕ) (free' : List ListNode) : Type 0 where
  pub aligned : p % align ≡ 0
  pub placed : p ≢ null
  pub low : p + size ≤ 2 ^ 63
  -- The block shares no address with what stays free, and the rest is a heap again.
  pub heap : IsHeap free'
  pub clear : Clear (p, size) free'
  -- What was apart from the free regions is apart from the block and from what stays free.
  pub frame : (q : Range) → Clear q free → Apart q (p, size) × Clear q free'
  -- No byte is made up: the block and what stays free were free.
  pub bytes : total free' + size ≤ total free

-- What is left behind a block of `size` bytes at `a`.
abbrev pub tail : ListNode → ℕ → ℕ → ListNode
tail r a size = record { start_addr = a + size; size = r.start_addr + r.size - (a + size) }

module _ (size align : ℕ) (multiple : align % 8 ≡ 0) (pos : 0 < align) (whole : size % 8 ≡ 0) where
  pub multiple-eight : (p : ℕ) → p % align ≡ 0 → p % 8 ≡ 0
  multiple-eight p h =
      omega (arith, mod-mod_of_dvd 8 p (dvd_of_mod-eq-zero 8 multiple), ap (λ (t : ℕ). t % 8) h)

  -- The chosen region `r` and the others, `rest`.
  module _ (free : List ListNode) (r : ListNode) (rest : List ListNode) (a : ℕ) (v : IsRegion r)
      (w : IsHeap rest) (clear : Clear (range r) rest)
      (parts : (q : Range) → Clear q free → Apart q (range r) × Clear q rest)
      (sum : total free ≡ r.size + total rest) (fit : IsFit r size align a) where
    block-Inside : Inside (a, size) (range r)
    block-Inside = (fit.inside, fit.ends)

    -- The block ends where the region does.
    pub exact-IsCarved : IsCarved free size align a rest
    exact-IsCarved = record {
      aligned = fit.aligned;
      placed = omega (arith, v.placed, fit.inside);
      low = omega (arith, v.low, fit.ends);
      heap = w;
      clear =
          All_mono
            (λ n c.
              Apart-sym (range n) (a, size)
                (Apart-Inside (range n) (range r) (a, size) block-Inside
                  (Apart-sym (range r) (range n) c)))
            rest clear;
      frame = λ q c.
          let both = parts q c in (Apart-Inside q (range r) (a, size) block-Inside both.0, both.1);
      bytes = omega (arith, sum, fit.ends, fit.inside);
    }

    module _ (room : a + size + node_size ≤ r.start_addr + r.size) where
      tail-Inside : Inside (range (tail r a size)) (range r)
      tail-Inside = (omega (arith, fit.inside), omega (arith, room))

      pub tail-IsRegion : IsRegion (tail r a size)
      tail-IsRegion = record {
        aligned = omega (arith, multiple-eight a fit.aligned, whole);
        placed = omega (arith, v.placed, fit.inside);
        holds_node = omega (arith, room);
        low = omega (arith, room, v.low);
      }

      pub tail-Clear : Clear (range (tail r a size)) rest
      tail-Clear =
          All_mono
            (λ n c. Apart-sym (range n) (range (tail r a size)) (
              Apart-Inside (range n) (range r) (range (tail r a size)) tail-Inside
                (Apart-sym (range r) (range n) c)))
            rest clear

      pub split-IsCarved : IsCarved free size align a (tail r a size ∷ rest)
      split-IsCarved =
          let e = exact-IsCarved in
          record {
            aligned = e.aligned;
            placed = e.placed;
            low = e.low;
            heap = record { regions = (tail-IsRegion, w.regions); apart = (tail-Clear, w.apart) };
            clear = (inl (omega arith), e.clear);
            frame = λ q c.
                let both = parts q c in
                (
                  (e.frame q c).0,
                  (Apart-Inside q (range r) (range (tail r a size)) tail-Inside both.0, both.1),
                );
            bytes = omega (arith, sum, fit.inside, room);
          }
