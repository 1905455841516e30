-- ===== src/Alloc/Bump/Blocks.antt =====
-- The blocks of the bump allocator: where they lie, and when the heap is taken back.
mod Examples
use native.Mathlib.Nat.{mod-lt}
use nocciolo.Base.{
  ℕ, zero, suc, ◌+◌, ◌-◌, ◌%◌, ◌^◌, ◌≤◌, ◌<◌, ◌≡◌, ◌≢◌, ◌⊎◌, inl, inr, refl, ◌∙◌, false, length,
  Outcome, ok, panic, ◌>>=◌, >>=-eq-ok, List, [], ◌∷◌, ◌==◌, if◌then◌else◌, arith, All, Pairs,
  All_mono,
}
use nocciolo.Alloc.Align.{align_up, align_up-least, align_up_total}
use nocciolo.Alloc.Layouts.{Layout, IsLayout, null, align_pos}
use nocciolo.Alloc.Ranges.{Range, Apart, Inside}
use nocciolo.Alloc.Bump.{BumpAllocator, new, init, alloc, dealloc}

-- The pointer lies in the heap, and address 0 does not.
pub record IsReady (b : BumpAllocator) : Type 0 where
  pub placed : 0 < b.heap_start
  pub started : b.heap_start ≤ b.next
  pub within : b.next ≤ b.heap_end

-- What one allocation did: nothing was free, or an aligned block beyond the old pointer.
abbrev pub Granted : BumpAllocator → Layout → ℕ × BumpAllocator → Type 0
Granted b l r =
    ((r.0 ≡ null) × (r.1 ≡ b))
    ⊎ ((r.0 % l.align ≡ 0)
        × (b.next ≤ r.0)
        × (r.0 + l.size ≡ r.1.next)
        × (r.1.allocations ≡ b.allocations + 1))

alloc-Granted :
    (b : BumpAllocator) (l : Layout) {r : ℕ × BumpAllocator}
    → IsReady b
    → alloc b l ≡ ok r
    → IsReady r.1 × Granted b l r
unfolding alloc
alloc-Granted b l {r} v h =
    let (a, e, k) = >>=-eq-ok (align_up b.next l.align) _ h in
    let least = align_up-least b.next l.align e in ground arith

-- With a ready allocator, a valid layout, a heap in the lower half of the address space and fewer
-- than 2 ^ 63 allocations, a call does not panic.
pub alloc_returns :
    (b : BumpAllocator) (l : Layout)
    → IsReady b
    → IsLayout l
    → b.heap_end ≤ 2 ^ 63
    → b.allocations < 2 ^ 63
    → alloc b l ≢ panic
unfolding alloc
alloc_returns b l v w low few =
    let (a, e) = align_up_total b.next l.align (align_pos w) (omega (arith, w.fits, v.within)) in
    ground arith

-- Any number of requests, in order: the blocks that were granted, with their sizes, latest first.
pub alloc_all : BumpAllocator → List Range → List Layout → Outcome (List Range × BumpAllocator)
alloc_all b blocks [] = ok (blocks, b)
alloc_all b blocks (l ∷ ls) = do
  (p, b') ← alloc b l
  alloc_all b' (if p == null then blocks else (p, l.size) ∷ blocks) ls

-- The blocks so far lie between the start of the heap and the pointer, and no two overlap.
abbrev pub AreLaidOut : BumpAllocator → List Range → Type 0
AreLaidOut b blocks =
    All (λ r. (b.heap_start ≤ r.0) × (r.0 + r.1 ≤ b.next)) blocks × Pairs Apart blocks

grow-AreLaidOut :
    (b b' : BumpAllocator) (blocks : List Range) (p n : ℕ)
    → b'.heap_start ≡ b.heap_start
    → b.heap_start ≤ p
    → b.next ≤ p
    → p + n ≡ b'.next
    → AreLaidOut b blocks
    → AreLaidOut b' ((p, n) ∷ blocks)
grow-AreLaidOut b b' blocks p n same low above end h = (
  (omega arith, All_mono (λ r q. (omega arith, omega arith)) blocks h.0),
  (All_mono (λ r q. inr (omega arith)) blocks h.0, h.1),
)

alloc-keeps :
    (b : BumpAllocator) (l : Layout) {r : ℕ × BumpAllocator}
    → alloc b l ≡ ok r
    → (r.1.heap_start ≡ b.heap_start) × (r.1.heap_end ≡ b.heap_end)
unfolding alloc
alloc-keeps b l {r} h = let (a, e, k) = >>=-eq-ok (align_up b.next l.align) _ h in ground arith

alloc-AreLaidOut :
    (b : BumpAllocator) (l : Layout) (blocks : List Range) {p : ℕ} {b' : BumpAllocator}
    → IsReady b
    → alloc b l ≡ ok (p, b')
    → AreLaidOut b blocks
    → AreLaidOut b' (if p == null then blocks else (p, l.size) ∷ blocks)
alloc-AreLaidOut b l blocks {p} {b'} v h laid = elim (alloc-Granted b l v h).1 [
  | inl (e, same) ↦ rw (e, same) laid
  | inr (m, above, end, count) ↦
      let pos : (p == null) ≡ false = ground (arith, v.placed, v.started) in
      rw pos (
        grow-AreLaidOut b b' blocks p l.size (alloc-keeps b l h).0 (omega (arith, v.started)) above
          end laid)
]

-- Any run of requests that returns, from a ready allocator whose blocks so far are laid out, leaves
-- it ready, in the same heap, with all blocks between the start of the heap and the pointer and no
-- two of them overlapping.
pub alloc_all-AreLaidOut :
    (b : BumpAllocator) (blocks : List Range) (ls : List Layout) {granted : List Range}
    {b' : BumpAllocator}
    → IsReady b
    → AreLaidOut b blocks
    → alloc_all b blocks ls ≡ ok (granted, b')
    → IsReady b'
      × AreLaidOut b' granted
      × (b'.heap_start ≡ b.heap_start)
      × (b'.heap_end ≡ b.heap_end)
unfolding alloc_all
alloc_all-AreLaidOut b blocks [] v laid h = ground arith
alloc_all-AreLaidOut b blocks (l ∷ ls) v laid h =
    let (r, e, k) = >>=-eq-ok (alloc b l) _ h in
    let rest =
      alloc_all-AreLaidOut r.1 _ ls (alloc-Granted b l v e).0 (alloc-AreLaidOut b l blocks v e laid)
        k in
    let keeps = alloc-keeps b l e in (rest.0, rest.1, rest.2 ∙ keeps.0, rest.3 ∙ keeps.1)

-- `n` blocks are given back, whichever they are.
pub dealloc_all : BumpAllocator → List (ℕ × Layout) → Outcome BumpAllocator
dealloc_all b [] = ok b
dealloc_all b ((p, l) ∷ rest) = do b' ← dealloc b p l; dealloc_all b' rest

-- Giving back as many blocks as are out, whichever they are, takes the whole heap back.
pub dealloc_all-resets :
    (b : BumpAllocator) (p : ℕ) (l : Layout) (rest : List (ℕ × Layout))
    → b.allocations ≡ length rest + 1
    → dealloc_all b ((p, l) ∷ rest) ≡ ok (record b { next = b.heap_start; allocations = 0 })
unfolding dealloc_all dealloc
dealloc_all-resets b p l [] h = ground arith
dealloc_all-resets b p l ((q, m) ∷ rest) h =
    ground (arith, dealloc_all-resets (record b { allocations = b.allocations - 1 }) q m rest)
