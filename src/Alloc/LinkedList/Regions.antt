-- ===== src/Alloc/LinkedList/Regions.antt =====
-- The search of linked_list.rs: which region is chosen, and what of the list is left.
use nocciolo.Base.{
  ℕ, ◌+◌, ◌%◌, ◌^◌, ◌≤◌, ◌<◌, ◌≡◌, ◌≢◌, ◌⊎◌, inl, inr, refl, ap, ◌∙◌, Option-cases, ok, panic,
  >>=-eq-ok, ok_of_ne-panic, Option, none, some, List, [], ◌∷◌, ◌++◌, arith, All,
}
use nocciolo.Alloc.Align.{align_up, align_up-least, align_up_total}
use nocciolo.Alloc.Ranges.{Range}
use nocciolo.Alloc.LinkedList.{ListNode, Found, node_size, alloc_from_region, find_region}

abbrev pub range : ListNode → Range
range r = (r.start_addr, r.size)

abbrev pub node_at : ℕ → ℕ → ListNode
node_at p n = record { start_addr = p; size = n }

-- A region that the list may hold: aligned for a node and large enough for one, not at address 0,
-- and in the lower half of the address space.
pub record IsRegion (r : ListNode) : Type 0 where
  pub aligned : r.start_addr % 8 ≡ 0
  pub placed : 0 < r.start_addr
  pub holds_node : node_size ≤ r.size
  pub low : r.start_addr + r.size ≤ 2 ^ 63

-- The block at `a` suits the region: `a` is the first aligned address in it, and what is left
-- behind the block is nothing or holds a node.
pub record IsFit (r : ListNode) (size align a : ℕ) : Type 0 where
  pub aligned : a % align ≡ 0
  pub inside : r.start_addr ≤ a
  pub first : (m : ℕ) → r.start_addr ≤ m → m % align ≡ 0 → a ≤ m
  pub ends : a + size ≤ r.start_addr + r.size
  pub excess : (a + size ≡ r.start_addr + r.size) ⊎ (a + size + node_size ≤ r.start_addr + r.size)

module _ (r : ListNode) (size align : ℕ) where
  pub alloc_from_region-IsFit :
      {a : ℕ} → alloc_from_region r size align ≡ ok (some a) → IsFit r size align a
  unfolding alloc_from_region
  alloc_from_region-IsFit {a} h =
      let (start, e, k) = >>=-eq-ok (align_up r.start_addr align) _ h in
      let least = align_up-least r.start_addr align e in
      let same : start ≡ a = ground arith in
      record {
        aligned = rw (← same) least.0;
        inside = rw (← same) least.1;
        first = rw (← same) least.3;
        ends = ground arith;
        excess = ground arith;
      }

  pub alloc_from_region-none :
      (a : ℕ) → IsRegion r → alloc_from_region r size align ≡ ok none → ¬ IsFit r size align a
  unfolding alloc_from_region
  alloc_from_region-none a v h fit =
      let (start, e, k) = >>=-eq-ok (align_up r.start_addr align) _ h in
      let least = align_up-least r.start_addr align e in
      let same : start ≡ a =
        omega (arith, least.3 a fit.inside fit.aligned, fit.first start least.1 least.0) in
      ground (arith, v.low, fit.ends, fit.excess)

  pub alloc_from_region_returns :
      IsRegion r → 0 < align → align ≤ 2 ^ 63 → alloc_from_region r size align ≢ panic
  unfolding alloc_from_region
  alloc_from_region_returns v pos low =
      let (start, e) = align_up_total r.start_addr align pos (omega (arith, v.low)) in
      ground (arith, v.low)

-- No region of the list has a fit.
abbrev pub NoneFit : ℕ → ℕ → List ListNode → Type 0
NoneFit size align = All (λ r. (a : ℕ) → ¬ IsFit r size align a)

-- First fit: the regions before the chosen one do not suit, and exactly that one is taken out.
pub record IsFirstFit (rs : List ListNode) (size align : ℕ) (f : Found) : Type 0 where
  pub before : List ListNode
  pub after : List ListNode
  pub whole : rs ≡ before ++ f.region ∷ after
  pub rest : f.left ≡ before ++ after
  pub fits : IsFit f.region size align f.alloc_start
  pub passed : NoneFit size align before

-- What the search says of the list.
abbrev pub Searched : List ListNode → ℕ → ℕ → Option Found → Type 0
Searched rs size align none = NoneFit size align rs
Searched rs size align (some f) = IsFirstFit rs size align f

module _ (size align : ℕ) where
  later-Searched :
      (r : ListNode) (rs : List ListNode) (o : Option Found)
      → ((a : ℕ) → ¬ IsFit r size align a)
      → Searched rs size align o
      → Searched
          (r ∷ rs)
          size
          align
          (elim o [ some f ↦ some (record f { left = r ∷ f.left }) | none ↦ none ])
  later-Searched r rs none miss s = (miss, s)
  later-Searched r rs (some f) miss s = record {
    before = r ∷ s.before;
    after = s.after;
    whole = ap (◌∷◌ r) s.whole;
    rest = ap (◌∷◌ r) s.rest;
    fits = s.fits;
    passed = (miss, s.passed);
  }

  -- For every list of regions, and an alignment from 1 to 2 ^ 63, the search returns a first fit,
  -- or nothing if no region has one.
  pub find_region-Searched :
      (rs : List ListNode)
      → All IsRegion rs
      → 0 < align
      → align ≤ 2 ^ 63
      → (o : Option Found) × (find_region rs size align ≡ ok o) × Searched rs size align o
  unfolding find_region
  find_region-Searched [] v pos low = (none, refl, tt)
  find_region-Searched (r ∷ rs) v pos low =
      let (o, e) = ok_of_ne-panic _ (alloc_from_region_returns r size align v.0 pos low) in
      elim (Option-cases o) [
        | inr (a, is) ↦ (
          some (record { region = r; alloc_start = a; left = rs }),
          ground arith,
          record {
            before = [];
            after = rs;
            whole = refl;
            rest = refl;
            fits = alloc_from_region-IsFit r size align (e ∙ ap ok is);
            passed = tt;
          },
        )
        | inl is ↦
            let (later, k, s) = find_region-Searched rs v.1 pos low in
            (
              elim later [ some f ↦ some (record f { left = r ∷ f.left }) | none ↦ none ],
              ground arith,
              later-Searched r rs later
                  (λ a. alloc_from_region-none r size align a v.0 (e ∙ ap ok is)) s,
            )
      ]
