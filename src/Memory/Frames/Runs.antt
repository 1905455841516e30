-- ===== src/Memory/Frames/Runs.antt =====
-- Any number of frames from the frame allocator: all usable, and no two the same.
use nocciolo.Base.{
  ℕ, zero, suc, ◌+◌, ◌-◌, ◌*◌, ◌%◌, ◌^◌, ◌≤◌, ◌<◌, ◌≡◌, ◌⊎◌, inl, inr, refl, ap, sym, subst, ◌∙◌,
  Outcome, ok, ◌>>=◌, add_in, true, Bool-cases, Option, none, some, List, [], ◌∷◌, take, drop,
  All-take, All-drop, Pairs-take, Pairs-drop, arith, All, All_mono, Pairs, All-append, Pairs-append,
}
use nocciolo.Alloc.Ranges.{Range, Apart}
use nocciolo.Memory.X86.{X86, IsX86}
use nocciolo.Memory.Frames.{
  MemoryRegion, BootInfoFrameAllocator, steps, step_by_page, frame_addresses, frame_at, nth_frame,
  allocate_frame,
}

abbrev pub extent : MemoryRegion → Range
extent r = (r.start, r.end - r.start)

abbrev pub IsRegion : MemoryRegion → Type 0
IsRegion r = (r.start % 4096 ≡ 0) × (r.end % 4096 ≡ 0) × (r.start ≤ r.end) × (r.end ≤ 2 ^ 52)

-- Regions of whole pages, below the end of the physical address space, no two of which overlap.
pub record IsMemoryMap (rs : List MemoryRegion) : Type 0 where
  pub regions : All IsRegion rs
  pub apart : Pairs (λ r s. Apart (extent r) (extent s)) rs

-- A whole page of a usable region.
abbrev pub IsUsable : List MemoryRegion → ℕ → Type 0
IsUsable [] f = ⊥
IsUsable (r ∷ rs) f =
    ((r.usable ≡ true) × (f % 4096 ≡ 0) × (r.start ≤ f) × (f + 4096 ≤ r.end)) ⊎ IsUsable rs f

abbrev pub ApartFrames : ℕ → ℕ → Type 0
ApartFrames f g = Apart (f, 4096) (g, 4096)

abbrev Within : ℕ → ℕ → ℕ → Type 0
Within start end f = (f % 4096 ≡ 0) × (start ≤ f) × (f + 4096 ≤ end)

steps-Within :
    (count start end : ℕ)
    → start % 4096 ≡ 0
    → start + count * 4096 ≤ end
    → All (Within start end) (steps count start)
unfolding steps
steps-Within zero start end h room = tt
steps-Within (suc count) start end h room = (
  (h, omega arith, omega arith),
  All_mono (λ f w. (w.0, omega (arith, w.1), w.2)) (steps count (start + 4096))
      (steps-Within count (start + 4096) end (omega arith) (omega arith)),
)

steps-Pairs : (count start : ℕ) → start % 4096 ≡ 0 → Pairs ApartFrames (steps count start)
unfolding steps
steps-Pairs zero start h = tt
steps-Pairs (suc count) start h = (
  All_mono (λ f w. inl (w.1)) (steps count (start + 4096))
      (steps-Within count (start + 4096) (start + 4096 + count * 4096) (omega arith) (omega arith)),
  steps-Pairs count (start + 4096) (omega arith),
)

page-Within :
    (r : MemoryRegion) → IsRegion r → All (Within r.start r.end) (step_by_page r.start r.end)
unfolding step_by_page
page-Within r v = steps-Within _ r.start r.end v.0 (omega (arith, v))

-- A frame of one region is apart from the usable frames of the regions after it.
Apart-later :
    (r : MemoryRegion) (f g : ℕ) (rs : List MemoryRegion)
    → Within r.start r.end f
    → All IsRegion rs
    → All (λ s. Apart (extent r) (extent s)) rs
    → IsUsable rs g
    → ApartFrames f g
Apart-later r f g [] w v a u = absurd u
Apart-later r f g (s ∷ rs) w v a (inl u) = omega (arith, w, v.0, a.0, u)
Apart-later r f g (s ∷ rs) w v a (inr u) = Apart-later r f g rs w v.1 a.1 u

frame_addresses-IsUsable :
    (rs : List MemoryRegion) → All IsRegion rs → All (IsUsable rs) (frame_addresses rs)
unfolding frame_addresses
frame_addresses-IsUsable [] v = tt
frame_addresses-IsUsable (r ∷ rs) v = elim (Bool-cases r.usable) [
  | inl is ↦ rw is (
      All-append _ (step_by_page r.start r.end) (frame_addresses rs)
        (All_mono (λ f w. inl (refl, w.0, w.1, w.2)) (step_by_page r.start r.end)
          (page-Within r v.0))
        (All_mono (λ f u. inr u) (frame_addresses rs) (frame_addresses-IsUsable rs v.1)))
  | inr is ↦ rw is (All_mono (λ f u. inr u) (frame_addresses rs) (frame_addresses-IsUsable rs v.1))
]

frame_addresses-Pairs :
    (rs : List MemoryRegion)
    → All IsRegion rs
    → Pairs (λ r s. Apart (extent r) (extent s)) rs
    → Pairs ApartFrames (frame_addresses rs)
unfolding frame_addresses
frame_addresses-Pairs [] v a = tt
frame_addresses-Pairs (r ∷ rs) v a = elim (Bool-cases r.usable) [
  | inl is ↦ rw is (
      Pairs-append ApartFrames (step_by_page r.start r.end) (frame_addresses rs)
        (unfold step_by_page in steps-Pairs _ r.start v.0.0) (frame_addresses-Pairs rs v.1 a.1)
        (All_mono
          (λ f w.
            All_mono (λ g u. Apart-later r f g rs w v.1 a.0 u) (frame_addresses rs)
              (frame_addresses-IsUsable rs v.1))
          (step_by_page r.start r.end) (page-Within r v.0)))
  | inr is ↦ rw is (frame_addresses-Pairs rs v.1 a.1)
]

IsUsable-low :
    (rs : List MemoryRegion) (f : ℕ)
    → All IsRegion rs
    → IsUsable rs f
    → (f % 4096 ≡ 0) × (f + 4096 ≤ 2 ^ 52)
IsUsable-low [] f v u = absurd u
IsUsable-low (r ∷ rs) f v (inl u) = omega (arith, v.0, u)
IsUsable-low (r ∷ rs) f v (inr u) = IsUsable-low rs f v.1 u

-- The frames that are still to come.
abbrev pub remaining : BootInfoFrameAllocator → List ℕ
remaining this = drop this.next (frame_addresses this.memory_regions)

-- The first of a list, if there is one.
abbrev pub first : List ℕ → Option ℕ
first [] = none
first (x ∷ xs) = some x

-- Taking one more from a position on.
take-drop :
    (n i : ℕ) (xs : List ℕ)
    → (elim (first (drop i xs)) [
      | some f ↦ f ∷ take n (drop (suc i) xs)
      | none ↦ take n (drop (suc i) xs)
    ])
      ≡ take (suc n) (drop i xs)
take-drop zero zero [] = refl
take-drop (suc n) zero [] = refl
take-drop n zero (x ∷ xs) = refl
take-drop zero (suc i) [] = refl
take-drop (suc n) (suc i) [] = refl
take-drop n (suc i) (x ∷ xs) = take-drop n i xs

take-drop_at :
    (n i j : ℕ) (xs : List ℕ)
    → j ≡ suc i
    → (elim (first (drop i xs)) [ some f ↦ f ∷ take n (drop j xs) | none ↦ take n (drop j xs) ])
      ≡ take (suc n) (drop i xs)
take-drop_at n i j xs e =
    subst
      (λ k.
        (elim (first (drop i xs)) as (λ _. List ℕ) [
          | some f ↦ f ∷ take n (drop k xs)
          | none ↦ take n (drop k xs)
        ])
        ≡ take (suc n) (drop i xs))
      (sym e) (take-drop n i xs)

module _ (X : X86) (x : IsX86 X) where
  nth_frame-first :
      (addrs : List ℕ) (n : ℕ)
      → All (λ f. (f % 4096 ≡ 0) × (f + 4096 ≤ 2 ^ 52)) addrs
      → nth_frame X addrs n ≡ ok (first (drop n addrs))
  unfolding nth_frame frame_at
  nth_frame-first [] zero v = refl
  nth_frame-first [] (suc n) v = refl
  nth_frame-first (f ∷ addrs) zero v =
      let low = x.phys_new-low f (omega (arith, v.0)) in
      let start : X.frame_containing f ≡ f = omega (arith, x.frame_containing-low f, v.0) in
      rw (low, start) refl
  nth_frame-first (f ∷ addrs) (suc n) v =
      let low = x.phys_new-low f (omega (arith, v.0)) in rw low (nth_frame-first addrs n v.1)

  -- One call yields the first of the frames that are to come.
  pub allocate_frame-first :
      (this : BootInfoFrameAllocator)
      → IsMemoryMap this.memory_regions
      → this.next + 1 < 2 ^ 64
      → allocate_frame X this ≡ ok (first (remaining this), record this { next = this.next + 1 })
  unfolding allocate_frame
  allocate_frame-first this v room =
      let usable = frame_addresses-IsUsable this.memory_regions v.regions in
      let nth = nth_frame-first (frame_addresses this.memory_regions) this.next (
        All_mono (λ f u. IsUsable-low this.memory_regions f v.regions u)
          (frame_addresses this.memory_regions) usable) in
      let sum : add_in 64 this.next 1 ≡ ok (this.next + 1) = ground arith in rw (nth, sum) refl

  -- So many calls, and the frames that they yielded.
  pub allocate_frames : ℕ → BootInfoFrameAllocator → Outcome (List ℕ × BootInfoFrameAllocator)
  allocate_frames zero this = ok ([], this)
  allocate_frames (suc n) this = do
    (frame, this') ← allocate_frame X this
    (frames, this'') ← allocate_frames n this'
    ok ((elim frame [ some f ↦ f ∷ frames | none ↦ frames ]), this'')

  -- On a memory map of whole, separate regions, any number of calls returns, and yields the frames
  -- that are to come, in order.
  allocate_frames-take :
      (n : ℕ) (this : BootInfoFrameAllocator)
      → IsMemoryMap this.memory_regions
      → this.next + n < 2 ^ 64
      → allocate_frames n this ≡ ok (take n (remaining this), record this { next = this.next + n })
  unfolding allocate_frames
  allocate_frames-take zero this v room = ap (λ k. ok ([], record this { next = k })) (omega arith)
  allocate_frames-take (suc n) this v room =
      let this' = record this { next = this.next + 1 } in
      let one = allocate_frame-first this v (omega arith) in
      let taken =
        take-drop_at n this.next (this.next + 1) (frame_addresses this.memory_regions)
          (omega arith) in
      let more = allocate_frames-take n this' v (omega arith) in
      rw (one, more)
        (ap (λ fs. ok (fs, record this { next = this.next + 1 + n })) taken
          ∙ ap (λ k. ok (take (suc n) (remaining this), record this { next = k })) (omega arith))

  -- On a memory map of whole, separate regions below 2 ^ 52, any number of calls of allocate_frame,
  -- up to the wrap of its counter, returns, and the frames that they yield are whole pages of
  -- usable regions, no two of them overlapping.
  pub allocate_frames-Apart :
      (n : ℕ) (this : BootInfoFrameAllocator)
      → IsMemoryMap this.memory_regions
      → this.next + n < 2 ^ 64
      → (frames : List ℕ) × (this' : BootInfoFrameAllocator) × (allocate_frames n this
          ≡ ok (frames, this'))
        × All (IsUsable this.memory_regions) frames
        × Pairs ApartFrames frames
  allocate_frames-Apart n this v room = (
    take n (remaining this),
    record this { next = this.next + n },
    allocate_frames-take n this v room,
    All-take _ n (remaining this) (
        All-drop _ this.next (frame_addresses this.memory_regions)
          (frame_addresses-IsUsable this.memory_regions v.regions)),
    Pairs-take _ n (remaining this) (
        Pairs-drop _ this.next (frame_addresses this.memory_regions)
          (frame_addresses-Pairs this.memory_regions v.regions v.apart)),
  )
