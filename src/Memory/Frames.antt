-- ===== src/Memory/Frames.antt =====
-- kernel/src/memory.rs, `BootInfoFrameAllocator`: frames from the memory map of the boot loader.
pub mod Runs
use nocciolo.Base.{
  ℕ, zero, suc, ◌+◌, ◌-◌, ◌*◌, ◌/◌, ◌≡◌, ◌==◌, Outcome, ok, ◌>>=◌, add_in, if◌then◌else◌, Bool,
  Option, none, some, List, [], ◌∷◌, ◌++◌,
}
use nocciolo.Memory.X86.{X86}

-- `MemoryRegion`; `usable` says whether its kind is `Usable`.
pub record MemoryRegion : Type 0 where
  pub start : ℕ
  pub end : ℕ
  pub usable : Bool

pub record BootInfoFrameAllocator : Type 0 where
  pub memory_regions : List MemoryRegion
  pub next : ℕ

unfoldable pub init : List MemoryRegion → BootInfoFrameAllocator
init memory_regions = record { memory_regions = memory_regions; next = 0 }

-- `(start..end).step_by(4096)`: so many addresses, from `start` on.
unfoldable pub steps : ℕ → ℕ → List ℕ
steps zero start = []
steps (suc count) start = start ∷ steps count (start + 4096)

unfoldable pub step_by_page : ℕ → ℕ → List ℕ
unfolding steps
step_by_page start end = steps ((end - start + 4095) / 4096) start

-- The start addresses of all usable regions, before they are made frames.
unfoldable pub frame_addresses : List MemoryRegion → List ℕ
unfolding step_by_page
frame_addresses [] = []
frame_addresses (r ∷ rs) =
    let rest = frame_addresses rs in if r.usable then step_by_page r.start r.end ++ rest else rest

module _ (X : X86) where
  -- The last step of the iterator, for one address.
  pub frame_at : ℕ → Outcome ℕ
  frame_at addr = do phys ← X.phys_new addr; ok (X.frame_containing phys)

  -- `nth` of the iterator, which makes every frame up to the one that it yields.
  pub nth_frame : List ℕ → ℕ → Outcome (Option ℕ)
  unfolding frame_at
  nth_frame [] n = ok none
  nth_frame (addr ∷ rest) zero = do frame ← frame_at addr; ok (some frame)
  nth_frame (addr ∷ rest) (suc n) = do _ ← frame_at addr; nth_frame rest n

  pub allocate_frame : BootInfoFrameAllocator → Outcome (Option ℕ × BootInfoFrameAllocator)
  unfolding nth_frame frame_addresses
  allocate_frame this = do
    frame ← nth_frame (frame_addresses this.memory_regions) this.next
    next ← add_in 64 this.next 1
    ok (frame, record this { next = next })

  -- The loop of `allocate_frame_from_physical` over the frames.
  pub find_frame : List ℕ → ℕ → Outcome (Option ℕ)
  unfolding frame_at
  find_frame [] ptr = ok none
  find_frame (addr ∷ rest) ptr = do
    frame ← frame_at addr
    let later = find_frame rest ptr
    if frame == ptr then ok (some frame) else later

  pub allocate_frame_from_physical : BootInfoFrameAllocator → ℕ → Outcome (Option ℕ)
  unfolding find_frame frame_addresses
  allocate_frame_from_physical this ptr =
      find_frame (frame_addresses this.memory_regions) (X.phys_align_down ptr)
