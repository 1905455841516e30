-- ===== src/Memory/Translate.antt =====
-- `translate_addr` of kernel/src/memory.rs: the walk through the page tables.
use nocciolo.Base.{ℕ, Outcome, ok, panic, ◌>>=◌, Option, none, some, List, [], ◌∷◌}

-- What `PageTableEntry::frame` yields.
pub data FrameResult : Type 0 where
  present : ℕ → FrameResult
  not_present : FrameResult
  huge_frame : FrameResult

-- The crate `x86_64`, as a parameter: the entry at an index of the table at a virtual address, the
-- register `Cr3`, and the parts of an address.
pub record Tables : Type 0 where
  pub level_4_table_frame : ℕ
  pub entry : ℕ → ℕ → FrameResult
  pub virt_add : ℕ → ℕ → Outcome ℕ
  pub phys_add : ℕ → ℕ → Outcome ℕ
  pub p4_index : ℕ → ℕ
  pub p3_index : ℕ → ℕ
  pub p2_index : ℕ → ℕ
  pub p1_index : ℕ → ℕ
  pub page_offset : ℕ → ℕ

module _ (T : Tables) where
  -- One entry: the next frame, if it is present.
  pub frame_of : FrameResult → Outcome (Option ℕ)
  frame_of (present frame) = ok (some frame)
  frame_of not_present = ok none
  frame_of huge_frame = panic

  -- The loop over the indexes.
  pub walk : List ℕ → ℕ → ℕ → Outcome (Option ℕ)
  unfolding frame_of
  walk [] physical_memory_offset frame = ok (some frame)
  walk (index ∷ indexes) physical_memory_offset frame = do
    virt ← T.virt_add physical_memory_offset frame
    next ← frame_of (T.entry virt index)
    elim next [ none ↦ ok none | some frame' ↦ walk indexes physical_memory_offset frame' ]

  pub translate_addr : ℕ → ℕ → Outcome (Option ℕ)
  unfolding walk
  translate_addr addr physical_memory_offset = do
    let indexes = T.p4_index addr ∷ T.p3_index addr ∷ T.p2_index addr ∷ T.p1_index addr ∷ []
    frame ← walk indexes physical_memory_offset T.level_4_table_frame
    elim frame [
      | none ↦ ok none
      | some frame' ↦ do address ← T.phys_add frame' (T.page_offset addr); ok (some address)
    ]
