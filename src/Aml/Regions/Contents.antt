-- ===== src/Aml/Regions/Contents.antt =====
-- What AML code reads and writes is what stands at the physical address.
use nocciolo.Base.{
  ℕ, ◌+◌, ◌*◌, ◌%◌, ◌^◌, ◌≤◌, ◌<◌, ◌≡◌, ◌≢◌, ◌⊎◌, inl, inr, ap, refl, ◌∙◌, ◌==◌, ok, panic, some,
  false, arith,
}
use nocciolo.Memory.X86.{X86, IsX86, IsPaging}
use nocciolo.Memory.Mapping.{Paging}
use nocciolo.Memory.Mapping.Region.{page_count, IsReady, address_of}
use nocciolo.Memory.Mapping.Unmap.{map_unmap}
use nocciolo.Aml.Regions.{Cpu, aml_read, aml_write}

-- The sizes of the values that AML code reads and writes.
abbrev pub IsWidth : ℕ → Type 0
IsWidth size = (size ≡ 1) ⊎ ((size ≡ 2) ⊎ ((size ≡ 4) ⊎ (size ≡ 8)))

-- The pages of the mapping do not change the alignment of an address.
width-aligned :
    (size page address : ℕ)
    → IsWidth size
    → page % 4096 ≡ 0
    → (page + address % 4096) % size ≡ address % size
width-aligned size page address (inl e) h = rw e (omega arith)
width-aligned size page address (inr (inl e)) h = rw e (omega arith)
width-aligned size page address (inr (inr (inl e))) h = rw e (omega arith)
width-aligned size page address (inr (inr (inr e))) h = rw e (omega arith)

width-positive : (size : ℕ) → IsWidth size → 0 < size
width-positive size (inl e) = omega arith
width-positive size (inr (inl e)) = omega arith
width-positive size (inr (inr (inl e))) = omega arith
width-positive size (inr (inr (inr e))) = omega arith

module _ (X : X86) (x : IsX86 X) (P : IsPaging X) (C : Cpu X) where
  -- A virtual range that the tables map, byte by byte, to a physical one holds what that holds.
  pub record IsCpu : Type 0 where
    pub contents : ℕ → ℕ → C.Ram → ℕ
    pub change : ℕ → ℕ → ℕ → C.Ram → C.Ram
    pub load-mapped :
        (st : Paging X) (m : X.Mapper) (size virt phys : ℕ) (ram : C.Ram)
        → st.mapper ≡ some m
        → ((j : ℕ) → j < size → address_of X x P m (virt + j) ≡ some (phys + j))
        → C.load st size virt ram ≡ contents size phys ram
    pub store-mapped :
        (st : Paging X) (m : X.Mapper) (size virt phys value : ℕ) (ram : C.Ram)
        → st.mapper ≡ some m
        → ((j : ℕ) → j < size → address_of X x P m (virt + j) ≡ some (phys + j))
        → C.store st size virt value ram ≡ change size phys value ram

  module _ (D : IsCpu) where
    -- The statics are ready again, and every page translates as before.
    pub record Restored (limit n : ℕ) (m : X.Mapper) (st : Paging X) : Type 0 where
      pub mapper : X.Mapper
      pub ready : IsReady X x P limit n st mapper
      pub pages : (q : ℕ) → q % 4096 ≡ 0 → P.translate mapper q ≡ P.translate m q

    -- A read by AML code of one, two, four or eight bytes at an aligned address, below the end of
    -- the physical address space and with room and frames for a mapping, returns what stands at the
    -- physical address, with every page translating as before and the statics ready for more.
    pub aml_read-contents :
        (size address limit n : ℕ) (st : Paging X) (m : X.Mapper) (ram : C.Ram)
        → IsWidth size
        → address % size ≡ 0
        → address + size + 8192 ≤ 2 ^ 52
        → st.next_page + page_count address size * 4096 ≤ limit
        → limit + 4096 < 2 ^ 47
        → IsReady X x P limit (page_count address size * 3 + n) st m
        → (st' : Paging X) × (aml_read X C size address st ram
            ≡ ok (D.contents size address ram, st'))
          × Restored limit n m st'
          × (st'.next_page ≡ st.next_page + page_count address size * 4096)
    unfolding aml_read
    aml_read-contents size address limit n st m ram width even low room bound r =
        let (region, st', st'', m'', mapped, M, unmapped, ready, next, pages) =
          map_unmap X x P limit address size n st m (width-positive size width) low room bound r in
        let aligned : region.virtual_start % size ≡ 0 =
          ap (λ v. v % size) M.virtual_start
          ∙ width-aligned size st.next_page address width r.aligned
          ∙ even in
        let value =
          D.load-mapped st' M.mapper size region.virtual_start address ram M.ready.mapper_is
            M.bytes in
        (
          st'',
          rw (mapped, aligned, unmapped) (ap (λ v. ok (v, st'')) value),
          record { mapper = m''; ready = ready; pages = pages },
          next,
        )

    pub aml_write-changes :
        (size address value limit n : ℕ) (st : Paging X) (m : X.Mapper) (ram : C.Ram)
        → IsWidth size
        → address % size ≡ 0
        → address + size + 8192 ≤ 2 ^ 52
        → st.next_page + page_count address size * 4096 ≤ limit
        → limit + 4096 < 2 ^ 47
        → IsReady X x P limit (page_count address size * 3 + n) st m
        → (st' : Paging X) × (aml_write X C size address value st ram
            ≡ ok (D.change size address value ram, st'))
          × Restored limit n m st'
          × (st'.next_page ≡ st.next_page + page_count address size * 4096)
    unfolding aml_write
    aml_write-changes size address value limit n st m ram width even low room bound r =
        let (region, st', st'', m'', mapped, M, unmapped, ready, next, pages) =
          map_unmap X x P limit address size n st m (width-positive size width) low room bound r in
        let aligned : region.virtual_start % size ≡ 0 =
          ap (λ v. v % size) M.virtual_start
          ∙ width-aligned size st.next_page address width r.aligned
          ∙ even in
        let ram' =
          D.store-mapped st' M.mapper size region.virtual_start address value ram M.ready.mapper_is
            M.bytes in
        (
          st'',
          rw (mapped, aligned, unmapped) (ap (λ v. ok (v, st'')) ram'),
          record { mapper = m''; ready = ready; pages = pages },
          next,
        )

    -- With debug assertions, a read at an address that the size does not divide panics.
    pub aml_read-misaligned :
        (size address limit n : ℕ) (st : Paging X) (m : X.Mapper) (ram : C.Ram)
        → IsWidth size
        → address % size ≢ 0
        → address + size + 8192 ≤ 2 ^ 52
        → st.next_page + page_count address size * 4096 ≤ limit
        → limit + 4096 < 2 ^ 47
        → IsReady X x P limit (page_count address size * 3 + n) st m
        → aml_read X C size address st ram ≡ panic
    unfolding aml_read
    aml_read-misaligned size address limit n st m ram width odd low room bound r =
        let (region, st', st'', m'', mapped, M, unmapped, ready, next, pages) =
          map_unmap X x P limit address size n st m (width-positive size width) low room bound r in
        let same : region.virtual_start % size ≡ address % size =
          ap (λ v. v % size) M.virtual_start
          ∙ width-aligned size st.next_page address width r.aligned in
        let misaligned : (region.virtual_start % size == 0) ≡ false = ground arith in
        rw (mapped, misaligned) refl
