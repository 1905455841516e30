-- ===== src/Apic/Setup/Registers.antt =====
-- Where the registers of the local APIC are once it is mapped.
use nocciolo.Base.{
  ℕ, ◌+◌, ◌-◌, ◌*◌, ◌%◌, ◌^◌, ◌≤◌, ◌<◌, ◌≡◌, refl, ap, sym, subst, ◌∙◌, ok, some, arith,
}
use nocciolo.Memory.X86.{X86, IsX86, IsPaging}
use nocciolo.Memory.Mapping.{Paging, PhysicalMapping, map_physical_region}
use nocciolo.Memory.Mapping.Region.{
  IsReady, map_physical_region-Maps, address_of, address_of-some, page_count,
}
use nocciolo.Apic.Local as Local
use nocciolo.Apic.Local.Access.{
  IsMapped, register_to_addr_lem, register_offset-lt, get_mapped_end_lem,
}
use nocciolo.Apic.Setup.{local_from_addr}

two_pages : (base : ℕ) → base % 4096 ≡ 0 → page_count (base + 0x900) 0x800 ≡ 2
two_pages base aligned = omega arith

module _ (X : X86) (x : IsX86 X) (P : IsPaging X) where
  -- A mapping that is long enough.
  local_from_addr_lem :
      (addr : ℕ) (st st' : Paging X) (mapping : PhysicalMapping)
      → map_physical_region X addr 0x800 st ≡ ok (mapping, st')
      → (let this : Local.LocalApic = record {
        virtual_start = mapping.virtual_start;
        mapped_length = mapping.mapped_length;
      } in
          IsMapped this → local_from_addr X addr st ≡ ok (this, addr, st'))
  unfolding local_from_addr
  local_from_addr_lem addr st st' mapping mapped is =
      let (start, end) = get_mapped_end_lem _ is in rw (mapped, start, end) refl

  -- Mapped from a page-aligned base plus the 0x900 of the flags that the model-specific register
  -- holds with it, every register of the local APIC is accessed at an address that translates to
  -- the base plus its offset.
  pub local_from_addr-registers :
      (base limit n : ℕ) (st : Paging X) (m : X.Mapper)
      → base % 4096 ≡ 0
      → base + 0x900 + 0x800 + 8192 ≤ 2 ^ 52
      → st.next_page + 8192 ≤ limit
      → limit < 2 ^ 47
      → IsReady X x P limit (6 + n) st m
      → (this : Local.LocalApic) × (st' : Paging X) × (m' : X.Mapper) × (local_from_addr X
            (base + 0x900)
            st
          ≡ ok (this, base + 0x900, st'))
        × IsReady X x P limit n st' m'
        × ((r : Local.LocalApicRegister)
            → (v : ℕ) × (Local.register_to_addr this r ≡ ok v)
              × (address_of X x P m' v ≡ some (base + Local.register_offset r)))
  local_from_addr-registers base limit n st m aligned low room bound r =
      let two = two_pages base aligned in
      let ready : IsReady X x P limit (page_count (base + 0x900) 0x800 * 3 + n) st m =
        subst (λ k. IsReady X x P limit (k * 3 + n) st m) (sym two) r in
      let (mapping, st', mapped, M) =
        map_physical_region-Maps X x P limit (base + 0x900) 0x800 n st m (omega arith) low
          (omega (arith, two)) bound ready in
      let this : Local.LocalApic = record {
        virtual_start = mapping.virtual_start;
        mapped_length = mapping.mapped_length;
      } in
      let start : mapping.virtual_start ≡ st.next_page + 0x900 =
        omega (arith, M.virtual_start, aligned) in
      let is_mapped : IsMapped this = record {
        high = omega (arith, start);
        long = omega (arith, M.mapped_length, two);
        fits = omega (arith, start, M.mapped_length, two);
      } in
      (
        this,
        st',
        M.mapper,
        local_from_addr_lem (base + 0x900) st st' mapping mapped is_mapped,
        M.ready,
        λ reg.
            let offset = Local.register_offset reg in
            let low_offset = register_offset-lt reg in
            let v = this.virtual_start + offset - 0x900 in
            (
              v,
              register_to_addr_lem this reg is_mapped,
              address_of-some X x P M.mapper v (st.next_page + 0 * 4096) _
                    (M.pages 0 (omega (arith, two))) (omega (arith, start, low_offset, r.aligned))
                  ∙ ap some (omega (arith, start, low_offset, r.aligned, aligned)),
            ),
      )
