-- ===== src/Acpi/Refused.antt =====
-- A root pointer that is not valid: the set-up of ACPI gives back what it mapped.
use nocciolo.Base.{ℕ, ◌+◌, ◌*◌, ◌%◌, ◌^◌, ◌≤◌, ◌<◌, ◌≡◌, refl, ok, some}
use nocciolo.Memory.X86.{X86, IsX86, IsPaging}
use nocciolo.Memory.Mapping.{Paging, PhysicalMapping}
use nocciolo.Memory.Mapping.Region.{page_count, IsReady, Maps}
use nocciolo.Memory.Mapping.Unmap.{map_unmap}
use nocciolo.Power.Firmware.{err}
use nocciolo.Aml.Regions.{Cpu}
use nocciolo.Aml.Tables.{Interpreter}
use nocciolo.Acpi.{AcpiCrate, AcpiData, find_rsdp, find_rsdp_on_uefi, use_rsdp, use_valid, init}

module _ (I : Interpreter) (X : X86) (x : IsX86 X) (P : IsPaging X) (C : Cpu X)
    (T : AcpiCrate I X C.Ram) where
  -- Where the boot loader gave the address of a root pointer, in range and with room and frames for
  -- its mapping, and the pointer is not valid however it is mapped, the set-up of ACPI returns with
  -- the ACPI data as they were, every page translating as before and the statics ready for more.
  pub init-refused :
      (limit addr n : ℕ) (old : AcpiData I X C T) (st : Paging X) (m : X.Mapper) (ram : C.Ram)
      → 0 < T.rsdp_size
      → addr + T.rsdp_size + 8192 ≤ 2 ^ 52
      → st.next_page + page_count addr T.rsdp_size * 4096 ≤ limit
      → limit + 4096 < 2 ^ 47
      → IsReady X x P limit (page_count addr T.rsdp_size * 3 + n) st m
      → ((rsdp : PhysicalMapping) (st' : Paging X)
          → Maps X x P limit addr T.rsdp_size n st m rsdp st'
          → (e : I.AcpiError) × (T.validate rsdp st' ram ≡ err e))
      → (st' : Paging X) × (m' : X.Mapper) × (init I X C T (some addr) old st ram ≡ ok (old, st'))
        × IsReady X x P limit n st' m'
        × ((q : ℕ) → q % 4096 ≡ 0 → P.translate m' q ≡ P.translate m q)
  unfolding init find_rsdp find_rsdp_on_uefi use_rsdp use_valid
  init-refused limit addr n old st m ram some_bytes low room bound r wrong =
      let (rsdp, st1, st2, m2, mapped, M, unmapped, ready, next, pages) =
        map_unmap X x P limit addr T.rsdp_size n st m some_bytes low room bound r in
      let (e, refused) = wrong rsdp st1 M in
      (st2, m2, rw (mapped, refused, unmapped) refl, ready, pages)
