-- ===== src/Apic/Setup/Examples.antt =====
-- The local APIC at the address that the model-specific register of a processor holds after reset.
use nocciolo.Base.{ℕ, ◌+◌, ◌≡◌, refl, ok, Option, none, some, List, [], ◌∷◌, arith}
use nocciolo.Memory.Mapping.{Paging}
use nocciolo.Memory.Mapping.Region.{IsReady, address_of}
use nocciolo.Memory.Machine.{
  machine, machine-IsX86, machine-IsPaging, ready_state, ready_state-IsReady,
}
use nocciolo.Apic.Local as Local
use nocciolo.Apic.Setup.{
  MadtEntry, io_apic, local_apic_address_override, other, find_local_apic_base, find_io_apic_base,
  first_override, first_io_apic, local_from_addr,
}
use nocciolo.Apic.Setup.Registers.{local_from_addr-registers}

-- The first entry of its kind counts, and an override goes before the register.
abbrev entries : List MadtEntry
entries =
    other ∷ io_apic 0xFEC00000 ∷ local_apic_address_override 0xFEE01000 ∷ io_apic 0xFEC10000 ∷ []

bases :
    (find_io_apic_base (some entries) ≡ some 0xFEC00000)
    × (find_local_apic_base (some entries) 0xFEE00900 ≡ 0xFEE01000)
    × (find_local_apic_base none 0xFEE00900 ≡ 0xFEE00900)
unfolding find_io_apic_base find_local_apic_base first_override first_io_apic
bases = (refl, refl, refl)

local_from_addr-registers_example :
    (this : Local.LocalApic) × (st' : Paging machine) × (m' : ℕ → Option ℕ) × (local_from_addr
        machine 0xFEE00900 ready_state
      ≡ ok (this, 0xFEE00900, st'))
    × IsReady machine machine-IsX86 machine-IsPaging 0x444444440000 1 st' m'
    × ((r : Local.LocalApicRegister)
        → (v : ℕ) × (Local.register_to_addr this r ≡ ok v)
          × (address_of machine machine-IsX86 machine-IsPaging m' v
              ≡ some (0xFEE00000 + Local.register_offset r)))
local_from_addr-registers_example =
    local_from_addr-registers machine machine-IsX86 machine-IsPaging 0xFEE00000 0x444444440000 1
      ready_state (λ q. none) (omega arith) (omega arith) (omega arith) (omega arith)
      ready_state-IsReady
