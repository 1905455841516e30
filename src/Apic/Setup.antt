-- ===== src/Apic/Setup.antt =====
-- How the two controllers are found and mapped: kernel/src/interrupts/apic/local.rs, io.rs and mod.rs.
pub mod Registers
mod Examples
use nocciolo.Base.{
  ℕ, zero, suc, ◌+◌, ◌%◌, ◌==◌, not, Bool, Outcome, ok, ◌>>=◌, ◌>>◌, assert, unwrap, add_in, Option,
  none, some, List, [], ◌∷◌,
}
use nocciolo.Memory.X86.{X86}
use nocciolo.Memory.Mapping.{Paging, map_physical_region}
use nocciolo.Apic.Local as Local
use nocciolo.Apic.Io.Table.{
  Window, IoApic, read_redirection_entry_count, read_version, read_entry, map,
  map_all_to_spurious_vectors,
}

-- `MadtEntry` of the crate `acpi`: the entries that are read.
pub data MadtEntry : Type 0 where
  local_apic_address_override : ℕ → MadtEntry
  io_apic : ℕ → MadtEntry
  other : MadtEntry

-- The first override of the address of the local APIC.
pub first_override : List MadtEntry → Option ℕ
first_override [] = none
first_override (local_apic_address_override addr ∷ entries) = some addr
first_override (io_apic addr ∷ entries) = first_override entries
first_override (other ∷ entries) = first_override entries

-- On the table, if there is one, and the model-specific register.
pub find_local_apic_base : Option (List MadtEntry) → ℕ → ℕ
unfolding first_override
find_local_apic_base none msr = msr
find_local_apic_base (some entries) msr = elim (first_override entries) [
  | some addr ↦ addr
  | none ↦ msr
]

pub first_io_apic : List MadtEntry → Option ℕ
first_io_apic [] = none
first_io_apic (io_apic addr ∷ entries) = some addr
first_io_apic (local_apic_address_override addr ∷ entries) = first_io_apic entries
first_io_apic (other ∷ entries) = first_io_apic entries

pub find_io_apic_base : Option (List MadtEntry) → Option ℕ
unfolding first_io_apic
find_io_apic_base none = none
find_io_apic_base (some entries) = first_io_apic entries

module _ (X : X86) where
  -- `LocalApic::from_addr`: the controller, the model-specific register and the page tables. The two
  -- bounds are computed for the log.
  pub local_from_addr : ℕ → Paging X → Outcome (Local.LocalApic × ℕ × Paging X)
  local_from_addr addr st = do
    (mapping, st') ← map_physical_region X addr 0x800 st
    let this : Local.LocalApic = record {
      virtual_start = mapping.virtual_start;
      mapped_length = mapping.mapped_length;
    }
    _ ← Local.offset_to_addr this 0
    _ ← Local.get_mapped_end this
    ok (this, addr, st')

  -- `LocalApic::new`, less the warning about the memory map.
  pub local_new : Option (List MadtEntry) → ℕ → Paging X → Outcome (Local.LocalApic × ℕ × Paging X)
  unfolding find_local_apic_base local_from_addr
  local_new madt msr st = do
    addr ← X.phys_new (find_local_apic_base madt msr)
    local_from_addr addr st

  module _ {S : Type 0} (W : Window S) where
    -- `IOApic::from_addr`.
    pub io_from_addr : ℕ → Paging X → S → Outcome (IoApic × Paging X × S)
    io_from_addr addr st s = do
      (mapping, st') ← map_physical_region X addr 0x400 st
      assert (addr % 4096 == 0)
      (last, s') ← read_redirection_entry_count W s
      count ← add_in 8 last 1
      assert (not (count == 0))
      ok (record { redirection_entry_count = count }, st', s')

    -- `IOApic::new`: the controller, and where an end of interrupt is written.
    pub io_new :
        Option (List MadtEntry)
        → Local.LocalApic
        → Paging X
        → S
        → Outcome (IoApic × ℕ × Paging X × S)
    unfolding find_io_apic_base io_from_addr
    io_new madt local st s = do
      eoi_addr ← Local.offset_to_addr local 0xB0
      base ← unwrap (find_io_apic_base madt)
      addr ← X.phys_new base
      (this, st', s') ← io_from_addr addr st s
      ok (this, eoi_addr, st', s')

module _ {S : Type 0} (W : Window S) where
  -- The loop that logs the entries, so many of them from an index on.
  pub log_entries : ℕ → ℕ → IoApic → S → Outcome S
  log_entries zero index this s = ok s
  log_entries (suc n) index this s = do
    (_, s') ← read_entry W this index s
    log_entries n (suc index) this s'

  -- `IOApic::initialize`.
  pub io_initialize : IoApic → S → Outcome S
  unfolding log_entries
  io_initialize this s0 = do
    (_, s1) ← read_version W s0
    s2 ← map W this 2 39 s1
    s3 ← map_all_to_spurious_vectors W this s2
    log_entries this.redirection_entry_count 0 this s3
