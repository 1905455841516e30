-- ===== src/Aml/Regions.antt =====
-- `NoccioloAmlHandler` on memory: a value is read or written through a mapping that is made for it,
-- and that the crate `acpi` unmaps when it is dropped. The pointer is dereferenced, which with debug
-- assertions panics on an address that the value's size does not divide.
pub mod Contents
pub mod Processor
mod Examples
use nocciolo.Base.{ℕ, ◌%◌, ◌==◌, Outcome, ok, ◌>>=◌, ◌>>◌, assert}
use nocciolo.Memory.X86.{X86}
use nocciolo.Memory.Mapping.{Paging, map_physical_region, unmap_physical_region}

-- The load and store instructions, as a parameter: so many bytes at a virtual address, through the
-- page tables, from and to memory.
pub record Cpu (X : X86) : Type 1 where
  pub Ram : Type 0
  pub load : Paging X → ℕ → ℕ → Ram → ℕ
  pub store : Paging X → ℕ → ℕ → ℕ → Ram → Ram

module _ (X : X86) (C : Cpu X) where
  pub aml_read : ℕ → ℕ → Paging X → C.Ram → Outcome (ℕ × Paging X)
  aml_read size address st ram = do
    (mapping, st') ← map_physical_region X address size st
    assert (mapping.virtual_start % size == 0)
    let value = C.load st' size mapping.virtual_start ram
    st'' ← unmap_physical_region X mapping st'
    ok (value, st'')

  pub aml_write : ℕ → ℕ → ℕ → Paging X → C.Ram → Outcome (C.Ram × Paging X)
  aml_write size address value st ram = do
    (mapping, st') ← map_physical_region X address size st
    assert (mapping.virtual_start % size == 0)
    let ram' = C.store st' size mapping.virtual_start value ram
    st'' ← unmap_physical_region X mapping st'
    ok (ram', st'')

  pub read_u8 : ℕ → Paging X → C.Ram → Outcome (ℕ × Paging X)
  unfolding aml_read
  read_u8 address st ram = aml_read 1 address st ram

  pub read_u16 : ℕ → Paging X → C.Ram → Outcome (ℕ × Paging X)
  unfolding aml_read
  read_u16 address st ram = aml_read 2 address st ram

  pub read_u32 : ℕ → Paging X → C.Ram → Outcome (ℕ × Paging X)
  unfolding aml_read
  read_u32 address st ram = aml_read 4 address st ram

  pub read_u64 : ℕ → Paging X → C.Ram → Outcome (ℕ × Paging X)
  unfolding aml_read
  read_u64 address st ram = aml_read 8 address st ram

  pub write_u8 : ℕ → ℕ → Paging X → C.Ram → Outcome (C.Ram × Paging X)
  unfolding aml_write
  write_u8 address value st ram = aml_write 1 address value st ram

  pub write_u16 : ℕ → ℕ → Paging X → C.Ram → Outcome (C.Ram × Paging X)
  unfolding aml_write
  write_u16 address value st ram = aml_write 2 address value st ram

  pub write_u32 : ℕ → ℕ → Paging X → C.Ram → Outcome (C.Ram × Paging X)
  unfolding aml_write
  write_u32 address value st ram = aml_write 4 address value st ram

  pub write_u64 : ℕ → ℕ → Paging X → C.Ram → Outcome (C.Ram × Paging X)
  unfolding aml_write
  write_u64 address value st ram = aml_write 8 address value st ram
