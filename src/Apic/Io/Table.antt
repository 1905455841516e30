-- ===== src/Apic/Io/Table.antt =====
-- kernel/src/interrupts/apic/io.rs, `IOApic`: the accesses to its registers and the operations on
-- the redirection table.
pub mod Examples
pub mod Registers
pub mod Mapped
use nocciolo.Base.{
  ℕ, zero, suc, ◌+◌, ◌*◌, ◌/◌, ◌%◌, ◌^◌, bit_and, bit_or, Outcome, ok, panic, ◌>>=◌, ◌>>◌, assert,
  cast, ltb, Bool, true, false,
}
use nocciolo.Apic.Io.{
  IoApicRegister, IoApicRedirectionEntry, version, redirection_entry, register_as_u8,
  second_part_redir, decode_entry, encode_lo, encode_hi, unmasked, id, arbitration_id,
  manually_specified,
}

-- The two 32-bit words of the device that are used: one selects a register, the other is a window on
-- the register that is selected.
pub record Window (S : Type 0) : Type 0 where
  pub select : ℕ → S → S
  pub read : S → ℕ × S
  pub write : ℕ → S → S

pub record IoApic : Type 0 where
  pub redirection_entry_count : ℕ

pub is_redirection_entry : IoApicRegister → Bool
is_redirection_entry (redirection_entry index) = true
is_redirection_entry other = false

module _ {S : Type 0} (W : Window S) where
  pub select_register : IoApicRegister → S → Outcome S
  unfolding register_as_u8
  select_register reg s = do number ← register_as_u8 reg; ok (W.select number s)

  pub read_u32 : IoApicRegister → S → Outcome (ℕ × S)
  unfolding select_register
  read_u32 reg s = do selected ← select_register reg s; ok (W.read selected)

  pub write_u32 : IoApicRegister → ℕ → S → Outcome S
  unfolding select_register
  write_u32 reg value s = do selected ← select_register reg s; ok (W.write value selected)

  pub read_u64 : IoApicRegister → S → Outcome (ℕ × S)
  unfolding is_redirection_entry read_u32 second_part_redir
  read_u64 reg s = do
    assert (is_redirection_entry reg)
    (lo, s1) ← read_u32 reg s
    second ← second_part_redir reg
    (hi, s2) ← read_u32 second s1
    ok (bit_or lo (hi * 2 ^ 32), s2)

  pub write_u64 : IoApicRegister → ℕ → S → Outcome S
  unfolding is_redirection_entry write_u32 second_part_redir
  write_u64 reg value s = do
    assert (is_redirection_entry reg)
    let lo = bit_and value 0xffffffff
    let hi = bit_and (value / 2 ^ 32) 0xffffffff
    s1 ← write_u32 reg lo s
    second ← second_part_redir reg
    write_u32 second hi s1

  pub read_version : S → Outcome (ℕ × S)
  unfolding read_u32
  read_version s = do (value, s') ← read_u32 version s; ok (cast 8 (bit_and value 0xff), s')

  pub read_redirection_entry_count : S → Outcome (ℕ × S)
  unfolding read_u32
  read_redirection_entry_count s = do
    (value, s') ← read_u32 version s
    ok (cast 8 (bit_and (value / 2 ^ 16) 0xff), s')

  pub read_entry : IoApic → ℕ → S → Outcome (IoApicRedirectionEntry × S)
  unfolding read_u64
  read_entry this index s = do
    assert (ltb index this.redirection_entry_count)
    (value, s') ← read_u64 (redirection_entry index) s
    entry ← decode_entry value
    ok (entry, s')

  pub write_entry : IoApic → ℕ → IoApicRedirectionEntry → S → Outcome S
  unfolding write_u32 second_part_redir
  write_entry this index entry s = do
    assert (ltb index this.redirection_entry_count)
    s1 ← write_u32 (redirection_entry index) (encode_lo entry) s
    second ← second_part_redir (redirection_entry index)
    write_u32 second (encode_hi entry) s1

  pub map : IoApic → ℕ → ℕ → S → Outcome S
  unfolding read_entry write_entry
  map this index vector s = do
    (entry, s') ← read_entry this index s
    write_entry this index (record entry { mask = unmasked; vector = vector }) s'

  -- The loop of `map_all_to_spurious_vectors`, with `left` entries to go, from `index` on. The vector
  -- `SpuriousIoApic` is 39.
  pub map_from : IoApic → ℕ → ℕ → S → Outcome S
  unfolding map
  map_from this zero index s = ok s
  map_from this (suc left) index s = do s' ← map this index 39 s; map_from this left (index + 1) s'

  pub map_all_to_spurious_vectors : IoApic → S → Outcome S
  unfolding map_from
  map_all_to_spurious_vectors this s = map_from this this.redirection_entry_count 0 s
