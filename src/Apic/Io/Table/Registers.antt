-- ===== src/Apic/Io/Table/Registers.antt =====
-- What the operations on the redirection table do to the registers of the device.
use nocciolo.Base.{
  ℕ, ◌+◌, ◌*◌, ◌^◌, ◌<◌, ◌≡◌, ◌≢◌, refl, ap, ◌∙◌, ok, ◌>>=◌, ltb, arith, add_in, bit_or,
  bit_or-field, true,
}
use nocciolo.Apic.Io.{
  IoApicRedirectionEntry, redirection_entry, manually_specified, register_as_u8, second_part_redir,
  decode_entry, encode_lo, encode_hi,
}
use nocciolo.Apic.Io.Table.{
  Window, IoApic, is_redirection_entry, select_register, read_u32, write_u32, read_u64, read_entry,
  write_entry,
}

-- The documented behaviour of the device: selecting changes no register, the window reads the
-- register that is selected, and a write through it changes no other register.
pub record IsRegisterFile {S : Type 0} (W : Window S) : Type 0 where
  pub selected : S → ℕ
  pub register : S → ℕ → ℕ
  pub register-lt : (s : S) (n : ℕ) → register s n < 2 ^ 32
  pub selected-select : (n : ℕ) (s : S) → selected (W.select n s) ≡ n
  pub register-select : (n : ℕ) (s : S) (m : ℕ) → register (W.select n s) m ≡ register s m
  pub read-register : (s : S) → (W.read s).0 ≡ register s (selected s)
  pub register-read : (s : S) (m : ℕ) → register (W.read s).1 m ≡ register s m
  pub register-write :
      (value : ℕ) (s : S) (m : ℕ) → m ≢ selected s → register (W.write value s) m ≡ register s m

numbers :
    (index : ℕ)
    → index < 120
    → (register_as_u8 (redirection_entry index) ≡ ok (16 + index * 2))
      × (second_part_redir (redirection_entry index) ≡ ok (manually_specified (17 + index * 2)))
unfolding register_as_u8 second_part_redir
numbers index few = (ground arith, ground arith)

module _ {S : Type 0} (W : Window S) (R : IsRegisterFile W) where
  -- The device after the two reads, and after the two writes, of an entry.
  abbrev pub after_read : ℕ → S → S
  after_read index s =
      (W.read (W.select (17 + index * 2) (W.read (W.select (16 + index * 2) s)).1)).1

  abbrev pub after_low : ℕ → IoApicRedirectionEntry → S → S
  after_low index entry s = W.write (encode_lo entry) (W.select (16 + index * 2) s)

  abbrev pub after_write : ℕ → IoApicRedirectionEntry → S → S
  after_write index entry s =
      W.write (encode_hi entry) (W.select (17 + index * 2) (after_low index entry s))

  pub read_entry_run :
      (this : IoApic) (index : ℕ) (s : S)
      → index < this.redirection_entry_count
      → index < 120
      → read_entry W this index s ≡ (
          decode_entry (R.register s (17 + index * 2) * 2 ^ 32 + R.register s (16 + index * 2))
          >>= λ entry. ok (entry, after_read index s))
  unfolding read_entry read_u64 is_redirection_entry read_u32 select_register register_as_u8
  read_entry_run this index s inside few =
      let n = numbers index few in
      let s0 = W.select (16 + index * 2) s in
      let s1 = (W.read s0).1 in
      let s2 = W.select (17 + index * 2) s1 in
      let lo : (W.read s0).0 ≡ R.register s (16 + index * 2) =
        R.read-register s0
        ∙ ap (R.register s0) (R.selected-select (16 + index * 2) s)
        ∙ R.register-select (16 + index * 2) s (16 + index * 2) in
      let hi : (W.read s2).0 ≡ R.register s (17 + index * 2) =
        R.read-register s2
        ∙ ap (R.register s2) (R.selected-select (17 + index * 2) s1)
        ∙ R.register-select (17 + index * 2) s1 (17 + index * 2)
        ∙ R.register-read s0 (17 + index * 2)
        ∙ R.register-select (16 + index * 2) s (17 + index * 2) in
      let value : bit_or (W.read s0).0 ((W.read s2).0 * 2 ^ 32)
          ≡ R.register s (17 + index * 2) * 2 ^ 32 + R.register s (16 + index * 2) =
        bit_or-field 32 (W.read s2).0 (W.read s0).0 lo (R.register-lt s (16 + index * 2))
        ∙ omega (arith, hi) in
      let after : add_in 8 (16 + index * 2) 1 ≡ ok (17 + index * 2) = ground arith in
      let guard : ltb index this.redirection_entry_count ≡ true = ground arith in
      (rw (guard, n.0, after) refl)
      ∙ ap (λ v. decode_entry v >>= λ entry. ok (entry, (W.read s2).1)) value

  pub register-after_read :
      (index : ℕ) (s : S) (m : ℕ) → R.register (after_read index s) m ≡ R.register s m
  register-after_read index s m =
      let s0 = W.select (16 + index * 2) s in
      let s1 = (W.read s0).1 in
      R.register-read (W.select (17 + index * 2) s1) m
      ∙ R.register-select (17 + index * 2) s1 m
      ∙ R.register-read s0 m
      ∙ R.register-select (16 + index * 2) s m

  pub write_entry_run :
      (this : IoApic) (index : ℕ) (entry : IoApicRedirectionEntry) (s : S)
      → index < this.redirection_entry_count
      → index < 120
      → write_entry W this index entry s ≡ ok (after_write index entry s)
  unfolding write_entry write_u32 select_register register_as_u8
  write_entry_run this index entry s inside few = let n = numbers index few in ground (arith, n)

  pub register-after_high :
      (index : ℕ) (entry : IoApicRedirectionEntry) (s : S) (m : ℕ)
      → m ≢ 17 + index * 2
      → R.register (after_write index entry s) m ≡ R.register (after_low index entry s) m
  register-after_high index entry s m next =
      let s1 = after_low index entry s in
      R.register-write (encode_hi entry) (W.select (17 + index * 2) s1) m
        (omega (arith, next, R.selected-select (17 + index * 2) s1))
      ∙ R.register-select (17 + index * 2) s1 m

  pub register-after_write :
      (index : ℕ) (entry : IoApicRedirectionEntry) (s : S) (m : ℕ)
      → m ≢ 16 + index * 2
      → m ≢ 17 + index * 2
      → R.register (after_write index entry s) m ≡ R.register s m
  register-after_write index entry s m other next =
      register-after_high index entry s m next
      ∙ R.register-write (encode_lo entry) (W.select (16 + index * 2) s) m
          (omega (arith, other, R.selected-select (16 + index * 2) s))
      ∙ R.register-select (16 + index * 2) s m

  -- On a device that is a register file, for an index in the table and below 120, read_entry
  -- returns what registers 16 + index * 2 and 17 + index * 2 decode to, and no register changes.
  pub read_entry-decode :
      (this : IoApic) (index : ℕ) (s : S) (m : ℕ)
      → index < this.redirection_entry_count
      → index < 120
      → (s' : S) × (read_entry W this index s ≡ (
          decode_entry (R.register s (17 + index * 2) * 2 ^ 32 + R.register s (16 + index * 2))
          >>= λ entry. ok (entry, s')))
        × (R.register s' m ≡ R.register s m)
  read_entry-decode this index s m inside few =
      (after_read index s, read_entry_run this index s inside few, register-after_read index s m)

  -- On a device that is a register file, for an index in the table and below 120, write_entry
  -- returns, and changes no register but the two of that entry.
  pub write_entry-keeps :
      (this : IoApic) (index : ℕ) (entry : IoApicRedirectionEntry) (s : S) (m : ℕ)
      → index < this.redirection_entry_count
      → index < 120
      → m ≢ 16 + index * 2
      → m ≢ 17 + index * 2
      → (s' : S) × (write_entry W this index entry s ≡ ok s') × (R.register s' m ≡ R.register s m)
  write_entry-keeps this index entry s m inside few other next = (
    after_write index entry s,
    write_entry_run this index entry s inside few,
    register-after_write index entry s m other next,
  )
