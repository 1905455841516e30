-- ===== src/Apic/Io/Table/Mapped.antt =====
-- After `map_all_to_spurious_vectors`, every entry is unmasked and names the spurious vector.
use nocciolo.Base.{
  ℕ, zero, suc, ◌+◌, ◌*◌, ◌/◌, ◌%◌, ◌^◌, ◌≤◌, ◌<◌, ◌≡◌, ◌≢◌, ◌⊎◌, inl, inr, refl, sym, ap, subst,
  ◌∙◌, ok, ◌>>=◌, cast, unwrap, bit_and, bit_and-ones, Option, some, none, lt_or_le, arith,
}
use nocciolo.Apic.Io.{
  IoApicRedirectionEntry, DeliveryMode, delivery_mode_of, decode_entry, entry_of_fields, encode_lo,
  unmasked, destination_mode_of, destination_new, physical, logical, mask_bits,
}
use nocciolo.Apic.Io.Entries.{IsEntry, Targets, encode_lo_fields, delivery_mode_back}
use nocciolo.Apic.Io.Table.{Window, IoApic, map, map_from, map_all_to_spurious_vectors}
use nocciolo.Apic.Io.Table.Registers.{
  IsRegisterFile, after_read, after_write, read_entry_run, register-after_read, write_entry_run,
  register-after_high, register-after_write,
}

-- The bits of an entry's first register that software sets are stored: the vector, the delivery mode
-- and the mask. (Bits 12 and 14 are the device's.)
pub record StoresEntries {S : Type 0} (W : Window S) (R : IsRegisterFile W) : Type 0 where
  pub stores :
      (value : ℕ) (s : S) (index : ℕ)
      → R.selected s ≡ 16 + index * 2
      → index < 120
      → let r = R.register (W.write value s) (16 + index * 2) in
        (r % 2 ^ 8 ≡ value % 2 ^ 8)
        × (r / 2 ^ 8 % 2 ^ 3 ≡ value / 2 ^ 8 % 2 ^ 3)
        × (r / 2 ^ 16 % 2 ≡ value / 2 ^ 16 % 2)

-- The delivery mode of a register's value is one that the manual defines.
abbrev pub HasMode : ℕ → Type 0
HasMode r = (mode : DeliveryMode) × (delivery_mode_of (r / 2 ^ 8 % 2 ^ 3) ≡ some mode)

target-Targets :
    (mode value : ℕ)
    → Targets
        (destination_mode_of mode)
        (destination_new (destination_mode_of mode) (cast 8 (bit_and value 0b11111111)))
unfolding destination_mode_of destination_new
target-Targets mode value =
    elim (destination_mode_of mode)
      as (λ m. Targets m (destination_new m (cast 8 (bit_and value 0b11111111)))) [
        | physical ↦ omega (arith, bit_and-ones 4 (cast 8 (bit_and value 0b11111111)))
        | logical ↦ omega arith
      ]

-- With the vector and the mask that `map` sets.
abbrev mapped : IoApicRedirectionEntry → IoApicRedirectionEntry
mapped entry = record entry { mask = unmasked; vector = 39 }

with_mode :
    (found : Option DeliveryMode) (mode : DeliveryMode)
    (fields : DeliveryMode → IoApicRedirectionEntry)
    → found ≡ some mode
    → ((m : DeliveryMode) → IsEntry (mapped (fields m)))
    → (entry : IoApicRedirectionEntry) × ((unwrap found >>= λ m. ok (fields m)) ≡ ok entry)
      × IsEntry (mapped entry)
with_mode none mode fields h all = absurd (cc)
with_mode (some m) mode fields h all = (fields m, refl, all m)

decode_entry-IsEntry :
    (hi lo : ℕ)
    → lo < 2 ^ 32
    → HasMode lo
    → (entry : IoApicRedirectionEntry) × (decode_entry (hi * 2 ^ 32 + lo) ≡ ok entry)
      × IsEntry (mapped entry)
unfolding decode_entry entry_of_fields
decode_entry-IsEntry hi lo small (mode, has) =
    let value = hi * 2 ^ 32 + lo in
    let field : cast 8 (bit_and (value / 2 ^ 8) 0b111) ≡ lo / 2 ^ 8 % 2 ^ 3 =
      ap (cast 8) (bit_and-ones 3 (value / 2 ^ 8)) ∙ omega arith in
    with_mode (delivery_mode_of (cast 8 (bit_and (value / 2 ^ 8) 0b111))) mode _
      (ap delivery_mode_of field ∙ has)
      (λ m. record { vector = omega arith; destination = target-Targets _ _ })

-- What a first register says: vector 39, unmasked, in a mode that the manual defines.
pub record IsSpurious (r : ℕ) : Type 0 where
  pub vector : r % 2 ^ 8 ≡ 39
  pub unmasked : r / 2 ^ 16 % 2 ≡ 0
  pub mode : HasMode r

module _ {S : Type 0} (W : Window S) (R : IsRegisterFile W) (Z : StoresEntries W R) where
  abbrev pub low : S → ℕ → ℕ
  low s index = R.register s (16 + index * 2)

  after_write-IsSpurious :
      (index : ℕ) (entry : IoApicRedirectionEntry) (s : S)
      → index < 120
      → IsEntry (mapped entry)
      → IsSpurious (low (after_write W R index (mapped entry) s) index)
  unfolding mask_bits
  after_write-IsSpurious index entry s few is =
      let high = register-after_high W R index (mapped entry) s (16 + index * 2) (omega arith) in
      let kept =
        Z.stores (encode_lo (mapped entry)) (W.select (16 + index * 2) s) index
          (R.selected-select (16 + index * 2) s) few in
      let fields = encode_lo_fields (mapped entry) is in
      record {
        vector = omega (arith, high, kept, fields);
        unmasked = omega (arith, high, kept, fields);
        mode = (
          entry.delivery_mode,
          ap (λ r. delivery_mode_of (r / 2 ^ 8 % 2 ^ 3)) high
              ∙ ap delivery_mode_of (kept.1 ∙ fields.1)
              ∙ (delivery_mode_back entry.delivery_mode).0,
        );
      }

  module _ (this : IoApic) (few : this.redirection_entry_count ≤ 120) where
    map-IsSpurious :
        (index : ℕ) (s : S)
        → index < this.redirection_entry_count
        → HasMode (low s index)
        → (entry : IoApicRedirectionEntry) × (map W this index 39 s
            ≡ ok (after_write W R index (mapped entry) (after_read W R index s)))
          × IsSpurious (low (after_write W R index (mapped entry) (after_read W R index s)) index)
    unfolding map
    map-IsSpurious index s inside has =
        let (entry, decodes, is) =
          decode_entry-IsEntry (R.register s (17 + index * 2)) (low s index)
            (R.register-lt s (16 + index * 2)) has in
        (
          entry,
          rw (read_entry_run W R this index s inside (omega arith), decodes)
              (write_entry_run W R this index (mapped entry) (after_read W R index s) inside
                (omega arith)),
          after_write-IsSpurious index entry (after_read W R index s) (omega arith) is,
        )

    -- From an index on, the entries name the spurious vector; the registers before them and after the
    -- table are as they were.
    pub record MappedFrom (index : ℕ) (s s' : S) : Type 0 where
      pub entries : (i : ℕ) → index ≤ i → i < this.redirection_entry_count → IsSpurious (low s' i)
      pub others :
          (m : ℕ)
          → (m < 16 + index * 2) ⊎ (16 + this.redirection_entry_count * 2 ≤ m)
          → R.register s' m ≡ R.register s m

    map_from-MappedFrom :
        (left index : ℕ) (s : S)
        → index + left ≡ this.redirection_entry_count
        → ((i : ℕ) → index ≤ i → i < this.redirection_entry_count → HasMode (low s i))
        → (s' : S) × (map_from W this left index s ≡ ok s') × MappedFrom index s s'
    unfolding map_from
    map_from-MappedFrom zero index s all has = (
      s,
      refl,
      record { entries = λ i from inside. absurd (omega arith); others = λ m out. refl },
    )
    map_from-MappedFrom (suc left) index s all has =
        let (entry, run, here) =
          map-IsSpurious index s (omega arith) (has index (omega arith) (omega arith)) in
        let s1 = after_write W R index (mapped entry) (after_read W R index s) in
        let kept : (m : ℕ)
            → m ≢ 16 + index * 2
            → m ≢ 17 + index * 2
            → R.register s1 m ≡ R.register s m =
          λ m a b.
            register-after_write W R index (mapped entry) (after_read W R index s) m a b
            ∙ register-after_read W R index s m in
        let (s', rest, later) =
          map_from-MappedFrom left (index + 1) s1 (omega arith) (λ i from inside.
            subst HasMode (sym (kept (16 + i * 2) (omega arith) (omega arith)))
              (has i (omega arith) inside)) in
        (
          s',
          rw run rest,
          record {
            entries = λ i from inside. elim (lt_or_le index i) [
              | inl after ↦ later.entries i (omega arith) inside
              | inr at ↦
                  let same : 16 + index * 2 ≡ 16 + i * 2 = omega arith in
                  subst (λ m. IsSpurious (R.register s' m)) same
                    (subst IsSpurious (sym (later.others (16 + index * 2) (inl (omega arith))))
                      here)
            ];
            others = λ m out.
                later.others m (elim out [ inl b ↦ inl (omega arith) | inr a ↦ inr a ])
                ∙ kept m (λ e. elim out [ inl b ↦ omega arith | inr a ↦ omega arith ])
                    (λ e. elim out [ inl b ↦ omega arith | inr a ↦ omega arith ]);
          },
        )

    -- On a device that stores the vector, the delivery mode and the mask of an entry, with at most
    -- 120 entries in modes that the manual defines, mapping all entries returns; every entry then
    -- has vector 39, is unmasked and is in a mode that the manual defines, and the registers in
    -- front of the table and behind it are as they were.
    pub map_all-MappedFrom :
        (s : S)
        → ((i : ℕ) → i < this.redirection_entry_count → HasMode (low s i))
        → (s' : S) × (map_all_to_spurious_vectors W this s ≡ ok s') × MappedFrom 0 s s'
    unfolding map_all_to_spurious_vectors
    map_all-MappedFrom s has =
        map_from-MappedFrom this.redirection_entry_count 0 s (omega arith)
          (λ i _ inside. has i inside)
