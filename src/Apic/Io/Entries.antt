-- ===== src/Apic/Io/Entries.antt =====
-- The layout of a redirection entry: what is written is what is read back.
use nocciolo.Base.{
  ◌%◌, ◌+◌, ◌*◌, ◌/◌, ◌^◌, ◌<◌, ◌≡◌, refl, ap, ◌∙◌, ok, some, Bool, true, arith, cast, bit_and,
  bit_and-ones, bit_or-field,
}
use nocciolo.Apic.Io.{
  IoApicRedirectionEntry, DeliveryMode, DeliveryStatus, DestinationMode, InterruptPolarity,
  TriggerMode, InterruptMask, DestinationField, fixed, idle, physical, logical, high_active,
  edge_sensitive, unmasked, physical_apic_id, logical_set_of_processors, destination_new,
  destination_as_u8, delivery_mode_bits, delivery_mode_of, delivery_status_bits, delivery_status_of,
  destination_mode_bits, destination_mode_of, polarity_bits, polarity_of, remote_irr_bits,
  remote_irr_of, trigger_mode_bits, trigger_mode_of, mask_bits, mask_of, decode_entry, encode_lo,
  encode_hi, entry_of_fields,
}

pub delivery_mode_back :
    (m : DeliveryMode)
    → (delivery_mode_of (delivery_mode_bits m) ≡ some m) × (delivery_mode_bits m < 8)
unfolding delivery_mode_of delivery_mode_bits
delivery_mode_back fixed = (refl, omega arith)
delivery_mode_back m = (refl, omega arith)

delivery_status_back :
    (s : DeliveryStatus)
    → (delivery_status_of (delivery_status_bits s) ≡ s) × (delivery_status_bits s < 2)
unfolding delivery_status_of delivery_status_bits
delivery_status_back idle = (refl, omega arith)
delivery_status_back s = (refl, omega arith)

destination_mode_back :
    (m : DestinationMode)
    → (destination_mode_of (destination_mode_bits m) ≡ m) × (destination_mode_bits m < 2)
unfolding destination_mode_of destination_mode_bits
destination_mode_back physical = (refl, omega arith)
destination_mode_back m = (refl, omega arith)

polarity_back :
    (p : InterruptPolarity) → (polarity_of (polarity_bits p) ≡ p) × (polarity_bits p < 2)
unfolding polarity_of polarity_bits
polarity_back high_active = (refl, omega arith)
polarity_back p = (refl, omega arith)

remote_irr_back : (r : Bool) → (remote_irr_of (remote_irr_bits r) ≡ r) × (remote_irr_bits r < 2)
unfolding remote_irr_of remote_irr_bits
remote_irr_back true = (refl, omega arith)
remote_irr_back r = (refl, omega arith)

trigger_mode_back :
    (t : TriggerMode) → (trigger_mode_of (trigger_mode_bits t) ≡ t) × (trigger_mode_bits t < 2)
unfolding trigger_mode_of trigger_mode_bits
trigger_mode_back edge_sensitive = (refl, omega arith)
trigger_mode_back t = (refl, omega arith)

mask_back : (m : InterruptMask) → (mask_of (mask_bits m) ≡ m) × (mask_bits m < 2)
unfolding mask_of mask_bits
mask_back unmasked = (refl, omega arith)
mask_back m = (refl, omega arith)

-- The destination has the form that the mode calls for: a 4-bit APIC identifier, or a set of 8 bits.
abbrev pub Targets : DestinationMode → DestinationField → Type 0
Targets physical (physical_apic_id v) = v < 16
Targets physical (logical_set_of_processors v) = ⊥
Targets logical (physical_apic_id v) = ⊥
Targets logical (logical_set_of_processors v) = v < 256

pub record IsEntry (e : IoApicRedirectionEntry) : Type 0 where
  pub vector : e.vector < 256
  pub destination : Targets e.destination_mode e.destination

destination_back :
    (m : DestinationMode) (d : DestinationField)
    → Targets m d
    → (destination_new m (destination_as_u8 d) ≡ d) × (destination_as_u8 d < 256)
unfolding destination_new destination_as_u8
destination_back physical (physical_apic_id v) h = (ground (arith, bit_and-ones 4 v), omega arith)
destination_back physical (logical_set_of_processors v) h = absurd h
destination_back logical (physical_apic_id v) h = absurd h
destination_back logical (logical_set_of_processors v) h = (refl, h)

module _ (e : IoApicRedirectionEntry) (v : IsEntry e) where
  encode_lo_lem :
      encode_lo e
      ≡ e.vector
        + delivery_mode_bits e.delivery_mode * 2 ^ 8
        + destination_mode_bits e.destination_mode * 2 ^ 11
        + delivery_status_bits e.delivery_status * 2 ^ 12
        + polarity_bits e.polarity * 2 ^ 13
        + remote_irr_bits e.remote_irr * 2 ^ 14
        + trigger_mode_bits e.trigger_mode * 2 ^ 15
        + mask_bits e.mask * 2 ^ 16
  unfolding encode_lo
  encode_lo_lem =
      let h0 = v.vector in
      let dm = (delivery_mode_back e.delivery_mode).1 in
      let de = (destination_mode_back e.destination_mode).1 in
      let ds = (delivery_status_back e.delivery_status).1 in
      let po = (polarity_back e.polarity).1 in
      let ri = (remote_irr_back e.remote_irr).1 in
      let tm = (trigger_mode_back e.trigger_mode).1 in
      bit_or-field 16 (mask_bits e.mask) _
        (bit_or-field 15 (trigger_mode_bits e.trigger_mode) _
          (bit_or-field 14 (remote_irr_bits e.remote_irr) _
            (bit_or-field 13 (polarity_bits e.polarity) _
              (bit_or-field 12 (delivery_status_bits e.delivery_status) _
                (bit_or-field 11 (destination_mode_bits e.destination_mode) _
                  (bit_or-field 8 (delivery_mode_bits e.delivery_mode) e.vector refl (omega arith))
                  (omega arith))
                (omega arith))
              (omega arith))
            (omega arith))
          (omega arith))
        (omega arith)

  -- The nine fields of the 64-bit value are the numbers that were put together.
  fields_back :
      decode_entry (encode_hi e * 2 ^ 32 + encode_lo e)
      ≡ entry_of_fields e.vector
          (delivery_mode_bits e.delivery_mode)
          (destination_mode_bits e.destination_mode)
          (delivery_status_bits e.delivery_status)
          (polarity_bits e.polarity)
          (remote_irr_bits e.remote_irr)
          (trigger_mode_bits e.trigger_mode)
          (mask_bits e.mask)
          (destination_as_u8 e.destination)
  unfolding decode_entry encode_hi
  fields_back =
      let value = encode_hi e * 2 ^ 32 + encode_lo e in
      let h0 = v.vector in
      let dm = (delivery_mode_back e.delivery_mode).1 in
      let de = (destination_mode_back e.destination_mode).1 in
      let ds = (delivery_status_back e.delivery_status).1 in
      let po = (polarity_back e.polarity).1 in
      let ri = (remote_irr_back e.remote_irr).1 in
      let tm = (trigger_mode_back e.trigger_mode).1 in
      let ma = (mask_back e.mask).1 in
      let da = (destination_back e.destination_mode e.destination v.destination).1 in
      let lo = encode_lo_lem in
      let f0 : cast 8 (bit_and value 0xff) ≡ e.vector =
        ap (cast 8) (bit_and-ones 8 value) ∙ omega arith in
      let f1 : cast 8 (bit_and (value / 2 ^ 8) 0b111) ≡ delivery_mode_bits e.delivery_mode =
        ap (cast 8) (bit_and-ones 3 (value / 2 ^ 8)) ∙ omega arith in
      let f2 : cast 8 (bit_and (value / 2 ^ 11) 0b1) ≡ destination_mode_bits e.destination_mode =
        ap (cast 8) (bit_and-ones 1 (value / 2 ^ 11)) ∙ omega arith in
      let f3 : cast 8 (bit_and (value / 2 ^ 12) 0b1) ≡ delivery_status_bits e.delivery_status =
        ap (cast 8) (bit_and-ones 1 (value / 2 ^ 12)) ∙ omega arith in
      let f4 : cast 8 (bit_and (value / 2 ^ 13) 0b1) ≡ polarity_bits e.polarity =
        ap (cast 8) (bit_and-ones 1 (value / 2 ^ 13)) ∙ omega arith in
      let f5 : cast 8 (bit_and (value / 2 ^ 14) 0b1) ≡ remote_irr_bits e.remote_irr =
        ap (cast 8) (bit_and-ones 1 (value / 2 ^ 14)) ∙ omega arith in
      let f6 : cast 8 (bit_and (value / 2 ^ 15) 0b1) ≡ trigger_mode_bits e.trigger_mode =
        ap (cast 8) (bit_and-ones 1 (value / 2 ^ 15)) ∙ omega arith in
      let f7 : cast 8 (bit_and (value / 2 ^ 16) 0b1) ≡ mask_bits e.mask =
        ap (cast 8) (bit_and-ones 1 (value / 2 ^ 16)) ∙ omega arith in
      let f8 : cast 8 (bit_and (value / 2 ^ 56) 0b11111111) ≡ destination_as_u8 e.destination =
        ap (cast 8) (bit_and-ones 8 (value / 2 ^ 56)) ∙ omega arith in
      cc

  -- A redirection entry whose vector and destination fit survives being written and read: what
  -- read_entry makes of the two halves that write_entry writes is the entry.
  pub decode_entry-encode : decode_entry (encode_hi e * 2 ^ 32 + encode_lo e) ≡ ok e
  unfolding entry_of_fields
  decode_entry-encode =
      let dm = delivery_mode_back e.delivery_mode in
      let de = destination_mode_back e.destination_mode in
      let ds = delivery_status_back e.delivery_status in
      let po = polarity_back e.polarity in
      let ri = remote_irr_back e.remote_irr in
      let tm = trigger_mode_back e.trigger_mode in
      let ma = mask_back e.mask in
      let da = destination_back e.destination_mode e.destination v.destination in
      fields_back ∙ rw (dm.0, de.0, ds.0, po.0, ri.0, tm.0, ma.0, da.0)

  -- The fields of the first half that are stored.
  pub encode_lo_fields :
      (encode_lo e % 2 ^ 8 ≡ e.vector)
      × (encode_lo e / 2 ^ 8 % 2 ^ 3 ≡ delivery_mode_bits e.delivery_mode)
      × (encode_lo e / 2 ^ 16 % 2 ≡ mask_bits e.mask)
  encode_lo_fields =
      let h0 = v.vector in
      let dm = (delivery_mode_back e.delivery_mode).1 in
      let de = (destination_mode_back e.destination_mode).1 in
      let ds = (delivery_status_back e.delivery_status).1 in
      let po = (polarity_back e.polarity).1 in
      let ri = (remote_irr_back e.remote_irr).1 in
      let tm = (trigger_mode_back e.trigger_mode).1 in
      let ma = (mask_back e.mask).1 in
      let lo = encode_lo_lem in (omega arith, omega arith, omega arith)
