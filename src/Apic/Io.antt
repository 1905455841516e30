-- ===== src/Apic/Io.antt =====
-- kernel/src/interrupts/apic/io.rs: the redirection table of the I/O APIC, behind a register that
-- selects and a register that is a window on what is selected.
--
-- The device is hardware: its state and what a volatile access does to it are a parameter, `Window`
-- of Apic/Io/Table, where the accesses are.
-- A `transmute` of a bit field into an enum is defined only for the enum's own values.
mod Examples
pub mod Entries
pub mod Table
use nocciolo.Base.{
  ℕ, zero, suc, ◌+◌, ◌*◌, ◌/◌, ◌%◌, ◌^◌, bit_and, bit_or, Outcome, ok, panic, ◌>>=◌, ◌>>◌, assert,
  add_in, mul_in, cast, unwrap, ltb, ◌==◌, not, if◌then◌else◌, Bool, true, false, Option, none,
  some,
}

pub data DeliveryMode : Type 0 where
  fixed lowest_priority system_managed nmi init external : DeliveryMode

pub data DeliveryStatus : Type 0 where
  idle sent_pending : DeliveryStatus

pub data DestinationMode : Type 0 where
  physical logical : DestinationMode

pub data InterruptPolarity : Type 0 where
  high_active low_active : InterruptPolarity

pub data TriggerMode : Type 0 where
  edge_sensitive level_sensitive : TriggerMode

pub data InterruptMask : Type 0 where
  unmasked masked : InterruptMask

pub data DestinationField : Type 0 where
  physical_apic_id logical_set_of_processors : ℕ → DestinationField

pub destination_new : DestinationMode → ℕ → DestinationField
destination_new physical value = physical_apic_id (bit_and value 0b1111)
destination_new logical value = logical_set_of_processors value

pub destination_as_u8 : DestinationField → ℕ
destination_as_u8 (physical_apic_id val) = val
destination_as_u8 (logical_set_of_processors val) = val

-- The numbers of the enums (`as u32`), and `transmute` back; `none` is a number that is no value.
module _ where
  pub delivery_mode_bits : DeliveryMode → ℕ
  delivery_mode_bits fixed = 0b000
  delivery_mode_bits lowest_priority = 0b001
  delivery_mode_bits system_managed = 0b010
  delivery_mode_bits nmi = 0b100
  delivery_mode_bits init = 0b101
  delivery_mode_bits external = 0b111

  pub delivery_mode_of : ℕ → Option DeliveryMode
  delivery_mode_of n =
      if n == 0b000
      then some fixed
      else if n == 0b001
      then some lowest_priority
      else if n == 0b010
      then some system_managed
      else if n == 0b100
      then some nmi
      else if n == 0b101
      then some init
      else if n == 0b111
      then some external
      else none

  pub delivery_status_bits : DeliveryStatus → ℕ
  delivery_status_bits idle = 0
  delivery_status_bits sent_pending = 1

  pub delivery_status_of : ℕ → DeliveryStatus
  delivery_status_of n = if n == 0 then idle else sent_pending

  pub destination_mode_bits : DestinationMode → ℕ
  destination_mode_bits physical = 0
  destination_mode_bits logical = 1

  pub destination_mode_of : ℕ → DestinationMode
  destination_mode_of n = if n == 0 then physical else logical

  pub polarity_bits : InterruptPolarity → ℕ
  polarity_bits high_active = 0
  polarity_bits low_active = 1

  pub polarity_of : ℕ → InterruptPolarity
  polarity_of n = if n == 0 then high_active else low_active

  pub remote_irr_bits : Bool → ℕ
  remote_irr_bits false = 0
  remote_irr_bits true = 1

  pub remote_irr_of : ℕ → Bool
  remote_irr_of n = not (n == 0)

  pub trigger_mode_bits : TriggerMode → ℕ
  trigger_mode_bits edge_sensitive = 0
  trigger_mode_bits level_sensitive = 1

  pub trigger_mode_of : ℕ → TriggerMode
  trigger_mode_of n = if n == 0 then edge_sensitive else level_sensitive

  pub mask_bits : InterruptMask → ℕ
  mask_bits unmasked = 0
  mask_bits masked = 1

  pub mask_of : ℕ → InterruptMask
  mask_of n = if n == 0 then unmasked else masked

pub record IoApicRedirectionEntry : Type 0 where
  pub vector : ℕ
  pub delivery_mode : DeliveryMode
  pub destination_mode : DestinationMode
  pub delivery_status : DeliveryStatus
  pub polarity : InterruptPolarity
  pub remote_irr : Bool
  pub trigger_mode : TriggerMode
  pub mask : InterruptMask
  pub destination : DestinationField

-- The entry of nine bit fields. A delivery mode that is no value of the enum is undefined behaviour
-- in the source; it is `panic` here.
pub entry_of_fields : ℕ → ℕ → ℕ → ℕ → ℕ → ℕ → ℕ → ℕ → ℕ → Outcome IoApicRedirectionEntry
entry_of_fields vector delivery mode status pol irr trigger masking target =
    let destination_mode = destination_mode_of mode in
    do
      delivery_mode ← unwrap (delivery_mode_of delivery)
      ok (record {
        vector = vector;
        delivery_mode = delivery_mode;
        destination_mode = destination_mode;
        delivery_status = delivery_status_of status;
        polarity = polarity_of pol;
        remote_irr = remote_irr_of irr;
        trigger_mode = trigger_mode_of trigger;
        mask = mask_of masking;
        destination = destination_new destination_mode target;
      })

-- What `read_entry` makes of the 64 bits.
pub decode_entry : ℕ → Outcome IoApicRedirectionEntry
decode_entry value =
    entry_of_fields (cast 8 (bit_and value 0xff)) (cast 8 (bit_and (value / 2 ^ 8) 0b111))
      (cast 8 (bit_and (value / 2 ^ 11) 0b1)) (cast 8 (bit_and (value / 2 ^ 12) 0b1))
      (cast 8 (bit_and (value / 2 ^ 13) 0b1)) (cast 8 (bit_and (value / 2 ^ 14) 0b1))
      (cast 8 (bit_and (value / 2 ^ 15) 0b1)) (cast 8 (bit_and (value / 2 ^ 16) 0b1))
      (cast 8 (bit_and (value / 2 ^ 56) 0b11111111))

-- The two halves that `write_entry` writes.
pub encode_lo : IoApicRedirectionEntry → ℕ
unfolding delivery_mode_bits delivery_status_bits destination_mode_bits polarity_bits
    remote_irr_bits trigger_mode_bits mask_bits
encode_lo e =
    let v0 = bit_or e.vector (delivery_mode_bits e.delivery_mode * 2 ^ 8) in
    let v1 = bit_or v0 (destination_mode_bits e.destination_mode * 2 ^ 11) in
    let v2 = bit_or v1 (delivery_status_bits e.delivery_status * 2 ^ 12) in
    let v3 = bit_or v2 (polarity_bits e.polarity * 2 ^ 13) in
    let v4 = bit_or v3 (remote_irr_bits e.remote_irr * 2 ^ 14) in
    let v5 = bit_or v4 (trigger_mode_bits e.trigger_mode * 2 ^ 15) in
    bit_or v5 (mask_bits e.mask * 2 ^ 16)

pub encode_hi : IoApicRedirectionEntry → ℕ
unfolding destination_as_u8
encode_hi e = destination_as_u8 e.destination * 2 ^ 24

pub data IoApicRegister : Type 0 where
  id version arbitration_id : IoApicRegister
  redirection_entry manually_specified : ℕ → IoApicRegister

-- `0x10 + (ent * 2)` in `u8`, whose overflow panics.
pub register_as_u8 : IoApicRegister → Outcome ℕ
register_as_u8 id = ok 0
register_as_u8 version = ok 1
register_as_u8 arbitration_id = ok 2
register_as_u8 (redirection_entry ent) = do twice ← mul_in 8 ent 2; add_in 8 0x10 twice
register_as_u8 (manually_specified ent) = ok ent

pub second_part_redir : IoApicRegister → Outcome IoApicRegister
unfolding register_as_u8
second_part_redir reg = do
  first ← register_as_u8 reg
  second ← add_in 8 first 1
  ok (manually_specified second)
