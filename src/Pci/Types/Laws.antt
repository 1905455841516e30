-- ===== src/Pci/Types/Laws.antt =====
-- Register layouts and codes of pci/types.rs: what they encode can be read back.
use nocciolo.Base.{
  ℕ, ◌+◌, ◌-◌, ◌*◌, ◌/◌, ◌%◌, ◌^◌, ◌<◌, ◌≡◌, ◌⊎◌, refl, ap, Bool, true, false, if◌then◌else◌, arith,
  bit_and, bit_or, bit_and-ones, bit_and-shifted, bit_or-below, bit_or-above,
}
use nocciolo.Pci.Types.{
  PciAddress, create_local_bus_address, memory_space, io_space, kind, actual_address, PciClassCode,
  class_new, class_value,
}

-- An address with every field in the range that the bus has for it.
pub record IsPciAddress (a : PciAddress) : Type 0 where
  pub bus : a.bus < 256
  pub device : a.device < 32
  pub function : a.function < 8

mask_offset : (x : ℕ) → bit_and x 0xfc ≡ x / 4 % 64 * 4
mask_offset x = omega (arith, bit_and-shifted 2 x 63, bit_and-ones 6 (x / 4))

pub address_sum :
    (a : PciAddress) (offset : ℕ) (enabled : Bool)
    → IsPciAddress a
    → create_local_bus_address a offset enabled
      ≡ (if enabled then 0x80000000 else 0)
        + a.bus * 65536
        + a.device * 2048
        + a.function * 256
        + offset / 4 % 64 * 4
unfolding create_local_bus_address
address_sum a offset enabled v =
    rw
      (
        mask_offset offset,
        bit_or-below 16 (a.bus * 2 ^ 16) (a.device * 2 ^ 11) (omega arith)
            (omega (arith, v.device)),
        bit_or-below 11 (a.bus * 2 ^ 16 + a.device * 2 ^ 11) (a.function * 2 ^ 8) (omega arith)
            (omega (arith, v.function)),
        bit_or-below 8 (a.bus * 2 ^ 16 + a.device * 2 ^ 11 + a.function * 2 ^ 8)
            (offset / 4 % 64 * 4) (omega arith) (omega arith),
      )
      (enable enabled)
  where
    enable :
        (b : Bool)
        → bit_or
            (a.bus * 2 ^ 16 + a.device * 2 ^ 11 + a.function * 2 ^ 8 + offset / 4 % 64 * 4)
            (if b then 0x80000000 else 0)
          ≡ (if b then 0x80000000 else 0)
            + a.bus * 65536
            + a.device * 2048
            + a.function * 256
            + offset / 4 % 64 * 4
    enable true = omega (
      arith,
      bit_or-above 31 0x80000000
          (a.bus * 2 ^ 16 + a.device * 2 ^ 11 + a.function * 2 ^ 8 + offset / 4 % 64 * 4) refl
          (omega (arith, v.bus, v.device, v.function)),
    )
    enable false = omega (
      arith,
      bit_or-below 0 (a.bus * 2 ^ 16 + a.device * 2 ^ 11 + a.function * 2 ^ 8 + offset / 4 % 64 * 4)
          0 (omega arith) (omega arith),
    )

-- The value for the address port holds each part of an address whose parts are in range: bus,
-- device, function, the dword of the offset within the first 256 bytes, and the enable bit; it fits
-- 32 bits.
pub create_local_bus_address-fields :
    (a : PciAddress) (offset : ℕ) (enabled : Bool)
    → IsPciAddress a
    → let x = create_local_bus_address a offset enabled in
      (x < 2 ^ 32)
      × (x / 2 ^ 16 % 256 ≡ a.bus)
      × (x / 2 ^ 11 % 32 ≡ a.device)
      × (x / 2 ^ 8 % 8 ≡ a.function)
      × (x % 256 ≡ offset % 256 - offset % 4)
      × (x / 2 ^ 31 ≡ (if enabled then 1 else 0))
create_local_bus_address-fields a offset true v =
    omega (arith, address_sum a offset true v, v.bus, v.device, v.function)
create_local_bus_address-fields a offset false v =
    omega (arith, address_sum a offset false v, v.bus, v.device, v.function)

-- For a 32-bit value, a memory base address keeps only bits 4 to 15, so it never exceeds 65535,
-- while an I/O base address keeps every bit from 4 up.
pub actual_address-bits :
    (value : ℕ)
    → value < 2 ^ 32
    → ((kind value ≡ memory_space)
        × (actual_address value ≡ value / 16 % 4096 * 16)
        × (actual_address value < 65536))
      ⊎ ((kind value ≡ io_space) × (actual_address value ≡ value / 16 * 16))
unfolding actual_address kind
actual_address-bits value fits = ground (
  arith,
  bit_and-shifted 4 value 0xfff,
  bit_and-ones 12 (value / 16),
  bit_and-shifted 4 value 0xfffffff,
  bit_and-ones 28 (value / 16),
)

-- Two memory base addresses that differ only from bit 16 on are read as the same address.
pub actual_address-loses :
    (low high high' : ℕ)
    → low < 65536
    → low % 2 ≡ 0
    → actual_address (low + high * 65536) ≡ actual_address (low + high' * 65536)
unfolding actual_address kind
actual_address-loses low high high' fits even = ground (
  arith,
  bit_and-ones 1 (low + high * 65536),
  bit_and-ones 1 (low + high' * 65536),
  bit_and-shifted 4 (low + high * 65536) 0xfff,
  bit_and-shifted 4 (low + high' * 65536) 0xfff,
  bit_and-ones 12 ((low + high * 65536) / 16),
  bit_and-ones 12 ((low + high' * 65536) / 16),
)

-- Reading a class code and printing it back gives the byte that the device reported.
pub value-new : (id : ℕ) → class_value (class_new id) ≡ id
unfolding class_value class_new
value-new id = ground arith

-- A class that a device can report: `reserved` holds no byte that has a class of its own.
abbrev pub IsReported : PciClassCode → Type 0
IsReported c = class_new (class_value c) ≡ c

-- Two bytes are read as the same class only if they are the same byte.
pub new-injective : (a b : ℕ) → class_new a ≡ class_new b → a ≡ b
new-injective a b h = omega (arith, value-new a, value-new b, ap class_value h)
