-- ===== src/Pci/Config/Ports.antt =====
-- The local bus ports of pci/config.rs against a host bridge: what reads return, and what a write
-- of the kernel leaves in the configuration space.
use nocciolo.Base.{
  ℕ, ◌+◌, ◌-◌, ◌*◌, ◌/◌, ◌%◌, ◌^◌, ◌≤◌, ◌<◌, ◌≡◌, ap, ◌∙◌, cast, ◌==◌, if◌then◌else◌, true, false,
  arith, Bool-cases, inl, inr, bit_and, bit_and-ones, bit_and-shifted,
}
use nocciolo.Pci.Types.{PciAddress, create_local_bus_address}
use nocciolo.Pci.Types.Laws.{IsPciAddress, create_local_bus_address-fields, address_sum}
use nocciolo.Pci.Config.{
  IoPorts, local_bus, local_read_dword, local_read_word, local_write_word, enable_bus_mastering,
  command, write_command,
}

-- The documented behaviour of configuration mechanism #1: the address port latches its value; with
-- the enable bit, bit 31, set, the data port is a window on the latched dword; with it clear, the
-- data port leaves the configuration space alone.
pub record IsHostBridge (P : IoPorts) : Type 0 where
  pub latch : P.State → ℕ
  pub space : P.State → ℕ → ℕ
  pub latch-write_address : (s : P.State) (a : ℕ) → latch (P.write_address s a) ≡ a
  pub space-write_address : (s : P.State) (a : ℕ) → space (P.write_address s a) ≡ space s
  pub read_data-space :
      (s : P.State) → 2 ^ 31 ≤ latch s → (P.read_data s).0 ≡ space s (latch s - 2 ^ 31)
  pub latch-read_data : (s : P.State) → latch (P.read_data s).1 ≡ latch s
  pub space-read_data : (s : P.State) → space (P.read_data s).1 ≡ space s
  pub write_data-space :
      (s : P.State) (v : ℕ) → 2 ^ 31 ≤ latch s → space (P.write_data s v) (latch s - 2 ^ 31) ≡ v
  pub write_data_disabled :
      (s : P.State) (v : ℕ) → latch s < 2 ^ 31 → space (P.write_data s v) ≡ space s

-- The number that configuration mechanism #1 gives to a dword: the bus from bit 16 on, the device from
-- bit 11, the function from bit 8, and the offset of the dword within the function's first 256 bytes.
abbrev pub dword_at : PciAddress → ℕ → ℕ
dword_at a offset = a.bus * 65536 + a.device * 2048 + a.function * 256 + offset / 4 % 64 * 4

-- The shift by `(offset & 2) * 8` and the mask pick the half that bit 1 of the offset selects.
half :
    (d offset : ℕ)
    → cast 16 (bit_and (d / 2 ^ (bit_and offset 2 * 8)) 0xffff)
      ≡ (if offset / 2 % 2 == 0 then d % 65536 else d / 65536 % 65536)
half d offset = elim (Bool-cases (offset / 2 % 2 == 0)) [
  | inl low ↦
      let bit : bit_and offset 2 ≡ 0 =
        ground (arith, bit_and-shifted 1 offset 1, bit_and-ones 1 (offset / 2)) in
      rw (low, bit) (omega (arith, bit_and-ones 16 (d / 1)))
  | inr high ↦
      let bit : bit_and offset 2 ≡ 2 =
        ground (arith, bit_and-shifted 1 offset 1, bit_and-ones 1 (offset / 2)) in
      rw (high, bit) (omega (arith, bit_and-ones 16 (d / 65536)))
]

module _ (P : IoPorts) (B : IsHostBridge P) where
  -- Behind a host bridge, a word that is read at a valid address is the half that bit 1 of the
  -- offset selects of the dword with the bus from bit 16 on in its number, the device from bit 11,
  -- the function from bit 8 and the offset of the dword within 256 bytes, and reading leaves the
  -- space as it was.
  pub local_read_word-space :
      (s : P.State) (a : PciAddress) (offset : ℕ)
      → IsPciAddress a
      → let d = B.space s (dword_at a offset) in
        ((local_read_word P s a offset).0
          ≡ (if offset / 2 % 2 == 0 then d % 65536 else d / 65536 % 65536))
        × (B.space (local_read_word P s a offset).1 ≡ B.space s)
  unfolding local_read_word local_read_dword
  local_read_word-space s a offset v =
      let x = create_local_bus_address a offset true in
      let fields = create_local_bus_address-fields a offset true v in
      let l = B.latch-write_address s x in
      let value : (P.read_data (P.write_address s x)).0 ≡ B.space s (dword_at a offset) =
        B.read_data-space (P.write_address s x) (omega (arith, l, fields))
        ∙ ap (λ q. q (B.latch (P.write_address s x) - 2 ^ 31)) (B.space-write_address s x)
        ∙ ap (λ (n : ℕ). B.space s (n - 2 ^ 31)) l
        ∙ ap (B.space s) (omega (arith, address_sum a offset true v)) in
      (
        unfold local_read_dword in rw value (half (B.space s (dword_at a offset)) offset),
        B.space-read_data (P.write_address s x) ∙ B.space-write_address s x,
      )

  -- Behind a host bridge, a word that is written at a valid address goes out with the enable bit
  -- clear, so the configuration space keeps what it held.
  pub local_write_word-lost :
      (s : P.State) (a : PciAddress) (offset value : ℕ)
      → IsPciAddress a
      → B.space (local_write_word P s a offset value) ≡ B.space s
  unfolding local_write_word
  local_write_word-lost s a offset value v =
      let x = create_local_bus_address a offset false in
      let fields = create_local_bus_address-fields a offset false v in
      B.write_data_disabled (P.read_data (P.write_address s x)).1 _
        (omega (arith, B.latch-read_data (P.write_address s x), B.latch-write_address s x, fields))
      ∙ B.space-read_data (P.write_address s x)
      ∙ B.space-write_address s x

  -- Behind a host bridge, enabling bus mastering for a valid address leaves the configuration space
  -- as it was.
  pub enable_bus_mastering-lost :
      (s : P.State) (a : PciAddress)
      → IsPciAddress a
      → B.space (enable_bus_mastering (local_bus P) s a) ≡ B.space s
  unfolding enable_bus_mastering command write_command
  enable_bus_mastering-lost s a v =
      local_write_word-lost _ a 0x4 _ v ∙ (local_read_word-space s a 0x4 v).1
