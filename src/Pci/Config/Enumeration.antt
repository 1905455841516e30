-- ===== src/Pci/Config/Enumeration.antt =====
-- The enumeration of pci/config.rs: which devices it yields.
use nocciolo.Base.{
  ℕ, zero, suc, ◌+◌, ◌<◌, ◌≡◌, refl, ap, sym, ◌∙◌, cast, ltb, ◌==◌, if◌then◌else◌, true, false,
  Option, none, some, List, [], ◌∷◌, arith, Bool-cases, inl, inr,
}
use nocciolo.Pci.Types.{PciAddress}
use nocciolo.Pci.Names.{vendor_invalid}
use nocciolo.Pci.Config.{
  Mechanism, DeviceEnumerator, Item, vendor_id, device_id, scan_devices, scan_buses, next_bus, next,
  enumerate, items,
}

-- Reads of the configuration space, as a function of the address and the offset.
abbrev pub Space : Type 0
Space = PciAddress → ℕ → ℕ

-- What the mechanism is relied on for: a read returns the word of the space, whatever it does to the
-- mechanism's own state.
abbrev pub Reads : Mechanism → Space → Type 0
Reads M cfg = (s : M.State) (a : PciAddress) (o : ℕ) → (M.read_word s a o).0 ≡ cfg a o

abbrev pub address_of : ℕ → ℕ → PciAddress
address_of bus device = record { segment = 0; bus = bus; device = device; function = 0 }

-- The specification: function 0 of `left` devices of a bus, the first of them `device`, without those
-- that report the invalid vendor.
abbrev pub devices_from : Space → ℕ → ℕ → ℕ → List (PciAddress × ℕ × ℕ)
devices_from cfg bus zero device = []
devices_from cfg bus (suc left) device =
    let a = address_of bus device in
    if cfg a 0x0 == vendor_invalid
    then devices_from cfg bus left (device + 1)
    else (a, cfg a 0x0, cfg a 0x2) ∷ devices_from cfg bus left (device + 1)

module _ (M : Mechanism) (cfg : Space) (reads : Reads M cfg) where
  -- What one search found among the `left` devices from `device` on, and where it stopped.
  abbrev pub Scanned : ℕ → ℕ → ℕ → Option (Item M) → DeviceEnumerator M → Type 0
  Scanned bus left device none e =
      (e.bus ≡ bus) × (e.device ≡ 32) × (devices_from cfg bus left device ≡ [])
  Scanned bus left device (some item) e =
      (e.bus ≡ bus)
      × ((rest : ℕ) × (e.device + rest ≡ 32)
          × (rest < left)
          × (devices_from cfg bus left device ≡ item ∷ devices_from cfg bus rest e.device))

  -- One round of the inner loop, at a device without and with a vendor.
  module _ (fuel : ℕ) (e : DeviceEnumerator M) (bus_fits : e.bus < 256) (more : e.device < 32) where
    abbrev here : PciAddress
    here = address_of e.bus e.device

    abbrev after_vendor : M.State
    after_vendor = (M.read_word e.state here 0x0).1

    same_bus : cast 8 e.bus ≡ e.bus
    same_bus = omega arith

    skips :
        (cfg here 0x0 == vendor_invalid) ≡ true
        → scan_devices M (suc fuel) e
          ≡ scan_devices M fuel (record e { device = e.device + 1; state = after_vendor })
    unfolding scan_devices vendor_id
    skips h =
        let going : ltb e.device 32 ≡ true = ground arith in
        rw (going, same_bus, reads e.state here 0x0, h)

    finds :
        (cfg here 0x0 == vendor_invalid) ≡ false
        → scan_devices M (suc fuel) e ≡ (
          some (here, cfg here 0x0, cfg here 0x2),
          record e { device = e.device + 1; state = (M.read_word after_vendor here 0x2).1 },
        )
    unfolding scan_devices vendor_id device_id
    finds h =
        let going : ltb e.device 32 ≡ true = ground arith in
        rw (going, same_bus, reads e.state here 0x0, h, reads after_vendor here 0x2)

  scan_devices-Scanned :
      (fuel left : ℕ) (e : DeviceEnumerator M)
      → e.bus < 256
      → e.device + left ≡ 32
      → left < fuel
      → let r = scan_devices M fuel e in Scanned e.bus left e.device r.0 r.1
  scan_devices-Scanned zero left e b d f = absurd (omega arith)
  scan_devices-Scanned (suc fuel) zero e b d f =
      let done : ltb e.device 32 ≡ false = ground arith in
      unfold scan_devices in rw done (refl, omega arith, refl)
  scan_devices-Scanned (suc fuel) (suc left) e b d f =
      let more : e.device < 32 = omega arith in
      elim (Bool-cases (cfg (address_of e.bus e.device) 0x0 == vendor_invalid)) [
        | inl h ↦
            let rest =
              scan_devices-Scanned fuel left
                (record e { device = e.device + 1; state = after_vendor fuel e b more }) b
                (omega arith) (omega arith) in
            rw (skips fuel e b more h) (skipped _ _ h rest)
        | inr h ↦ rw (finds fuel e b more h) (refl, (left, omega arith, omega arith, rw h))
      ]
    where
      skipped :
          (o : Option (Item M)) (e' : DeviceEnumerator M)
          → (cfg (address_of e.bus e.device) 0x0 == vendor_invalid) ≡ true
          → Scanned e.bus left (e.device + 1) o e'
          → Scanned e.bus (suc left) e.device o e'
      skipped none e' h k = (k.0, k.1, rw h k.2)
      skipped (some item) e' h k = (k.0, (k.1.0, k.1.1, omega (arith, k.1.2), rw h k.1.3))

  -- Once a bus is through, `device` stands at 32 and no later bus is read.
  through :
      (fuel : ℕ) (e : DeviceEnumerator M) → e.device ≡ 32 → scan_devices M (suc fuel) e ≡ (none, e)
  unfolding scan_devices
  through fuel e h = let done : ltb e.device 32 ≡ false = ground arith in rw done

  module _ (fuel : ℕ) (e : DeviceEnumerator M) (on : e.bus < 256) where
    going : ltb e.bus 256 ≡ true
    going = ground arith

    finds_on_bus :
        (item : Item M)
        → (scan_devices M 33 e).0 ≡ some item
        → scan_buses M (suc fuel) e ≡ (some item, (scan_devices M 33 e).1)
    unfolding scan_buses
    finds_on_bus item h = rw (going, h)

    passes_bus :
        (scan_devices M 33 e).0 ≡ none
        → scan_buses M (suc fuel) e ≡ scan_buses M fuel (next_bus M (scan_devices M 33 e).1)
    unfolding scan_buses
    passes_bus h = rw (going, h)

  scan_buses_through :
      (fuel : ℕ) (e : DeviceEnumerator M) → e.device ≡ 32 → (scan_buses M fuel e).0 ≡ none
  scan_buses_through zero e h = unfold scan_buses in refl
  scan_buses_through (suc fuel) e h = elim (Bool-cases (ltb e.bus 256)) [
    | inl on ↦
        let p = through 32 e h in
        rw (passes_bus fuel e (ground arith) (ap (λ r. r.0) p))
          (scan_buses_through fuel _ (unfold next_bus in ap (λ r. r.1.device) p ∙ h))
    | inr off ↦ unfold scan_buses in rw off
  ]

  abbrev pub Yields : ℕ → ℕ → ℕ → Option (Item M) → DeviceEnumerator M → Type 0
  Yields bus left device none e = devices_from cfg bus left device ≡ []
  Yields bus left device (some item) e = Scanned bus left device (some item) e

  scan_buses-Yields :
      (fuel left : ℕ) (e : DeviceEnumerator M) (o : Option (Item M))
      → e.bus < 256
      → (scan_devices M 33 e).0 ≡ o
      → Scanned e.bus left e.device o (scan_devices M 33 e).1
      → let r = scan_buses M (suc fuel) e in Yields e.bus left e.device r.0 r.1
  scan_buses-Yields fuel left e none b h s =
      rw
        (
          passes_bus fuel e b h,
          scan_buses_through fuel (next_bus M (scan_devices M 33 e).1) (unfold next_bus in s.1),
        )
        s.2
  scan_buses-Yields fuel left e (some item) b h s = rw (finds_on_bus fuel e b item h) s

  pub next-Yields :
      (left : ℕ) (e : DeviceEnumerator M)
      → e.bus < 256
      → e.device + left ≡ 32
      → let r = next M e in Yields e.bus left e.device r.0 r.1
  next-Yields left e b d =
      let s = scan_devices-Scanned 33 left e b d (omega arith) in
      let y = scan_buses-Yields 256 left e _ b refl s in unfold next in y

  items_stop : (fuel : ℕ) (e : DeviceEnumerator M) → (next M e).0 ≡ none → items M (suc fuel) e ≡ []
  unfolding items
  items_stop fuel e h = rw (h, items)

  items_more :
      (fuel : ℕ) (e : DeviceEnumerator M) (item : Item M)
      → (next M e).0 ≡ some item
      → items M (suc fuel) e ≡ item ∷ items M fuel (next M e).1
  unfolding items
  items_more fuel e item h = rw (h, items)

  items-devices_from :
      (fuel left : ℕ) (e : DeviceEnumerator M)
      → e.bus < 256
      → e.device + left ≡ 32
      → left < fuel
      → items M fuel e ≡ devices_from cfg e.bus left e.device
  items-devices_from zero left e b d f = absurd (omega arith)
  items-devices_from (suc fuel) left e b d f =
      from_next (next M e).0 refl (next-Yields left e b d)
        (λ rest b' d' r. items-devices_from fuel rest (next M e).1 b' d' (omega arith))
    where
      from_next :
          (o : Option (Item M))
          → (next M e).0 ≡ o
          → Yields e.bus left e.device o (next M e).1
          → ((rest : ℕ)
              → (next M e).1.bus < 256
              → (next M e).1.device + rest ≡ 32
              → rest < left
              → items M fuel (next M e).1
                ≡ devices_from cfg (next M e).1.bus rest (next M e).1.device)
          → items M (suc fuel) e ≡ devices_from cfg e.bus left e.device
      from_next none h y ih = items_stop fuel e h ∙ sym y
      from_next (some item) h (same, (rest, d', r, y)) ih =
          let later = ih rest (omega (arith, same)) d' r in
          items_more fuel e item h ∙ ap (◌∷◌ item) (rw same at later) ∙ sym y

-- On a mechanism whose reads return the words of a space, a loop over the enumeration yields
-- function 0 of the devices of bus 0 that report a vendor, in order, and nothing of any other bus.
pub items-bus_zero :
    (M : Mechanism) (cfg : Space)
    → Reads M cfg
    → (s : M.State) → items M 33 (enumerate M s) ≡ devices_from cfg 0 32 0
unfolding enumerate
items-bus_zero M cfg reads s =
    items-devices_from M cfg reads 33 32 (enumerate M s) (omega arith) (omega arith) (omega arith)
