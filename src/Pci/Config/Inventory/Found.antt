-- ===== src/Pci/Config/Inventory/Found.antt =====
-- The log describes the devices of bus 0, with what the configuration space says of each.
use nocciolo.Base.{
  ℕ, zero, suc, ◌+◌, ◌/◌, ◌^◌, ◌<◌, ◌≡◌, refl, ap, sym, ◌∙◌, bit_and, cast, Option, none, some,
  List, [], ◌∷◌, ◌++◌, length, map, arith,
}
use nocciolo.Pci.Types.{PciAddress, class_new}
use nocciolo.Pci.Config.{Mechanism, DeviceEnumerator, Item, next, enumerate, class_code, subclass}
use nocciolo.Pci.Config.Enumeration.{Space, Reads, devices_from, Yields, next-Yields}
use nocciolo.Pci.Config.Inventory.{
  InfoLine, found_line, device_lines, log_device, survey, all_lines, init,
}

-- The lines of a device whose class word is in the space.
abbrev pub described : Space → PciAddress × ℕ × ℕ → List InfoLine
described cfg item =
    device_lines item (class_new (cast 8 (cfg item.0 0xa / 2 ^ 8))) (bit_and (cfg item.0 0xa) 0xff)

module _ (M : Mechanism) (cfg : Space) (reads : Reads M cfg) where
  log_device-described :
      (item : Item M) (s : M.State) → (log_device M item s).0 ≡ described cfg item
  unfolding log_device class_code subclass
  log_device-described item s =
      let s1 = (M.read_word s item.0 0xa).1 in rw (reads s item.0 0xa, reads s1 item.0 0xa)

  survey_stop :
      (fuel : ℕ) (e : DeviceEnumerator M) → (next M e).0 ≡ none → survey M (suc fuel) e ≡ []
  unfolding survey
  survey_stop fuel e h = rw (h, survey)

  abbrev after : DeviceEnumerator M → Item M → DeviceEnumerator M
  after e item = record (next M e).1 { state = (log_device M item (next M e).1.state).1 }

  survey_more :
      (fuel : ℕ) (e : DeviceEnumerator M) (item : Item M)
      → (next M e).0 ≡ some item
      → survey M (suc fuel) e
        ≡ (log_device M item (next M e).1.state).0 ∷ survey M fuel (after e item)
  unfolding survey
  survey_more fuel e item h = rw (h, survey)

  survey-devices_from :
      (fuel left : ℕ) (e : DeviceEnumerator M)
      → e.bus < 256
      → e.device + left ≡ 32
      → left < fuel
      → survey M fuel e ≡ map (described cfg) (devices_from cfg e.bus left e.device)
  survey-devices_from zero left e b d f = absurd (omega arith)
  survey-devices_from (suc fuel) left e b d f =
      from_next (next M e).0 refl (next-Yields M cfg reads left e b d)
        (λ item rest b' d' r. survey-devices_from fuel rest (after e item) b' d' (omega arith))
    where
      from_next :
          (o : Option (Item M))
          → (next M e).0 ≡ o
          → Yields M cfg reads e.bus left e.device o (next M e).1
          → ((item : Item M) (rest : ℕ)
              → (next M e).1.bus < 256
              → (next M e).1.device + rest ≡ 32
              → rest < left
              → survey M fuel (after e item)
                ≡ map (described cfg) (devices_from cfg (next M e).1.bus rest (next M e).1.device))
          → survey M (suc fuel) e ≡ map (described cfg) (devices_from cfg e.bus left e.device)
      from_next none h y ih = survey_stop fuel e h ∙ sym (ap (map (described cfg)) y)
      from_next (some item) h (same, (rest, d', r, y)) ih =
          let later = ih item rest (omega (arith, same)) d' r in
          survey_more fuel e item h
          ∙ ap (λ lines. lines ∷ survey M fuel (after e item))
              (log_device-described item (next M e).1.state)
          ∙ ap (◌∷◌ (described cfg item)) (
              later
              ∙ ap (λ b. map (described cfg) (devices_from cfg b rest (next M e).1.device)) same)
          ∙ sym (ap (map (described cfg)) y)

length-map {ℓ κ} :
    {A : Type ℓ} {B : Type κ} (f : A → B) (xs : List A) → length (map f xs) ≡ length xs
length-map f [] = refl
length-map f (x ∷ xs) = ap suc (length-map f xs)

-- On a mechanism whose reads return the words of a space, the lines that are logged are those of
-- function 0 of the devices of bus 0 that report a vendor, in order and each with its class and
-- names, and then their number; no device of another bus is logged.
pub init-devices :
    (M : Mechanism) (cfg : Space)
    → Reads M cfg
    → (s : M.State)
    → init M s
      ≡ all_lines M (map (described cfg) (devices_from cfg 0 32 0))
        ++ (found_line (length (devices_from cfg 0 32 0)) ∷ [])
unfolding init enumerate
init-devices M cfg reads s =
    let found =
      survey-devices_from M cfg reads 33 32 (enumerate M s) (omega arith) (omega arith)
        (omega arith) in
    ap (λ devices. all_lines M devices ++ (found_line (length devices) ∷ [])) found
    ∙ ap (λ n. all_lines M (map (described cfg) (devices_from cfg 0 32 0)) ++ (found_line n ∷ []))
        (length-map (described cfg) (devices_from cfg 0 32 0))
