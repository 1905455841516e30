-- ===== src/Timer/Counter.antt =====
-- The bytes that set the counter: the mode command's fields and the reload count.
use nocciolo.Base.{
  ◌==◌, leb, ◌+◌, true, false, ℕ, ◌*◌, ◌/◌, ◌%◌, ◌^◌, ◌≤◌, ◌<◌, ◌≡◌, refl, ap, ◌∙◌, bit_and, bit_or,
  bit_and-ones, bit_or-above, ok, cast, ◌∷◌, arith,
}
use native.Mathlib.Nat.{div-le_of_le-mul}
use nocciolo.Timer.{
  timer_interrupt_handler, base_frequency, Writes, write_reload_count, set_frequency, read_count,
}

-- A count that fits 16 bits goes out low byte first, and the bytes read back in that order are it.
pub write_read_count :
    (count : ℕ) (ports : Writes)
    → count < 2 ^ 16
    → (lo : ℕ) × (hi : ℕ) × (write_reload_count count ports ≡ (0x40, hi) ∷ (0x40, lo) ∷ ports)
      × (lo < 2 ^ 8)
      × (hi < 2 ^ 8)
      × ((read_count lo hi ports).0 ≡ count)
unfolding write_reload_count read_count
write_read_count count ports fits =
    let low = bit_and-ones 8 count in
    let high = bit_and-ones 8 (count / 2 ^ 8) in
    let whole =
      bit_or-above 8 (count / 2 ^ 8 * 2 ^ 8) (count % 2 ^ 8) (omega arith) (omega arith) in
    (
      cast 8 (bit_and count 0xFF),
      cast 8 (bit_and (count / 2 ^ 8) 0xFF),
      refl,
      omega arith,
      omega arith,
      ap (λ l. bit_or (cast 8 l) (cast 16 (cast 8 (bit_and (count / 2 ^ 8) 0xFF) * 256))) low
          ∙ ap (λ h. bit_or (cast 8 (count % 2 ^ 8)) (cast 16 (cast 8 h * 256))) high
          ∙ ap (λ l. bit_or l (cast 16 (cast 8 (count / 2 ^ 8 % 2 ^ 8) * 256))) (omega arith)
          ∙ ap (λ h. bit_or (count % 2 ^ 8) h) (omega arith)
          ∙ whole
          ∙ omega arith,
    )

-- The frequency is set for every divisor whose quotient fits, and init asks for 1000 interrupts a
-- second, within a thousandth.
pub set_frequency_returns :
    (frequency : ℕ) (ports : Writes)
    → 19 ≤ frequency
    → set_frequency frequency ports ≡ ok (write_reload_count (base_frequency / frequency) ports)
unfolding set_frequency
set_frequency_returns frequency ports h =
    let quotient = base_frequency / frequency in
    let positive : (frequency == 0) ≡ false = ground arith in
    let small : quotient ≤ 0xFFFF = div-le_of_le-mul frequency (omega arith) in
    let fits : leb quotient 0xFFFF ≡ true = ground arith in
    rw (positive, fits) (ap (λ c. ok (write_reload_count c ports)) (omega arith))

pub timer_interrupt_handler_lem :
    (timer : ℕ) → timer + 1 < 2 ^ 64 → timer_interrupt_handler timer ≡ ok (timer + 1)
unfolding timer_interrupt_handler
timer_interrupt_handler_lem timer counts = ground arith
