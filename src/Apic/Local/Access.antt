-- ===== src/Apic/Local/Access.antt =====
-- What an access to the local APIC does, and the layout of a vector table entry.
use nocciolo.Base.{
  ℕ, ◌+◌, ◌-◌, ◌*◌, ◌^◌, ◌≤◌, ◌<◌, ◌≡◌, refl, ap, ◌∙◌, Outcome, ok, panic, assert, ◌>>=◌, Bool,
  true, false, arith, if◌then◌else◌, bit_and, bit_or, bit_and-ones, bit_or-field,
}
use nocciolo.Apic.Local.{
  LocalApic, LocalApicRegister, register_offset, permissions, is_readable, is_writable,
  offset_to_addr, get_mapped_end, ensure_safe_addr, register_to_addr, Memory, read, write,
  initialize, enable, set_timer_initial_counter, LocalVectorTableRegister, VectorDeliveryMode,
  VectorDeliverStatus, VectorTriggerMode, VectorTimerMode, delivery_mode_bits, status_bits,
  flag_bits, trigger_bits, timer_mode_bits, as_u32, fixed, idle, edge, one_shot, id, initial_count,
  current_count, lvt_timer, spurious_interrupt_vector,
}

pub register_offset-lt : (r : LocalApicRegister) → register_offset r < 0x400
unfolding register_offset
register_offset-lt id = omega arith
register_offset-lt r = omega arith

-- The mapping holds the registers, lies in the address space, and does not start below the offset
-- that is taken off.
pub record IsMapped (this : LocalApic) : Type 0 where
  pub high : 0x900 ≤ this.virtual_start
  pub long : 0x400 ≤ this.mapped_length
  pub fits : this.virtual_start + this.mapped_length ≤ 2 ^ 64

pub register_to_addr_lem :
    (this : LocalApic) (r : LocalApicRegister)
    → IsMapped this
    → register_to_addr this r ≡ ok (this.virtual_start + register_offset r - 0x900)
unfolding register_to_addr offset_to_addr ensure_safe_addr get_mapped_end
register_to_addr_lem this r m =
    let high = m.high in
    let long = m.long in let fits = m.fits in ground (arith, register_offset-lt r)

-- The bounds of the mapping that are logged.
pub get_mapped_end_lem :
    (this : LocalApic)
    → IsMapped this
    → (offset_to_addr this 0 ≡ ok (this.virtual_start - 0x900))
      × (get_mapped_end this ≡ ok (this.virtual_start - 0x900 + this.mapped_length))
unfolding offset_to_addr get_mapped_end
get_mapped_end_lem this m =
    let high = m.high in let long = m.long in let fits = m.fits in (ground arith, ground arith)

-- A step behind a guard.
guarded :
    {A B : Type 0} (b : Bool) (m : Outcome A) (f : A → Outcome B) {a : A}
    → m ≡ ok a
    → (assert b >>= λ _. m >>= f) ≡ (if b then f a else panic)
guarded true m f e = ap (λ x. x >>= f) e
guarded false m f e = refl

module _ {S : Type 0} (M : Memory S) (this : LocalApic) (m : IsMapped this) where
  abbrev address : LocalApicRegister → ℕ
  address r = this.virtual_start + register_offset r - 0x900

  -- With the registers mapped, a read of a register that its permissions let be read loads from the
  -- register's offset less 0x900, and any other read panics; a write of one that they let be
  -- written stores there, and any other write panics.
  pub read-write :
      (r : LocalApicRegister) (value : ℕ) (s : S)
      → (read M this r s ≡ (if is_readable r then ok (M.load (address r) s) else panic))
        × (write M this r value s
            ≡ (if is_writable r then ok (M.store (address r) value s) else panic))
  unfolding read write
  read-write r value s =
      let a = register_to_addr_lem this r m in
      (
        guarded (is_readable r) (register_to_addr this r) (λ x. ok (M.load x s)) a,
        guarded (is_writable r) (register_to_addr this r) (λ x. ok (M.store x value s)) a,
      )

  -- With the registers mapped, initialize returns: it stores 0xFF in the spurious interrupt vector,
  -- then 32 in the timer's entry of the vector table, then 0 in the initial count, and loads the
  -- current count.
  pub initialize-stores :
      (s : S)
      → initialize M this s
        ≡ ok
            (M.load (address current_count) (
              M.store (address initial_count) 0 (
                M.store
                  (address lvt_timer)
                  32
                  (M.store (address spurious_interrupt_vector) 0xFF s)))).1
  unfolding initialize enable set_timer_initial_counter is_readable is_writable permissions
  initialize-stores s = rw (
    (read-write spurious_interrupt_vector 0xFF s).1,
    (read-write lvt_timer 32 _).1,
    (read-write initial_count 0 _).1,
    (read-write current_count 0 _).0,
  )

one_bit : (b : Bool) → flag_bits b < 2
unfolding flag_bits
one_bit true = omega arith
one_bit b = omega arith

delivery_mode-lt : (m : VectorDeliveryMode) → delivery_mode_bits m < 8
unfolding delivery_mode_bits
delivery_mode-lt fixed = omega arith
delivery_mode-lt m = omega arith

status-lt : (m : VectorDeliverStatus) → status_bits m < 2
unfolding status_bits
status-lt idle = omega arith
status-lt m = omega arith

trigger-lt : (m : VectorTriggerMode) → trigger_bits m < 2
unfolding trigger_bits
trigger-lt edge = omega arith
trigger-lt m = omega arith

timer_mode-lt : (m : VectorTimerMode) → timer_mode_bits m < 4
unfolding timer_mode_bits
timer_mode-lt one_shot = omega arith
timer_mode-lt m = omega arith

-- A field is masked and joined above the ones that are there.
bit_or-masked :
    (w k d acc : ℕ) {s : ℕ}
    → d < 2 ^ w
    → acc ≡ s
    → s < 2 ^ k
    → bit_or acc (bit_and d (2 ^ w - 1) * 2 ^ k) ≡ s + d * 2 ^ k
bit_or-masked w k d acc {s} small e h =
    ap (λ x. bit_or acc (x * 2 ^ k)) (bit_and-ones w d ∙ grind (arith, small))
    ∙ bit_or-field k d acc e h

-- A vector table entry whose vector is a byte is the sum of its fields, each at its place: no field
-- reaches into another.
pub as_u32-sum :
    (t : LocalVectorTableRegister)
    → t.vector < 256
    → as_u32 t
      ≡ t.vector
        + delivery_mode_bits t.delivery_mode * 2 ^ 8
        + status_bits t.delivery_status * 2 ^ 12
        + flag_bits t.is_low_triggered * 2 ^ 13
        + flag_bits t.is_remote_irr * 2 ^ 14
        + trigger_bits t.trigger_mode * 2 ^ 15
        + flag_bits t.is_masked * 2 ^ 16
        + timer_mode_bits t.timer_mode * 2 ^ 17
unfolding as_u32
as_u32-sum t h0 =
    let dm = delivery_mode-lt t.delivery_mode in
    let ds = status-lt t.delivery_status in
    let lt = one_bit t.is_low_triggered in
    let ri = one_bit t.is_remote_irr in
    let tm = trigger-lt t.trigger_mode in
    let ma = one_bit t.is_masked in
    let mo = timer_mode-lt t.timer_mode in
    let v0 : bit_and t.vector 0b11111111 ≡ t.vector = bit_and-ones 8 t.vector ∙ omega arith in
    let v1 = bit_or-masked 3 8 (delivery_mode_bits t.delivery_mode) _ dm v0 (omega arith) in
    let v2 = bit_or-masked 1 11 0 _ (omega arith) v1 (omega arith) in
    let v3 = bit_or-masked 1 12 (status_bits t.delivery_status) _ ds v2 (omega arith) in
    let v4 = bit_or-masked 1 13 (flag_bits t.is_low_triggered) _ lt v3 (omega arith) in
    let v5 = bit_or-masked 1 14 (flag_bits t.is_remote_irr) _ ri v4 (omega arith) in
    let v6 = bit_or-masked 1 15 (trigger_bits t.trigger_mode) _ tm v5 (omega arith) in
    let v7 = bit_or-masked 1 16 (flag_bits t.is_masked) _ ma v6 (omega arith) in
    bit_or-masked 2 17 (timer_mode_bits t.timer_mode) _ mo v7 (omega arith) ∙ omega arith
