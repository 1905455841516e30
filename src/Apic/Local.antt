-- ===== src/Apic/Local.antt =====
-- kernel/src/interrupts/apic/local.rs: the registers of the local APIC and the timer's entry in its
-- vector table.
--
-- The registers are hardware behind memory: `Memory` is what a volatile access does to it.
mod Examples
pub mod Access
use nocciolo.Base.{
  ℕ, ◌+◌, ◌-◌, ◌*◌, ◌/◌, ◌%◌, ◌^◌, bit_and, bit_or, Outcome, ok, panic, ◌>>=◌, ◌>>◌, assert, add_in,
  sub_in, ltb, leb, if◌then◌else◌, Bool, true, false, List, [], ◌∷◌,
}

pub data LocalApicRegister : Type 0 where
  id version task_priority arbitration_priority processor_priority end_of_interrupt remote_read
        logical_destination destination_format spurious_interrupt_vector error_status
        lvt_corrected_machine_check_interrupt interrupt_command1 interrupt_command2 lvt_timer
        lvt_lint0 lvt_lint1 lvt_error initial_count current_count divide_configuration :
      LocalApicRegister

-- `register as usize`.
pub register_offset : LocalApicRegister → ℕ
register_offset id = 0x020
register_offset version = 0x030
register_offset task_priority = 0x080
register_offset arbitration_priority = 0x090
register_offset processor_priority = 0x0A0
register_offset end_of_interrupt = 0x0B0
register_offset remote_read = 0x0C0
register_offset logical_destination = 0x0D0
register_offset destination_format = 0x0E0
register_offset spurious_interrupt_vector = 0x0F0
register_offset error_status = 0x280
register_offset lvt_corrected_machine_check_interrupt = 0x2F0
register_offset interrupt_command1 = 0x300
register_offset interrupt_command2 = 0x310
register_offset lvt_timer = 0x320
register_offset lvt_lint0 = 0x350
register_offset lvt_lint1 = 0x360
register_offset lvt_error = 0x370
register_offset initial_count = 0x380
register_offset current_count = 0x390
register_offset divide_configuration = 0x3E0

pub data ApicRegisterPermissions : Type 0 where
  no_access read_write read_only write_only : ApicRegisterPermissions

pub permissions : LocalApicRegister → ApicRegisterPermissions
permissions id = read_only
permissions version = read_only
permissions task_priority = read_write
permissions arbitration_priority = read_only
permissions processor_priority = read_only
permissions end_of_interrupt = write_only
permissions remote_read = read_only
permissions logical_destination = read_write
permissions destination_format = read_write
permissions spurious_interrupt_vector = read_write
permissions error_status = read_only
permissions lvt_corrected_machine_check_interrupt = read_write
permissions interrupt_command1 = read_write
permissions interrupt_command2 = read_write
permissions lvt_timer = read_write
permissions lvt_lint0 = read_write
permissions lvt_lint1 = read_write
permissions lvt_error = read_write
permissions initial_count = read_write
permissions current_count = read_only
permissions divide_configuration = read_write

pub is_readable : LocalApicRegister → Bool
is_readable register = elim (permissions register) [
  | read_only ↦ true
  | read_write ↦ true
  | no_access ↦ false
  | write_only ↦ false
]

pub is_writable : LocalApicRegister → Bool
is_writable register = elim (permissions register) [
  | write_only ↦ true
  | read_write ↦ true
  | no_access ↦ false
  | read_only ↦ false
]

-- The mapping of the 0x800 bytes of the registers: where it starts and how long it is.
pub record LocalApic : Type 0 where
  pub virtual_start : ℕ
  pub mapped_length : ℕ

-- An index into the 0x800 bytes, and then a checked subtraction.
pub offset_to_addr : LocalApic → ℕ → Outcome ℕ
offset_to_addr this offset = do
  assert (ltb offset 0x800)
  sub_in (this.virtual_start + offset) 0x900

pub get_mapped_end : LocalApic → Outcome ℕ
unfolding offset_to_addr
get_mapped_end this = do addr ← offset_to_addr this 0; add_in 64 addr this.mapped_length

pub ensure_safe_addr : LocalApic → ℕ → Outcome (Unit {0})
unfolding get_mapped_end
ensure_safe_addr this addr = do end ← get_mapped_end this; assert (ltb addr end)

pub register_to_addr : LocalApic → LocalApicRegister → Outcome ℕ
unfolding offset_to_addr ensure_safe_addr register_offset
register_to_addr this register = do
  addr ← offset_to_addr this (register_offset register)
  ensure_safe_addr this addr
  ok addr

-- 32-bit volatile accesses to memory, of which the registers are a part.
pub record Memory (S : Type 0) : Type 0 where
  pub load : ℕ → S → ℕ × S
  pub store : ℕ → ℕ → S → S

module _ {S : Type 0} (M : Memory S) where
  pub read : LocalApic → LocalApicRegister → S → Outcome (ℕ × S)
  unfolding is_readable register_to_addr
  read this register s = do
    assert (is_readable register)
    addr ← register_to_addr this register
    ok (M.load addr s)

  pub write : LocalApic → LocalApicRegister → ℕ → S → Outcome S
  unfolding is_writable register_to_addr
  write this register value s = do
    assert (is_writable register)
    addr ← register_to_addr this register
    ok (M.store addr value s)

pub data VectorDeliveryMode : Type 0 where
  fixed smi nmi ext_int : VectorDeliveryMode

pub delivery_mode_bits : VectorDeliveryMode → ℕ
delivery_mode_bits fixed = 0b000
delivery_mode_bits smi = 0b010
delivery_mode_bits nmi = 0b100
delivery_mode_bits ext_int = 0b11

pub data VectorDeliverStatus : Type 0 where
  idle send_pending : VectorDeliverStatus

pub data VectorTriggerMode : Type 0 where
  edge level : VectorTriggerMode

pub data VectorTimerMode : Type 0 where
  one_shot periodic tsc_deadline : VectorTimerMode

pub timer_mode_bits : VectorTimerMode → ℕ
timer_mode_bits one_shot = 0b00
timer_mode_bits periodic = 0b01
timer_mode_bits tsc_deadline = 0b10

pub status_bits : VectorDeliverStatus → ℕ
status_bits idle = 0
status_bits send_pending = 1

pub trigger_bits : VectorTriggerMode → ℕ
trigger_bits edge = 0
trigger_bits level = 1

pub flag_bits : Bool → ℕ
flag_bits false = 0
flag_bits true = 1

pub record LocalVectorTableRegister : Type 0 where
  pub vector : ℕ
  pub delivery_mode : VectorDeliveryMode
  pub delivery_status : VectorDeliverStatus
  pub is_low_triggered : Bool
  pub is_remote_irr : Bool
  pub trigger_mode : VectorTriggerMode
  pub is_masked : Bool
  pub timer_mode : VectorTimerMode

pub new_timer : ℕ → VectorDeliverStatus → Bool → VectorTimerMode → LocalVectorTableRegister
new_timer vector status is_masked mode = record {
  vector = vector;
  delivery_mode = nmi;
  delivery_status = status;
  is_low_triggered = false;
  is_remote_irr = false;
  trigger_mode = edge;
  is_masked = is_masked;
  timer_mode = mode;
}

pub new_masked_timer : LocalVectorTableRegister
unfolding new_timer
new_masked_timer = new_timer 0 idle true periodic

pub as_u32 : LocalVectorTableRegister → ℕ
as_u32 this =
    let v0 = bit_and this.vector 0b11111111 in
    let v1 = bit_or v0 (bit_and (delivery_mode_bits this.delivery_mode) 0b111 * 2 ^ 8) in
    let v2 = bit_or v1 (bit_and 0 0b1 * 2 ^ 11) in
    let v3 = bit_or v2 (bit_and (status_bits this.delivery_status) 0b1 * 2 ^ 12) in
    let v4 = bit_or v3 (bit_and (flag_bits this.is_low_triggered) 0b1 * 2 ^ 13) in
    let v5 = bit_or v4 (bit_and (flag_bits this.is_remote_irr) 0b1 * 2 ^ 14) in
    let v6 = bit_or v5 (bit_and (trigger_bits this.trigger_mode) 0b1 * 2 ^ 15) in
    let v7 = bit_or v6 (bit_and (flag_bits this.is_masked) 0b1 * 2 ^ 16) in
    bit_or v7 (bit_and (timer_mode_bits this.timer_mode) 0b11 * 2 ^ 17)

module _ {S : Type 0} (M : Memory S) where
  pub enable : LocalApic → S → Outcome S
  unfolding write
  enable this s = write M this spurious_interrupt_vector 0xFF s

  pub set_timer_divide : LocalApic → ℕ → S → Outcome S
  unfolding write
  set_timer_divide this divide s = write M this divide_configuration divide s

  pub set_timer_initial_counter : LocalApic → ℕ → S → Outcome S
  unfolding write
  set_timer_initial_counter this counter s = write M this initial_count counter s

  pub stop_timer : LocalApic → S → Outcome S
  unfolding write new_masked_timer as_u32
  stop_timer this s = write M this lvt_timer (as_u32 new_masked_timer) s

  -- `PIC_1_OFFSET` of kernel/src/interrupts.rs is 32.
  pub initialize : LocalApic → S → Outcome S
  unfolding enable write set_timer_initial_counter read
  initialize this s0 = do
    s1 ← enable this s0
    s2 ← write M this lvt_timer 32 s1
    s3 ← set_timer_initial_counter this 0 s2
    r ← read M this current_count s3
    ok r.1

-- Whether an address lies in one of the regions of the memory map; the source only warns.
pub verify_in_correct_region : ℕ → List (ℕ × ℕ) → Bool
verify_in_correct_region addr [] = false
verify_in_correct_region addr (region ∷ regions) =
    let rest = verify_in_correct_region addr regions in
    if leb region.0 addr then (if leb addr region.1 then true else rest) else rest
