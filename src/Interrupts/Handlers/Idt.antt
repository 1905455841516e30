-- ===== src/Interrupts/Handlers/Idt.antt =====
-- The interrupt descriptor table of kernel/src/interrupts.rs: which handler stands at which vector,
-- and what an arrival at a vector does.
pub mod Table
pub mod Effects
pub mod Spurious
use nocciolo.Base.{
  ℕ, ◌==◌, ltb, Bool, true, false, ◌||◌, ◌&&◌, if◌then◌else◌, Option, none, some, List, [], ◌∷◌,
}
use nocciolo.Interrupts.{InterruptStackFrame, Platform, Action, Kernel, Run, ◌>>=◌}
use nocciolo.Interrupts.Handlers.{
  generic_handler, breakpoint_handler, double_fault_handler, page_fault_handler,
  keyboard_interrupt_handler, timer_interrupt_handler, spurious_local_apic_interrupt_handler,
  spurious_io_apic_interrupt_handler, division_error_handler, non_maskable_interrupt_handler,
  debug_handler, overflow_handler, bound_range_exceeded_handler, invalid_opcode_handler,
  device_not_available_handler, invalid_tss_handler, segment_not_present_handler,
  stack_segment_fault_handler, general_protection_fault_handler, alignment_check_handler,
  machine_check_handler, simd_floating_point_exception_handler,
  control_protection_exception_handler, virtualization_exception_handler,
  hypervisor_injection_exception, vmm_communication_exception_handler, security_exception_handler,
}

-- The functions that the table names.
pub data Handler : Type 0 where
  division_error debug non_maskable_interrupt breakpoint overflow bound_range_exceeded : Handler
  invalid_opcode device_not_available double_fault invalid_tss segment_not_present : Handler
  stack_segment_fault general_protection_fault page_fault alignment_check machine_check : Handler
  simd_floating_point virtualization cp_protection hv_injection vmm_communication security : Handler
  timer keyboard spurious_local_apic spurious_io_apic : Handler
  generic : Handler

-- `InterruptIndex`.
pub data InterruptIndex : Type 0 where
  timer_index keyboard_index spurious_io_apic_index spurious_local_apic_index : InterruptIndex

-- `InterruptIndex::as_u8`.
pub as_u8 : InterruptIndex → ℕ
as_u8 timer_index = 32
as_u8 keyboard_index = 33
as_u8 spurious_io_apic_index = 39
as_u8 spurious_local_apic_index = 40

-- The table: the handler at a vector, if there is one.
abbrev pub InterruptDescriptorTable : Type 0
InterruptDescriptorTable = ℕ → Option Handler

pub set_handler_fn : ℕ → Handler → InterruptDescriptorTable → InterruptDescriptorTable
set_handler_fn vector handler idt v = if v == vector then some handler else idt v

-- `InterruptDescriptorTable::new`, and then `set_general_handler!` on the vectors that it covers.
pub general_table : (ℕ → Bool) → InterruptDescriptorTable
general_table is_general v = if is_general v then some generic else none

-- The assignments in turn.
pub install : List (ℕ × Handler) → InterruptDescriptorTable → InterruptDescriptorTable
unfolding set_handler_fn
install [] idt = idt
install ((vector, handler) ∷ rest) idt = install rest (set_handler_fn vector handler idt)

-- The assignments of `IDT`, the table's fields at the vectors of their exceptions.
abbrev pub assignments : List (ℕ × Handler)
unfolding as_u8
assignments =
    (0, division_error)
    ∷ (1, debug)
    ∷ (2, non_maskable_interrupt)
    ∷ (3, breakpoint)
    ∷ (4, overflow)
    ∷ (5, bound_range_exceeded)
    ∷ (6, invalid_opcode)
    ∷ (7, device_not_available)
    ∷ (8, double_fault)
    ∷ (10, invalid_tss)
    ∷ (11, segment_not_present)
    ∷ (12, stack_segment_fault)
    ∷ (13, general_protection_fault)
    ∷ (14, page_fault)
    ∷ (17, alignment_check)
    ∷ (18, machine_check)
    ∷ (19, simd_floating_point)
    ∷ (20, virtualization)
    ∷ (21, cp_protection)
    ∷ (28, hv_injection)
    ∷ (29, vmm_communication)
    ∷ (30, security)
    ∷ (as_u8 timer_index, timer)
    ∷ (as_u8 keyboard_index, keyboard)
    ∷ (as_u8 spurious_local_apic_index, spurious_local_apic)
    ∷ (as_u8 spurious_io_apic_index, spurious_io_apic)
    ∷ []

-- `IDT`.
pub idt : (ℕ → Bool) → InterruptDescriptorTable
unfolding install general_table assignments
idt is_general = install assignments (general_table is_general)

-- What the processor and the devices hand to a handler.
pub record Arrival : Type 0 where
  pub vector : ℕ
  pub stack_frame : InterruptStackFrame
  pub error_code : ℕ
  pub cr2 : ℕ
  pub scancode : ℕ

module _ (Q : Platform) where
  -- The handler's run.
  pub handle : Handler → Arrival → Action Q (Unit {0})
  handle division_error a = division_error_handler Q a.stack_frame
  handle debug a = debug_handler Q a.stack_frame
  handle non_maskable_interrupt a = non_maskable_interrupt_handler Q a.stack_frame
  handle breakpoint a = breakpoint_handler Q a.stack_frame
  handle overflow a = overflow_handler Q a.stack_frame
  handle bound_range_exceeded a = bound_range_exceeded_handler Q a.stack_frame
  handle invalid_opcode a = invalid_opcode_handler Q a.stack_frame
  handle device_not_available a = device_not_available_handler Q a.stack_frame
  handle double_fault a = double_fault_handler Q a.stack_frame a.error_code
  handle invalid_tss a = invalid_tss_handler Q a.stack_frame a.error_code
  handle segment_not_present a = segment_not_present_handler Q a.stack_frame a.error_code
  handle stack_segment_fault a = stack_segment_fault_handler Q a.stack_frame a.error_code
  handle general_protection_fault a = general_protection_fault_handler Q a.stack_frame a.error_code
  handle page_fault a = page_fault_handler Q a.cr2 a.stack_frame a.error_code
  handle alignment_check a = alignment_check_handler Q a.stack_frame a.error_code
  handle machine_check a = machine_check_handler Q a.stack_frame
  handle simd_floating_point a = simd_floating_point_exception_handler Q a.stack_frame
  handle virtualization a = virtualization_exception_handler Q a.stack_frame
  handle cp_protection a = control_protection_exception_handler Q a.stack_frame a.error_code
  handle hv_injection a = hypervisor_injection_exception Q a.stack_frame
  handle vmm_communication a = vmm_communication_exception_handler Q a.stack_frame a.error_code
  handle security a = security_exception_handler Q a.stack_frame a.error_code
  handle timer a = timer_interrupt_handler Q
  handle keyboard a = keyboard_interrupt_handler Q a.scancode
  handle spurious_local_apic a = spurious_local_apic_interrupt_handler Q a.stack_frame
  handle spurious_io_apic a = spurious_io_apic_interrupt_handler Q a.stack_frame
  handle generic a = generic_handler Q a.vector
