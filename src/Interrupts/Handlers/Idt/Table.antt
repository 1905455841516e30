-- ===== src/Interrupts/Handlers/Idt/Table.antt =====
-- The table: each handler stands at one vector.
use nocciolo.Base.{ℕ, ◌≡◌, ◌≢◌, ◌↔◌, Bool, some, arith}
use nocciolo.Interrupts.Handlers.Idt.{Handler, idt, install, set_handler_fn, general_table, as_u8}

-- The vector that the processor's manual gives to the exception, or the kernel to the interrupt.
abbrev pub vector_of : Handler → ℕ
vector_of Handler.division_error = 0
vector_of Handler.debug = 1
vector_of Handler.non_maskable_interrupt = 2
vector_of Handler.breakpoint = 3
vector_of Handler.overflow = 4
vector_of Handler.bound_range_exceeded = 5
vector_of Handler.invalid_opcode = 6
vector_of Handler.device_not_available = 7
vector_of Handler.double_fault = 8
vector_of Handler.invalid_tss = 10
vector_of Handler.segment_not_present = 11
vector_of Handler.stack_segment_fault = 12
vector_of Handler.general_protection_fault = 13
vector_of Handler.page_fault = 14
vector_of Handler.alignment_check = 17
vector_of Handler.machine_check = 18
vector_of Handler.simd_floating_point = 19
vector_of Handler.virtualization = 20
vector_of Handler.cp_protection = 21
vector_of Handler.hv_injection = 28
vector_of Handler.vmm_communication = 29
vector_of Handler.security = 30
vector_of Handler.timer = 32
vector_of Handler.keyboard = 33
vector_of Handler.spurious_io_apic = 39
vector_of Handler.spurious_local_apic = 40
vector_of Handler.generic = 0

idt-installed :
    (is_general : ℕ → Bool) (handler : Handler)
    → handler ≢ Handler.generic
    → idt is_general (vector_of handler) ≡ some handler
unfolding idt install set_handler_fn general_table as_u8
idt-installed is_general handler named = ground arith

idt-vector :
    (is_general : ℕ → Bool) (v : ℕ) (handler : Handler)
    → handler ≢ Handler.generic
    → idt is_general v ≡ some handler
    → v ≡ vector_of handler
unfolding idt install set_handler_fn general_table as_u8
idt-vector is_general v handler named found = ground arith

-- Whatever vectors the general handler covers, each other handler stands at the vector that the
-- manual or the kernel gives it, and at no other.
pub idt-at :
    (is_general : ℕ → Bool) (v : ℕ) (handler : Handler)
    → handler ≢ Handler.generic
    → (idt is_general v ≡ some handler) ↔ (v ≡ vector_of handler)
idt-at is_general v handler named =
    (idt-vector is_general v handler named, λ at. rw at (idt-installed is_general handler named))
