-- ===== src/Interrupts.antt =====
-- kernel/src/interrupts.rs: the statics that an interrupt handler touches, with the calls that the
-- handlers share: kernel/src/serial.rs, `Logger::log` of kernel/src/logging.rs, `_print` of
-- kernel/src/vga_text_buffer.rs, and the panic handler of kernel/src/main.rs.
pub mod Handlers
pub mod Examples
use nocciolo.Base.{
  ℕ, Bool, true, false, if◌then◌else◌, Outcome, ok, panic, Option, none, some, List, [], ◌∷◌,
  String,
}
use nocciolo.Logging.{Level, error, warn, info, debug, trace}
use nocciolo.Symbols.{ElfBytes}
use nocciolo.Task.Keyboard.{Primitives, Keyboard}
use nocciolo.Apic.Local.{Memory}
use nocciolo.Apic.Io.Table.{Window, IoApic}

-- `InterruptStackFrame` of the crate `x86_64`.
pub record InterruptStackFrame : Type 0 where
  pub instruction_pointer : ℕ
  pub stack_pointer : ℕ

-- What stands outside: the queue and the waker of the keyboard, the kernel's image, the controllers'
-- memory, and the crate `pic8259`.
pub record Platform : Type 1 where
  pub primitives : Primitives
  pub elf : ElfBytes
  pub Devices : Type 0
  pub memory : Memory Devices
  pub window : Window Devices
  pub Pics : Type 0
  pub notify_end_of_interrupt : ℕ → Pics → Pics

-- A run of kernel code that can stop for ever, in `hlt_loop` or at a lock that is not given back.
pub data Run {ℓ} (S : Type 0) (A : Type ℓ) : Type ℓ where
  returns : A → S → Run S A
  halts : S → Run S A
  spins : S → Run S A

infixl 5 ◌>>=◌ ◌>>◌
abbrev pub ◌>>=◌ : {S A B : Type 0} → (S → Run S A) → (A → S → Run S B) → S → Run S B
◌>>=◌ first rest s = elim (first s) [
  | returns a s' ↦ rest a s'
  | halts s' ↦ halts s'
  | spins s' ↦ spins s'
]

abbrev pub ◌>>◌ : {S A B : Type 0} → (S → Run S A) → (S → Run S B) → S → Run S B
first >> rest = first >>= λ _. rest

abbrev pub pure : {S A : Type 0} → A → S → Run S A
pure a s = returns a s

module _ (Q : Platform) where
  -- A part of a text: what the formatting of the core library makes of it is left open.
  pub data Piece : Type 0 where
    text : String → Piece
    number : ℕ → Piece
    hex : ℕ → Piece
    symbol : Option Q.elf.Name → Piece
    frame : InterruptStackFrame → Piece
    details : Piece

  -- A line, of a record of the logger at its level, or printed as it is.
  pub record Line : Type 0 where
    pub level : Option Level
    pub pieces : List Piece

  -- The statics. A lock is taken or free; the lines are the newest first.
  pub record Kernel : Type 0 where
    pub writer_locked : Bool
    pub serial_locked : Bool
    pub timer_locked : Bool
    pub pics_locked : Bool
    pub serial : List Line
    pub screen : List Line
    pub timer : ℕ
    pub keyboard : Keyboard Q.primitives
    pub woken : List (Option ℕ)
    pub pics : Q.Pics
    pub io_apic : Option (IoApic × ℕ)
    pub devices : Q.Devices

  abbrev pub Action : Type 0 → Type 0
  Action A = Kernel → Run Kernel A

  -- `print_in_interrupt`, on a port of its own.
  pub print_in_interrupt : List Piece → Action (Unit {0})
  print_in_interrupt pieces k =
      returns tt (record k { serial = record { level = none; pieces = pieces } ∷ k.serial })

  -- `serial::_print`: the lock is forced open before it is taken, and given back.
  pub serial_print : Line → Action (Unit {0})
  serial_print line k = returns tt (record k { serial = line ∷ k.serial; serial_locked = false })

  -- `vga_text_buffer::_print`: it waits for the lock, and gives it back.
  pub print : Line → Action (Unit {0})
  print line k =
      if k.writer_locked then spins k else returns tt (record k { screen = line ∷ k.screen })

  -- `Logger::log`.
  pub log_line : Level → Line → Action (Unit {0})
  unfolding serial_print print
  log_line trace line = serial_print line
  log_line error line = do serial_print line; print line
  log_line warn line = do serial_print line; print line
  log_line info line = do serial_print line; print line
  log_line debug line = do serial_print line; print line

  pub log : Level → List Piece → Action (Unit {0})
  unfolding log_line
  log level pieces = log_line level (record { level = some level; pieces = pieces })

  pub hlt_loop : {A : Type 0} → Action A
  hlt_loop k = halts k

  -- The panic handler.
  pub panicked : {A : Type 0} → List Piece → Action A
  unfolding log hlt_loop
  panicked message = do log error (text "[PANIC] " ∷ message); hlt_loop

  -- Code that can panic.
  pub checked : {A : Type 0} → Outcome A → Action A
  unfolding panicked
  checked (ok a) = pure a
  checked panic = panicked (details ∷ [])
