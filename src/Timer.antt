-- ===== src/Timer.antt =====
-- kernel/src/device/pit.rs: the programmable interval timer, with the timer interrupt of
-- kernel/src/interrupts.rs.
pub mod Sleep
pub mod Counter
mod Examples
use nocciolo.Base.{
  ℕ, zero, suc, ◌+◌, ◌*◌, ◌/◌, ◌%◌, ◌^◌, bit_and, bit_or, Bool, true, false, not, ◌==◌, leb,
  if◌then◌else◌, Outcome, ok, ◌>>=◌, ◌>>◌, assert, add_in, cast, Option, none, some, List, [], ◌∷◌,
}

-- `BASE_FREQUENCY`.
abbrev pub base_frequency : ℕ
base_frequency = 1193182

pub data Channel : Type 0 where
  channel0 : Channel

pub data AccessMode : Type 0 where
  latch_count_value : AccessMode
  lo_byte_only : AccessMode
  hi_byte_only : AccessMode
  lo_and_hi_byte : AccessMode

pub data OperatingMode : Type 0 where
  interrupt_on_terminal_count : OperatingMode
  hardware_retriggerable_one_shot : OperatingMode
  rate_generator : OperatingMode
  square_wave : OperatingMode
  software_triggered_strobe : OperatingMode
  hardware_triggered_strobe : OperatingMode
  rate_generator2 : OperatingMode
  square_wave2 : OperatingMode

pub channel_bits : Channel → ℕ
channel_bits channel0 = 0

pub access_mode_bits : AccessMode → ℕ
access_mode_bits latch_count_value = 0
access_mode_bits lo_byte_only = 1
access_mode_bits hi_byte_only = 2
access_mode_bits lo_and_hi_byte = 3

pub operating_mode_bits : OperatingMode → ℕ
operating_mode_bits interrupt_on_terminal_count = 0
operating_mode_bits hardware_retriggerable_one_shot = 1
operating_mode_bits rate_generator = 2
operating_mode_bits square_wave = 3
operating_mode_bits software_triggered_strobe = 4
operating_mode_bits hardware_triggered_strobe = 5
operating_mode_bits rate_generator2 = 6
operating_mode_bits square_wave2 = 7

abbrev pub bool_bits : Bool → ℕ
bool_bits false = 0
bool_bits true = 1

-- The writes that reached the ports, the newest first: the port and the byte.
abbrev pub Writes : Type 0
Writes = List (ℕ × ℕ)

-- The value for port 0x43.
pub mode_command : Channel → AccessMode → OperatingMode → Bool → ℕ
unfolding channel_bits access_mode_bits operating_mode_bits
mode_command channel access_mode operating_mode bcd =
    bit_or
      (bit_or
        (bit_or (cast 8 (channel_bits channel * 2 ^ 6))
          (cast 8 (access_mode_bits access_mode * 2 ^ 4)))
        (cast 8 (operating_mode_bits operating_mode * 2 ^ 1)))
      (bool_bits bcd)

pub write_mode_command : Channel → AccessMode → OperatingMode → Bool → Writes → Writes
unfolding mode_command
write_mode_command channel access_mode operating_mode bcd ports =
    (0x43, mode_command channel access_mode operating_mode bcd) ∷ ports

pub write_reload_count : ℕ → Writes → Writes
write_reload_count count ports =
    let lo = cast 8 (bit_and count 0xFF) in
    let hi = cast 8 (bit_and (count / 2 ^ 8) 0xFF) in (0x40, hi) ∷ (0x40, lo) ∷ ports

-- A division by zero panics.
pub set_frequency : ℕ → Writes → Outcome Writes
unfolding write_reload_count
set_frequency frequency ports = do
  assert (not (frequency == 0))
  let frequency' = base_frequency / frequency
  assert (leb frequency' 0xFFFF)
  ok (write_reload_count (cast 16 frequency') ports)

pub init : Writes → Outcome Writes
unfolding write_mode_command set_frequency
init ports = set_frequency 1000 (write_mode_command channel0 lo_and_hi_byte square_wave false ports)

-- The count, from the two bytes that the channel's port yields after the latch command.
pub read_count : ℕ → ℕ → Writes → ℕ × Writes
unfolding write_mode_command
read_count lo hi ports = (
  bit_or lo (cast 16 (hi * 2 ^ 8)),
  write_mode_command channel0 latch_count_value interrupt_on_terminal_count false ports,
)

-- `timer_interrupt_handler`, on `TIMER`.
pub timer_interrupt_handler : ℕ → Outcome ℕ
timer_interrupt_handler timer = add_in 64 timer 1

-- The loop of `sleep`, for at most `rounds` rounds: `uptime i` is what the `i`-th read of `TIMER`
-- yields, and the result is the number of reads that were made, where the loop ended.
pub wait_until : ℕ → (ℕ → ℕ) → ℕ → ℕ → Option ℕ
wait_until zero uptime reads end = none
wait_until (suc rounds) uptime reads end =
    let later = wait_until rounds uptime (suc reads) end in
    if end == uptime reads then some (suc reads) else later

-- `sleep`, of a duration in milliseconds: the first read sets the end.
pub sleep : ℕ → (ℕ → ℕ) → ℕ → Outcome (Option ℕ)
unfolding wait_until
sleep rounds uptime s =
    let ms = cast 64 s in
    if ms == 0
    then ok (some 0)
    else (do end ← add_in 64 (uptime 0) ms; ok (wait_until rounds uptime 1 end))
