-- ===== src/Vga/Escape.antt =====
-- vga_text_buffer.rs, `WriterState`: the recognition of color escapes, character by character.
-- A character is its code point.
pub mod Sequences
use nocciolo.Base.{ℕ, ◌==◌, if◌then◌else◌, Bool, true, false, not}
use nocciolo.Vga.Color.{Color}

pub data WriterState : Type 0 where
  normal escape first_code : WriterState
  second_code : ℕ → WriterState
  finishing : ℕ → ℕ → WriterState
  color : Color → WriterState

-- `\x1b`.
abbrev pub esc : ℕ
esc = 0x1b

-- The `match` on the second digit; the last arm goes back to `normal`.
unfoldable pub color_of_digit : ℕ → WriterState
color_of_digit second =
    if second == b'0'
    then color Color.black
    else if second == b'1'
    then color Color.red
    else if second == b'2'
    then color Color.green
    else if second == b'3'
    then color Color.yellow
    else if second == b'4'
    then color Color.blue
    else if second == b'5'
    then color Color.magenta
    else if second == b'6'
    then color Color.cyan
    else if second == b'7'
    then color Color.white
    else normal

-- The new state, and whether the character is to be printed.
unfoldable pub feed : WriterState → ℕ → WriterState × Bool
unfolding color_of_digit
feed normal ch = if ch == esc then (escape, false) else (normal, true)
feed escape ch = if ch == b'[' then (first_code, false) else (normal, true)
feed first_code ch = if ch == b'0' then (finishing ch ch, false) else (second_code ch, false)
feed (second_code first) ch = (finishing first ch, false)
feed (finishing first second) ch =
    if not (ch == b'm')
    then (normal, true)
    else if first == b'0'
    then (color Color.white, false)
    else if not (first == b'3')
    then (normal, false)
    else (color_of_digit second, false)
feed (color c) ch = (color c, true)
