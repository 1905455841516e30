-- ===== src/Logging.antt =====
-- kernel/src/logging.rs: log lines with ANSI colors. Text is a list of code points.
use nocciolo.Base.{ℕ, List, [], ◌∷◌, ◌++◌, Option, none, some}

pub data Color : Type 0 where
  black red green yellow blue magenta cyan white default : Color

unfoldable pub as_str : Color → List ℕ
as_str black = b'3' ∷ b'0' ∷ []
as_str red = b'3' ∷ b'1' ∷ []
as_str green = b'3' ∷ b'2' ∷ []
as_str yellow = b'3' ∷ b'3' ∷ []
as_str blue = b'3' ∷ b'4' ∷ []
as_str magenta = b'3' ∷ b'5' ∷ []
as_str cyan = b'3' ∷ b'6' ∷ []
as_str white = b'3' ∷ b'7' ∷ []
as_str default = b'3' ∷ b'9' ∷ []

-- `impl Display for Color`.
unfoldable pub fmt : Color → List ℕ
unfolding as_str
fmt c = 0x1b ∷ b'[' ∷ as_str c ++ b'm' ∷ []

-- `"\x1b[0m"`.
abbrev pub reset : List ℕ
reset = 0x1b ∷ b'[' ∷ b'0' ∷ b'm' ∷ []

-- `Colored`, with its content as the text that `Display`, `LowerHex` or `UpperHex` gives for it.
pub record Colored : Type 0 where
  pub color : Color
  pub inner : List ℕ

-- `impl Display`, `LowerHex` and `UpperHex` for `Colored`: they differ only in the content's text.
unfoldable pub fmt_colored : Colored → List ℕ
unfolding fmt
fmt_colored c = fmt c.color ++ c.inner ++ reset

-- `Colorize::with_color`, by which `white`, `red` and the others are defined.
unfoldable pub with_color : List ℕ → Color → Colored
with_color text color = record { color = color; inner = text }

-- `log::Level`.
pub data Level : Type 0 where
  error warn info debug trace : Level

-- `Stylized::stylized`, on the name that the crate `log` gives a level.
unfoldable pub stylized : Level → List ℕ → Colored
unfolding with_color
stylized error name = with_color name red
stylized warn name = with_color name yellow
stylized info name = with_color name green
stylized debug name = with_color name magenta
stylized trace name = with_color name blue

-- `"[{}] [\x1b[31m{}\x1b[0m] {}\n"` with the target, the level and the message.
pub format_line : List ℕ → Level → List ℕ → List ℕ → List ℕ
unfolding fmt_colored with_color stylized
format_line target level name args =
    b'[' ∷ fmt_colored (with_color target white)
    ++ b']' ∷ b' ' ∷ b'[' ∷ 0x1b ∷ b'[' ∷ b'3' ∷ b'1' ∷ b'm' ∷ fmt_colored (stylized level name)
    ++ reset
    ++ b']' ∷ b' ' ∷ args
    ++ 0x0a ∷ []

-- `Logger::log`: the line for the serial port, and the one for the screen, which trace lines lack.
pub log : List ℕ → Level → List ℕ → List ℕ → List ℕ × Option (List ℕ)
unfolding format_line
log target level name args =
    let line = format_line target level name args in
    elim level [ trace ↦ (line, none) | other ↦ (line, some line) ]
