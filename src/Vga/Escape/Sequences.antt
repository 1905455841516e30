-- ===== src/Vga/Escape/Sequences.antt =====
-- The state machine alone: every escape sequence comes to an end.
mod Examples
use nocciolo.Base.{
  ℕ, ◌<◌, ◌≤◌, ◌-◌, if◌then◌else◌, ◌≡◌, ◌≢◌, refl, Bool, true, false, List, [], ◌∷◌, arith,
}
use nocciolo.Vga.Color.{Color}
use nocciolo.Vga.Escape.{
  WriterState, normal, escape, first_code, second_code, finishing, color, esc, color_of_digit, feed,
}

-- How many more characters a started sequence can swallow.
abbrev pub pending : WriterState → ℕ
pending normal = 0
pending escape = 4
pending first_code = 3
pending (second_code first) = 2
pending (finishing first second) = 1
pending (color c) = 0

-- Once a sequence has started, a character that is not printed brings its end nearer, and one that
-- is printed ends it.
pub feed-pending :
    (s : WriterState) (ch : ℕ)
    → s ≢ normal
    → pending (feed s ch).0 ≤ (if (feed s ch).1 then 0 else pending s - 1)
unfolding feed color_of_digit
feed-pending normal ch h = absurd (h refl)
feed-pending escape ch h = ground arith
feed-pending first_code ch h = ground arith
feed-pending (second_code first) ch h = ground arith
feed-pending (finishing first second) ch h = ground arith
feed-pending (color c) ch h = ground arith
