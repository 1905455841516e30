-- ===== src/Vga/Writer/Examples.antt =====
-- Runs of the writer on a screen of three by three pixels, with a font of one pixel.
use nocciolo.Base.{◌+◌, ◌≤◌, ◌≡◌, refl, ok, panic, some, [], ◌∷◌, arith, length}
use nocciolo.Logging
use nocciolo.Vga.Color.{Color}
use nocciolo.Vga.Escape.{WriterState}
use nocciolo.Vga.Writer.{
  Writer, Font, FrameBufferInfo, RasterizedChar, rgb_format, write_glyph, write_char, write_string,
  backspace,
}
use nocciolo.Vga.Writer.Pixels.{IsScreen}
use nocciolo.Vga.Writer.Screen.{IsMonospace, write_glyph-in_range}
use nocciolo.Vga.Writer.Control.{
  IsSettled, write_string-fmt, backspace_after_line_feed, write_char_returns,
}

abbrev dot : RasterizedChar
dot = record { raster = (255 ∷ []) ∷ []; width = 1 }

abbrev dots : Font
dots = record { char_raster_height = 1; char_raster_width = 1; get_raster = λ c. some dot }

is_dot : (r : RasterizedChar) → some dot ≡ some r → dot ≡ r
is_dot r e = ground arith

dots-IsMonospace : IsMonospace dots
dots-IsMonospace = record {
  backup = λ e. cc;
  height = λ c r e. rw (← is_dot r e) (omega arith);
  rows = λ c r e. rw (← is_dot r e) (omega arith, tt);
  width = λ c r e. rw (← is_dot r e) refl;
}

abbrev pub nine : FrameBufferInfo
nine = record {
  byte_len = 9;
  width = 3;
  height = 3;
  pixel_format = rgb_format;
  bytes_per_pixel = 1;
  stride = 3;
}

abbrev pub small_screen : Writer
small_screen = record {
  framebuffer = 0 ∷ 0 ∷ 0 ∷ 0 ∷ 0 ∷ 0 ∷ 0 ∷ 0 ∷ 0 ∷ [];
  info = nine;
  last_width = 2;
  x_pos = 1;
  y_pos = 1;
  color = Color.white;
  state = WriterState.normal;
}

small_screen-IsScreen : IsScreen small_screen
small_screen-IsScreen = record {
  format = λ e. cc;
  some_bytes = omega arith;
  few_bytes = omega arith;
  visible = omega arith;
  rows = omega arith;
  low = omega arith;
}

write_char_returns_example :
    (w' : Writer) × (write_char dots small_screen 0x61 ≡ ok w')
    × IsScreen w'
    × IsSettled w'.state
    × (w'.info ≡ nine)
write_char_returns_example =
    write_char_returns dots dots-IsMonospace small_screen (omega arith) (omega arith) (omega arith)
      (omega arith) (omega arith) (omega arith) small_screen-IsScreen tt 0x61

write_glyph-in_range_example :
    (w' : Writer) × (write_glyph dots small_screen 0x61 ≡ ok w')
    × (w'.info ≡ nine)
    × (length w'.framebuffer ≡ 9)
    × (w'.color ≡ Color.white)
    × (w'.state ≡ WriterState.normal)
    × (w'.last_width ≡ 1)
    × (1 ≤ w'.x_pos)
    × (w'.x_pos ≤ 3)
    × (w'.y_pos + 1 ≤ 3)
write_glyph-in_range_example =
    write_glyph-in_range dots dots-IsMonospace small_screen (omega arith) (omega arith)
      (omega arith) (omega arith) (omega arith) (omega arith) 0x61 small_screen-IsScreen

write_string-fmt_example :
    write_string dots small_screen (Logging.fmt Logging.Color.red)
    ≡ ok (record small_screen { color = Color.red })
write_string-fmt_example = write_string-fmt dots small_screen Logging.Color.red refl

backspace_after_line_feed_example :
    (w' : Writer) × (write_char dots small_screen 0x0a ≡ ok w') × (backspace dots w' ≡ panic)
backspace_after_line_feed_example =
    backspace_after_line_feed dots small_screen refl (omega arith) (omega arith)
