-- ===== src/Vga/Writer.antt =====
-- vga_text_buffer.rs, `Writer`: the cursor, the pixels, and the characters that are written.
--
-- Rasters come from the crate `noto_sans_mono_bitmap`, which is a parameter, `Font`. Sizes and
-- offsets are `usize`, whose overflow panics; so does an index outside of the frame buffer.
pub mod Examples
pub mod Pixels
pub mod Screen
pub mod Control
use nocciolo.Base.{
  ℕ, zero, suc, ◌+◌, ◌-◌, ◌*◌, ◌/◌, ◌%◌, ◌^◌, Outcome, ok, panic, ◌>>=◌, ◌>>◌, assert, unwrap,
  add_in, sub_in, mul_in, cast, ltb, leb, ◌==◌, ◌&&◌, if◌then◌else◌, not, Option, none, some, List,
  [], ◌∷◌, ◌++◌, map, length, get_elem?, take, drop, replicate,
}
use nocciolo.Vga.Color.{Color, rgb}
use nocciolo.Vga.Escape.{WriterState, feed}

-- `bootloader_api::info::PixelFormat`; `unknown` stands for every format but the first three.
pub data PixelFormat : Type 0 where
  rgb_format bgr_format u8_format unknown : PixelFormat

pub record FrameBufferInfo : Type 0 where
  pub byte_len : ℕ
  pub width : ℕ
  pub height : ℕ
  pub pixel_format : PixelFormat
  pub bytes_per_pixel : ℕ
  pub stride : ℕ

pub record RasterizedChar : Type 0 where
  pub raster : List (List ℕ)
  pub width : ℕ

pub record Font : Type 0 where
  pub char_raster_height : ℕ
  pub char_raster_width : ℕ
  pub get_raster : ℕ → Option RasterizedChar

abbrev pub line_spacing : ℕ
line_spacing = 2

abbrev pub letter_spacing : ℕ
letter_spacing = 0

abbrev pub border_padding : ℕ
border_padding = 1

-- U+FFFD.
abbrev pub backup_char : ℕ
backup_char = 0xfffd

pub record Writer : Type 0 where
  pub framebuffer : List ℕ
  pub info : FrameBufferInfo
  pub last_width : ℕ
  pub x_pos : ℕ
  pub y_pos : ℕ
  pub color : Color
  pub state : WriterState

pub carriage_return : Writer → Writer
carriage_return w = record w { x_pos = border_padding }

pub clear : Writer → Writer
clear w = record w {
  x_pos = border_padding;
  y_pos = border_padding;
  framebuffer = replicate (length w.framebuffer) 0;
}

pub set_buffer : Writer → List ℕ → Writer
unfolding clear
set_buffer w buf = clear (record w { framebuffer = buf })

pub set_fb : Writer → List ℕ → FrameBufferInfo → Writer
unfolding set_buffer
set_fb w buf info = record (set_buffer w buf) { info = info }

-- The four bytes in the order of the format. A format that is not supported panics.
pub in_format : PixelFormat → List ℕ → ℕ → Outcome (List ℕ)
in_format rgb_format color intensity = ok color
in_format bgr_format color intensity = do
  blue ← unwrap (get_elem? color 2)
  green ← unwrap (get_elem? color 1)
  red ← unwrap (get_elem? color 0)
  alpha ← unwrap (get_elem? color 3)
  ok (blue ∷ green ∷ red ∷ alpha ∷ [])
in_format u8_format color intensity = ok ((if ltb 200 intensity then 0xf else 0) ∷ 0 ∷ 0 ∷ 0 ∷ [])
in_format unknown color intensity = panic

pub get_color : Writer → ℕ → Outcome (List ℕ)
unfolding in_format
get_color w intensity =
    let color = map (λ value. cast 8 (value * intensity / 255)) (rgb w.color) in
    in_format w.info.pixel_format color intensity

-- `xs[from..from + n].copy_from_slice(..)`, in range.
abbrev pub overwrite : List ℕ → ℕ → List ℕ → List ℕ
overwrite xs from ys = take from xs ++ (ys ++ drop (from + length ys) xs)

pub write_pixel : Writer → ℕ → ℕ → ℕ → Outcome Writer
unfolding get_color
write_pixel w x y intensity = do
  row_start ← mul_in 64 y w.info.stride
  pixel_offset ← add_in 64 row_start x
  color ← get_color w intensity
  let bytes_per_pixel = w.info.bytes_per_pixel
  byte_offset ← mul_in 64 pixel_offset bytes_per_pixel
  end ← add_in 64 byte_offset bytes_per_pixel
  assert (leb end (length w.framebuffer))
  assert (leb bytes_per_pixel (length color))
  -- The volatile read of the first byte.
  assert (ltb byte_offset (length w.framebuffer))
  ok (record w { framebuffer = overwrite w.framebuffer byte_offset (take bytes_per_pixel color) })

-- The inner loop over the bytes of a row, from column `x` on; `y` is the row's number.
pub write_row : Writer → ℕ → ℕ → List ℕ → Outcome Writer
write_row w y x [] = ok w
write_row w y x (byte ∷ bytes) = do
  column ← add_in 64 w.x_pos x
  line ← add_in 64 w.y_pos y
  w' ← write_pixel w column line byte
  write_row w' y (x + 1) bytes

-- The outer loop over the rows.
pub write_rows : Writer → ℕ → List (List ℕ) → Outcome Writer
unfolding write_row
write_rows w y [] = ok w
write_rows w y (row ∷ rows) = do w' ← write_row w y 0 row; write_rows w' (y + 1) rows

pub write_rendered_char : Writer → RasterizedChar → Outcome Writer
unfolding write_rows
write_rendered_char w c = do
  w' ← write_rows w 0 c.raster
  x ← add_in 64 w'.x_pos (c.width + letter_spacing)
  ok (record w' { last_width = c.width; x_pos = x })

-- What `write_char` does once the state machine has been fed: a color that was recognized is taken
-- over and the machine starts again.
pub take_color : Writer → Writer
take_color w = elim w.state [
  | WriterState.color c ↦ record w { state = WriterState.normal; color = c }
  | other ↦ w
]

module _ (F : Font) where
  pub get_char_raster : ℕ → Outcome RasterizedChar
  get_char_raster c = elim (F.get_raster c) [
    | some r ↦ ok r
    | none ↦ unwrap (F.get_raster backup_char)
  ]

  pub newline : Writer → Outcome Writer
  newline w = do
    y ← add_in 64 w.y_pos (F.char_raster_height + line_spacing)
    ok (carriage_return (record w { y_pos = y }))

  -- A new line where the row is full, then a clear screen where the last line is.
  pub make_room : Writer → Outcome Writer
  unfolding newline clear
  make_room w = do
    new_xpos ← add_in 64 w.x_pos F.char_raster_width
    w' ← (if leb w.info.width new_xpos then newline w else ok w)
    bottom ← add_in 64 w'.y_pos F.char_raster_height
    new_ypos ← add_in 64 bottom border_padding
    ok (if leb w'.info.height new_ypos then clear w' else w')

  -- The last arm of `write_char`'s `match`, for every printing character.
  pub write_glyph : Writer → ℕ → Outcome Writer
  unfolding make_room get_char_raster
  write_glyph w c = do w' ← make_room w; r ← get_char_raster c; write_rendered_char w' r

  pub write_char : Writer → ℕ → Outcome Writer
  unfolding take_color newline carriage_return write_glyph
  write_char w c =
      let (state, prints) = feed w.state c in
      let fed = record w { state = state } in
      if not prints
      then ok (take_color fed)
      else if c == 0x0a
      then newline fed
      else if c == 0x0d
      then ok (carriage_return fed)
      else write_glyph fed c

  pub backspace : Writer → Outcome Writer
  unfolding write_char
  backspace w = do
    x ← sub_in w.x_pos w.last_width
    w' ← write_char (record w { x_pos = x }) 0x20
    x' ← sub_in w'.x_pos w'.last_width
    ok (record w' { x_pos = x' })

  pub write_string : Writer → List ℕ → Outcome Writer
  unfolding write_char
  write_string w [] = ok w
  write_string w (c ∷ cs) = do w' ← write_char w c; write_string w' cs
