-- ===== src/Vga/Writer/Screen.antt =====
-- Whole characters on the screen: every pixel of a raster is in range.
use nocciolo.Base.{
  ℕ, ◌+◌, ◌^◌, ◌≤◌, ◌<◌, ◌≡◌, ◌≢◌, inl, inr, refl, ◌∙◌, ok, leb, List, [], ◌∷◌, length, replicate,
  length-replicate, All, arith, none, some, Option-cases, if◌then◌else◌,
}
use nocciolo.Vga.Writer.{
  Writer, Font, RasterizedChar, write_row, write_rows, write_rendered_char, get_char_raster,
  carriage_return, make_room, write_glyph, backup_char,
}
use nocciolo.Vga.Writer.Pixels.{IsScreen, IsKept, write_pixel-IsKept}

IsKept-refl : (w : Writer) → IsKept w w
IsKept-refl w = record {
  info = refl;
  last_width = refl;
  x_pos = refl;
  y_pos = refl;
  color = refl;
  state = refl;
  length_kept = refl;
}

IsKept-trans : {u v w : Writer} → IsKept u v → IsKept v w → IsKept u w
IsKept-trans a b = record {
  info = b.info ∙ a.info;
  last_width = b.last_width ∙ a.last_width;
  x_pos = b.x_pos ∙ a.x_pos;
  y_pos = b.y_pos ∙ a.y_pos;
  color = b.color ∙ a.color;
  state = b.state ∙ a.state;
  length_kept = b.length_kept ∙ a.length_kept;
}

-- A writer with the same geometry has a screen too.
pub IsScreen-of :
    {w w' : Writer}
    → w'.info ≡ w.info
    → length w'.framebuffer ≡ length w.framebuffer
    → IsScreen w
    → IsScreen w'
IsScreen-of {w} {w'} i l v = record {
  format = rw i v.format;
  some_bytes = rw i v.some_bytes;
  few_bytes = rw i v.few_bytes;
  visible = rw i v.visible;
  rows = rw (i, l) v.rows;
  low = rw l v.low;
}

-- A box of pixels at the cursor fits the visible part.
module _ (columns lines : ℕ) where
  write_row-IsKept :
      (w : Writer) (y x : ℕ) (bytes : List ℕ)
      → IsScreen w
      → w.info.width < 2 ^ 63
      → w.info.height < 2 ^ 63
      → w.x_pos + columns ≤ w.info.width
      → w.y_pos + lines ≤ w.info.height
      → y < lines
      → x + length bytes ≤ columns
      → (w' : Writer) × (write_row w y x bytes ≡ ok w') × IsKept w w'
  unfolding write_row
  write_row-IsKept w y x [] v wl hl fw fh yl xl = (w, refl, IsKept-refl w)
  write_row-IsKept w y x (byte ∷ bytes) v wl hl fw fh yl xl =
      let (w1, e, k) =
        write_pixel-IsKept w v (w.x_pos + x) (w.y_pos + y) byte (omega arith) (omega arith) in
      let (w2, e2, k2) =
        write_row-IsKept w1 y (x + 1) bytes (IsScreen-of k.info k.length_kept v) (rw k.info wl)
          (rw k.info hl) (rw (k.info, k.x_pos) fw) (rw (k.info, k.y_pos) fh) yl (omega arith) in
      (w2, ground (arith, e, e2), IsKept-trans k k2)

  write_rows-IsKept :
      (w : Writer) (y : ℕ) (rows : List (List ℕ))
      → IsScreen w
      → w.info.width < 2 ^ 63
      → w.info.height < 2 ^ 63
      → w.x_pos + columns ≤ w.info.width
      → w.y_pos + lines ≤ w.info.height
      → y + length rows ≤ lines
      → All (λ row. length row ≤ columns) rows
      → (w' : Writer) × (write_rows w y rows ≡ ok w') × IsKept w w'
  unfolding write_rows
  write_rows-IsKept w y [] v wl hl fw fh yl all = (w, refl, IsKept-refl w)
  write_rows-IsKept w y (row ∷ rows) v wl hl fw fh yl all =
      let (w1, e, k) =
        write_row-IsKept w y 0 row v wl hl fw fh (omega arith) (omega (arith, all.0)) in
      let (w2, e2, k2) =
        write_rows-IsKept w1 (y + 1) rows (IsScreen-of k.info k.length_kept v) (rw k.info wl)
          (rw k.info hl) (rw (k.info, k.x_pos) fw) (rw (k.info, k.y_pos) fh) (omega arith) all.1 in
      (w2, ground (arith, e, e2), IsKept-trans k k2)

-- What the font crate promises: the backup character has a raster, and every raster has the height
-- and the width of the font.
pub record IsMonospace (F : Font) : Type 0 where
  pub backup : F.get_raster backup_char ≢ none
  pub height :
      (c : ℕ) (r : RasterizedChar)
      → F.get_raster c ≡ some r
      → length r.raster ≤ F.char_raster_height
  pub rows :
      (c : ℕ) (r : RasterizedChar)
      → F.get_raster c ≡ some r
      → All (λ row. length row ≤ F.char_raster_width) r.raster
  pub width : (c : ℕ) (r : RasterizedChar) → F.get_raster c ≡ some r → r.width ≡ F.char_raster_width

module _ (F : Font) (m : IsMonospace F) where
  -- The raster of a character is the raster of some character of the font.
  raster_from :
      (c : ℕ)
      → (r : RasterizedChar) × (get_char_raster F c ≡ ok r) × ((d : ℕ) × (F.get_raster d ≡ some r))
  unfolding get_char_raster
  raster_from c = elim (Option-cases (F.get_raster c)) [
    | inr (r, e) ↦ (r, rw (e, get_char_raster), (c, e))
    | inl e ↦ elim (Option-cases (F.get_raster backup_char)) [
      | inr (r, b) ↦ (r, rw (e, get_char_raster) (rw b), (backup_char, b))
      | inl b ↦ absurd (m.backup b)
    ]
  ]

  -- The cursor has room for one character, on the same screen.
  record IsPlaced (w w' : Writer) : Type 0 where
    info : w'.info ≡ w.info
    length_kept : length w'.framebuffer ≡ length w.framebuffer
    color : w'.color ≡ w.color
    state : w'.state ≡ w.state
    column : w'.x_pos + F.char_raster_width ≤ w.info.width
    line : w'.y_pos + F.char_raster_height ≤ w.info.height

  module _ (w : Writer) (wide : F.char_raster_width + 1 ≤ w.info.width)
      (high : F.char_raster_height + 1 ≤ w.info.height) (wl : w.info.width < 2 ^ 62)
      (hl : w.info.height < 2 ^ 62) (x_low : w.x_pos < 2 ^ 62) (y_low : w.y_pos < 2 ^ 62) where
    -- The cursor after the test of the column, and after that of the line.
    abbrev turned : Writer
    turned =
        if leb w.info.width (w.x_pos + F.char_raster_width)
        then record w { x_pos = 1; y_pos = w.y_pos + (F.char_raster_height + 2) }
        else w

    abbrev placed : Writer
    placed =
        if leb turned.info.height (turned.y_pos + F.char_raster_height + 1)
        then record turned {
          x_pos = 1;
          y_pos = 1;
          framebuffer = replicate (length turned.framebuffer) 0;
        }
        else turned

    make_room-IsPlaced : (make_room F w ≡ ok placed) × IsPlaced w placed
    unfolding make_room carriage_return
    make_room-IsPlaced = (
      ground arith,
      record {
        info = ground arith;
        length_kept = ground (arith, length-replicate {A = ℕ} (length w.framebuffer) 0);
        color = ground arith;
        state = ground arith;
        column = ground arith;
        line = ground arith;
      },
    )

    -- With a monospace font and a screen that has room for one character and its border, printing a
    -- character returns, all its pixels in range; the screen keeps its size, color and escape
    -- state, and afterwards the cursor is in the visible part with the width of a character behind
    -- it.
    pub write_glyph-in_range :
        (c : ℕ)
        → IsScreen w
        → (w' : Writer) × (write_glyph F w c ≡ ok w')
          × (w'.info ≡ w.info)
          × (length w'.framebuffer ≡ length w.framebuffer)
          × (w'.color ≡ w.color)
          × (w'.state ≡ w.state)
          × (w'.last_width ≡ F.char_raster_width)
          × (F.char_raster_width ≤ w'.x_pos)
          × (w'.x_pos ≤ w.info.width)
          × (w'.y_pos + F.char_raster_height ≤ w.info.height)
    unfolding write_glyph write_rendered_char
    write_glyph-in_range c v =
        let (e, p) = make_room-IsPlaced in
        let (r, g, (d, has)) = raster_from c in
        let (w2, e2, k) =
          write_rows-IsKept F.char_raster_width F.char_raster_height placed 0 r.raster
            (IsScreen-of p.info p.length_kept v) (rw p.info (omega arith)) (rw p.info (omega arith))
            (rw p.info p.column) (rw p.info p.line) (omega (arith, m.height d r has))
            (m.rows d r has) in
        let width = m.width d r has in
        (
          record w2 { last_width = r.width; x_pos = w2.x_pos + (r.width + 0) },
          ground (arith, e, g, e2, width, k.x_pos, p.column),
          k.info ∙ p.info,
          k.length_kept ∙ p.length_kept,
          k.color ∙ p.color,
          k.state ∙ p.state,
          width,
          omega (arith, width),
          omega (arith, width, k.x_pos, p.column),
          omega (arith, k.y_pos, p.line),
        )
