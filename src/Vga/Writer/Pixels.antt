-- ===== src/Vga/Writer/Pixels.antt =====
-- One pixel of the writer: its color, where its bytes go, and when the access is in range.
use nocciolo.Base.{
  ℕ, ◌+◌, ◌*◌, ◌/◌, ◌^◌, ◌≤◌, ◌<◌, ◌≡◌, ◌≢◌, refl, ◌∙◌, ok, ltb, List, [], ◌∷◌, ◌++◌, map, length,
  take, drop, length-append, length-take, length-drop, length-map, arith, cast, if◌then◌else◌,
}
use nocciolo.Vga.Color.{Color, rgb}
use nocciolo.Vga.Writer.{
  Writer, PixelFormat, rgb_format, bgr_format, u8_format, unknown, overwrite, in_format, get_color,
  write_pixel,
}

length-rgb : (c : Color) → length (rgb c) ≡ 4
unfolding rgb
length-rgb Color.black = refl
length-rgb c = refl

-- The frame buffer holds its `height` rows of `stride` pixels, of a supported format with 1 to 4
-- bytes each, and the visible columns lie in a row.
pub record IsScreen (w : Writer) : Type 0 where
  pub format : w.info.pixel_format ≢ unknown
  pub some_bytes : 0 < w.info.bytes_per_pixel
  pub few_bytes : w.info.bytes_per_pixel ≤ 4
  pub visible : w.info.width ≤ w.info.stride
  pub rows : w.info.height * w.info.stride * w.info.bytes_per_pixel ≤ length w.framebuffer
  pub low : length w.framebuffer < 2 ^ 63

-- The components of a color at an intensity, before they are put in the order of the format.
abbrev scaled : Writer → ℕ → List ℕ
scaled w i = map (λ value. cast 8 (value * i / 255)) (rgb w.color)

length-scaled : (w : Writer) (i : ℕ) → length (scaled w i) ≡ 4
length-scaled w i = length-map (rgb w.color) _ ∙ length-rgb w.color

in_format_supported :
    (f : PixelFormat) (color : List ℕ) (i : ℕ)
    → f ≢ unknown
    → length color ≡ 4
    → (c : List ℕ) × (in_format f color i ≡ ok c) × (length c ≡ 4)
unfolding in_format
in_format_supported rgb_format color i h l = (color, refl, l)
in_format_supported bgr_format (a ∷ b ∷ c ∷ d ∷ rest) i h l = (c ∷ b ∷ a ∷ d ∷ [], refl, refl)
in_format_supported bgr_format (a ∷ b ∷ c ∷ []) i h l = absurd (omega arith)
in_format_supported bgr_format (a ∷ b ∷ []) i h l = absurd (omega arith)
in_format_supported bgr_format (a ∷ []) i h l = absurd (omega arith)
in_format_supported bgr_format [] i h l = absurd (omega arith)
in_format_supported u8_format color i h l =
    ((if ltb 200 i then 0xf else 0) ∷ 0 ∷ 0 ∷ 0 ∷ [], refl, refl)
in_format_supported unknown color i h l = absurd (h refl)

get_color_supported :
    (w : Writer) (i : ℕ)
    → w.info.pixel_format ≢ unknown
    → (c : List ℕ) × (get_color w i ≡ ok c) × (length c ≡ 4)
unfolding get_color
get_color_supported w i h =
    in_format_supported w.info.pixel_format (scaled w i) i h (length-scaled w i)

factor-le : (a b c : ℕ) → 0 < b → a * b ≤ c → a ≤ c
factor-le a b c pos h = grind arith

-- A pixel of the screen is written: the access is in range, and nothing but the frame buffer's
-- content changes, whose length stays.
pub record IsKept (w w' : Writer) : Type 0 where
  pub info : w'.info ≡ w.info
  pub last_width : w'.last_width ≡ w.last_width
  pub x_pos : w'.x_pos ≡ w.x_pos
  pub y_pos : w'.y_pos ≡ w.y_pos
  pub color : w'.color ≡ w.color
  pub state : w'.state ≡ w.state
  pub length_kept : length w'.framebuffer ≡ length w.framebuffer

length-overwrite :
    (xs : List ℕ) (from : ℕ) (ys : List ℕ)
    → from + length ys ≤ length xs
    → length (overwrite xs from ys) ≡ length xs
length-overwrite xs from ys h = omega (
  arith,
  length-append (take from xs) (ys ++ drop (from + length ys) xs),
  length-append ys (drop (from + length ys) xs),
  length-take from xs,
  length-drop (from + length ys) xs,
)

module _ (w : Writer) (v : IsScreen w) (x y i : ℕ) (column : x < w.info.width)
    (line : y < w.info.height) where
  abbrev byte_offset : ℕ
  byte_offset = (y * w.info.stride + x) * w.info.bytes_per_pixel

  pixel_in_range : y * w.info.stride + x + 1 ≤ w.info.height * w.info.stride
  pixel_in_range = grind (arith, v.visible)

  bytes_in_range : byte_offset + w.info.bytes_per_pixel ≤ length w.framebuffer
  bytes_in_range = grind (arith, pixel_in_range, v.rows)

  area_low : w.info.height * w.info.stride < 2 ^ 63
  area_low = omega (
    arith,
    factor-le (w.info.height * w.info.stride) w.info.bytes_per_pixel _ v.some_bytes v.rows,
    v.low,
  )

  write_pixel_from :
      (c : List ℕ)
      → get_color w i ≡ ok c
      → length c ≡ 4
      → (w' : Writer) × (write_pixel w x y i ≡ ok w') × IsKept w w'
  unfolding write_pixel
  write_pixel_from c e l =
      let taken : length (take w.info.bytes_per_pixel c) ≡ w.info.bytes_per_pixel =
        omega (arith, length-take w.info.bytes_per_pixel c, v.few_bytes, l) in
      (
        record w {
          framebuffer = overwrite w.framebuffer byte_offset (take w.info.bytes_per_pixel c);
        },
        ground (
          arith, e, l, bytes_in_range, pixel_in_range, area_low, v.low, v.few_bytes, v.some_bytes,
        ),
        record {
          info = refl;
          last_width = refl;
          x_pos = refl;
          y_pos = refl;
          color = refl;
          state = refl;
          length_kept =
              length-overwrite w.framebuffer byte_offset (take w.info.bytes_per_pixel c)
                (omega (arith, taken, bytes_in_range));
        },
      )

  pub write_pixel-IsKept : (w' : Writer) × (write_pixel w x y i ≡ ok w') × IsKept w w'
  write_pixel-IsKept = let (c, e, l) = get_color_supported w i v.format in write_pixel_from c e l
