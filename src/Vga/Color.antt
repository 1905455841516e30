-- ===== src/Vga/Color.antt =====
-- vga_text_buffer.rs: the sixteen colors and their components.
use nocciolo.Base.{ℕ, List, [], ◌∷◌}

pub data Color : Type 0 where
  black : Color
  blue : Color
  green : Color
  cyan : Color
  red : Color
  magenta : Color
  brown : Color
  light_gray : Color
  dark_gray : Color
  light_blue : Color
  light_green : Color
  light_cyan : Color
  light_red : Color
  pink : Color
  yellow : Color
  white : Color

-- Red, green, blue and alpha, as in the array of the source.
unfoldable pub rgb : Color → List ℕ
rgb black = 0x00 ∷ 0x00 ∷ 0x00 ∷ 0x00 ∷ []
rgb blue = 0x00 ∷ 0x00 ∷ 0xff ∷ 0x00 ∷ []
rgb green = 0x00 ∷ 0xff ∷ 0x00 ∷ 0x00 ∷ []
rgb cyan = 0x00 ∷ 0xff ∷ 0xff ∷ 0x00 ∷ []
rgb red = 0xff ∷ 0x00 ∷ 0x00 ∷ 0x00 ∷ []
rgb magenta = 0xff ∷ 0x00 ∷ 0xff ∷ 0x00 ∷ []
rgb brown = 0xff ∷ 0xff ∷ 0x80 ∷ 0x00 ∷ []
rgb light_gray = 0x55 ∷ 0x55 ∷ 0x55 ∷ 0x00 ∷ []
rgb dark_gray = 0xaa ∷ 0xaa ∷ 0xaa ∷ 0x00 ∷ []
rgb light_blue = 0x00 ∷ 0x00 ∷ 0x80 ∷ 0x00 ∷ []
rgb light_green = 0x00 ∷ 0x80 ∷ 0x80 ∷ 0x00 ∷ []
rgb light_cyan = 0x00 ∷ 0x80 ∷ 0x80 ∷ 0x00 ∷ []
rgb light_red = 0x80 ∷ 0x00 ∷ 0x00 ∷ 0x00 ∷ []
rgb pink = 0xff ∷ 0xcc ∷ 0xcc ∷ 0x00 ∷ []
rgb yellow = 0xff ∷ 0xff ∷ 0x00 ∷ 0x00 ∷ []
rgb white = 0xff ∷ 0xff ∷ 0xff ∷ 0x00 ∷ []
