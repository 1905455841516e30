-- ===== src/Vga/Writer/Control.antt =====
-- Control characters and escape sequences at the writer: what they change, and what they leave.
use nocciolo.Base.{
  ℕ, ◌+◌, ◌^◌, ◌≤◌, ◌<◌, ◌≡◌, refl, ap, ◌∙◌, ok, panic, true, false, arith, Bool-cases, inl, inr,
  ◌==◌,
}
use nocciolo.Logging
use nocciolo.Vga.Color.{Color}
use nocciolo.Vga.Escape.{WriterState, feed}
use nocciolo.Vga.Writer.Pixels.{IsScreen}
use nocciolo.Vga.Writer.Screen.{IsMonospace, IsScreen-of, write_glyph-in_range}
use nocciolo.Vga.Writer.{
  Writer, Font, border_padding, line_spacing, carriage_return, take_color, newline, write_char,
  write_string, backspace,
}

-- The screen color that a log color's escape chooses; the default color's, 39, is not recognized.
abbrev pub shown : Logging.Color → Color → Color
shown Logging.Color.black old = Color.black
shown Logging.Color.red old = Color.red
shown Logging.Color.green old = Color.green
shown Logging.Color.yellow old = Color.yellow
shown Logging.Color.blue old = Color.blue
shown Logging.Color.magenta old = Color.magenta
shown Logging.Color.cyan old = Color.cyan
shown Logging.Color.white old = Color.white
shown Logging.Color.default old = old

module _ (F : Font) where
  fmt_from_normal :
      (w : Writer) (c : Logging.Color)
      → write_string F (record w { state = WriterState.normal }) (Logging.fmt c)
        ≡ ok (record w { state = WriterState.normal; color = shown c w.color })
  unfolding write_string take_color feed Logging.fmt
  fmt_from_normal w Logging.Color.black = refl
  fmt_from_normal w Logging.Color.red = refl
  fmt_from_normal w Logging.Color.green = refl
  fmt_from_normal w Logging.Color.yellow = refl
  fmt_from_normal w Logging.Color.blue = refl
  fmt_from_normal w Logging.Color.magenta = refl
  fmt_from_normal w Logging.Color.cyan = refl
  fmt_from_normal w Logging.Color.white = refl
  fmt_from_normal w Logging.Color.default = refl

  at_normal :
      (w : Writer) → w.state ≡ WriterState.normal → record w { state = WriterState.normal } ≡ w
  at_normal w h = ground arith

  -- From the normal state, a log color's escape sequence is swallowed whole: it moves no cursor and
  -- writes no pixel, and it chooses the color of the same name, but for the default color, which
  -- changes nothing.
  pub write_string-fmt :
      (w : Writer) (c : Logging.Color)
      → w.state ≡ WriterState.normal
      → write_string F w (Logging.fmt c) ≡ ok (record w { color = shown c w.color })
  write_string-fmt w c h =
      let e = at_normal w h in
      let run = rw e at (fmt_from_normal w c) in
      run ∙ ap (λ v. ok v) (at_normal (record w { color = shown c w.color }) h)

  reset_from_normal :
      (w : Writer)
      → write_string F (record w { state = WriterState.normal }) Logging.reset
        ≡ ok (record w { state = WriterState.normal; color = Color.white })
  unfolding write_string take_color feed
  reset_from_normal w = refl

  -- In the normal state, below the end of the address space, backspace right after a line feed
  -- panics wherever the last glyph was wider than the border.
  pub backspace_after_line_feed :
      (w : Writer)
      → w.state ≡ WriterState.normal
      → w.y_pos + (F.char_raster_height + line_spacing) < 2 ^ 64
      → border_padding < w.last_width
      → (w' : Writer) × (write_char F w 0x0a ≡ ok w') × (backspace F w' ≡ panic)
  unfolding write_char newline carriage_return backspace feed
  backspace_after_line_feed w h room wide = (
    record w {
      x_pos = border_padding;
      y_pos = w.y_pos + (F.char_raster_height + line_spacing);
      state = WriterState.normal;
    },
    rw h (ground arith),
    ground arith,
  )

-- `write_char` never leaves the machine in its `color` state.
abbrev pub IsSettled : WriterState → Type 0
IsSettled (WriterState.color c) = ⊥
IsSettled s = Unit

-- A printed character is printed from the state `normal`.
feed-prints :
    (s : WriterState) (c : ℕ)
    → IsSettled s
    → (feed s c).1 ≡ true
    → (feed s c).0 ≡ WriterState.normal
unfolding feed
feed-prints WriterState.normal c v h = ground arith
feed-prints WriterState.escape c v h = ground arith
feed-prints WriterState.first_code c v h = ground arith
feed-prints (WriterState.second_code a) c v h = ground arith
feed-prints (WriterState.finishing a b) c v h = ground arith
feed-prints (WriterState.color k) c v h = absurd v

take_color-IsSettled : (w : Writer) → IsSettled (take_color w).state
unfolding take_color
take_color-IsSettled w = by_state w.state refl
  where
    by_state : (s : WriterState) → w.state ≡ s → IsSettled (take_color w).state
    by_state WriterState.normal e = rw (e, take_color) (rw e tt)
    by_state WriterState.escape e = rw (e, take_color) (rw e tt)
    by_state WriterState.first_code e = rw (e, take_color) (rw e tt)
    by_state (WriterState.second_code a) e = rw (e, take_color) (rw e tt)
    by_state (WriterState.finishing a b) e = rw (e, take_color) (rw e tt)
    by_state (WriterState.color k) e = rw (e, take_color) tt

module _ (F : Font) (m : IsMonospace F) (w : Writer) (wide : F.char_raster_width + 1 ≤ w.info.width)
    (high : F.char_raster_height + 1 ≤ w.info.height) (wl : w.info.width < 2 ^ 62)
    (hl : w.info.height < 2 ^ 62) (x_low : w.x_pos < 2 ^ 62) (y_low : w.y_pos < 2 ^ 62)
    (v : IsScreen w) (settled : IsSettled w.state) where
  abbrev Written : ℕ → Type 0
  Written c =
      (w' : Writer) × (write_char F w c ≡ ok w')
      × IsScreen w'
      × IsSettled w'.state
      × (w'.info ≡ w.info)

  abbrev fed : ℕ → Writer
  fed c = record w { state = (feed w.state c).0 }

  fed-IsScreen : (c : ℕ) → IsScreen (fed c)
  fed-IsScreen c = IsScreen-of {w = w} {w' = fed c} refl refl v

  swallowed : (c : ℕ) → (feed w.state c).1 ≡ false → Written c
  unfolding write_char take_color
  swallowed c h = (
    take_color (fed c),
    ground (arith, h),
    IsScreen-of {w = w} {w' = take_color (fed c)} (ground arith) (ground arith) v,
    take_color-IsSettled (fed c),
    ground arith,
  )

  printed : (c : ℕ) → (feed w.state c).1 ≡ true → Written c
  unfolding write_char newline carriage_return
  printed c h =
      let normal = feed-prints w.state c settled h in
      elim (Bool-cases (c == 0x0a)) [
        | inl feeds ↦
            let w' : Writer = record (fed c) {
              x_pos = 1;
              y_pos = w.y_pos + (F.char_raster_height + 2);
            } in
            (
              w',
              ground (arith, h, feeds),
              IsScreen-of {w = w} {w' = w'} refl refl v,
              rw normal tt,
              refl,
            )
        | inr glyph ↦ elim (Bool-cases (c == 0x0d)) [
          | inl returns ↦
              let w' : Writer = record (fed c) { x_pos = 1 } in
              (
                w',
                ground (arith, h, glyph, returns),
                IsScreen-of {w = w} {w' = w'} refl refl v,
                rw normal tt,
                refl,
              )
          | inr prints ↦
              let (w', e, i, l, k, s, n, lo, hi, li) =
                write_glyph-in_range F m (fed c) wide high wl hl x_low y_low c (fed-IsScreen c) in
              (
                w',
                ground (arith, h, glyph, prints, e),
                IsScreen-of {w = w} {w' = w'} i l v,
                rw (s, normal) tt,
                i,
              )
        ]
      ]

  -- On a screen with room for a character and its border, with a monospace font, every character
  -- that is written returns without an access out of the frame buffer; the screen stays a screen
  -- and the escape machine does not rest in its color state.
  pub write_char_returns : (c : ℕ) → Written c
  write_char_returns c = elim (Bool-cases (feed w.state c).1) [
    | inl prints ↦ printed c prints
    | inr swallows ↦ swallowed c swallows
  ]
