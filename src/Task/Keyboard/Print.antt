-- ===== src/Task/Keyboard/Print.antt =====
-- `print_keypresses` of kernel/src/task/keyboard.rs, on the scancodes that the stream yields.
use nocciolo.Base.{ℕ, Outcome, ok, ◌>>=◌, ◌==◌, if◌then◌else◌, Option, none, some, List, [], ◌∷◌}

-- `DecodedKey` of the crate `pc_keyboard`: a character, or the text of a raw key.
pub data DecodedKey : Type 0 where
  unicode : ℕ → DecodedKey
  raw_key : List ℕ → DecodedKey

-- The decoder, as a parameter: a scancode may complete a key event (an error completes none), and an
-- event may be a key.
pub record Decoder : Type 1 where
  pub Keyboard : Type 0
  pub KeyEvent : Type 0
  pub add_byte : ℕ → Keyboard → Option KeyEvent × Keyboard
  pub process_keyevent : KeyEvent → Keyboard → Option DecodedKey × Keyboard

-- The console, as a parameter: `Console::backspace` and `print!`.
pub record Console (S : Type 0) : Type 0 where
  pub backspace : S → Outcome S
  pub print : List ℕ → S → Outcome S

module _ (D : Decoder) {S : Type 0} (C : Console S) where
  pub print_key : Option DecodedKey → S → Outcome S
  print_key none s = ok s
  print_key (some (unicode character)) s =
      let printed = C.print (character ∷ []) s in if character == 8 then C.backspace s else printed
  print_key (some (raw_key text)) s = C.print text s

  pub handle_event : Option D.KeyEvent × D.Keyboard → S → Outcome (D.Keyboard × S)
  unfolding print_key
  handle_event (none, keyboard) s = ok (keyboard, s)
  handle_event (some event, keyboard) s = do
    let (key, keyboard') = D.process_keyevent event keyboard
    s' ← print_key key s
    ok (keyboard', s')

  -- The loop, over the scancodes as they come.
  pub print_keypresses : List ℕ → D.Keyboard → S → Outcome (D.Keyboard × S)
  unfolding handle_event
  print_keypresses [] keyboard s = ok (keyboard, s)
  print_keypresses (scancode ∷ scancodes) keyboard s = do
    (keyboard', s') ← handle_event (D.add_byte scancode keyboard) s
    print_keypresses scancodes keyboard' s'
