-- ===== src/Launcher/Quiet.antt =====
-- What `main` of os/src/main.rs does up to the command: it spawns nothing, and panics only
-- where standard output fails or an argument is not Unicode.
use Prim.Native.String.{◌++◌ as ◌<>◌}
use nocciolo.Base.{
  ℕ, zero, suc, ◌≡◌, ◌⊎◌, inl, inr, refl, sym, ap, subst, Bool, true, false, if◌then◌else◌, Option,
  none, some, List, [], ◌∷◌, String, arith,
}
use nocciolo.Launcher.{
  status_of, Status, returned, failed, panicked, Session, Action, rest_of, try, write_lines,
  lldb_input, gdb_input, create_lldb_command, create_qemu_cmd, print, print_line, printed, nth,
  iso_help, gdb_name, create_gdb_command, prepare_iso, build_iso, does_command_exist, prepare,
}
use nocciolo.Launcher.Commands.{
  Command, Choice, lldb, gdb, bios, uefi, info, iso, bochs, unknown, nothing, new, args,
  create_bochs_cmd, qemu_cmd, create_iso_cmd,
}
use nocciolo.Launcher.System.{Host, Result, val, err}

-- The programs that a choice can run.
abbrev pub IsProgram : Choice → String → Type 0
IsProgram lldb program = program ≡ "lldb"
IsProgram gdb program = (program ≡ "gdb") ⊎ (program ≡ "ggdb")
IsProgram bios program = program ≡ "qemu-system-x86_64"
IsProgram uefi program = program ≡ "qemu-system-x86_64"
IsProgram iso program = program ≡ "mkisofs"
IsProgram bochs program = program ≡ "bochs"
IsProgram info program = ⊥
IsProgram (unknown command) program = ⊥
IsProgram nothing program = ⊥

-- The choices that can come to an end without a command; `iso` does, where its tool is missing.
abbrev pub IsSilent : Choice → Type 0
IsSilent info = Unit
IsSilent iso = Unit
IsSilent (unknown command) = Unit
IsSilent nothing = Unit
IsSilent choice = ⊥

-- An argument is not Unicode.
abbrev pub IsForeign : List (Option String) → Type 0
IsForeign [] = ⊥
IsForeign (none ∷ argv) = Unit
IsForeign (some word ∷ argv) = IsForeign argv

-- The argument at a place behind arguments that are Unicode.
abbrev pub word_at : ℕ → List (Option String) → Option String
word_at n [] = none
word_at n (none ∷ argv) = none
word_at zero (some word ∷ argv) = some word
word_at (suc n) (some word ∷ argv) = word_at n argv

module _ (H : Host) (argv : List (Option String)) where
  -- What a panic is blamed on: a line that could not be written, or the arguments.
  abbrev pub Blame : Type 0
  Blame =
      ((line : String) × (world : H.World) × ((H.print_line line world).0 ≡ false)) ⊎ IsForeign argv

  -- Of a run from `s`: nothing was spawned, a panic has something to blame, and what is returned
  -- satisfies `P`.
  abbrev pub Returns : {A : Type 0} → (A → Type 0) → Status H.IoError A → Type 0
  Returns P (returned a) = P a
  Returns P (failed e) = Unit
  Returns P panicked = Blame

  abbrev pub Quiet :
      {A : Type 0} → (A → Type 0) → Session H → Status H.IoError A × Session H → Type 0
  Quiet P s r = (r.1.spawned ≡ s.spawned) × Returns P r.0

  -- A step, and what follows it.
  pub rest_of-Quiet :
      {A B : Type 0} (P : A → Type 0) (Q : B → Type 0) (s : Session H) (f : A → Action H B)
      (r : Status H.IoError A × Session H)
      → Quiet P s r
      → ((a : A) (s' : Session H) → s'.spawned ≡ s.spawned → P a → Quiet Q s (f a s'))
      → Quiet Q s (rest_of H r.0 f r.1)
  rest_of-Quiet P Q s f (returned a, s') h rest = rest a s' h.0 h.1
  rest_of-Quiet P Q s f (failed e, s') h rest = (h.0, tt)
  rest_of-Quiet P Q s f (panicked, s') h rest = (h.0, h.1)

  abbrev pub Any : Unit {0} → Type 0
  Any _ = Unit

  pub try-Quiet :
      (call : H.World → Result H.IoError (Unit {0}) × H.World) (s s' : Session H)
      → s'.spawned ≡ s.spawned
      → Quiet Any s (try H call s')
  try-Quiet call s s' h = (h, ends (call s'.world).0)
    where
      ends : (r : Result H.IoError (Unit {0})) → Returns Any (status_of H r)
      ends (val a) = tt
      ends (err e) = tt

  -- What `prepare` returns, for a choice.
  abbrev pub Prepared : Choice → Option Command → Type 0
  Prepared choice none = IsSilent choice
  Prepared choice (some cmd) = IsProgram choice cmd.program

  print_line-Quiet :
      (line : String) (s s' : Session H)
      → s'.spawned ≡ s.spawned
      → Quiet Any s (print_line H line s')
  print_line-Quiet line s s' h = ends (H.print_line line s'.world) refl
    where
      ends :
          (a : Bool × H.World)
          → H.print_line line s'.world ≡ a
          → Quiet Any s (printed H line a.0 (record s' { world = a.1 }))
      ends (false, world) is = (h, inl (line, s'.world, ap (λ a. a.0) is))
      ends (true, world) is = (h, tt)

  print-Quiet :
      (lines : List String) (s s' : Session H)
      → s'.spawned ≡ s.spawned
      → Quiet Any s (print H lines s')
  unfolding print
  print-Quiet [] s s' h = (h, tt)
  print-Quiet (line ∷ lines) s s' h =
      rest_of-Quiet Any Any s (λ _. print H lines) _ (print_line-Quiet line s s' h)
        (λ _ s1 h1 _. print-Quiet lines s s1 h1)

  -- After lines that are printed, a run that spawns nothing.
  silent-Quiet :
      (choice : Choice) (lines : List String) (s s' : Session H)
      → s'.spawned ≡ s.spawned
      → IsSilent choice
      → Quiet
          (Prepared choice)
          s
          (rest_of H (print H lines s').0 (λ _ s1. (returned none, s1)) (print H lines s').1)
  silent-Quiet choice lines s s' h silent =
      rest_of-Quiet Any (Prepared choice) s _ _ (print-Quiet lines s s' h)
        (λ _ s1 h1 _. (h1, silent))

  nth_cases :
      (n : ℕ) (given : List (Option String)) (s : Session H)
      → (nth H n given s ≡ (returned (word_at n given), s))
        ⊎ ((nth H n given s ≡ (panicked, s)) × IsForeign given)
  unfolding nth
  nth_cases zero [] s = inl refl
  nth_cases (suc n) [] s = inl refl
  nth_cases zero (none ∷ given) s = inr (refl, tt)
  nth_cases (suc n) (none ∷ given) s = inr (refl, tt)
  nth_cases zero (some word ∷ given) s = inl refl
  nth_cases (suc n) (some word ∷ given) s = nth_cases n given s

  pub nth-Quiet :
      (n : ℕ) (s s' : Session H)
      → s'.spawned ≡ s.spawned
      → Quiet (λ word. word ≡ word_at n argv) s (nth H n argv s')
  nth-Quiet n s s' h = elim (nth_cases n argv s') [
    | inl is ↦ subst (Quiet (λ word. word ≡ word_at n argv) s) (sym is) (h, refl)
    | inr (is, foreign) ↦ subst (Quiet (λ word. word ≡ word_at n argv) s) (sym is) (h, inr foreign)
  ]

  write_lines-Quiet :
      (path : String) (lines : List String) (s s' : Session H)
      → s'.spawned ≡ s.spawned
      → Quiet Any s (write_lines H path lines s')
  unfolding write_lines
  write_lines-Quiet path [] s s' h = (h, tt)
  write_lines-Quiet path (line ∷ lines) s s' h =
      rest_of-Quiet Any Any s (λ _. write_lines H path lines) (try H (H.write_line path line) s')
        (try-Quiet (H.write_line path line) s s' h)
        (λ _ s'' h' _. write_lines-Quiet path lines s s'' h')

  create_lldb_command-Quiet :
      (s s' : Session H)
      → s'.spawned ≡ s.spawned
      → Quiet (λ cmd. cmd.program ≡ "lldb") s (create_lldb_command H s')
  unfolding create_lldb_command new args
  create_lldb_command-Quiet s s' h =
      let Lldb : Command → Type 0 = λ cmd. cmd.program ≡ "lldb" in
      let path : String = "target/lldb-input" in
      rest_of-Quiet Any Lldb s _ _
        (print-Quiet (("Current dir: " <> H.current_dir s'.world) ∷ []) s s' h)
        (λ _ s1 h1 _.
          rest_of-Quiet Any Lldb s _ _ (try-Quiet (H.create_file path) s s1 h1) (λ _ s2 h2 _.
            rest_of-Quiet Any Lldb s _ _ (write_lines-Quiet path (lldb_input H) s s2 h2)
              (λ _ s3 h3 _. (h3, refl))))

  abbrev IsGdb : String → Type 0
  IsGdb program = (program ≡ "gdb") ⊎ (program ≡ "ggdb")

  gdb_name-IsGdb : (world : H.World) → IsGdb (gdb_name H world)
  unfolding gdb_name
  gdb_name-IsGdb world = named H.is_macos (H.which "ggdb" world)
    where
      named : (a b : Bool) → IsGdb (if a then (if b then "ggdb" else "gdb") else "gdb")
      named true true = inr refl
      named true false = inl refl
      named false b = inl refl

  create_gdb_command-Quiet :
      (s s' : Session H)
      → s'.spawned ≡ s.spawned
      → Quiet (λ cmd. IsGdb cmd.program) s (create_gdb_command H s')
  unfolding create_gdb_command new
  create_gdb_command-Quiet s s' h =
      rest_of-Quiet Any (λ cmd. IsGdb cmd.program) s _ _
        (rest_of-Quiet Any Any s _ _ (try-Quiet (H.create_file "target/.gdbinit") s s' h)
          (λ _ s1 h1 _. write_lines-Quiet "target/.gdbinit" (gdb_input H) s s1 h1))
        (λ _ s2 h2 _. (h2, gdb_name-IsGdb s'.world))

  build_iso-Quiet :
      (there : Bool) (s s' : Session H)
      → s'.spawned ≡ s.spawned
      → Quiet (Prepared iso) s (build_iso H there s')
  unfolding build_iso create_iso_cmd new args
  build_iso-Quiet false s s' h = silent-Quiet iso (iso_help H) s s' h tt
  build_iso-Quiet true s s' h =
      rest_of-Quiet Any (Prepared iso) s _ _
        (try-Quiet (H.copy H.bios_path "target/iso/nocciolo.img") s
          (record s' { world = H.create_dir "target/iso" s'.world }) h)
        (λ _ s1 h1 _. (h1, refl))

  qemu-program : (mode : Option String) → (qemu_cmd mode).program ≡ "qemu-system-x86_64"
  unfolding qemu_cmd new args
  qemu-program mode = ground arith

  create_qemu_cmd-Quiet :
      (s s' : Session H)
      → s'.spawned ≡ s.spawned
      → Quiet (λ cmd. cmd.program ≡ "qemu-system-x86_64") s (create_qemu_cmd H argv s')
  unfolding create_qemu_cmd
  create_qemu_cmd-Quiet s s' h =
      rest_of-Quiet (λ word. word ≡ word_at 2 argv) (λ cmd. cmd.program ≡ "qemu-system-x86_64") s _
        _ (nth-Quiet 2 s s' h) (λ mode s1 h1 _. (h1, qemu-program mode))

  pub prepare-Quiet :
      (choice : Choice) (s s' : Session H)
      → s'.spawned ≡ s.spawned
      → Quiet (Prepared choice) s (prepare H choice argv s')
  unfolding prepare prepare_iso create_bochs_cmd new args
  prepare-Quiet lldb s s' h =
      rest_of-Quiet (λ cmd. cmd.program ≡ "lldb") (Prepared lldb) s _ _
        (create_lldb_command-Quiet s s' h) (λ cmd s1 h1 p. (h1, p))
  prepare-Quiet gdb s s' h =
      rest_of-Quiet (λ cmd. IsGdb cmd.program) (Prepared gdb) s _ _
        (create_gdb_command-Quiet s s' h) (λ cmd s1 h1 p. (h1, p))
  prepare-Quiet bios s s' h =
      rest_of-Quiet (λ cmd. cmd.program ≡ "qemu-system-x86_64") (Prepared bios) s _ _
        (create_qemu_cmd-Quiet s s' h) (λ cmd s1 h1 p. (h1, p))
  prepare-Quiet uefi s s' h =
      rest_of-Quiet (λ cmd. cmd.program ≡ "qemu-system-x86_64") (Prepared uefi) s _ _
        (create_qemu_cmd-Quiet s s' h) (λ cmd s1 h1 p. (h1, p))
  prepare-Quiet info s s' h =
      silent-Quiet info
        (("OS> UEFI_PATH: " <> H.uefi_path)
          ∷ ("OS> BIOS_PATH: " <> H.bios_path)
          ∷ ("OS> KERNEL: " <> H.kernel)
          ∷ [])
        s s' h tt
  prepare-Quiet iso s s' h = build_iso-Quiet (does_command_exist H "mkisofs" s'.world) s s' h
  prepare-Quiet bochs s s' h =
      rest_of-Quiet Any (Prepared bochs) s _ _
        (try-Quiet (H.set_current_dir (H.cargo_manifest_dir <> "/../tools/")) s s' h)
        (λ _ s1 h1 _. (h1, refl))
  prepare-Quiet (unknown command) s s' h =
      silent-Quiet (unknown command) (("OS> Unknown command `" <> (command <> "`")) ∷ []) s s' h tt
  prepare-Quiet nothing s s' h =
      silent-Quiet nothing ("OS> No command supplied! `uefi`, `bios`, `lldb`" ∷ []) s s' h tt
