-- ===== src/Launcher.antt =====
-- os/src/main.rs: the launcher, which builds the command line of an emulator or a debugger and runs it.
pub mod Commands
pub mod System
pub mod Quiet
pub mod Spawned
mod Examples
use Prim.Native.String.{◌++◌ as ◌<>◌}
use nocciolo.Base.{
  ℕ, zero, suc, Bool, true, false, not, if◌then◌else◌, Option, none, some, List, [], ◌∷◌, ◌++◌,
  String, string_eq, get_elem?,
}
use nocciolo.Launcher.Commands.{
  Command, Choice, lldb, gdb, bios, uefi, info, iso, bochs, unknown, nothing, choice_of, new, args,
  create_bochs_cmd, qemu_cmd, create_iso_cmd,
}
use nocciolo.Launcher.System.{Host, Result, val, err}

-- How the launcher ends: with a value, with an error that `main` returns, or in a panic.
pub data Status (E A : Type 0) : Type 0 where
  returned : A → Status E A
  failed : E → Status E A
  panicked : Status E A

module _ (H : Host) where
  -- The host, what was printed, and the commands that were spawned, the newest first.
  pub record Session : Type 0 where
    pub world : H.World
    pub stdout : List String
    pub spawned : List Command

  abbrev pub Action : Type 0 → Type 0
  Action A = Session → Status H.IoError A × Session

  -- The rest of a run, unless it has ended.
  abbrev pub rest_of : {A B : Type 0} → Status H.IoError A → (A → Action B) → Action B
  rest_of (returned a) rest s = rest a s
  rest_of (failed e) rest s = (failed e, s)
  rest_of panicked rest s = (panicked, s)

  infixl 5 ◌>>=◌ ◌>>◌
  abbrev pub ◌>>=◌ : {A B : Type 0} → Action A → (A → Action B) → Action B
  ◌>>=◌ first rest s = let (status, s') = first s in rest_of status rest s'

  abbrev pub ◌>>◌ : {A B : Type 0} → Action A → Action B → Action B
  first >> rest = first >>= λ _. rest

  abbrev pub pure : {A : Type 0} → A → Action A
  pure a s = (returned a, s)

  -- `?`.
  abbrev pub status_of : Result H.IoError (Unit {0}) → Status H.IoError (Unit {0})
  status_of (val a) = returned a
  status_of (err e) = failed e

  abbrev pub try : (H.World → Result H.IoError (Unit {0}) × H.World) → Action (Unit {0})
  try call s = let (r, world) = call s.world in (status_of r, record s { world = world })

  abbrev pub on_world : (H.World → H.World) → Action (Unit {0})
  on_world call s = (returned tt, record s { world = call s.world })

  -- After a line: it is out, or the launcher panics.
  abbrev pub printed : String → Bool → Action (Unit {0})
  printed line false s = (panicked, s)
  printed line true s = (returned tt, record s { stdout = s.stdout ++ (line ∷ []) })

  abbrev pub print_line : String → Action (Unit {0})
  print_line line s =
      let (written, world) = H.print_line line s.world in
      printed line written (record s { world = world })

  pub print : List String → Action (Unit {0})
  print [] = pure tt
  print (line ∷ lines) = do print_line line; print lines

  -- `std::env::args().nth`: an argument that is not Unicode, `none`, panics when it is passed.
  pub nth : ℕ → List (Option String) → Action (Option String)
  nth n [] s = (returned none, s)
  nth n (none ∷ argv) s = (panicked, s)
  nth zero (some word ∷ argv) s = (returned (some word), s)
  nth (suc n) (some word ∷ argv) s = nth n argv s

  pub does_command_exist : String → H.World → Bool
  does_command_exist name world = H.which name world

  -- Where the kernel is there, the disk image goes to `target/iso`.
  pub set_up : Bool → Action (Unit {0})
  set_up false s = (panicked, s)
  set_up true s =
      (on_world (H.symlink H.kernel "target/kernel-bin")
          >> on_world (H.create_dir "target/iso")
          >> try (H.copy H.bios_path "target/iso/nocciolo.img"))
        s

  pub setup_env : Action (Unit {0})
  unfolding set_up
  setup_env s = set_up (H.exists H.kernel s.world) s

  pub write_lines : String → List String → Action (Unit {0})
  write_lines path [] = pure tt
  write_lines path (line ∷ lines) = do try (H.write_line path line); write_lines path lines

  abbrev pub lldb_input : List String
  lldb_input =
      ("target create " <> H.kernel)
      ∷ ("target modules load --file " <> (H.kernel <> " --slide 0x8000000000"))
      ∷ "gdb-remote localhost:1234"
      ∷ "breakpoint set --name alloc_error_handler"
      ∷ "breakpoint set --name page_fault_handler"
      ∷ "breakpoint set --name double_fault_handler"
      ∷ "breakpoint set --name breakpoint_handler"
      ∷ "breakpoint set --name hlt_loop"
      ∷ "breakpoint set --name fallback_allocator_oom"
      ∷ "breakpoint set --name timer_interrupt_handler"
      ∷ "breakpoint set --name spurious_io_apic_interrupt_handler"
      ∷ "breakpoint set --name spurious_local_apic_interrupt_handler"
      ∷ "breakpoint set --name breakpoint"
      ∷ []

  pub create_lldb_command : Action Command
  unfolding new args write_lines print
  create_lldb_command = do
    (λ s. print (("Current dir: " <> H.current_dir s.world) ∷ []) s)
    try (H.create_file "target/lldb-input")
    write_lines "target/lldb-input" lldb_input
    pure (args ("-s" ∷ "target/lldb-input" ∷ []) (new "lldb"))

  pub gdb_name : H.World → String
  gdb_name world = if H.is_macos then (if H.which "ggdb" world then "ggdb" else "gdb") else "gdb"

  abbrev pub gdb_input : List String
  gdb_input =
      ("file " <> H.kernel) ∷ "target remote localhost:1234" ∷ "b kernel_main" ∷ "continue" ∷ []

  pub create_gdb_command : Action Command
  unfolding new gdb_name write_lines
  create_gdb_command s =
      let cmd = new (gdb_name s.world) in
      (try (H.create_file "target/.gdbinit")
          >> write_lines "target/.gdbinit" gdb_input
          >> pure (record cmd { current_dir = some "target" }))
        s

  abbrev pub iso_help : List String
  iso_help =
      "OS> CLI tool `mkisofs` not found\n" ∷ "URL: https://codeberg.org/schilytools/schilytools\n"
      ∷ "Download Instructions:" ∷ "| OS      | Package Manager | Instructions"
      ∷ "|---------|-----------------|----------------------------"
      ∷ "| macOS   | macOS           | brew install cdrtools"
      ∷ "| macOS   | MacPorts        | sudo port install cdrtools"
      ∷ "| Linux   | apt             | sudo apt install cdrkit"
      ∷ "| Windows | Chocolately     | N/A"
      ∷ "| Windows | Scoop           | scoop install main/cdrtools"
      ∷ "| Windows | winget          | N/A" ∷ []

  -- The image is built by `mkisofs`, if the tool is there.
  pub build_iso : Bool → Action (Option Command)
  unfolding print
  build_iso false = do print iso_help; pure none
  build_iso true = do
    on_world (H.create_dir "target/iso")
    try (H.copy H.bios_path "target/iso/nocciolo.img")
    pure (some create_iso_cmd)

  pub prepare_iso : Action (Option Command)
  unfolding does_command_exist build_iso
  prepare_iso s = build_iso (does_command_exist "mkisofs" s.world) s

  pub create_qemu_cmd : List (Option String) → Action Command
  unfolding nth qemu_cmd
  create_qemu_cmd argv = do mode ← nth 2 argv; pure (qemu_cmd mode)

  -- The `match` of `main`: the command, unless `main` returns there.
  pub prepare : Choice → List (Option String) → Action (Option Command)
  unfolding args print create_qemu_cmd create_lldb_command create_gdb_command prepare_iso
  prepare lldb argv = do cmd ← create_lldb_command; pure (some cmd)
  prepare gdb argv = do cmd ← create_gdb_command; pure (some cmd)
  prepare bios argv = do
    cmd ← create_qemu_cmd argv
    pure (some (args ("-drive" ∷ ("format=raw,file=" <> H.bios_path) ∷ []) cmd))
  prepare uefi argv = do
    cmd ← create_qemu_cmd argv
    pure (
        some (
          args ("-bios" ∷ H.ovmf_pure_efi ∷ "-drive" ∷ ("format=raw,file=" <> H.uefi_path) ∷ [])
            cmd))
  prepare info argv = do
    print (
        ("OS> UEFI_PATH: " <> H.uefi_path)
        ∷ ("OS> BIOS_PATH: " <> H.bios_path)
        ∷ ("OS> KERNEL: " <> H.kernel)
        ∷ [])
    pure none
  prepare iso argv = prepare_iso
  prepare bochs argv = do
    try (H.set_current_dir (H.cargo_manifest_dir <> "/../tools/"))
    pure (some create_bochs_cmd)
  prepare (unknown command) argv = do
    print (("OS> Unknown command `" <> (command <> "`")) ∷ [])
    pure none
  prepare nothing argv = do
    print ("OS> No command supplied! `uefi`, `bios`, `lldb`" ∷ [])
    pure none

  -- After `spawn`: a command counts as spawned where it succeeded.
  abbrev pub started : Command → Result H.IoError (Unit {0}) → Action (Unit {0})
  started cmd (val _) s = (returned tt, record s { spawned = cmd ∷ s.spawned })
  started cmd (err e) s = (failed e, s)

  abbrev pub spawn : Command → Action (Unit {0})
  spawn cmd s = let (r, world) = H.spawn cmd s.world in started cmd r (record s { world = world })

  -- `spawn` and `wait`.
  pub execute : Option Command → Action (Unit {0})
  execute none = pure tt
  execute (some cmd) = do spawn cmd; try H.wait

  -- On the arguments, the first of them the launcher's own name.
  pub main : List (Option String) → Action (Unit {0})
  unfolding choice_of setup_env nth prepare execute
  main argv = do setup_env; word ← nth 1 argv; cmd ← prepare (choice_of word) argv; execute cmd
