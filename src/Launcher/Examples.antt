-- ===== src/Launcher/Examples.antt =====
-- A host with all tools, whose disk is full for the debuggers' input.
use Prim.Native.String.{◌++◌ as ◌<>◌}
use nocciolo.Base.{◌≡◌, refl, true, false, some, none, List, [], ◌∷◌, String}
use nocciolo.Launcher.{
  Session, returned, failed, main, setup_env, set_up, nth, print, prepare, execute, create_qemu_cmd,
  create_lldb_command,
}
use nocciolo.Launcher.Commands.{bios, choice_of, qemu_cmd, new, args, is_word}
use nocciolo.Launcher.System.{Host, val, err}
use nocciolo.Launcher.Spawned.{Spawned, main-Spawned}

abbrev host : Host
host = record {
  IoError = String;
  World = List String;
  exists = λ path world. true;
  print_line = λ line world. (true, world);
  current_dir = λ world. "/src";
  which = λ name world. true;
  symlink = λ from to world. ("link " <> to) ∷ world;
  create_dir = λ path world. ("dir " <> path) ∷ world;
  copy = λ from to world. (val tt, ("copy " <> to) ∷ world);
  set_current_dir = λ path world. (val tt, world);
  create_file = λ path world. (err "disk full", world);
  write_line = λ path line world. (val tt, world);
  spawn = λ cmd world. (val tt, ("spawn " <> cmd.program) ∷ world);
  wait = λ world. (val tt, world);
  kernel = "kernel";
  uefi_path = "uefi.img";
  bios_path = "bios.img";
  cargo_manifest_dir = "os";
  ovmf_pure_efi = "ovmf.fd";
  is_macos = false;
}

abbrev session : Session host
session = record { world = []; stdout = []; spawned = [] }

-- The emulator runs, with the gdb server on.
bios_run : main host (some "os" ∷ some "bios" ∷ some "debug" ∷ []) session ≡ (
  returned tt,
  record {
    world =
        "spawn qemu-system-x86_64" ∷ "copy target/iso/nocciolo.img" ∷ "dir target/iso"
        ∷ "link target/kernel-bin" ∷ [];
    stdout = [];
    spawned =
        record {
          program = "qemu-system-x86_64";
          args =
              "-no-reboot" ∷ "-d" ∷ "int" ∷ "-s" ∷ "-S" ∷ "-serial" ∷ "stdio" ∷ "-drive"
              ∷ "format=raw,file=bios.img" ∷ [];
          current_dir = none;
        }
        ∷ [];
  },
)
unfolding main setup_env set_up nth prepare execute create_qemu_cmd qemu_cmd new args is_word
    choice_of
bios_run = refl

-- The debugger's input cannot be written, so it is not run.
lldb_run : (main host (some "os" ∷ some "lldb" ∷ []) session).0 ≡ failed "disk full"
unfolding main setup_env set_up nth print prepare create_lldb_command choice_of
lldb_run = refl

-- An emulator that does not start is not spawned.
abbrev without_emulator : Host
without_emulator = record host { spawn = λ cmd world. (err "not found", world) }

absent_run :
    (main without_emulator
      (some "os" ∷ some "bios" ∷ [])
      (record { world = []; stdout = []; spawned = [] })).1.spawned
    ≡ []
unfolding main setup_env set_up nth prepare execute create_qemu_cmd qemu_cmd new args is_word
    choice_of
absent_run = refl

main-Spawned_example :
    Spawned host
      (some "os" ∷ some "bios" ∷ some "debug" ∷ [])
      bios
      session
      (main host (some "os" ∷ some "bios" ∷ some "debug" ∷ []) session)
unfolding choice_of
main-Spawned_example = main-Spawned host (some "os" ∷ some "bios" ∷ some "debug" ∷ []) session
