-- ===== src/Launcher/Commands.antt =====
-- The command lines of os/src/main.rs, and what the first argument asks for.
use nocciolo.Base.{
  Bool, false, if◌then◌else◌, Option, none, some, List, [], ◌∷◌, ◌++◌, String, string_eq,
}

-- `std::process::Command`: the program, its arguments, and its directory, if one is set.
pub record Command : Type 0 where
  pub program : String
  pub args : List String
  pub current_dir : Option String

-- What the first argument asks for.
pub data Choice : Type 0 where
  lldb gdb bios uefi info iso bochs : Choice
  unknown : String → Choice
  nothing : Choice

unfoldable pub choice_of : Option String → Choice
choice_of none = nothing
choice_of (some s) =
    if string_eq s "lldb"
    then lldb
    else if string_eq s "gdb"
    then gdb
    else if string_eq s "bios"
    then bios
    else if string_eq s "uefi"
    then uefi
    else if string_eq s "info"
    then info
    else if string_eq s "iso"
    then iso
    else if string_eq s "bochs"
    then bochs
    else unknown s

-- `Command::new`, `arg` and `args`.
unfoldable pub new : String → Command
new program = record { program = program; args = []; current_dir = none }

unfoldable pub args : List String → Command → Command
args more cmd = record cmd { args = cmd.args ++ more }

unfoldable pub create_bochs_cmd : Command
unfolding new args
create_bochs_cmd = args ("-q" ∷ []) (new "bochs")

-- Whether an argument is there and is the given word.
unfoldable pub is_word : Option String → String → Bool
is_word none word = false
is_word (some s) word = string_eq s word

-- The emulator's command line, for the second argument.
unfoldable pub qemu_cmd : Option String → Command
unfolding new args is_word
qemu_cmd mode =
    let cmd = args ("-d" ∷ "int" ∷ []) (args ("-no-reboot" ∷ []) (new "qemu-system-x86_64")) in
    let cmd' = if is_word mode "debug" then args ("-s" ∷ "-S" ∷ []) cmd else cmd in
    if is_word mode "monitor"
    then args ("-monitor" ∷ "stdio" ∷ []) cmd'
    else args ("-serial" ∷ "stdio" ∷ []) cmd'

-- The command line of `mkisofs`.
unfoldable pub create_iso_cmd : Command
unfolding new args
create_iso_cmd =
    args
      ("-U" ∷ "-no-emul-boot" ∷ "-b" ∷ "nocciolo.img" ∷ "-hide" ∷ "nocciolo.img" ∷ "-V" ∷ "Nocciolo"
        ∷ "-iso-level" ∷ "3" ∷ "-o" ∷ "target/iso/nocciolo.iso" ∷ "target/iso" ∷ [])
      (new "mkisofs")
