-- ===== src/Launcher/System.antt =====
-- What os/src/main.rs uses of the host it runs on.
use nocciolo.Base.{Bool, String}
use nocciolo.Launcher.Commands.{Command}

-- `std::io::Result`.
pub data Result (E A : Type 0) : Type 0 where
  val : A → Result E A
  err : E → Result E A

-- The standard library on a host, the crates `which` and `ovmf_prebuilt`, and what the build puts into
-- the environment, as a parameter.
pub record Host : Type 1 where
  pub IoError : Type 0
  pub World : Type 0
  pub exists : String → World → Bool
  -- `println!`, which panics where standard output fails: the line, and whether it was written.
  pub print_line : String → World → Bool × World
  -- `current_dir`, as it is printed.
  pub current_dir : World → String
  pub which : String → World → Bool
  -- Their results are not looked at.
  pub symlink : String → String → World → World
  pub create_dir : String → World → World
  pub copy : String → String → World → Result IoError (Unit {0}) × World
  pub set_current_dir : String → World → Result IoError (Unit {0}) × World
  -- Creates the file and writes the lines.
  pub create_file : String → World → Result IoError (Unit {0}) × World
  pub write_line : String → String → World → Result IoError (Unit {0}) × World
  pub spawn : Command → World → Result IoError (Unit {0}) × World
  pub wait : World → Result IoError (Unit {0}) × World
  pub kernel : String
  pub uefi_path : String
  pub bios_path : String
  pub cargo_manifest_dir : String
  pub ovmf_pure_efi : String
  pub is_macos : Bool
