-- ===== src/Aml/Regions/Processor.antt =====
-- A processor whose memory is a function from addresses to bytes, on the machine of Memory/Machine.
use nocciolo.Base.{
  ℕ, zero, suc, ◌+◌, ◌*◌, ◌/◌, ◌%◌, ◌<◌, ◌≡◌, refl, ap, ◌∙◌, ◌==◌, if◌then◌else◌, Option, none,
  some, arith,
}
use nocciolo.Memory.Mapping.Region.{address_of}
use nocciolo.Memory.Machine.{machine, machine-IsX86, machine-IsPaging}
use nocciolo.Aml.Regions.{Cpu}
use nocciolo.Aml.Regions.Contents.{IsCpu}

abbrev pub Ram : Type 0
Ram = ℕ → ℕ

-- The byte behind an address, and memory with that byte changed; nothing is behind a page fault.
abbrev pub byte_at : Option ℕ → Ram → ℕ
byte_at none ram = 0
byte_at (some a) ram = ram a

abbrev pub change_byte : Option ℕ → ℕ → Ram → Ram
change_byte none value ram = λ b. ram b
change_byte (some a) value ram = λ b. if b == a then value % 256 else ram b

-- So many bytes, the lowest first.
abbrev pub bytes : ℕ → (ℕ → Option ℕ) → Ram → ℕ
bytes zero where_is ram = 0
bytes (suc n) where_is ram = byte_at (where_is 0) ram + 256 * bytes n (λ j. where_is (suc j)) ram

abbrev pub change_bytes : ℕ → (ℕ → Option ℕ) → ℕ → Ram → Ram
change_bytes zero where_is value ram = ram
change_bytes (suc n) where_is value ram =
    change_bytes n (λ j. where_is (suc j)) (value / 256) (change_byte (where_is 0) value ram)

pub bytes_mapped :
    (n : ℕ) (f g : ℕ → Option ℕ) (ram : Ram)
    → ((j : ℕ) → j < n → f j ≡ g j)
    → bytes n f ram ≡ bytes n g ram
bytes_mapped zero f g ram same = refl
bytes_mapped (suc n) f g ram same =
    let first = ap (λ o. byte_at o ram) (same 0 (omega arith)) in
    let rest =
      bytes_mapped n (λ j. f (suc j)) (λ j. g (suc j)) ram (λ j lt. same (suc j) (omega arith)) in
    omega (arith, first, rest)

pub change_bytes_mapped :
    (n : ℕ) (f g : ℕ → Option ℕ) (value : ℕ) (ram : Ram)
    → ((j : ℕ) → j < n → f j ≡ g j)
    → change_bytes n f value ram ≡ change_bytes n g value ram
change_bytes_mapped zero f g value ram same = refl
change_bytes_mapped (suc n) f g value ram same =
    ap (λ o. change_bytes n (λ j. f (suc j)) (value / 256) (change_byte o value ram))
      (same 0 (omega arith))
    ∙ change_bytes_mapped n (λ j. f (suc j)) (λ j. g (suc j)) (value / 256)
        (change_byte (g 0) value ram) (λ j lt. same (suc j) (omega arith))

-- The address that the active tables give.
abbrev pub translated : Option (ℕ → Option ℕ) → ℕ → Option ℕ
translated none v = none
translated (some m) v = address_of machine machine-IsX86 machine-IsPaging m v

abbrev pub cpu : Cpu machine
cpu = record {
  Ram = Ram;
  load = λ st size virt ram. bytes size (λ j. translated st.mapper (virt + j)) ram;
  store =
      λ st size virt value ram. change_bytes size (λ j. translated st.mapper (virt + j)) value ram;
}

unfoldable pub cpu-IsCpu : IsCpu machine machine-IsX86 machine-IsPaging cpu
cpu-IsCpu = record {
  contents = λ size phys ram. bytes size (λ j. some (phys + j)) ram;
  change = λ size phys value ram. change_bytes size (λ j. some (phys + j)) value ram;
  load-mapped = λ st m size virt phys ram is mapped.
      bytes_mapped size (λ j. translated st.mapper (virt + j)) (λ j. some (phys + j)) ram
        (λ j lt. ap (λ o. translated o (virt + j)) is ∙ mapped j lt);
  store-mapped = λ st m size virt phys value ram is mapped.
      change_bytes_mapped size (λ j. translated st.mapper (virt + j)) (λ j. some (phys + j)) value
        ram (λ j lt. ap (λ o. translated o (virt + j)) is ∙ mapped j lt);
}
