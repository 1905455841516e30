-- ===== src/Symbols.antt =====
-- kernel/src/meta/symbols.rs: resolving an address in the kernel's symbol table, and the frames of a
-- backtrace.
pub mod Found
use nocciolo.Base.{
  ℕ, zero, suc, ◌+◌, ◌==◌, ltb, if◌then◌else◌, Outcome, ok, ◌>>=◌, add_in, Option, none, some, List,
  [], ◌∷◌,
}

-- `Symbol` of the crate `elf`: the fields that are read.
pub record Symbol : Type 0 where
  pub st_name : ℕ
  pub st_value : ℕ
  pub st_size : ℕ

-- A parsed image, as a parameter: its symbol table, if there is one, with the names.
pub record ElfBytes : Type 1 where
  pub Name : Type 0
  pub symbol_table : Option (List Symbol)
  pub name_at : ℕ → Option Name

module _ (elf : ElfBytes) where
  -- The loop over the symbols.
  pub find_symbol : List Symbol → ℕ → Outcome (Option elf.Name)
  find_symbol [] offset = ok none
  find_symbol (sym ∷ sym_tab) offset =
      let later = find_symbol sym_tab offset in
      if ltb sym.st_value offset
      then later
      else (add_in 64 sym.st_value sym.st_size >>= λ end.
          if ltb offset end
          then later
          else if sym.st_name == 0
          then ok none
          else ok (elf.name_at sym.st_name))

  -- The image, once it is set and was parsed.
  pub resolve_in : Option (List Symbol) → ℕ → Outcome (Option elf.Name)
  unfolding find_symbol
  resolve_in none offset = ok none
  resolve_in (some sym_tab) offset = find_symbol sym_tab offset

  pub resolve : ℕ → Outcome (Option elf.Name)
  unfolding resolve_in
  resolve offset = resolve_in elf.symbol_table offset

-- `BacktraceIterator`: the address of a frame; `read` is the memory.
pub next_frame : (ℕ → ℕ) → ℕ → Option (ℕ × ℕ)
next_frame read ptr = if ptr == 0 then none else some (ptr, read ptr)

-- So many calls of `next`, from a captured pointer on.
pub frames : (ℕ → ℕ) → ℕ → ℕ → List ℕ
unfolding next_frame
frames read zero ptr = []
frames read (suc n) ptr = elim (next_frame read ptr) [
  | none ↦ []
  | some (frame, ptr') ↦ frame ∷ frames read n ptr'
]
