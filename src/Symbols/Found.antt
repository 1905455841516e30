-- ===== src/Symbols/Found.antt =====
-- What `resolve` of meta/symbols.rs finds.
mod Examples
use nocciolo.Base.{
  ℕ, ◌+◌, ◌^◌, ◌≤◌, ◌<◌, ◌≡◌, ◌⊎◌, inl, inr, refl, ap, ◌∙◌, ◌==◌, ltb, if◌then◌else◌, ◌&&◌, Bool,
  true, false, Bool-cases, Outcome, ok, ◌>>=◌, add_in, Option, none, some, List, [], ◌∷◌, All,
  arith,
}
use nocciolo.Symbols.{Symbol, ElfBytes, find_symbol}

-- The symbols whose extent does not reach past the end of the address space.
abbrev pub Fits : Symbol → Type 0
Fits sym = sym.st_value + sym.st_size < 2 ^ 64

-- The first of the given symbols that is at the address itself and is empty.
pub empty_symbol_at : List Symbol → ℕ → Option Symbol
empty_symbol_at [] offset = none
empty_symbol_at (sym ∷ sym_tab) offset =
    let later = empty_symbol_at sym_tab offset in
    if (sym.st_value == offset) && (sym.st_size == 0) then some sym else later

module _ (elf : ElfBytes) where
  -- Its name, unless it has none.
  pub name_of : Option Symbol → Option elf.Name
  name_of none = none
  name_of (some sym) = if sym.st_name == 0 then none else elf.name_at sym.st_name

  named :
      (sym : Symbol)
      → (if sym.st_name == 0 then ok none else ok (elf.name_at sym.st_name))
        ≡ ok (name_of (some sym))
  unfolding name_of
  named sym = elim (Bool-cases (sym.st_name == 0)) [
    | inl zero_name ↦ rw (zero_name) refl
    | inr a_name ↦ rw (a_name) refl
  ]

  -- In a table of symbols that do not reach past the end of the address space, the search finds the
  -- first symbol that starts at the address itself and is empty, and no other.
  pub find_symbol-empty :
      (sym_tab : List Symbol) (offset : ℕ)
      → All Fits sym_tab
      → find_symbol elf sym_tab offset ≡ ok (name_of (empty_symbol_at sym_tab offset))
  unfolding find_symbol empty_symbol_at name_of
  find_symbol-empty [] offset fits = refl
  find_symbol-empty (sym ∷ sym_tab) offset fits =
      let rest = find_symbol-empty sym_tab offset fits.1 in
      let end : add_in 64 sym.st_value sym.st_size ≡ ok (sym.st_value + sym.st_size) =
        ground (arith, fits.0) in
      elim (Bool-cases (ltb sym.st_value offset)) [
        | inl before ↦
            let other : (sym.st_value == offset) ≡ false = ground arith in rw (before, other) rest
        | inr from ↦ elim (Bool-cases (ltb offset (sym.st_value + sym.st_size))) [
          | inl reaches ↦
              let other : ((sym.st_value == offset) && (sym.st_size == 0)) ≡ false = ground arith in
              rw (from, end, reaches, other) rest
          | inr ends ↦
              let same : (sym.st_value == offset) ≡ true = ground arith in
              let empty : (sym.st_size == 0) ≡ true = ground arith in
              rw (from, end, ends, same, empty) (named sym)
        ]
      ]
