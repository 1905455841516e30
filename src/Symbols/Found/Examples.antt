-- ===== src/Symbols/Found/Examples.antt =====
-- A function from 0x1000 to 0x1100, and an empty symbol at its end.
use nocciolo.Base.{ℕ, ◌≡◌, ok, none, some, List, [], ◌∷◌, arith}
use nocciolo.Symbols.{Symbol, ElfBytes, find_symbol}
use nocciolo.Symbols.Found.{empty_symbol_at, name_of, find_symbol-empty}

abbrev symbols : List Symbol
symbols =
    record { st_name = 1; st_value = 0x1000; st_size = 0x100 }
    ∷ record { st_name = 5; st_value = 0x1100; st_size = 0 }
    ∷ []

abbrev image : ElfBytes
image = record { Name = ℕ; symbol_table = some symbols; name_at = λ n. some n }

-- An address within the function is not resolved.
find_symbol-empty_example : find_symbol image symbols 0x1010 ≡ ok none
unfolding empty_symbol_at name_of
find_symbol-empty_example = find_symbol-empty image symbols 0x1010 (omega arith, (omega arith, tt))
