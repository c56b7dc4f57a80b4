-- ===== src/Symbols/Tests.antt =====
-- A look-up as of lib/elf/elf64_parser.cc in a table of two symbols.
use cxkernel.Base.{◌≡◌, ◌≤◌, ◌⊎◌, List, [], ◌∷◌, some, none}
use cxkernel.Symbols.{Sym, get_symbol_name, get_symbol_addr}
use cxkernel.Symbols.Nearest.{In, IsAbove, get_symbol-nearest}

abbrev table : List Sym
table = record { st_name = 1; st_value = 100 } ∷ record { st_name = 7; st_value = 200 } ∷ []

nearest_example :
    ((s : Sym) × In s table
      × (s.st_value ≤ 150)
      × (get_symbol_name table 150 ≡ some s.st_name)
      × (get_symbol_addr table 150 ≡ s.st_value)
      × IsAbove table 150 s.st_value)
    ⊎ ((get_symbol_name table 150 ≡ none) × (get_symbol_addr table 150 ≡ 0) × IsAbove table 150 0)
nearest_example = get_symbol-nearest table 150
