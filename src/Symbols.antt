-- ===== src/Symbols.antt =====
-- lib/elf/elf64_parser.cc: the look-up of a symbol by address. The symbol table is the sequence of
-- its entries.
pub mod Nearest
mod Tests
use cxkernel.Base.{ℕ, Bool, ◌&&◌, Option, none, some, List, [], ◌∷◌, ltb, leb, if◌then◌else◌}

-- the fields of `elf64_sym_t` that are read
pub record Sym : Type 0 where
  pub st_name : ℕ
  pub st_value : ℕ

-- the test of both loops: a greater value than the best one, and not past the address
abbrev pub better : Sym → ℕ → ℕ → Bool
better s val addr = ltb val s.st_value && leb s.st_value addr

-- `Context64::get_symbol_addr`, from the best value so far
unfoldable pub symbol_addr_loop : List Sym → ℕ → ℕ → ℕ
symbol_addr_loop [] val addr = val
symbol_addr_loop (s ∷ tab) val addr =
    if better s val addr
    then symbol_addr_loop tab s.st_value addr
    else symbol_addr_loop tab val addr

unfoldable pub get_symbol_addr : List Sym → ℕ → ℕ
get_symbol_addr tab addr = symbol_addr_loop tab 0 addr

-- `Context64::get_symbol_name`, as the name's offset in the string table
unfoldable pub symbol_name_loop : List Sym → Option Sym → ℕ → ℕ → Option Sym
symbol_name_loop [] sym val addr = sym
symbol_name_loop (s ∷ tab) sym val addr =
    if better s val addr
    then symbol_name_loop tab (some s) s.st_value addr
    else symbol_name_loop tab sym val addr

unfoldable pub get_symbol_name : List Sym → ℕ → Option ℕ
get_symbol_name tab addr = elim (symbol_name_loop tab none 0 addr) [
  | none ↦ none
  | some s ↦ some s.st_name
]
