-- ===== src/Elf.antt =====
-- lib/elf: the structs of sysv_elf_abi.h as they lie in a memory of bytes, `Context::load` of
-- parser.cc, `Context64` of elf64_parser.cc and the headers of elf.h. A pointer is an address.
pub mod Sections
mod Tests
use cxkernel.Base.{
  ℕ, zero, suc, ◌+◌, ◌*◌, ◌/◌, Bool, true, false, ◌&&◌, Option, none, some, List, [], ◌∷◌, ℤ, pos,
  negsuc, ◌==◌, if◌then◌else◌,
}
use cxkernel.Status.{E, ok, invalid, not_implemented, Result, from_value, from_error}
use cxkernel.Symbols.{Sym}
use cxkernel.Text.{Memory, word, strcmp}

pub record Ehdr : Type 0 where
  pub e_ident : ℕ → ℕ
  pub e_type : ℕ
  pub e_machine : ℕ
  pub e_version : ℕ
  pub e_entry : ℕ
  pub e_phoff : ℕ
  pub e_shoff : ℕ
  pub e_flags : ℕ
  pub e_ehsize : ℕ
  pub e_phentsize : ℕ
  pub e_phnum : ℕ
  pub e_shentsize : ℕ
  pub e_shnum : ℕ
  pub e_shstrndx : ℕ

unfoldable pub ehdr : Memory → ℕ → Ehdr
ehdr m p = record {
  e_ident = λ i. m (p + i);
  e_type = word 2 m (p + 16);
  e_machine = word 2 m (p + 18);
  e_version = word 4 m (p + 20);
  e_entry = word 8 m (p + 24);
  e_phoff = word 8 m (p + 32);
  e_shoff = word 8 m (p + 40);
  e_flags = word 4 m (p + 48);
  e_ehsize = word 2 m (p + 52);
  e_phentsize = word 2 m (p + 54);
  e_phnum = word 2 m (p + 56);
  e_shentsize = word 2 m (p + 58);
  e_shnum = word 2 m (p + 60);
  e_shstrndx = word 2 m (p + 62);
}

pub record Phdr : Type 0 where
  pub p_type : ℕ
  pub p_flags : ℕ
  pub p_offset : ℕ
  pub p_vaddr : ℕ
  pub p_paddr : ℕ
  pub p_filesz : ℕ
  pub p_memsz : ℕ
  pub p_align : ℕ

unfoldable pub phdr : Memory → ℕ → Phdr
phdr m p = record {
  p_type = word 4 m p;
  p_flags = word 4 m (p + 4);
  p_offset = word 8 m (p + 8);
  p_vaddr = word 8 m (p + 16);
  p_paddr = word 8 m (p + 24);
  p_filesz = word 8 m (p + 32);
  p_memsz = word 8 m (p + 40);
  p_align = word 8 m (p + 48);
}

pub record Shdr : Type 0 where
  pub sh_name : ℕ
  pub sh_type : ℕ
  pub sh_flags : ℕ
  pub sh_addr : ℕ
  pub sh_offset : ℕ
  pub sh_size : ℕ
  pub sh_link : ℕ
  pub sh_info : ℕ
  pub sh_addralign : ℕ
  pub sh_entsize : ℕ

unfoldable pub shdr : Memory → ℕ → Shdr
shdr m p = record {
  sh_name = word 4 m p;
  sh_type = word 4 m (p + 4);
  sh_flags = word 8 m (p + 8);
  sh_addr = word 8 m (p + 16);
  sh_offset = word 8 m (p + 24);
  sh_size = word 8 m (p + 32);
  sh_link = word 4 m (p + 40);
  sh_info = word 4 m (p + 44);
  sh_addralign = word 8 m (p + 48);
  sh_entsize = word 8 m (p + 56);
}

-- the fields of an `elf64_sym_t` that the look-up reads
unfoldable pub sym : Memory → ℕ → Sym
sym m p = record { st_name = word 4 m p; st_value = word 8 m (p + 8) }

-- sizes of the structs
abbrev pub sizeof_phdr : ℕ
sizeof_phdr = 56

abbrev pub sizeof_shdr : ℕ
sizeof_shdr = 64

abbrev pub sizeof_sym : ℕ
sizeof_sym = 24

-- `Context64`; its pointers are into the image
pub record Context64 : Type 0 where
  pub img : ℕ
  pub shdrs : ℕ
  pub phdrs : ℕ
  pub symtab : ℕ
  pub strtab : ℕ

unfoldable pub read_section64 : Memory → ℕ → ℕ → ℕ → ℕ
read_section64 m img sh idx = img + (shdr m (sh + sizeof_shdr * idx)).sh_offset

-- whether strcmp's answer is 0
abbrev pub is_equal : ℤ → Bool
is_equal (pos n) = n == 0
is_equal (negsuc n) = false

-- The sections, as they are compared one after the other, the address of the name ".null" being
-- given; 0 is the null pointer, and `none` a comparison that the fuel is not enough for.
unfoldable pub section_loop : ℕ → Memory → ℕ → ℕ → ℕ → ℕ → ℕ → Option ℕ
section_loop fuel m dot_null sh_str name p zero = some 0
section_loop fuel m dot_null sh_str name p (suc n) =
    let rest = section_loop fuel m dot_null sh_str name (p + sizeof_shdr) n in
    let same : Option ℕ = elim (strcmp fuel m (sh_str + (shdr m p).sh_name) name) [
      | none ↦ none
      | some d ↦ if is_equal d then some p else rest
    ] in
    if m name == 0
    then elim (strcmp fuel m dot_null name) [
      | none ↦ none
      | some d ↦ if is_equal d then some p else same
    ]
    else same

unfoldable pub find_section : ℕ → Memory → ℕ → Context64 → ℕ → Option ℕ
find_section fuel m dot_null c name =
    let h = ehdr m c.img in
    section_loop fuel m dot_null (read_section64 m c.img c.shdrs h.e_shstrndx) name c.shdrs
      h.e_shnum

-- `Context64::load`, with the addresses of the names ".null", ".symtab" and ".strtab"
unfoldable pub load64 : ℕ → Memory → ℕ → ℕ → ℕ → ℕ → Option (E × Context64)
load64 fuel m dot_null dot_symtab dot_strtab hdr =
    let h = ehdr m hdr in
    let c : Context64 = record {
      img = hdr;
      shdrs = hdr + h.e_shoff;
      phdrs = hdr + h.e_phoff;
      symtab = 0;
      strtab = 0;
    } in
    elim (find_section fuel m dot_null c dot_symtab) [
      | none ↦ none
      | some symtab ↦
          elim (find_section fuel m dot_null (record c { symtab = symtab }) dot_strtab) [
            | none ↦ none
            | some strtab ↦ some (ok, record c { symtab = symtab; strtab = strtab })
          ]
    ]

abbrev pub is_valid_elf : Memory → ℕ → Bool
is_valid_elf m h = (m h == 0x7F) && (m (h + 1) == 69) && (m (h + 2) == 76) && (m (h + 3) == 70)

-- What `Context::load` returns and leaves: `is_64bits_`, when it was set, and the 64-bit context.
pub data Loaded : Type 0 where
  refused : E → Loaded
  loaded32 : E → Loaded
  loaded64 : E → Context64 → Loaded

unfoldable pub load : ℕ → Memory → ℕ → ℕ → ℕ → ℕ → Option Loaded
load fuel m dot_null dot_symtab dot_strtab img =
    if is_valid_elf m img
    then (if m (img + 4) == 1
        then some (loaded32 not_implemented)
        else if m (img + 4) == 2
        then (elim (load64 fuel m dot_null dot_symtab dot_strtab img) [
          | none ↦ none
          | some r ↦ some (loaded64 r.0 r.1)
        ])
        else some (refused invalid))
    else some (refused invalid)

-- `header<U>`, from its first element on: the pointers that the iterator goes through
unfoldable pub headers : ℕ → ℕ → List ℕ
headers p zero = []
headers p (suc n) = p ∷ headers (p + sizeof_phdr) n

-- `get_header<elf64_phdr_t>`
unfoldable pub get_header : Memory → Context64 → List ℕ
get_header m c = headers c.phdrs (ehdr m c.img).e_phnum

-- The symbols that `get_symbol_addr` and `get_symbol_name` go through.
unfoldable pub symbols : Memory → ℕ → ℕ → List Sym
symbols m p zero = []
symbols m p (suc n) = sym m p ∷ symbols m (p + sizeof_sym) n

unfoldable pub symbol_table : Memory → Context64 → List Sym
symbol_table m c =
    let tab = shdr m c.symtab in symbols m (tab.sh_offset + c.img) (tab.sh_size / sizeof_sym)
