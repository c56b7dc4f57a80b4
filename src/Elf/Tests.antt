-- ===== src/Elf/Tests.antt =====
-- An image with two sections, "a" and "b", for lib/elf.
use cxkernel.Base.{ℕ, zero, suc, ◌+◌, ◌*◌, ◌<◌, ◌≡◌, arith, refl, some, ◌==◌, if◌then◌else◌}
use cxkernel.Text.{Memory, strcmp}
use cxkernel.Elf.{Context64, ehdr, shdr, read_section64, find_section, section_loop}
use cxkernel.Elf.Sections.{Compared, Found, find_section-Found}

abbrev image : Memory
image a =
    if a == 60
    then 2
    else if a == 88
    then 192
    else if a == 128
    then 2
    else if a == 192
    then 97
    else if a == 194
    then 98
    else if a == 200
    then 98
    else 0

abbrev context : Context64
context = record { img = 0; shdrs = 64; phdrs = 0; symtab = 0; strtab = 0 }

section_b : find_section 3 image 300 context 200 ≡ some 128
unfolding find_section section_loop ehdr shdr read_section64 strcmp
section_b = refl

compared : (j : ℕ) → j < 2 → Compared 3 image 192 200 (64 + 64 * j)
unfolding strcmp shdr
compared zero lt = (_, refl)
compared (suc zero) lt = (_, refl)
compared (suc (suc j)) lt = absurd (omega (arith, lt))

Found_example : Found 3 image 192 200 64 2 (find_section 3 image 300 context 200)
unfolding ehdr shdr read_section64
Found_example = find_section-Found 3 image 300 context 200 (λ e. ground (arith, e)) compared
