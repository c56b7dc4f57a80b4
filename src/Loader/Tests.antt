-- ===== src/Loader/Tests.antt =====
-- Runs of loader/x86-64-multiboot2/mem.cc with the null page reserved.
use cxkernel.Base.{List, [], ◌∷◌}
use cxkernel.Loader.{Range}

abbrev null_page : List Range
null_page = record { begin = 0; end = 4095 } ∷ []
