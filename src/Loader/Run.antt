-- ===== src/Loader/Run.antt =====
-- The search for a run of free pages in loader/x86-64-multiboot2/mem.cc.
use cxkernel.Base.{ℕ, ◌+◌, ◌≤◌, ◌<◌, ◌≡◌, true, false, List}
use cxkernel.Loader.{Range, is_page_reserved}

-- Pages `i` to `i + n - 1` meet no reserved range, as the code tests it.
abbrev pub IsFree : List Range → ℕ → ℕ → Type 0
IsFree rs i n = (j : ℕ) → i ≤ j → j < i + n → is_page_reserved rs j ≡ false

-- A reserved page in the run.
abbrev pub HasReserved : List Range → ℕ → ℕ → Type 0
HasReserved rs i n = (j : ℕ) × (i ≤ j) × (j < i + n) × (is_page_reserved rs j ≡ true)
