-- ===== src/Loader/Lists.antt =====
-- The page database's two lists in loader/x86-64-multiboot2/mem.cc.
use cxkernel.Base.{ℕ, zero, suc, ◌+◌, ◌≡◌, Bool, not, List, [], ◌∷◌, if◌then◌else◌, length}
use cxkernel.Loader.{Range, is_page_reserved, Database}

-- the numbers from `i` on, `n` of them
unfoldable pub upwards : ℕ → ℕ → List ℕ
upwards i zero = []
upwards i (suc n) = i ∷ upwards (i + 1) n

-- the numbers that pass the test, in order
unfoldable pub passing : (ℕ → Bool) → List ℕ → List ℕ
passing p [] = []
passing p (x ∷ xs) = if p x then x ∷ passing p xs else passing p xs

-- The pages 0 to n - 1, each on the list that is right for it, in order.
pub record IsSplit (rs : List Range) (n : ℕ) (db : Database) : Type 0 where
  pub free : db.freelist ≡ passing (λ i. not (is_page_reserved rs i)) (upwards 0 n)
  pub reserved : db.rsrvlist ≡ passing (is_page_reserved rs) (upwards 0 n)
  pub lengths : length db.freelist + length db.rsrvlist ≡ n

-- The loop puts the pages from `i` on behind those that are on the lists.
module _ (rs : List Range) where
  abbrev free_from : ℕ → ℕ → List ℕ
  free_from i n = passing (λ j. not (is_page_reserved rs j)) (upwards i n)

  abbrev reserved_from : ℕ → ℕ → List ℕ
  reserved_from i n = passing (is_page_reserved rs) (upwards i n)
