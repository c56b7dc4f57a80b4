-- ===== src/Pmm.antt =====
-- core/pmm.cc: the kernel's physical page allocator over the free list of page descriptors. The
-- free list is a root pointer that each operation is given and returns; `pages` likewise.
pub mod Alloc
mod Tests
use cxkernel.Base.{ℕ, zero, suc, ◌+◌, ◌==◌, if◌then◌else◌, none}
use cxkernel.LinkedList.{Ptr, null, Cmd, pure, ◌>>=◌, ◌>>◌, empty, push_front, push_back, pop_front}
use cxkernel.Status.{E, ok, out_of_memory}

-- a status, the free list and the pages of the caller
pub record Answer : Type 0 where
  pub status : E
  pub free : Ptr
  pub pages : Ptr

abbrev pub answer : E → Ptr → Ptr → Answer
answer e f p = record { status = e; free = f; pages = p }

-- The page is null unless the status is `ok`.
pub alloc_phys_page_single : Ptr → Cmd Answer
alloc_phys_page_single free = do
  (node, free') ← pop_front free
  pure (if node == null then answer out_of_memory free' null else answer ok free' node)

-- the loop that empties `pages` to the front of the free list; a null result of the fuel's end
-- never arises with one more round than pages
unfoldable pub give_back : ℕ → Ptr → Ptr → Cmd Answer
unfolding empty
give_back zero free pages = λ _. none
give_back (suc fuel) free pages = if empty pages then pure (answer out_of_memory free pages) else do
  (node, pages') ← pop_front pages
  free' ← push_front free node
  give_back fuel free' pages'

unfoldable pub alloc_loop : ℕ → ℕ → Ptr → Ptr → Cmd Answer
alloc_loop fuel zero free pages = pure (answer ok free pages)
alloc_loop fuel (suc left) free pages = do
  (node, free') ← pop_front free
  if node == null
      then give_back fuel free' pages
      else do pages' ← push_front pages node; alloc_loop fuel left free' pages'

-- `pages = {}` discards what the caller's list held.
pub alloc_phys_pages : ℕ → Ptr → Ptr → Cmd Answer
unfolding alloc_loop give_back
alloc_phys_pages count free pages = alloc_loop (count + 1) count free null

unfoldable pub free_loop : ℕ → Ptr → Ptr → Cmd Answer
unfolding empty
free_loop zero free pages = λ _. none
free_loop (suc fuel) free pages = if empty pages then pure (answer ok free pages) else do
  (page, pages') ← pop_front pages
  free' ← push_back free page
  free_loop fuel free' pages'

pub free_phys_pages : ℕ → Ptr → Ptr → Cmd Answer
unfolding free_loop
free_phys_pages fuel free pages = free_loop fuel free pages

pub free_phys_page_single : Ptr → Ptr → Cmd Ptr
free_phys_page_single free page = if page == null then pure free else push_back free page
