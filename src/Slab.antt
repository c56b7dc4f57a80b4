-- ===== src/Slab.antt =====
-- The slab allocator, core/include/core/slab.h and core/slab.cc, with the heap of
-- arch/x86-64/interface.h. Lists of slabs and of caches are the sequences of their pointers, 0 is
-- null. One thread runs; which mutexes it holds is part of the state.
pub mod Layout
pub mod Heap
pub mod Startup
mod Tests
use cxkernel.Base.{
  ℕ, zero, suc, ◌+◌, ◌-◌, ◌*◌, ◌/◌, ◌%◌, ◌^◌, Bool, true, false, not, ◌&&◌, Option, none, some,
  List, [], ◌∷◌, ◌++◌, ◌==◌, leb, if◌then◌else◌, bit_and,
}
use cxkernel.Bits.{u32}
use cxkernel.Util.{page_size, page_align_down}
use cxkernel.Text.{Memory}
use cxkernel.PageTable.{read64, write64}

-- a - b on unsigned int, for a and b below 2 ^ 32
abbrev pub sub32 : ℕ → ℕ → ℕ
sub32 a b = u32 (a + 2 ^ 32 - b)

-- `align_up` on unsigned int
unfoldable pub align_up : ℕ → ℕ → ℕ
align_up value order = bit_and (u32 (value + (2 ^ order - 1))) (2 ^ 32 - 1 - (2 ^ order - 1))

abbrev pub default_order : ℕ
default_order = 3

pub record Slab : Type 0 where
  pub parent : ℕ
  pub inuse : ℕ
  pub last_alloc_time : ℕ
  pub objctl : ℕ
  pub objects : ℕ

pub record Cache : Type 0 where
  pub freelist : List ℕ
  pub partiallist : List ℕ
  pub fulllist : List ℕ
  pub order : ℕ
  pub slab_objsize : ℕ
  pub slab_nobjects : ℕ
  pub slab_last_color : ℕ

-- What an operation does: it returns, uses a null pointer, fails an assertion, divides by zero, waits
-- for a mutex that its own thread holds, or puts a slab on a list, or takes it off one, that the
-- slab's links do not belong to.
pub data Ran (A : Type 0) : Type 0 where
  done : A → Ran A
  null_used asserted divided_by_zero locked_out corrupted : Ran A

-- what comes next, where the operation returns
abbrev pub and_then : {A B : Type 0} → Ran A → (A → Ran B) → Ran B
and_then (done x) next = next x
and_then null_used next = null_used
and_then asserted next = asserted
and_then divided_by_zero next = divided_by_zero
and_then locked_out next = locked_out
and_then corrupted next = corrupted

-- The objects in memory, the structs at their pointers, and whether the mutexes are held: that of
-- the list of caches, and those of the structs.
pub record Kmem : Type 0 where
  pub memory : Memory
  pub slabs : ℕ → Slab
  pub caches : ℕ → Cache
  pub cache_list : List ℕ
  pub list_locked : Bool
  pub cache_locked : ℕ → Bool
  pub slab_locked : ℕ → Bool

-- `Guard{&cache_list_lock}`, and its end; and those of a cache's and a slab's lock
abbrev pub lock_list : Kmem → Ran Kmem
lock_list s = if s.list_locked then locked_out else done (record s { list_locked = true })

abbrev pub unlock_list : Kmem → Kmem
unlock_list s = record s { list_locked = false }

abbrev pub lock_cache : ℕ → Kmem → Ran Kmem
lock_cache p s =
    if s.cache_locked p
    then locked_out
    else done (record s { cache_locked = λ q. if q == p then true else s.cache_locked q })

abbrev pub unlock_cache : ℕ → Kmem → Kmem
unlock_cache p s = record s { cache_locked = λ q. if q == p then false else s.cache_locked q }

abbrev pub lock_slab : ℕ → Kmem → Ran Kmem
lock_slab p s =
    if s.slab_locked p
    then locked_out
    else done (record s { slab_locked = λ q. if q == p then true else s.slab_locked q })

abbrev pub unlock_slab : ℕ → Kmem → Kmem
unlock_slab p s = record s { slab_locked = λ q. if q == p then false else s.slab_locked q }

abbrev pub set_slab : ℕ → Slab → Kmem → Kmem
set_slab p v s = record s { slabs = λ q. if q == p then v else s.slabs q }

abbrev pub set_cache : ℕ → Cache → Kmem → Kmem
set_cache p v s = record s { caches = λ q. if q == p then v else s.caches q }

abbrev pub member : ℕ → List ℕ → Bool
member p [] = false
member p (x ∷ xs) = if x == p then true else member p xs

-- the heap of the architecture
abbrev pub grow_heap : ℕ → ℕ
grow_heap num_pages = 0

abbrev pub is_heap_address : ℕ → Bool
is_heap_address addr = false

-- the loop over the objects, each pointing to the next; and the pointer after it
unfoldable pub link_objects : ℕ → ℕ → Memory → ℕ → Memory
link_objects objsize zero m ptr = m
link_objects objsize (suc left) m ptr =
    let next = ptr + objsize in
    link_objects objsize left (write64 m ptr (if left == 0 then 0 else next)) next

module _ (sizeof_slab : ℕ) where
  unfoldable pub num_objects_per_slab : ℕ → ℕ → ℕ
  num_objects_per_slab size order =
      sub32 page_size (align_up sizeof_slab order) / align_up size order

  -- the constructor of `slabcache`
  unfoldable pub new_cache : ℕ → ℕ → Cache
  new_cache size order = record {
    freelist = [];
    partiallist = [];
    fulllist = [];
    order = order;
    slab_objsize = size;
    slab_nobjects = num_objects_per_slab size order;
    slab_last_color = 0;
  }

  -- the space that objects leave, and the number of colours
  abbrev pub padding : Cache → ℕ
  padding c =
      sub32 (sub32 page_size (align_up sizeof_slab c.order)) (c.slab_nobjects * c.slab_objsize)

  abbrev pub max_color : Cache → ℕ
  max_color c = padding c / 2 ^ c.order

  abbrev pub next_color : Cache → ℕ
  next_color c = u32 (c.slab_last_color + 1) % max_color c

  -- the first object's address
  abbrev pub first_object : ℕ → Cache → ℕ
  first_object page c = page + align_up sizeof_slab c.order + next_color c * 2 ^ c.order

  -- the page with its objects and the struct at its start, constructed with its `lock{}`
  abbrev pub initialised : ℕ → ℕ → Kmem → Kmem
  initialised page cache s =
      let c = s.caches cache in
      let first = first_object page c in
      let end = first + c.slab_nobjects * c.slab_objsize in
      let s1 = set_cache cache (record c { slab_last_color = next_color c }) s in
      let s2 = record s1 { memory = link_objects c.slab_objsize c.slab_nobjects s.memory first } in
      let new : Slab = record {
        parent = cache;
        inuse = 0;
        last_alloc_time = 0;
        objctl = end;
        objects = end;
      } in
      unlock_slab page (set_slab page new s2)

  -- `slab_create` once it has a page; `none` divides by zero.
  unfoldable pub slab_setup : ℕ → ℕ → Kmem → Option Kmem
  slab_setup page cache s =
      if max_color (s.caches cache) == 0 then none else some (initialised page cache s)

  unfoldable pub slab_create : ℕ → Kmem → Ran (ℕ × Kmem)
  slab_create cache s =
      let page = grow_heap 1 in
      if page == 0
      then done (0, s)
      else elim (slab_setup page cache s) [ none ↦ divided_by_zero | some s' ↦ done (page, s') ]
