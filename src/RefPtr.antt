-- ===== src/RefPtr.antt =====
-- The reference-counted pointers of lib/ebl/memory.h: `RefCountable`, `RefPtr`, `AdoptRef` and
-- `MakeRefPtr`. The pointers in use are a list, a variable of type `RefPtr` is a position in it.
pub mod Slots
pub mod Counts
pub mod Branches
pub mod Steps
pub mod Lists
pub mod Clear
mod Tests
use cxkernel.Base.{
  ℕ, zero, suc, ◌+◌, ◌-◌, ◌%◌, ◌^◌, Bool, true, false, not, List, [], ◌∷◌, ◌==◌, if◌then◌else◌,
  Option, none, some,
}
use cxkernel.Bits.{u32}
use cxkernel.Status.{E, Result, from_value, from_error}

-- `ptr_` of each variable, 0 for null; `ref_count_` of each object as the 32 bits of its int32_t;
-- and which objects exist.
pub record Refs : Type 0 where
  pub slots : List ℕ
  pub ref_count : ℕ → ℕ
  pub live : ℕ → Bool

abbrev pub get : List ℕ → ℕ → ℕ
get [] i = 0
get (x ∷ xs) zero = x
get (x ∷ xs) (suc i) = get xs i

abbrev pub put : List ℕ → ℕ → ℕ → List ℕ
put [] i p = []
put (x ∷ xs) zero p = p ∷ xs
put (x ∷ xs) (suc i) p = x ∷ put xs i p

-- `f` with another value at one pointer
abbrev pub at {ℓ} : {A : Type ℓ} → (ℕ → A) → ℕ → A → ℕ → A
at f p v q = if q == p then v else f q

-- `fetch_add(1)`
unfoldable pub add_ref : ℕ → Refs → Refs
add_ref p s = record s { ref_count = at s.ref_count p (u32 (s.ref_count p + 1)) }

-- `fetch_sub(1)`, and whether the count was 1
unfoldable pub release : ℕ → Refs → Bool × Refs
release p s = (
  s.ref_count p == 1,
  record s { ref_count = at s.ref_count p (u32 (s.ref_count p + 2 ^ 32 - 1)) },
)

unfoldable pub adopt : ℕ → Refs → Refs
adopt p s = record s { ref_count = at s.ref_count p 1 }

-- The private `destroy`: `delete` when the last reference goes.
unfoldable pub destroy : ℕ → Refs → Refs
destroy p s =
    let r = release p s in
    if p == 0 then s else if r.0 then record r.1 { live = at r.1.live p false } else r.1

abbrev pub assign : ℕ → ℕ → Refs → Refs
assign i p s = record s { slots = put s.slots i p }

-- `RefPtr(T* ptr)`
unfoldable pub from_raw : ℕ → ℕ → Refs → Refs
from_raw i p s = let s' = assign i p s in if p == 0 then s' else add_ref p s'

-- `RefPtr(RefPtr const& other)`
unfoldable pub copy : ℕ → ℕ → Refs → Refs
copy i j s = from_raw i (get s.slots j) s

-- `RefPtr(RefPtr&& other)`
unfoldable pub move : ℕ → ℕ → Refs → Refs
move i j s = assign j 0 (assign i (get s.slots j) s)

-- `operator=(RefPtr const& other)`
unfoldable pub copy_assign : ℕ → ℕ → Refs → Refs
copy_assign i j s =
    let p = get s.slots j in
    let s1 = if p == 0 then s else add_ref p s in
    let old = get s1.slots i in destroy old (assign i (get s1.slots j) s1)

-- `operator=(RefPtr&& other)`: the temporary takes `other`'s pointer, swaps it for the one of
-- this variable, and is destroyed with that.
unfoldable pub move_assign : ℕ → ℕ → Refs → Refs
move_assign i j s =
    let temporary = get s.slots j in
    let s1 = assign j 0 s in let old = get s1.slots i in destroy old (assign i temporary s1)

-- `~RefPtr()`
unfoldable pub drop_ref : ℕ → Refs → Refs
drop_ref i s = assign i 0 (destroy (get s.slots i) s)

unfoldable pub swap : ℕ → ℕ → Refs → Refs
swap i j s = let tmp = get s.slots i in assign j tmp (assign i (get s.slots j) s)

-- `AdoptRef` and `RefPtr(T* ptr, AdoptTag)`
unfoldable pub adopt_ref : ℕ → ℕ → Refs → Refs
adopt_ref i p s = let s' = assign i p s in if p == 0 then s' else adopt p s'

-- A new object, with the count of `RefCountable()`.
unfoldable pub construct : ℕ → Refs → Refs
construct p s = record s { ref_count = at s.ref_count p 0; live = at s.live p true }

-- `MakeRefPtr`, with the pointer that `kmem::alloc` gave
unfoldable pub make_ref : ℕ → ℕ → Refs → Result ℕ × Refs
make_ref i p s =
    if p == 0
    then (from_error E.out_of_memory, s)
    else (from_value p, adopt_ref i p (construct p s))
