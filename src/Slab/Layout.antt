-- ===== src/Slab/Layout.antt =====
-- The layout of a slab in core/slab.cc.
use cxkernel.Base.{
  ℕ, zero, suc, ◌+◌, ◌-◌, ◌*◌, ◌/◌, ◌%◌, ◌^◌, ◌≤◌, ◌<◌, ◌≡◌, ◌≢◌, inl, inr, arith, refl, ◌∙◌, ap,
  Bool, some, ◌==◌, if◌then◌else◌, Bool-cases, ==→ne, ==_self,
}
use native.Mathlib.Nat.{mod-lt, div-add-mod'}
use cxkernel.Bits.{u32}
use cxkernel.Text.{Memory}
use cxkernel.PageTable.{read64, write64}
use cxkernel.PageTable.Words.{read64-write64, read64-apart}
use cxkernel.Slab.{
  link_objects, Kmem, Cache, Slab, slab_setup, initialised, first_object, align_up, max_color,
  padding,
}

-- What lies before the objects stays.
link_objects-before :
    (objsize n : ℕ) (m : Memory) (ptr a : ℕ)
    → a + 8 ≤ ptr
    → read64 (link_objects objsize n m ptr) a ≡ read64 m a
unfolding link_objects
link_objects-before objsize zero m ptr a h = refl
link_objects-before objsize (suc n) m ptr a h =
    link_objects-before objsize n (write64 m ptr (if n == 0 then 0 else ptr + objsize))
      (ptr + objsize) a (omega (arith, h))
    ∙ read64-apart m ptr (if n == 0 then 0 else ptr + objsize) a (inl h)

suc_times : (n k : ℕ) → suc n * k ≡ k + n * k
suc_times n k = omega arith

times_le : (n k : ℕ) → n ≢ 0 → k ≤ n * k
times_le zero k ne = absurd (ne refl)
times_le (suc n) k ne = let s = suc_times n k in omega (arith, s)

-- Where objects have room for a pointer and end below 2 ^ 64, each of them points to the next one
-- and the last one is null.
pub link_objects-chain :
    (objsize n : ℕ) (m : Memory) (ptr i : ℕ)
    → 8 ≤ objsize
    → i < n
    → ptr + n * objsize < 2 ^ 64
    → read64 (link_objects objsize n m ptr) (ptr + i * objsize)
      ≡ (if n == i + 1 then 0 else ptr + (i + 1) * objsize)
unfolding link_objects
link_objects-chain objsize zero m ptr i room lt end = absurd (omega (arith, lt))
link_objects-chain objsize (suc n) m ptr zero room lt end =
    let next = if n == 0 then 0 else ptr + objsize in
    let start : ptr + 0 * objsize ≡ ptr = omega arith in
    let small : next < 2 ^ 64 = elim (Bool-cases (n == 0)) [
      | inl e ↦ ground (arith, e)
      | inr e ↦
          let some_left = times_le n objsize (==→ne n 0 e) in
          let s = suc_times n objsize in ground (arith, e, end, some_left, s)
    ] in
    let value : next ≡ (if suc n == 0 + 1 then 0 else ptr + (0 + 1) * objsize) = ground arith in
    ap (read64 (link_objects objsize n (write64 m ptr next) (ptr + objsize))) start
    ∙ link_objects-before objsize n (write64 m ptr next) (ptr + objsize) ptr (omega (arith, room))
    ∙ read64-write64 m ptr next small
    ∙ value
link_objects-chain objsize (suc n) m ptr (suc i) room lt end =
    let next = if n == 0 then 0 else ptr + objsize in
    let one = suc_times n objsize in
    let here : ptr + suc i * objsize ≡ ptr + objsize + i * objsize =
      (let s = suc_times i objsize in omega (arith, s)) in
    let there : ptr + objsize + (i + 1) * objsize ≡ ptr + (suc i + 1) * objsize =
      (let s = suc_times (i + 1) objsize in omega (arith, s)) in
    let ih =
      link_objects-chain objsize n (write64 m ptr next) (ptr + objsize) i room (omega (arith, lt))
        (omega (arith, end, one)) in
    ap (read64 (link_objects objsize n (write64 m ptr next) (ptr + objsize))) here
    ∙ ih
    ∙ ground (arith, there)

times_mono : (x y k : ℕ) → x ≤ y → x * k ≤ y * k
times_mono zero y k le = omega arith
times_mono (suc x) zero k le = absurd (omega (arith, le))
times_mono (suc x) (suc y) k le =
    let ih = times_mono x y k (omega (arith, le)) in
    let s = suc_times x k in let t = suc_times y k in omega (arith, ih, s, t)

-- The slab in a page: the objects are inside the page, behind the struct, and form one chain; the
-- struct's pointers to the objects are the address after the last of them.
pub record IsSlab (sizeof_slab page cache : ℕ) (c : Cache) (s : Kmem) : Type 0 where
  pub behind : page + align_up sizeof_slab c.order ≤ first_object sizeof_slab page c
  pub inside : first_object sizeof_slab page c + c.slab_nobjects * c.slab_objsize ≤ page + 4096
  pub chain :
      (i : ℕ)
      → i < c.slab_nobjects
      → read64 s.memory (first_object sizeof_slab page c + i * c.slab_objsize) ≡ (
          if c.slab_nobjects == i + 1
          then 0
          else first_object sizeof_slab page c + (i + 1) * c.slab_objsize)
  pub past :
      (s.slabs page).objctl ≡ first_object sizeof_slab page c + c.slab_nobjects * c.slab_objsize
  pub unused : (s.slabs page).inuse ≡ 0
  pub parent : (s.slabs page).parent ≡ cache

nonzero : (n : ℕ) → n ≢ 0 → 0 < n
nonzero n ne = omega (arith, ne)

colour-le : (x p d : ℕ) → p / d ≢ 0 → (x % (p / d)) * d ≤ p
colour-le x p d ne =
    let lt = mod-lt x (nonzero (p / d) ne) in
    let le = times_mono (x % (p / d)) (p / d) d (omega (arith, lt)) in
    let down = div-add-mod' p d in omega (arith, le, down)

-- Where the objects fit into a page behind the struct and leave room for a colour, `slab_create`
-- sets its page up as a slab.
pub slab_setup-IsSlab :
    (sizeof_slab page cache : ℕ) (s : Kmem)
    → page + 4096 < 2 ^ 64
    → 8 ≤ (s.caches cache).slab_objsize
    → align_up sizeof_slab (s.caches cache).order
        + (s.caches cache).slab_nobjects * (s.caches cache).slab_objsize
      ≤ 4096
    → max_color sizeof_slab (s.caches cache) ≢ 0
    → (s' : Kmem) × (slab_setup sizeof_slab page cache s ≡ some s')
      × IsSlab sizeof_slab page cache (s.caches cache) s'
unfolding slab_setup
slab_setup-IsSlab sizeof_slab page cache s low room fits colours =
    let c = s.caches cache in
    let space : padding sizeof_slab c
        ≡ 4096 - align_up sizeof_slab c.order - c.slab_nobjects * c.slab_objsize =
      omega (arith, fits) in
    let colour =
      colour-le (u32 (c.slab_last_color + 1)) (padding sizeof_slab c) (2 ^ c.order) colours in
    let inside : first_object sizeof_slab page c + c.slab_nobjects * c.slab_objsize ≤ page + 4096 =
      omega (arith, fits, space, colour) in
    let end = first_object sizeof_slab page c + c.slab_nobjects * c.slab_objsize in
    let new : Slab = record {
      parent = cache;
      inuse = 0;
      last_alloc_time = 0;
      objctl = end;
      objects = end;
    } in
    let choose : Bool → Slab = λ b. if b then new else s.slabs page in
    let this : (initialised sizeof_slab page cache s).slabs page ≡ new = ap choose (==_self page) in
    (
      initialised sizeof_slab page cache s,
      ground (arith, colours),
      record {
        behind = omega arith;
        inside = inside;
        chain = λ i lt.
            link_objects-chain c.slab_objsize c.slab_nobjects s.memory
              (first_object sizeof_slab page c) i room lt (omega (arith, inside, low));
        past = ap (λ (v : Slab). v.objctl) this;
        unused = ap (λ (v : Slab). v.inuse) this;
        parent = ap (λ (v : Slab). v.parent) this;
      },
    )
