-- ===== src/Slab/Heap.antt =====
-- core/slab.cc: allocation from a cache and from the heap, and their reverse, with their guards.
use cxkernel.Base.{
  ℕ, ◌+◌, ◌-◌, ◌^◌, not, ◌&&◌, Option, none, some, List, [], ◌∷◌, ◌++◌, ◌==◌, leb, if◌then◌else◌,
}
use cxkernel.Bits.{u32}
use cxkernel.Util.{page_align_down}
use cxkernel.PageTable.{read64, write64}
use cxkernel.Slab.{
  align_up, default_order, Cache, Kmem, set_slab, set_cache, member, is_heap_address, new_cache,
  slab_create, Ran, done, null_used, asserted, corrupted, and_then, lock_list, unlock_list,
  lock_cache, unlock_cache, lock_slab, unlock_slab,
}

module _ (sizeof_slab : ℕ) where
  -- The choice of a slab in `cache_alloc`; the slab is null when no page could be had. The null that an
  -- empty free list gives is linked into the partial list.
  unfoldable pub choose_slab : ℕ → Kmem → Ran (ℕ × Kmem)
  choose_slab cache s =
      let c = s.caches cache in
      elim (c.partiallist) [
        | [] ↦ elim (c.freelist) [
          | [] ↦ null_used
          | node ∷ rest ↦
              done (node, set_cache cache (record c { freelist = rest; partiallist = node ∷ [] }) s)
        ]
        | first ∷ rest ↦ elim (c.freelist) [
          | [] ↦ and_then (slab_create sizeof_slab cache s) λ r.
              let c' = r.1.caches cache in
              if r.0 == 0
              then done r
              else done (
                r.0,
                set_cache cache (record c' { partiallist = c'.partiallist ++ r.0 ∷ [] }) r.1,
              )
          | node ∷ others ↦ done (first, set_cache cache (record c { partiallist = rest }) s)
        ]
      ]

  -- The first free object of the slab, whose lock is held: the object is read after the slab's pointer
  -- has moved on to the next one. A slab that is still on the partial list is linked into the full list.
  unfoldable pub take_object : ℕ → ℕ → Kmem → Ran (ℕ × Kmem)
  take_object cache slab s =
      let node = s.slabs slab in
      let c = s.caches cache in
      let is_full = u32 (node.inuse + 1) == c.slab_nobjects in
      let full = record c { fulllist = c.fulllist ++ slab ∷ [] } in
      let s1 = if is_full then set_cache cache full s else s in
      let next = read64 s1.memory node.objctl in
      if is_full && member slab c.partiallist
      then corrupted
      else if node.objctl == 0
      then null_used
      else done (
        next,
        set_slab slab
            (record node { inuse = u32 (node.inuse + 1); last_alloc_time = 0; objctl = next }) s1,
      )

  -- with the guards on the cache's and the slab's lock
  unfoldable pub cache_alloc : ℕ → Kmem → Ran (ℕ × Kmem)
  cache_alloc cache s = and_then (lock_cache cache s) λ s0. and_then (choose_slab cache s0) λ r.
      if r.0 == 0
      then done (0, unlock_cache cache r.1)
      else and_then (lock_slab r.0 r.1) λ s1.
        and_then (take_object cache r.0 s1)
          λ taken. done (taken.0, unlock_cache cache (unlock_slab r.0 taken.1))

  unfoldable pub find_best_cache : ℕ → (ℕ → Cache) → List ℕ → ℕ
  find_best_cache size caches [] = 0
  find_best_cache size caches (c ∷ cs) =
      let rest = find_best_cache size caches cs in
      if (caches c).slab_objsize == size then c else rest

  -- the constructor of `slabcache` at a pointer, with its `lock{}`
  abbrev construct_cache : ℕ → ℕ → ℕ → Kmem → Kmem
  construct_cache p size order s = unlock_cache p (set_cache p (new_cache sizeof_slab size order) s)

  -- with the pointer to the static cache of caches
  unfoldable pub cache_create : ℕ → ℕ → ℕ → Kmem → Ran (ℕ × Kmem)
  cache_create slabcache_cache size order s = and_then (cache_alloc slabcache_cache s) λ r.
      if r.0 == 0
      then done r
      else and_then (lock_list (construct_cache r.0 size order r.1))
          λ s1. done (r.0, unlock_list (record s1 { cache_list = s1.cache_list ++ r.0 ∷ [] }))

  -- `kmem::alloc`; a cache that could not be created is used all the same.
  unfoldable pub alloc : ℕ → ℕ → Kmem → Ran (ℕ × Kmem)
  alloc slabcache_cache size s =
      let rounded = align_up size default_order in
      and_then (lock_list s) λ s0.
        let found = find_best_cache rounded s0.caches s0.cache_list in
        let s1 = unlock_list s0 in
        if not (found == 0)
        then cache_alloc found s1
        else and_then (cache_create slabcache_cache rounded default_order s1)
            λ r. if r.0 == 0 then null_used else cache_alloc r.0 r.1

  -- `kmem::bootstrap`, after the static initialisation of the cache of caches
  unfoldable pub bootstrap : ℕ → ℕ → Kmem → Kmem
  bootstrap slabcache_cache sizeof_slabcache s =
      let s' =
        construct_cache slabcache_cache (align_up sizeof_slabcache default_order) default_order s in
      record s' { cache_list = slabcache_cache ∷ [] }

unfoldable pub find_slab_from_obj : ℕ → ℕ
find_slab_from_obj obj = page_align_down obj

-- Without a pointer; `none` for one that is not in the list, whose links lead elsewhere.
abbrev pub remove : ℕ → List ℕ → Option (List ℕ)
remove p [] = none
remove p (x ∷ xs) =
    let rest : Option (List ℕ) = elim (remove p xs) [ none ↦ none | some ys ↦ some (x ∷ ys) ] in
    if x == p then some xs else rest

-- The lists of the cache, as `cache_free` moves the slab.
unfoldable pub move_slab : ℕ → ℕ → Cache → Option Cache
move_slab slab inuse c =
    let to_partial : Option Cache = elim (remove slab c.fulllist) [
      | none ↦ none
      | some full ↦ some (record c { fulllist = full; partiallist = c.partiallist ++ slab ∷ [] })
    ] in
    let to_free : Option Cache = elim (remove slab c.partiallist) [
      | none ↦ none
      | some partial ↦ some (record c { partiallist = partial; freelist = c.freelist ++ slab ∷ [] })
    ] in
    if inuse == c.slab_nobjects then to_partial else if inuse == 1 then to_free else some c

-- with the guards on the cache's and the slab's lock
unfoldable pub cache_free : ℕ → ℕ → Kmem → Ran Kmem
cache_free slab obj s =
    let cache = (s.slabs slab).parent in
    and_then (lock_cache cache s) λ s0. and_then (lock_slab slab s0) λ s1.
      let node = s1.slabs slab in
      elim (move_slab slab node.inuse (s1.caches cache)) [
        | none ↦ corrupted
        | some moved ↦
            let s2 = set_cache cache moved s1 in
            let s3 = record s2 { memory = write64 s2.memory obj node.objctl } in
            let freed = record node { inuse = u32 (node.inuse + 2 ^ 32 - 1); objctl = obj } in
            done (unlock_cache cache (unlock_slab slab (set_slab slab freed s3)))
      ]

-- `kmem::free`
unfoldable pub free : ℕ → Kmem → Ran Kmem
free obj s =
    let node = find_slab_from_obj obj in
    let cache = s.caches (s.slabs node).parent in
    if obj == 0
    then asserted
    else if not (is_heap_address node)
    then asserted
    else if not (align_up (u32 obj) cache.order == obj)
    then asserted
    else if not (leb (s.slabs node).objects obj)
    then asserted
    else cache_free node obj s
