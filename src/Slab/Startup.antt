-- ===== src/Slab/Startup.antt =====
-- The first allocation of core/slab.cc.
use cxkernel.Base.{ℕ, ◌≡◌, ◌≢◌, arith, false}
use cxkernel.Slab.{Kmem, new_cache, null_used}
use cxkernel.Slab.Heap.{bootstrap, alloc, cache_create, cache_alloc, choose_slab, find_best_cache}

-- After `kmem::bootstrap` no list of the only cache holds a slab, so `kmem::alloc` of any size, when
-- the list of caches is not locked and that cache is not at the null address, takes a null pointer
-- from the free list and uses it.
pub alloc-bootstrap :
    (sizeof_slab slabcache_cache sizeof_slabcache size : ℕ) (s : Kmem)
    → slabcache_cache ≢ 0
    → s.list_locked ≡ false
    → alloc sizeof_slab slabcache_cache size
        (bootstrap sizeof_slab slabcache_cache sizeof_slabcache s)
      ≡ null_used
unfolding alloc bootstrap cache_create cache_alloc choose_slab find_best_cache new_cache
alloc-bootstrap sizeof_slab slabcache_cache sizeof_slabcache size s ne list =
    ground (arith, ne, list)
