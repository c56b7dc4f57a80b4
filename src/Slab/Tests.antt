-- ===== src/Slab/Tests.antt =====
-- A cache of objects of 64 bytes, for core/slab.cc, where a slab's struct has 128 bytes.
use cxkernel.Base.{◌≡◌, arith, some, [], refl, false}
use cxkernel.Slab.{Kmem, Cache, align_up, slab_setup, null_used}
use cxkernel.Slab.Heap.{alloc, bootstrap}
use cxkernel.Slab.Layout.{IsSlab, slab_setup-IsSlab}
use cxkernel.Slab.Startup.{alloc-bootstrap}

abbrev of_64 : Cache
of_64 = record {
  freelist = [];
  partiallist = [];
  fulllist = [];
  order = 3;
  slab_objsize = 64;
  slab_nobjects = 61;
  slab_last_color = 0;
}

abbrev heap : Kmem
heap = record {
  memory = λ a. 0;
  slabs = λ p. record { parent = 0; inuse = 0; last_alloc_time = 0; objctl = 0; objects = 0 };
  caches = λ p. of_64;
  cache_list = [];
  list_locked = false;
  cache_locked = λ p. false;
  slab_locked = λ p. false;
}

IsSlab_example :
    (s' : Kmem) × (slab_setup 128 0x7000 1 heap ≡ some s') × IsSlab 128 0x7000 1 of_64 s'
unfolding align_up
IsSlab_example =
    slab_setup-IsSlab 128 0x7000 1 heap (omega arith) (omega arith) (omega arith)
      (λ e. ground (arith, e))

startup_example : alloc 128 1 48 (bootstrap 128 1 200 heap) ≡ null_used
startup_example = alloc-bootstrap 128 1 200 48 heap (λ e. ground (arith, e)) refl
