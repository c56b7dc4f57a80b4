-- ===== src/Mutex/Tests.antt =====
-- A run of core/mutex.cc: thread 1 locks, thread 2 waits, thread 1 unlocks.
use cxkernel.Base.{◌≡◌, refl, some, none, List, [], ◌∷◌, ◌⊎◌}
use cxkernel.Mutex.{
  Tid, System, Reach, start, later, lock_free, lock_wait, leave, lock, lock_by, unlock, unlock_by,
  do_i_hold, lock_woken, inside, asleep, outside, locked, new, update, wake,
}
use cxkernel.Mutex.Exclusion.{inside_unique, lock_woken-Reach, unlock-Reach}

abbrev busy : System
busy = record {
  mutex = record { state = locked; owner = some 1; wait_queue = [] };
  pc = update (λ _. outside) 1 inside;
  ready = [];
}

abbrev waited : System
waited = record {
  mutex = record { state = locked; owner = some 1; wait_queue = 2 ∷ [] };
  pc = update (update (λ _. outside) 1 inside) 2 asleep;
  ready = [];
}

abbrev handed : System
handed = record {
  mutex = record { state = locked; owner = some 1; wait_queue = [] };
  pc = wake (update (update (update (λ _. outside) 1 inside) 2 asleep) 1 outside) (some 2);
  ready = 2 ∷ [];
}

busy-Reach : Reach busy
unfolding lock lock_by
busy-Reach = later start (lock_free 1 refl refl)

waited-Reach : Reach waited
unfolding lock lock_by
waited-Reach = later busy-Reach (lock_wait 2 refl refl)

handed-Reach : Reach handed
unfolding unlock unlock_by do_i_hold
handed-Reach = later waited-Reach (leave 1 refl refl)

abbrev holder : Tid
holder = 1

inside_example : holder ≡ holder
inside_example = inside_unique waited holder holder waited-Reach refl refl

lock_woken_example : lock_woken handed.mutex 2 ≡ some (record handed.mutex { owner = some 2 })
lock_woken_example = lock_woken-Reach handed 2 handed-Reach refl

unlock_example :
    ((waited.mutex.wait_queue ≡ []) × (unlock waited.mutex 1 ≡ some (new, none)))
    ⊎ ((u : Tid) × (q : List Tid) × (waited.mutex.wait_queue ≡ u ∷ q)
        × (waited.pc u ≡ asleep)
        × (unlock waited.mutex 1 ≡ some (record waited.mutex { wait_queue = q }, some u)))
unlock_example = unlock-Reach waited 1 waited-Reach refl
