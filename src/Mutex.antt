-- ===== src/Mutex.antt =====
-- core/mutex.cc, with the thread states and the ready queue of core/thread.cc and core/sched.cc. A
-- critical section under the inner spinlock is one step; a thread that has put itself to sleep goes
-- on with the second half of `lock` when it has been woken and is scheduled.
pub mod Safety
pub mod Exclusion
mod Tests
use cxkernel.Base.{
  ℕ, ◌≡◌, ◌≢◌, Bool, true, false, Option, none, some, List, [], ◌∷◌, ◌++◌, ◌==◌, if◌then◌else◌,
}

abbrev pub Tid : Type 0
Tid = ℕ

-- `Mutex::State`
pub data State : Type 0 where
  free locked : State

pub record Mutex : Type 0 where
  pub state : State
  pub owner : Option Tid
  pub wait_queue : List Tid

-- `Mutex()`
abbrev pub new : Mutex
new = record { state = free; owner = none; wait_queue = [] }

pub do_i_hold : Mutex → Tid → Bool
do_i_hold m t = elim (m.owner) [ none ↦ false | some u ↦ u == t ]

-- what the first critical section of `lock` leaves: the lock, or a place in the queue
pub data Locking : Type 0 where
  acquired : Mutex → Locking
  blocked : Mutex → Locking

unfoldable pub lock_by : State → Mutex → Tid → Locking
lock_by free m t = acquired (record m { state = locked; owner = some t })
lock_by locked m t = blocked (record m { wait_queue = m.wait_queue ++ t ∷ [] })

unfoldable pub lock : Mutex → Tid → Locking
unfolding lock_by
lock m t = lock_by m.state m t

-- The second critical section of `lock`; `none` is the failed assertion.
unfoldable pub lock_woken : Mutex → Tid → Option Mutex
unfolding do_i_hold
lock_woken m t = if do_i_hold m t then none else some (record m { owner = some t })

-- `unlock`: the mutex and the thread woken, or `none` where the caller is not the owner.
unfoldable pub unlock_by : List Tid → Mutex → Mutex × Option Tid
unlock_by [] m = (record m { state = free; owner = none }, none)
unlock_by (u ∷ q) m = (record m { wait_queue = q }, some u)

unfoldable pub unlock : Mutex → Tid → Option (Mutex × Option Tid)
unfolding do_i_hold unlock_by
unlock m t = if do_i_hold m t then some (unlock_by m.wait_queue m) else none

-- Where a thread stands: outside, asleep in `lock`, woken in `lock`, or inside the section.
pub data Pc : Type 0 where
  outside asleep woken inside : Pc

pub record System : Type 0 where
  pub mutex : Mutex
  pub pc : Tid → Pc
  pub ready : List Tid

abbrev pub update : (Tid → Pc) → Tid → Pc → Tid → Pc
update f t p u = if u == t then p else f u

abbrev pub wake : (Tid → Pc) → Option Tid → Tid → Pc
wake f none = f
wake f (some u) = update f u woken

abbrev pub queued : List Tid → Option Tid → List Tid
queued r none = r
queued r (some u) = r ++ u ∷ []

-- Threads call `lock` from outside and `unlock` from inside, in any order.
pub data Step (s : System) : System → Type 0 where
  lock_free :
      (t : Tid) {m : Mutex}
      → s.pc t ≡ outside
      → lock s.mutex t ≡ acquired m
      → Step s (record s { mutex = m; pc = update s.pc t inside })
  lock_wait :
      (t : Tid) {m : Mutex}
      → s.pc t ≡ outside
      → lock s.mutex t ≡ blocked m
      → Step s (record s { mutex = m; pc = update s.pc t asleep })
  resume :
      (t : Tid) {m : Mutex}
      → s.pc t ≡ woken
      → lock_woken s.mutex t ≡ some m
      → Step s (record s { mutex = m; pc = update s.pc t inside })
  leave :
      (t : Tid) {m : Mutex} {w : Option Tid}
      → s.pc t ≡ inside
      → unlock s.mutex t ≡ some (m, w)
      → Step s (record { mutex = m; pc = wake (update s.pc t outside) w; ready = queued s.ready w })

abbrev pub init : System
init = record { mutex = new; pc = λ _. outside; ready = [] }

pub data Reach : System → Type 0 where
  start : Reach init
  later : {s t : System} → Reach s → Step s t → Reach t

-- The thread has the lock, or has been handed it.
abbrev pub holding : Pc → Bool
holding outside = false
holding asleep = false
holding woken = true
holding inside = true
