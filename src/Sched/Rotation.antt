-- ===== src/Sched/Rotation.antt =====
-- The order in which threads of core/thread.cc run.
use mathlib.Core.List.{append_assoc}
use cxkernel.Base.{suc, ◌≡◌, ◌≢◌, List, [], ◌∷◌, ◌++◌, length, NotIn, refl, sym, subst, ne→==}
use cxkernel.LinkedList.{Ptr, null, Links}
use cxkernel.LinkedList.Ring.{IsRing, Returns, returns, bind}
use cxkernel.LinkedList.Push.{push_back-IsRing}
use cxkernel.LinkedList.Pop.{pop_front-IsRing}
use cxkernel.Sched.{PerCpu, thread_yield, schedule_next_thread, yields}

-- `cur` runs, and the threads of the queue, none of them `cur`, wait in that order.
pub record Running (cur : Ptr) (waiting : List Ptr) (cpu : PerCpu) (s : Links) : Type 0 where
  pub current : cpu.curthread ≡ cur
  pub real : cur ≢ null
  pub other : NotIn cur waiting
  pub queue : IsRing s cpu.thread_queue waiting

yield-Running :
    (c q : Ptr) (qs : List Ptr) (cpu : PerCpu) (s : Links)
    → Running c (q ∷ qs) cpu s
    → Returns (Running q (qs ++ c ∷ [])) (thread_yield cpu s)
unfolding thread_yield schedule_next_thread
yield-Running c q qs cpu s h =
    let e = h.current in
    rw (e, ne→== c null h.real)
      (bind (push_back-IsRing s cpu.thread_queue c (q ∷ qs) h.real h.other h.queue) λ r t m.
        bind (pop_front-IsRing t r q (qs ++ c ∷ []) m.0) λ (n, r') u p.
          let nq : q ≢ null = λ z. m.0.1.0 (sym z) in
          let e' = p.0 in
          rw (e', ne→== q null nq)
            (returns (record { current = refl; real = nq; other = m.0.2.0; queue = p.1 })))

-- A thread that waits behind some others runs after they have run, each of which yields once, and
-- the running thread: one yield more than there are threads before it. The threads that ran wait
-- behind the others, in the order in which they ran, and no assertion fails.
pub yields-Running :
    (xs : List Ptr) (c y : Ptr) (ys : List Ptr) (cpu : PerCpu) (s : Links)
    → Running c (xs ++ y ∷ ys) cpu s
    → Returns (Running y (ys ++ c ∷ xs)) (yields (suc (length xs)) cpu s)
unfolding yields
yields-Running [] c y ys cpu s h = bind (yield-Running c y ys cpu s h) λ cpu' t r. returns r
yields-Running (x ∷ xs) c y ys cpu s h = bind (yield-Running c x (xs ++ y ∷ ys) cpu s h) λ cpu' t r.
    let r' = subst (λ ws. Running x ws cpu' t) (append_assoc xs (y ∷ ys) (c ∷ [])) r in
    subst (λ ws. Returns (Running y ws) (yields (suc (length xs)) cpu' t))
      (append_assoc ys (c ∷ []) (x ∷ xs)) (yields-Running xs x y (ys ++ c ∷ []) cpu' t r')
