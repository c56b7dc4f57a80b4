-- ===== src/Sched.antt =====
-- core/thread.cc and core/sched.cc: a thread that yields goes to the end of its processor's queue, and
-- the head of the queue runs. The switch of the stacks in arch/x86-64/thread.cc is left out.
pub mod Rotation
mod Tests
use cxkernel.Base.{ℕ, zero, suc, ◌==◌, ◌||◌, if◌then◌else◌, none}
use cxkernel.LinkedList.{Ptr, null, Cmd, pure, ◌>>=◌, ◌>>◌, push_back, pop_front}

-- `ThreadState`
pub data ThreadState : Type 0 where
  run ready sleep blocked zombie : ThreadState

-- What a processor's structure holds, and the states of the threads.
pub record PerCpu : Type 0 where
  pub curthread : Ptr
  pub thread_queue : Ptr
  pub states : Ptr → ThreadState

-- `schedule_next_thread`, with `switch_thread`; a failed assertion is a run without a result.
unfoldable pub schedule_next_thread : Ptr → PerCpu → Cmd PerCpu
schedule_next_thread oldthread cpu = do
  (newthread, queue) ← pop_front cpu.thread_queue
  if newthread == null || oldthread == null
      then (λ _. none)
      else pure (record cpu { thread_queue = queue; curthread = newthread })

unfoldable pub thread_yield : PerCpu → Cmd PerCpu
thread_yield cpu = if cpu.curthread == null then (λ _. none) else do
  queue ← push_back cpu.thread_queue cpu.curthread
  schedule_next_thread cpu.curthread (record cpu {
    thread_queue = queue;
    states = λ t. if t == cpu.curthread then ready else cpu.states t;
  })

unfoldable pub thread_preempt : PerCpu → Cmd PerCpu
thread_preempt cpu = thread_yield cpu

-- The current threads yield in turn, so many times.
unfoldable pub yields : ℕ → PerCpu → Cmd PerCpu
yields zero cpu = pure cpu
yields (suc n) cpu = do cpu' ← thread_yield cpu; yields n cpu'
