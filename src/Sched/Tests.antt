-- ===== src/Sched/Tests.antt =====
-- Thread 9 runs and the threads 1, 2 and 3 wait, for core/thread.cc.
use cxkernel.Base.{arith, refl, [], ◌∷◌}
use cxkernel.LinkedList.Ring.{Returns}
use cxkernel.LinkedList.Samples.{three, three-IsRing}
use cxkernel.Sched.{PerCpu, yields, ready}
use cxkernel.Sched.Rotation.{Running, yields-Running}

abbrev cpu : PerCpu
cpu = record { curthread = 9; thread_queue = 1; states = λ t. ready }

cpu-Running : Running 9 (1 ∷ 2 ∷ 3 ∷ []) cpu three
cpu-Running = record {
  current = refl;
  real = λ e. ground (arith, e);
  other = ((λ e. ground (arith, e)), ((λ e. ground (arith, e)), ((λ e. ground (arith, e)), tt)));
  queue = three-IsRing;
}

yields_example : Returns (Running 2 (3 ∷ 9 ∷ 1 ∷ [])) (yields 2 cpu three)
yields_example = yields-Running (1 ∷ []) 9 2 (3 ∷ []) cpu three cpu-Running
