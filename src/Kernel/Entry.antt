-- ===== src/Kernel/Entry.antt =====
-- What becomes of the kernel of core/main.cc when it is started with what the loader hands over.
use cxkernel.Base.{
  ℕ, ◌+◌, ◌^◌, ◌<◌, ◌≤◌, ◌≡◌, ◌≢◌, arith, refl, true, false, ◌==◌, ◌&&◌, List, [], length, All, ◌∙◌,
}
use cxkernel.Text.{Memory}
use cxkernel.LinkedList.{Ptr, Links}
use cxkernel.LinkedList.Ring.{IsRing}
use cxkernel.Console.{Device, History, com1, com2, console_init, platform_init}
use cxkernel.Console.Sent.{IsReadyWithin, HasText, Sent, console_puts-Transmitted}
use cxkernel.Boot.Shift.{seen, IsPage}
use cxkernel.Boot.Handoff.{hand_over, pfndb_offset, hand_over-check}
use cxkernel.Cpu.{Boot}
use cxkernel.Cpu.Startup.{IsStarted, arch_init-IsStarted}
use cxkernel.RefPtr.{get}
use cxkernel.Interrupts.{isr_handler, exception}
use cxkernel.Interrupts.Exception.{IntFrame, registers, exception_handler, halted}
use cxkernel.Interrupts.Crash.{exception_handler-ends, after}
use cxkernel.Stdio.Print.Taken.{IsWord}
use cxkernel.Stdio.Streams.{Streams}
use cxkernel.Kernel.{Places, breakpoint, kernel_entry, reported}

-- After the start the breakpoint, which has no handler, is reported, and the kernel halts.
breakpoint-halted :
    (fuel : ℕ) (l : Places) (r : IntFrame) (rsp : ℕ) (s : Streams) (h : History) (b : Boot)
    → 700 ≤ fuel
    → All IsWord (registers r [] rsp)
    → l.cr2 < 2 ^ 64
    → r.vector ≡ 3
    → IsStarted l.percpu l.boot_thread l.slot l.boot_aspace b
    → (s' : Streams) × (breakpoint fuel l r rsp s h b ≡ reported h b (halted s'))
unfolding breakpoint
breakpoint-halted fuel l r rsp s h b enough words small three started =
    let (_, t1, t2, t3, t4, _, _, _, _, _, run) =
      exception_handler-ends fuel r rsp l.cr2 s enough words small (omega (arith, three)) in
    let s' = after t4 (after t3 (after t2 (after t1 s))) in
    let dispatch : isr_handler b.handlers r.vector ≡ exception r.vector false =
      started.dispatched r.vector (omega (arith, three)) ∙ ground (arith, three) in
    let end : exception_handler fuel r rsp l.cr2 s ≡ halted s' = run ∙ ground (arith, three) in
    (s', rw (breakpoint, dispatch, end) refl)

-- Started with what the loader hands over, the kernel sends its greeting to the first serial line,
-- passes the checks of the loader's state and those of `arch::init`, reports its breakpoint and halts;
-- the processor has then started. The conditions are: both lines are ready within `k` reads of their
-- status, fewer than the loops wait for; the greeting is a string of bytes; the loader's two lists are
-- made of pages of the database, together as many as there are, whose addresses in the kernel's mapping
-- do not wrap; the boot thread's variable `address_space` is null and apart from the temporary, and
-- the boot address space is not at null; the frame is one of vector 3, of 64-bit words; and the fuel is
-- at least 700 and above the greeting's length and the number of pages.
pub kernel_entry-halted :
    (fuel patience k : ℕ) (d : Device) (m : Memory) (cs : List ℕ) (l : Places)
    (sizeof_page mod_start total : ℕ) (pfndb_arr free rsrv : Ptr) (links : Links) (fs rs : List Ptr)
    (r : IntFrame) (rsp : ℕ) (s : Streams) (b : Boot) (h : History)
    → IsReadyWithin d com1 k
    → IsReadyWithin d com2 k
    → k < patience
    → HasText m l.greeting cs
    → length cs < fuel
    → sizeof_page ≢ 0
    → All (IsPage sizeof_page pfndb_arr total (pfndb_offset pfndb_arr)) fs
    → All (IsPage sizeof_page pfndb_arr total (pfndb_offset pfndb_arr)) rs
    → IsRing links free fs
    → IsRing links rsrv rs
    → length fs + length rs ≡ total
    → total < 2 ^ 64
    → total < fuel
    → l.slot ≢ l.temporary
    → l.boot_aspace ≢ 0
    → l.slot < length b.refs.slots
    → l.temporary < length b.refs.slots
    → get b.refs.slots l.slot ≡ 0
    → 700 ≤ fuel
    → All IsWord (registers r [] rsp)
    → l.cr2 < 2 ^ 64
    → r.vector ≡ 3
    → let given = hand_over sizeof_page mod_start pfndb_arr total free rsrv links in
      (h' : History) × (b' : Boot) × (s' : Streams) × (kernel_entry fuel patience d m l given.0
          (seen (pfndb_offset pfndb_arr) given.1)
          r
          rsp
          s
          b
          h
        ≡ reported (platform_init h') b' (halted s'))
      × Sent d com1 cs (console_init h) h'
      × IsStarted l.percpu l.boot_thread l.slot l.boot_aspace b'
unfolding kernel_entry
kernel_entry-halted fuel patience k d m cs l sizeof_page mod_start total pfndb_arr free rsrv links
      fs rs r rsp s b h ready1 ready2 k_lt greeting long some_size pf pr ring_f ring_r sum small
      enough apart place in_s in_t empty plenty words cr2 three =
    let (h', printed, sent, _) =
      (console_puts-Transmitted d k patience m cs l.greeting fuel (console_init h) ready1 ready2
        k_lt greeting long).0 in
    let given = hand_over sizeof_page mod_start pfndb_arr total free rsrv links in
    let checked =
      hand_over-check sizeof_page mod_start total fuel pfndb_arr free rsrv links fs rs some_size pf
        pr ring_f ring_r sum small enough in
    let (b', made, started, _, _) =
      arch_init-IsStarted l.percpu l.boot_thread l.slot l.temporary l.cr3 l.boot_aspace l.stubs b
        apart place in_s in_t empty in
    let (s', ended) =
      breakpoint-halted fuel l r rsp s (platform_init h') b' plenty words cr2 three started in
    let magic : (given.0.magic_start == 0xCAFEB0BA && given.0.magic_end == 0xBADBEEEF) ≡ true =
      unfold hand_over in refl in
    (h', b', s', rw (kernel_entry, printed, magic, checked, made) ended, sent, started)
