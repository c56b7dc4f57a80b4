-- ===== src/Lib.antt =====
-- A model of the core of cxkernel, a small x86-64 kernel with a Multiboot2 loader.
--
-- The parts and how they interact. The loader (loader/x86-64-multiboot2/mem.cc) reads the memory
-- map, finds room for the page database, and sorts the pages into two intrusive lists, free and
-- reserved; it then maps pages (map_page) and loads the kernel's segments (main.cc), which lib/elf
-- finds in the image. The kernel's page allocator (core/pmm.cc) takes pages from the free list and
-- gives them back. Regions of virtual memory (core/vmregion.cc) allocate child regions first-fit
-- and keep them ordered in an intrusive list; an address space has two root regions. A mutex
-- (core/mutex.cc) puts waiting threads on an intrusive list and hands itself over to the first.
-- lib/ebl holds the lists, strings, printing and bit arithmetic that all of these use, and the
-- counted pointers; core/slab.cc is the heap; arch/x86-64/types.h packs addresses and descriptors.
-- arch::init sets up a processor's state and its interrupt gates; an exception without a handler
-- is reported on the streams of lib/ebl/stdio.cc, which the serial console of platform/pc emits.
--
-- Files.
--   Base        names that the other modules share: Boolean tests, lists over native numbers, ints.
--   LinkedList  lib/ebl/linked_list.h. A list object is its root pointer; the next and prev links of
--               all nodes are one store `Links`; an operation is a `Cmd`, which is none where
--               the code dereferences null. LinkedList/Ring says what a list object stands for; Push,
--               Pop and Visit hold the operations, Two two lists in one store.
--   Status      the error codes and `Result` of lib/ebl/status.h.
--   Pmm         core/pmm.cc over the list model. The two lists are the free list and the caller's.
--   Bits, Util, BitField
--               fixed-width words, lib/ebl/util.h with the page alignment of
--               core/include/arch/interface.h, and lib/ebl/bit.h.
--   VmRegion    core/include/core/vmregion.h and core/vmregion.cc. Regions are records at addresses; the
--               children are the sequence that the intrusive list stands for. `fresh` is the memory
--               that MakeRefPtr gets, if it gets any. VmRegion/Roots has the roots of an address space
--               (core/include/core/vm.h, arch/x86-64/thread.cc); VmRegion/Destroy has destroy, on the
--               links of the children's lists and the reference counts: Forest is what lies below a
--               region, Round one turn of its loop, Loop the whole, Detach and Parent what happens to
--               the parent's list. `Destroying` tells a null dereference from fuel that ends.
--   Mutex       core/mutex.cc with the thread states it sets and the ready queue. Each critical
--               section under the inner spinlock is one step; a step relation interleaves any number
--               of threads that call lock from outside and unlock from inside. That the spinlock
--               excludes is assumed there; Spinlock has what its code does.
--   Spinlock    core/spinlock.cc, core/include/core/spinlock.h, lib/ebl/guard.h and the primitives of
--               arch/x86-64/interface.h and asm.h, on one processor's words and flags. Stuck follows
--               the lock's operand, Scope a guard from its construction to its end.
--   Sched       core/thread.cc and core/sched.cc over the list model.
--   Stdio       lib/ebl/stdio.cc: `num` in Stdio, the text it writes in Stdio/Layout, the format
--               parser in Stdio/Format, the conversions and the loop of `ssprintf` in Stdio/Print;
--               Stdio/Print/Typed says which formats fit their arguments. Characters are kept in the
--               order in which the callback is given them; arguments are words or strings.
--               Stdio/Streams has the buffered streams, both buffers in one memory as they lie in
--               the source.
--   Text        lib/ebl/string.cc on a memory of bytes; Copy, Length, Compare and Search by what the
--               functions do.
--   Loader      loader/x86-64-multiboot2/mem.cc up to the page database and pmm_alloc_page.
--   PageTable   page table entries in a memory of bytes, the processor's walk, and map_page and
--               setup_paging of the same file. Words and Pages say what a write changes, Path
--               and Descend follow the levels, Map puts them together; Fields has an entry's fields.
--   Mmu         arch/x86-64/mmu.cc: the kernel's mapping through the tables that the top table maps.
--   Boot        loader/x86-64-multiboot2/main.cc, multiboot2.cc and loader.h: the tags and the memory
--               map in memory, and the loops that map segments, stack and page database. Boot/Shift
--               and Boot/Handoff have the lists that are handed over and the checks of core/main.cc.
--   RefPtr      lib/ebl/memory.h: the variables of type RefPtr by position, the counts and which
--               objects exist; RefPtr/Lists has the lists of lib/ebl/linked_list.h that count.
--   Slab        core/slab.cc and core/include/core/slab.h. The size of the slab's struct is an
--               argument. The guards are taken and given back as the code does; `Ran` tells how a
--               call ends: done, at a null pointer, an assertion, a division by zero, a list that
--               a second insertion corrupts, or a lock that is held. Slab/Heap has the allocation
--               from caches.
--   Elf         lib/elf/parser.cc, elf64_parser.cc, elf.h and sysv_elf_abi.h on a memory of bytes.
--   Symbols     the symbol look-up of lib/elf/elf64_parser.cc on the sequence of the symbols.
--   Interrupts  the handler table and the dispatch of arch/x86-64/interrupts.cc. Interrupts/Exception has
--               the report of an exception with its formats and tables of texts, Crash how it ends,
--               Gates the set-up of the descriptor table.
--   Console     platform/pc/console.cc and init.cc: the history of what happens at the ports, and a device
--               that answers reads.
--   Cpu         arch/x86-64/thread.cc and init.cc: Cpu/Switch has the switch of threads, Cpu/Startup
--               the set-up of a processor.
--   Kernel      core/main.cc: kernel_entry over the console, the loader's state, arch::init and the report
--               of an exception.
--   Paging      arch/x86-64/types.h.
--
-- Bounds and fuel. Numbers are natural numbers; words wrap where the code's do (u8, u16, u32, u64,
-- sub64), and the statements name the bounds under which nothing wraps. In the printing, a width or a
-- precision that overflows an int, and the opposite of the least int or long long, are undefined;
-- the count of printed characters is a number, and is the code's int below 2^31. The page allocator's
-- clean-up loop has fuel for one more round than pages were asked for. Loops over lists, strings
-- and formats take fuel as an argument, and the statements say how much is enough. The digit
-- buffer of `num` has 22 places, which hold a 64-bit number in base 8. A spinlock's loop and the
-- console's wait for the transmitter have fuel for their rounds, and `VmRegion::destroy` for its
-- calls and the turns of its loops: twice the regions below is enough. The early allocator
-- recurses at most 10 times over the memory map, as in the code.
--
-- Not modelled. The entry code in assembly, the constructors of globals, and the hooks and traits
-- of the language (lib/ebl/type_traits.h, cxxabi.cc, new.cc, assert.h) decide on no state. Logging
-- is left out of the loader's functions, the inner lock out of the mutex's steps, and the 32-bit ELF
-- parser of lib/elf reports an error only. The slab allocator runs on one thread: a lock of its own
-- that is held does not become free. Of memory that several processors share only the mutex's
-- interleavings are modelled.
pub mod Base
pub mod LinkedList
pub mod Status
pub mod Pmm
pub mod Bits
pub mod Util
pub mod BitField
pub mod VmRegion
pub mod Paging
pub mod Text
pub mod Mutex
pub mod Sched
pub mod Stdio
pub mod Loader
pub mod PageTable
pub mod RefPtr
pub mod Elf
pub mod Slab
pub mod Boot
pub mod Mmu
pub mod Symbols
pub mod Interrupts
pub mod Spinlock
pub mod Console
pub mod Cpu
pub mod Kernel
