-- ===== src/Lib.antt =====
-- disastrOS, a small operating system in user space with semaphores: the programs of sorgente/.
--
-- The kernel keeps its structures (PCBs, timers, resources, semaphores, descriptors, and pointers
-- to these) in pools of equal blocks and threads them on intrusive doubly linked lists. A process
-- enters it by a system call, whose number and arguments it stores in its PCB, or by the timer
-- interrupt; the handler changes the lists and `running`, and the kernel returns to the process
-- that `running` points to then. A semaphore has two lists of pointers to descriptors: of those
-- that have it open, and of those whose process waits for it.
--
-- The files:
-- - Base, with Base/Lists, Base/Int and Base/Execution: names of the libraries, lists, integers and
--   outcomes. An outcome is a result, a fault (a dereference of NULL, a broken assert, an access
--   out of bounds), or the end of the fuel.
-- - LinkedList: sorgente/linked_list.h and sorgente/linked_list.c, with one function per operation.
--   Chain says what a list is, Insert and Detach are about one list (by the steps of Relink),
--   Family about lists that share their items, Find about the scans.
-- - PoolAllocator: sorgente/pool_allocator.h and sorgente/pool_allocator.c. FreeList has the
--   invariant, Blocks and Release the operations.
-- - Kernel: the structures and the global state. Kernel/Cmd has the commands that kernel code is
--   made of and the access to pools and lists, Kernel/Lists the lists that there are,
--   Kernel/Constants the numbers of sorgente/disastrOS_constants.h, Kernel/Running the accesses
--   to the running process. One module for each part: Kernel/Timers (sorgente/disastrOS_timer.c),
--   Kernel/Pcbs (sorgente/disastrOS_pcb.c), Kernel/Resources (sorgente/disastrOS_resource.c and
--   sorgente/disastrOS_descriptor.c), Kernel/Semaphores (sorgente/disastrOS_semaphore.c and
--   sorgente/disastrOS_semdescriptor.c), Kernel/SemaphoreCalls (`internal_semOpen`,
--   `internal_semClose`, `internal_semWait`, `internal_semPost`), Kernel/ProcessCalls
--   (`internal_schedule`, `internal_preempt`, `internal_spawn`, `internal_fork`,
--   `internal_sleep`, `internal_shutdown`), Kernel/WaitExit (`internal_wait`, `internal_exit`),
--   Kernel/ResourceCalls (`internal_openResource`, `internal_closeResource`,
--   `internal_destroyResource`), Kernel/Start and Kernel/Trap (sorgente/disastrOS.c),
--   Kernel/Printing (the functions `..._print` of these files, and `disastrOS_printStatus`).
--   Kernel/Families, with Kernel/Queues, Kernel/Children and Kernel/SemLists, and Kernel/Rules
--   carry the theorems on lists and commands over to the state of the kernel. The modules below a
--   part have the theorems on its calls.
-- - The modules named Tests have runs, and each theorem at a concrete state.
-- Each function has the name of the C function in other letters; a long function is cut into parts
-- that its comment names.
--
-- Addresses are numbers, and 0 is NULL. Each type of structure has a store of its own, by address,
-- which has the links, the other fields and the pool; a list is a pair of ways to read and to write
-- its head in the state. `int` and `long` are integers without bounds, since an overflow has no
-- meaning in C; every conversion to `int`, of the argument of a system call, the offset of a block
-- and the size of a pool, keeps the wrap-around.
-- A loop over a list has as fuel the size in the head and one more, which the theorems on the scans
-- show to be enough; the loop that reparents children has the same, and runs out of it where the C
-- loop does not end, as for a child of the process itself. The addresses of the buffers and the
-- sizes of the structures are a parameter of `start`.
--
-- What a function that prints a structure prints is its result, as pieces of text and numbers.
--
-- Not modelled: the log and the messages of the other functions, the calls of
-- `disastrOS_printStatus` by which an open, a close and a sleep show the state that they have made
-- (they only read; the trap's call is modelled), the processor contexts and signals (a switch of
-- contexts is a change of `running`), the function that a new process runs, the example
-- program sorgente/disastrOS_test.c, and sorgente/internal_semopen.c and
-- sorgente/disastrOS_semops.c, which the Makefile does not compile.
pub mod Base
pub mod LinkedList
pub mod PoolAllocator
pub mod Kernel
