-- ===== src/Lib.antt =====
-- some-os: a model of parts of the kernel and proofs about them.
--
-- some-os is a UNIX-like kernel for RISC-V. Modelled here are parts of it that keep shared structures
-- in order on behalf of all others, the terminal, and a user program:
--
--   Descriptors.antt   kernel/src/files/process.c, with vfsFileCopy and vfsFileClose of
--                      kernel/src/files/vfs/file.c: the file descriptor table of a process.
--   Allocator.antt     kernel/src/memory/allocator.c: free-list allocation with a chain of backing
--                      allocators.
--   Kalloc.antt        kernel/src/memory/kalloc.c: allocation of bytes with a header, a client of
--                      the free-list allocator.
--   Pipe.antt          kernel/src/files/special/pipe.c: the ring of a pipe and the operations that
--                      wait on it.
--   Schedule.antt      kernel/src/task/schedule.c: the ready queue of a hart, the waiting list and
--                      the states of a task (kernel/src/task/types.h).
--   Spinlock.antt      kernel/src/task/spinlock.c with kernel/src/util/riscv64/lock.S: a spin lock
--                      that harts lock and unlock in any order.
--   TaskLock.antt      kernel/src/task/tasklock.c: a lock that tasks sleep on, taken in any order.
--   Timer.antt         kernel/src/interrupt/timer.c: the pending timeouts.
--   Signals.antt       kernel/src/process/signals.c: the pending signals of a process, and the entry
--                      into a handler and the return from it.
--   Process.antt       kernel/src/process/process.c: waiting for children, a client of the signals.
--   StringMap.antt     kernel/src/util/stringmap.c: a hash table from names to pipes.
--   Tty.antt           kernel/src/devices/serial/tty.c: the input ring of a terminal, line editing,
--                      echo, reads and control calls.
--   Path.antt          kernel/src/files/path.c: parents, names and the reduction of paths.
--   Vfs.antt           kernel/src/files/vfs/fs.c, node.c, super.c and file.c: lookup of paths over
--                      mounted file systems, access tests, and the calls that make, open, link and
--                      unlink nodes and change open files.
--   Pages.antt         kernel/src/memory/pagetable.c, memspace.c and pageref.c: page tables, and spaces
--                      that share pages until they write.
--   Expr.antt          userspace/src/expr/expr.c: the arithmetic of expr on integers of any length,
--                      and the recursive descent over its arguments.
--   Prelude.antt       Boolean tests, integers, lists and 64-bit words that the parts share.
--
-- How they interact: a descriptor of the table holds a reference to an open file, which may be an
-- end of a pipe; a task that waits on a pipe is in the waiting list of the scheduler until
-- doOperationOnPipe wakes it; descriptors, files and pipe data lie in memory that
-- kalloc takes from the allocator; a wait drops the pending signals of the child that it reports; a
-- named pipe is found in a string map; the calls on files take parents and names of paths from
-- Path.antt; the references of shared pages are in a hash table with the hash of the string map. The
-- other parts are modelled apart: a descriptor names its file by a number, a pipe operation its task,
-- and the signals that a terminal sends to a process group are a list.
--
-- How the code corresponds to the model: each function of the source has a definition with its name
-- in snake case (putNewFileDescriptor is put_new_file_descriptor). A structure is a record with the
-- fields of the source; a list that is linked through a field is a List, and a pointer to a link of
-- it (FreeMemory**) is a position with the parts before and behind. A null pointer is none.
-- State is passed on: an operation takes the state and returns the new one. A function that holds a
-- lock from its first to its last access is one step; what makes that so, the spin lock, is modelled by
-- itself, in the steps that other harts can see. Functions that release their lock in between are one step
-- too, as if no other hart ran there: setTimeoutTime between taking an id and linking the entry, and the
-- calls on files between the accesses to one node and the next.
--
-- Words: uintptr_t and size_t are 64 bits wide, with the wrap-around written out in add64 and
-- sub64. Theorems that need the absence of an overflow say so.
--
-- Loops: walks along a list recurse on it, and for loops on the rounds that are left. The loop of
-- doOperationOnPipe runs on fuel. Each round ends an operation or moves bytes, so the number of
-- waiting operations and of the bytes that they wait for bounds the rounds.
-- The loop of divRemInteger that subtracts the divisor runs on fuel too, and ten rounds are enough for
-- each digit, as the remainder before it is less than the divisor. The calls of the recursive descent
-- of expr stand in each other at most 8 deep for each argument and 6 more: six functions call each other
-- before one of them takes an argument. The fuel is passed on to each call, so it bounds the depth and
-- not the number of calls.
--
-- A lookup follows at most as many mounts on one node as the caller says, which is enough, with
-- `last_mountpoint` false, when no more of them stand on each other; without mounts on nodes it follows none. A search in the table of
-- shared pages takes at most as many rounds as it has places; then it is back at the start. The other
-- loops over a path or a table recurse on it.
--
-- The concrete file systems are a parameter of the virtual file system: a record of their functions, of
-- which it is assumed that a call that fails changes nothing, and that new_node and the read_node behind
-- it fail or succeed together. A page table stands in the entry that points to it, since no other entry
-- does; a valid entry without PAGE_ENTRY_RWX that points to a page is an entry of its own (stray), where a
-- walk goes astray. What the page allocator gives out is a list.
--
-- Not modelled: assertions of DEBUG builds, but for those named at a definition, the copy between user
-- and kernel memory (a list of bytes here), the tree of all processes, reallocMemory, krealloc and deinitAllocator, awakenTasks and the
-- choice of the next task among harts, and everything that these parts call or that calls them: system
-- calls, the minix file system, the cache of nodes, reads and writes of nodes, the page allocator, and
-- devices. The other assembly and the device registers are left out because they are the hardware's
-- behaviour, the other user programs because they stand on newlib.
pub mod Prelude
pub mod Descriptors
pub mod Allocator
pub mod Pipe
pub mod Process
pub mod Schedule
pub mod TaskLock
pub mod Timer
pub mod Signals
pub mod Spinlock
pub mod StringMap
pub mod Kalloc
pub mod Expr
pub mod Tty
pub mod Path
pub mod Vfs
pub mod Pages
