-- ===== src/Lib.antt =====
-- UoDOS, a small operating system for one x86 PC in C, modelled part by part. The parts below are
-- under UoDOS/ of the repository.
--
-- The kernel runs processes (proc.c). A process waits by sleeping on a channel, an address, and is
-- made runnable by a wakeup on it. Pipes (pipe.c) and the console (console.c) are buffers that
-- processes and interrupts fill and empty and whose users sleep and wake each other. The file system
-- (fs.c) reads a FAT12 volume, sector by sector. The page allocator (kalloc.c), the page
-- tables (vm.c), which stand in the pages that it allocates, the locks
-- (spinlock.c, sleeplock.c), the formatted output and the string functions (string.c) serve all of
-- them. A system call (syscall.c) checks what a user program passes. The shell (sh.c) is such a
-- program.
--
-- Files, and the code that they model:
--   Prelude   shared names: tests on numbers, lists over the native numbers, memories, integers
--   Str       string.c: Block is memset and memmove on a memory by address, Text the functions on
--             terminated text
--   Proc      proc.c and proc.h: the states of processes; sleep, wakeup, yield, kill, scheduler
--   Task      proc.c: Machine is what its functions share; Family has exit and wait, Create the new
--             processes; Slots, Missed, Orphans, Handover and Waiting are about exit and wait, Child about
--             growProcess
--   Pipe      pipe.c: Defs has pipewrite, piperead, pipeclose; Queue reads the ring as a list; Stream
--             and Runs are about calls and sequences of calls; Wakeups about who is asleep
--   Console   console.c: Defs has consoleInterrupt and consoleRead; Editor is the line editor on
--             lists that they are compared with; Ring is the buffer's invariant, Actions, Interrupt and
--             Read are the proofs
--   Fat       fs.c: Mount is fsFat12Initialise, Table fsFat12GetNextCluster, Name toDosFileName and
--             fsGetPathPart, Cluster fsFat12ReadCluster, Reading fsFat12Read, Search the searches in
--             directories and fsFat12Open
--   Bio       bio.c: Defs has the list of buffers; Ring reads its links as a list, Release and Start
--             are diskBufferRelease and diskBufferCacheInitialise, Get and Choice diskBufferGet
--   Keyboard  kbd.c and kbd.h: Tables and Defs; Modifiers compares kbdgetc with a keyboard described by
--             its keys, Typing is keyboardInterrupt, which drives the console
--   Mp        mp.c and mp.h: Defs; Floating is mpsearch1, Entries the loop of mpinit over a table, Start
--             the whole call
--   Ide       ide.c: Defs; Queue reads the links of the requests as a list, Request is ideReadWrite,
--             Finish ideInterruptHandler, both with the driver's invariant
--   Trap      trap.c: Defs; Killed is about the way back to a program
--   Sysproc   sysproc.c: Defs; Grow puts sys_sbrk together with the page tables
--   Syscall   syscall.c: Defs has fetchint to argstr and the dispatch; Bounds is about the pointers
--   Files     file.c, and the descriptors of sysfile.c: Defs, Descriptors; Counts is about the reference
--             counts
--   Sysfile   sysfile.c and pipealloc of pipe.c: Defs has sys_read, sys_write and sys_pipe, Paths sys_open,
--             sys_fstat, sys_chdir and sys_getcwd; Slots, Ends and Pair are about sys_pipe, Mode about
--             sys_open, Directory about sys_chdir
--   Kalloc    kalloc.c: Defs has the operations; Chain reads the free list as a list of pages; Range is
--             freeMemoryRange
--   Vm        vm.c: Access has the accesses to memory and what a call comes to; Defs the page tables; User
--             the memory of processes; Words, Directory, Entry and Step are about one entry, Range about
--             createPageTableEntries, Spare, Take, Growth and Grow about allocateMemoryAndPageTables,
--             Translate about the addresses of the user, Fuel about the loops
--   Format    printInt and cprintf of console.c, and printf.c; Digits is about the printed numbers
--   Ulib      ulib.c: Defs; Numbers is about atoi, Input about gets
--   Clock     cmosTime of lapic.c: Defs, Time
--   Lock      spinlock.c and sleeplock.c: Defs; Interrupts is pushCli and popCli; Exclusion the locks
--   Shell     sh.c: Defs has gettoken and peek, Parser the parser; Tokens is about the tokens,
--             Shrink and Fuel about the parser's fuel
-- In Vm a call that panics, reads through the null pointer or has no fuel left is `stopped`; the loop of
-- releaseUserPages has a round for each page below the size and one more, that of
-- copyToUserVirtualMemory one for each byte.
--
-- Each part's Tests runs its code on small inputs and applies its theorems to them.
--
-- State is passed explicitly: an operation takes the record of its globals and returns it. An
-- operation under a lock is one step. A call that sleeps is cut at the sleep: it ends with the outcome
-- `asleep`, and its continuation is a function of its own, so that any other calls can come between.
-- Counters of 32 bits wrap: `% 2 ^ 32` is written out. An access past the end of an object is `none`,
-- and so is a panic. Loops are structural recursion on their count; a search of the buffer cache has a round for
-- each buffer and one for the head; the loop over sectors in Fat has
-- as fuel the bytes that are left to read, and each round takes at least one; so has the loop over
-- clusters. The loop over digits has
-- 33 rounds, and a word has no more digits in base 2. The shell's parser has four rounds
-- for each character of the line and four more: every level takes one, and the four levels take at
-- least one character. The search for the end of the disk's queue has a round for each buffer. The
-- loop of mpinit has fuel, and needs one round more than the table has entries; that of cmosTime has fuel
-- too, and needs more rounds than there are reads before the clock is quiet.
--
-- Not modelled: the boot code and swtch (assembly); the drivers of the interrupt controllers and
-- the serial port, and the probe for the second disk (ports and device registers); exec and
-- sys_exec; stat of ulib.c and the allocator of umalloc.c; and the user programs but the shell's
-- parser and printf. In Trap the interrupts of the drivers, the dispatch of the system calls and
-- what happens while a process has given the processor up are an interface, Services.
pub mod Prelude
pub mod Str
pub mod Proc
pub mod Pipe
pub mod Console
pub mod Keyboard
pub mod Fat
pub mod Syscall
pub mod Kalloc
pub mod Vm
pub mod Format
pub mod Lock
pub mod Shell
pub mod Files
pub mod Task
pub mod Bio
pub mod Mp
pub mod Ide
pub mod Trap
pub mod Sysfile
pub mod Ulib
pub mod Clock
pub mod Sysproc
