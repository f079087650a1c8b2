-- ===== src/Lib.antt =====
-- MUXX, a multitasking kernel for the PDP-11: a model of the kernel's C code and of the parts of
-- its assembly code that change the kernel's state, with theorems about it.
--
-- The program. A task is an element of the task table (h/muxx.h). The scheduler keeps the ready
-- and the suspended tasks in doubly linked queues. A task enters the kernel by a trap, whose
-- number selects a service, or by the clock interrupt; the kernel saves the registers and the
-- memory map of a task in its block and switches to another one. A new task gets a number, a
-- block, and pages of physical memory, which a list of memory control blocks divides. System
-- mutexes protect the drivers' table and the table of channels. Channels lead to device drivers,
-- which are called back with packets.
--
-- The files, and what they model:
--   Config, Errors    constants of h/CONFIG.s, h/muxxdef.h and h/errors.h.
--   Types             the structures of h/muxx.h and h/queues.h as records. A pointer into a table
--                     is the index of the element, `none` is NULL, and an array is a function of
--                     the index. The queue links stand apart from the other fields of a task.
--   Queue             kernel/muxx_taskqueues.c: muxx_qAddTask, muxx_qGetTask, muxx_qRemoveTask as
--                     q_add_task, q_get_task, q_remove_task. Chain says what list a queue stands
--                     for; Add, Get, Remove and RemoveInner are about the operations. Count: how long a
--                     queue of different tasks can be.
--   Mem               kernel/muxx_memsvc.c: muxx_mem_init, findFreeMMCB, muxx_mem_getblock and
--                     muxx_mem_freeblock. Partition: the chunks of the MMCBs in use.
--                     Boot, Carve,
--                     Alloc, Sound: what holds of them at start and later. Layout, Grow: the list
--                     of MMCBs, at start and later.
--   TaskMem           muxx_setup_taskmem of the same file: the memory map of a new task. Keep:
--                     the invariant of Mem. Protect: what a task may access. Guard: type words. Ends:
--                     that the search for memory ends.
--   Kernel            the global variables (h/externals.h) as a record, how a call ends, and
--                     commands: functions from a state to a `Run`, which is a result with a state,
--                     a switch to another task, a panic, an access through NULL or outside a
--                     table, or a loop that did not end. kernel/spl.s, and errno (h/errno.h).
--   Sched             muxx_schedule, muxx_yield, the services YIELD and SUSPEND of
--                     kernel/muxx_systrap_svc.c, kernel/muxx_clock_svc.c, and what these need of
--                     kernel/muxx_copytrapframe.s and kernel/muxx_switch.s. Turn: whose turn it
--                     is. Yield, Fair, Clock, Suspend: who runs next.
--   Task              kernel/muxx_tctinit.c, muxx_taskinit.c, muxx_task_svc.c, muxx_fakeproc.c,
--                     muxx_protmem_svc.c, and CREPRC of muxx_creprc.c. Slot, Numbers, Create,
--                     Cases: a new task's block and number. Pages: PROTMEM.
--   Mutex             muxx_svc_mutex of kernel/muxx_systrap_svc.c. Lock: who holds a mutex.
--   Driver            kernel/muxx_drvinit.c and muxx_drvctl.c; Register: DRVREG of
--                     muxx_systrap_svc.c; Exec: kernel/muxx_drvctl_a.s, DRVSTART and DRVSTOP.
--                     Names: the search by device name. Owner: the service ALLOC.
--   Channel           kernel/muxx_channels.c. Close: CLOSE with the mutex free. Panics: OPEN and
--                     CLOSE where the mutex is not released. Wired: the driver of an open channel.
--                     Answer, Claimed, Opened: what OPEN makes of driver and entry. Entries,
--                     Refused: OPENs of a device that is refused. RoundTrip: OPEN and CLOSE.
--                     Registered: DRVREG, DRVSTART and OPEN.
--   Transfer          kernel/muxx_readwrite_svc.c. Write: WRITE byte by byte. Read: READ up to the
--                     end of the input.
--   Trap              kernel/muxx_cputrap_svc.c, and of kernel/muxx_systrap_svc.c the services HALT,
--                     EXIT and ABORT and the dispatcher muxx_systrap_handler, the services being
--                     its parameter. Calls: the numbers of h/muxxdef.h and the macros of
--                     h/MUXXMAC.s. Dispatch: which service a number reaches.
--   User              the user's calls open, close, read and write (lib/sys/lib_openclose.c,
--                     lib_readwrite.c) and getpid (lib_getpid.c). Files: descriptors. Wait:
--                     mutexw, allocw and sleep (lib/sys/lib_mutexw.c, lib_allocw.c and
--                     lib/gen/sleep.c). Loader, Image: load (lib/sys/lib_load.c) and where
--                     it writes. Conio: lib/conio.c, lib/stdio/putc.c, puts.c. Shell: the loop of
--                     shell/rshell.c.
--   Xcopy             XCOPY of kernel/muxx_xcopy_svc.c. Loop: the loop over the bytes. Copied: an
--                     allowed copy, in a page and beyond. Refused: rights. Kept: what a copy leaves alone.
--   Load              LOADPRC of kernel/muxx_creprc.c.
--   Console           kernel/kprintf.c, muxx_kconio.s, muxx_kconio1.c, lib/itoo.s, itod.s, itoh.s.
--                     Digits: octal numbers. Expand: what a format stands for. Prints: that this
--                     is what kprintf sends.
--   Dump              kernel/muxx_dumpregs.c, muxx_dumpmmu.c, muxx_dumptcb.c, and what
--                     kernel/muxx_panic.c shows. Sizes: vtop, and the stack sizes of a dump.
--   System            the kernel as a whole: the start (sys/sys.s, h/SCB.s) and the services,
--                     clock interrupts and exceptions as events, one after another. Sane: the
--                     invariant of the tables. Boot: the start. Turns, Locks, Services, Spare,
--                     Creation, Loading, and by way of Leads Opening, Channels, Transfers,
--                     Drivers: each event keeps the invariant. Loaded: what LOADPRC leaves.
--                     Safe: every sequence of events keeps the invariant.
--   Tests             runs at concrete inputs, and the theorems applied to such.
--
-- Machine integers. Words keep their wrap-around where the code can reach it. An `int` result is
-- an integer `ℤ`, since it is a small count or an error number.
--
-- Bounds. The walk along a queue has fuel for all 16 tasks, the most that a queue can hold; the
-- theorems ask that the queue is not longer than the fuel. The search for a chunk of memory takes
-- its fuel as an argument: any fuel from the length of the list on gives the same result, and
-- where the list runs into a cycle, every fuel ends in `hung`. The waiting calls take fuel for the
-- number of turns that they wait. All other loops go over a table.
--
-- Parameters. `memcpy` and `strlen` of the library are functions of the kernel's map, the
-- addresses and memory. What a driver's callbacks return is a function of the calls so far, the
-- address and the packet; a callback changes nothing else. What other tasks do while a call
-- waits is a function of the state. How the compiler compares a one-bit `int` field with 1 is a
-- Boolean. What EXIT and ABORT leave as their result is a number. What the processor's division
-- leaves on overflow is a function of the dividend, and whether the console gets ready in time
-- is one of the number of the wait.
--
-- Memory. What the model has as tables and registers lies in physical pages 0 to 2 and in the I/O
-- page, which the model's memory is apart from. So the theorems on XCOPY and LOADPRC are about
-- copies outside these pages, DRVREG with a vector outside the vectors is an access outside a
-- table, and so is the use of mutex 16, the byte behind the table. Buffers of READ and GETTPI
-- are values. What a task writes in its own pages is no event, also where a chunk that it was given
-- reaches into the I/O page.
--
-- Not modelled: the messages of the services, eyecatchers, the registers and stacks behind a
-- context switch, the code of the drivers, the rest of the user's library and tasks, what the
-- shell does after the program, the copy of the Berkeley C library, and the part of the boot
-- code that sets up the hardware.
pub mod Prelude
pub mod Config
pub mod Errors
pub mod Types
pub mod Queue
pub mod Mem
pub mod TaskMem
pub mod Kernel
pub mod Sched
pub mod Task
pub mod Mutex
pub mod Driver
pub mod Channel
pub mod Transfer
pub mod Trap
pub mod User
pub mod Xcopy
pub mod Load
pub mod Console
pub mod Dump
pub mod System
pub mod Tests
