-- ===== src/System.antt =====
-- The kernel as a whole: sys/sys.s sets it up, and events change it: services that the running
-- task calls, clock interrupts and exceptions. A switch to another task is where the next event comes in.
pub mod Sane
pub mod Boot
pub mod Turns
pub mod Locks
pub mod Leads
pub mod Opening
pub mod Channels
pub mod Transfers
pub mod Drivers
pub mod Services
pub mod Spare
pub mod Creation
pub mod Loading
pub mod Loaded
pub mod Safe
use muxx.Prelude.{ℕ, ◌≡◌, ◌≢◌, ◌<◌, ◌≤◌, ◌+◌, ◌-◌, ◌*◌, ◌/◌, ◌%◌, none, some, List, Bool, length}
use muxx.Prelude.Int.{ℤ}
use muxx.Config.{iot_sentries, mut_mutexes}
use muxx.Types.{Ptr, DrvDesc}
use muxx.Mem.{mem_init}
use muxx.Kernel.{Kernel, Run, ok, switched, halted, fault, hung, Cmd, and_then}
use muxx.Sched.{Frame, muxx_switch, svc_yield, svc_suspend, clock_handler}
use muxx.Task.{tctinit, fakeproc, findtcb, svc_gettpi, svc_creprc, svc_protmem}
use muxx.Mutex.{svc_mutex}
use muxx.Driver.{drvinit, svc_alloc}
use muxx.Driver.Register.{svc_drvreg, AreVectors}
use muxx.Driver.Exec.{Callback, svc_drvstart, svc_drvstop}
use muxx.Channel.{iottinit, svc_open, svc_close}
use muxx.Transfer.{svc_read, svc_write}
use muxx.Trap.{handle_exception, handle_mmuerr, svc_muxxhlt, svc_exit, svc_abort, svc_unimpl}
use muxx.Xcopy.{Memcpy, task_of, svc_xcopy}
use muxx.Xcopy.Copied.{IsClear, user_address}
use muxx.Mem.Layout.{free_mmcb}
use muxx.Load.{Strlen, svc_loadprc}

-- The words of the SCB and the queues, as they stand in the loaded image.
unfoldable pub scb : Kernel → Kernel
scb k = record k {
  curtasks = 0;
  readyq = record { head = none; tail = none; count = 0 };
  suspq = record { head = none; tail = none; count = 0 };
  curtcb = none;
  topspid = 0;
  minspid = 0o1;
  maxspid = 0o77;
  topupid = 0;
  minupid = 0o100;
  maxupid = 0o777;
  ustackt = 0o160000 - 1024 - 2;
  kstackt = 0o160000 - 2;
  utimeticks = 0;
  clkquantum = 6;
  clkcountdown = 6;
}

-- The tables as `sysstart` leaves them; `pc` is the address of `init`.
unfoldable pub init_tables : (pc : ℕ) → Kernel → Kernel
init_tables pc k =
    fakeproc pc (iottinit (drvinit (record k { mmcbt = mem_init; tct = tctinit k.tct })))

unfoldable pub sysstart : (pc : ℕ) → Kernel → Run (Unit {0})
sysstart pc k = muxx_switch (init_tables pc k)

-- SUSPEND is the caller's own. `open_device` and the next three are OPEN, CLOSE, READ and WRITE.
pub data Event : Type 0 where
  yield_now : Frame → Event
  suspend_self : Frame → Event
  tick : Frame → Event
  create : Frame → (name : List ℕ) → (type entry privs : ℕ) → Event
  protect_page : Frame → (pid page prot : ℕ) → Event
  use_mutex : Frame → (mutex op : ℕ) → Event
  allocate : Frame → (name : List ℕ) → (op : ℕ) → Event
  inform : Frame → (pid : ℕ) → Event
  register : Frame → (name : List ℕ) → DrvDesc → (handler : Ptr) → Event
  copy : Memcpy → Frame → (dstpid dstaddr srcpid srcaddr size : ℕ) → Event
  load : Memcpy → Strlen → (shell : ℕ) → Frame → (name : List ℕ) → (type file privs : ℕ) → Event
  open_device : (one_bit : Bool) → Frame → (device : List ℕ) → Event
  close_io : Frame → (io : ℕ) → Event
  read_io : Callback → Frame → (channel size : ℕ) → (buffer : ℕ → ℕ) → Event
  write_io : Callback → Frame → (channel size : ℕ) → (buffer : ℕ → ℕ) → Event
  start_driver : Callback → Frame → (name : List ℕ) → Event
  stop_driver : Callback → Frame → (name : List ℕ) → Event
  exception : Frame → Event
  mmu_exception : Frame → Event
  halt_call : Event
  exit_call : (left : ℤ) → Frame → (rc : ℕ) → Event
  abort_call : (left : ℤ) → Frame → (rc : ℕ) → Event
  unserved_call : Event

abbrev pub forget : {A : Type 0} → Run A → Run (Unit {0})
forget r = and_then r (λ a. ok tt)

unfoldable pub run : Event → Kernel → Run (Unit {0})
run (yield_now fp) k = forget (svc_yield fp k)
run (suspend_self fp) k = forget (svc_suspend fp none k)
run (tick fp) k = clock_handler fp k
run (create fp name type entry privs) k = forget (svc_creprc fp name type entry privs k)
run (protect_page fp pid page prot) k = forget (svc_protmem fp pid page prot k)
run (use_mutex fp mutex op) k = forget (svc_mutex fp mutex op k)
run (allocate fp name op) k = forget (svc_alloc fp name op k)
run (inform fp pid) k = forget (svc_gettpi fp pid k)
run (register fp name desc handler) k = forget (svc_drvreg fp name desc handler k)
run (copy memcpy fp dstpid dstaddr srcpid srcaddr size) k =
    forget (svc_xcopy memcpy fp dstpid dstaddr srcpid srcaddr size k)
run (load memcpy strlen shell fp name type file privs) k =
    forget (svc_loadprc memcpy strlen shell fp name type file privs k)
run (open_device one_bit fp device) k = forget (svc_open one_bit fp device k)
run (close_io fp io) k = forget (svc_close fp io k)
run (read_io call fp channel size buffer) k = forget (svc_read call fp channel size buffer k)
run (write_io call fp channel size buffer) k = forget (svc_write call fp channel size buffer k)
run (start_driver call fp name) k = forget (svc_drvstart call fp name k)
run (stop_driver call fp name) k = forget (svc_drvstop call fp name k)
run (exception fp) k = handle_exception fp k
run (mmu_exception fp) k = handle_mmuerr fp k
run halt_call k = forget (svc_muxxhlt k)
run (exit_call left fp rc) k = forget (svc_exit left fp rc k)
run (abort_call left fp rc) k = forget (svc_abort left fp rc k)
run unserved_call k = forget (svc_unimpl k)

-- The destination of a copy, for a copy within the own task also through the kernel's map.
abbrev IsClearCopy : Kernel → (dstpid dstaddr srcpid size : ℕ) → Type 0
IsClearCopy k dstpid dstaddr srcpid size =
    ((dst : ℕ) → task_of dstpid k ≡ some dst → IsClear (user_address k dst dstaddr) size)
    × (dstpid ≡ 0 → srcpid ≡ 0 → IsClear (k.mmu.kpar (dstaddr / 8192) * 64 + dstaddr % 8192) size)

-- What the callers must see to, since the kernel does not check it: a task suspends itself only if
-- another one is ready, asks only about tasks that exist, uses no mutex 16, registers at most four
-- ISRs with addresses among the vectors, copies only between tasks that exist, within a page of
-- each, and not into the kernel's pages or the I/O page, loads a file whose name stays in a page,
-- with a free chunk that starts with a page outside these, and closes, reads and writes entries
-- of the I/O table.
abbrev pub Allowed : Event → Kernel → Type 0
Allowed (yield_now fp) k = Unit
Allowed (suspend_self fp) k = 0 < k.readyq.count
Allowed (tick fp) k = Unit
Allowed (create fp name type entry privs) k = Unit
Allowed (protect_page fp pid page prot) k = Unit
Allowed (use_mutex fp mutex op) k = mutex ≢ mut_mutexes
Allowed (allocate fp name op) k = Unit
Allowed (inform fp pid) k = findtcb pid k ≢ none
Allowed (register fp name desc handler) k = (length desc.isrtable ≤ 4) × AreVectors desc.isrtable
Allowed (copy memcpy fp dstpid dstaddr srcpid srcaddr size) k =
    (task_of srcpid k ≢ none)
    × (task_of dstpid k ≢ none)
    × (srcaddr % 8192 + size ≤ 8192)
    × (dstaddr % 8192 + size ≤ 8192)
    × IsClearCopy k dstpid dstaddr srcpid size
Allowed (load memcpy strlen shell fp name type file privs) k =
    (file % 8192 + strlen k.mmu file k.memory ≤ 8192)
    × IsClear ((k.mmcbt.mmcbt free_mmcb).block_addr * 64) 8192
Allowed (open_device one_bit fp device) k = Unit
Allowed (close_io fp io) k = io < iot_sentries
Allowed (read_io call fp channel size buffer) k = channel < iot_sentries
Allowed (write_io call fp channel size buffer) k = channel < iot_sentries
Allowed (start_driver call fp name) k = Unit
Allowed (stop_driver call fp name) k = Unit
Allowed (exception fp) k = Unit
Allowed (mmu_exception fp) k = Unit
Allowed halt_call k = Unit
Allowed (exit_call left fp rc) k = Unit
Allowed (abort_call left fp rc) k = Unit
Allowed unserved_call k = Unit

-- Events after which the kernel goes on: a call returns, or the next task runs.
pub data Reaches : Kernel → Kernel → Type 0 where
  start : {k : Kernel} → Reaches k k
  returns :
      {k k' k'' : Kernel} (e : Event)
      → Allowed e k
      → run e k ≡ ok tt k'
      → Reaches k' k''
      → Reaches k k''
  switches :
      {k k' k'' : Kernel} (e : Event)
      → Allowed e k
      → run e k ≡ switched k'
      → Reaches k' k''
      → Reaches k k''
