-- ===== src/Task.antt =====
-- The table of tasks: kernel/muxx_tctinit.c, muxx_taskinit.c, muxx_task_svc.c, muxx_creprc.c (the
-- service CREPRC), muxx_fakeproc.c and muxx_protmem_svc.c. Eyecatchers, table sizes and messages
-- are left out, and `panic` ends the run.
pub mod Slot
pub mod Numbers
pub mod Create
pub mod Cases
pub mod Pages
use muxx.Prelude.{
  ℕ, zero, suc, ◌+◌, ◌-◌, ◌*◌, ◌/◌, ◌%◌, ◌^◌, Bool, true, false, not, ◌&&◌, ◌||◌, Option, none,
  some, List, [], ◌∷◌, ◌==◌, ltb, leb, if◌then◌else◌, update,
}
use muxx.Prelude.Int.{ℤ, pos, negsuc, same}
use muxx.Config.{
  max_tasks, mem_nmcbs, sys_task, drv_task, TaskStatus, pdr_acc_rw, pdr_acc_ro, pdr_acc_na,
}
use muxx.Errors.{eok, emaxtask, enopid, einvval, enopriv, enotfound}
use muxx.Types.{Ptr, CpuState, MmuState, TaskBlock, Tcb, Tct, operprv, auditprv}
use muxx.TaskMem.{Setup, done, halted, endless, setup_taskmem}
use muxx.Kernel.{
  Kernel, Run, ok, switched, halted, fault, hung, Cmd, pure, and_then, ◌>>=◌, ◌>>◌, panic, deref,
  current, set_task, modify_task,
}
use muxx.Sched.{Frame, add_ready}

-- `memset(…, 0, …)` of the saved registers and of the memory map.
abbrev pub zero_cpu : CpuState
zero_cpu = record { gpr = λ i. 0; sp = 0; pc = 0; psw = 0; usp = 0; ssp = 0; ksp = 0 }

abbrev pub zero_mmu : MmuState
zero_mmu = record { upar = λ i. 0; updr = λ i. 0; kpar = λ i. 0; kpdr = λ i. 0 }

-- `muxx_tcbinit` leaves the name, the type and the local flags as they are.
abbrev pub clear_task : TaskBlock → TaskBlock
clear_task b = record b {
  pid = 0;
  ppid = 0;
  uic = 0;
  status = TaskStatus.init;
  flags = 0;
  privileges = 0;
  first_child = none;
  last_child = none;
  next_sibling = none;
  cpu_state = zero_cpu;
  mmu_state = zero_mmu;
  clock_ticks = 0;
  created_timestamp = 0;
  task_tucb = 0;
}

abbrev pub tcbinit : ℕ → Tct → Tct
tcbinit i t = set_task i clear_task t

-- The loop of `muxx_tctinit`, with `left` tasks still to be cleared.
unfoldable pub tcbinit_from : (left i : ℕ) → Tct → Tct
tcbinit_from zero i t = t
tcbinit_from (suc left) i t = tcbinit_from left (suc i) (tcbinit i t)

unfoldable pub tctinit : Tct → Tct
tctinit t = tcbinit_from max_tasks 0 t

-- The next number for a system or a driver task, and for a user task; `reusespid` and `reuseupid`
-- only panic.
unfoldable pub next_spid : Cmd ℕ
next_spid k =
    let top = if k.topspid == 0 then k.minspid else k.topspid in
    let pid = (top + 1) % 2 ^ 16 in
    if ltb k.maxspid pid
    then panic (record k { topspid = top })
    else ok pid (record k { topspid = pid })

unfoldable pub next_upid : Cmd ℕ
next_upid k =
    let top = if k.topupid == 0 then k.minupid else k.topupid in
    let pid = (top + 1) % 2 ^ 16 in
    if ltb k.maxupid pid
    then panic (record k { topupid = top })
    else ok pid (record k { topupid = pid })

-- The search for a free task, where 0 stands for none found.
unfoldable pub find_slot : (left i : ℕ) → Tct → ℕ
find_slot zero i t = 0
find_slot (suc left) i t =
    let rest = find_slot left (suc i) t in
    let found = if (t i).pid == 0 then i else 0 in if found == 0 then rest else found

abbrev pub new_task : Kernel → (type pid ppid entry privs : ℕ) → TaskBlock → TaskBlock
new_task k type pid ppid entry privs b = record (clear_task b) {
  pid = pid;
  ppid = ppid;
  task_type = type;
  privileges = privs;
  flags = 0;
  cpu_state = record zero_cpu {
    pc = entry;
    psw = 0xc000;
    sp = k.ustackt;
    usp = k.ustackt;
    ksp = k.kstackt;
  };
  status = TaskStatus.init;
}

unfoldable pub use_slot : (type pid ppid entry privs : ℕ) → Cmd ℤ
use_slot type pid ppid entry privs k =
    let found = find_slot max_tasks 0 k.tct in
    if found == 0
    then panic k
    else (do modify_task found (new_task k type pid ppid entry privs); pure (pos found)) k

-- The whole type word is compared, its size fields included.
unfoldable pub taskinit : (type ppid entry privs : ℕ) → Cmd ℤ
taskinit type ppid entry privs k =
    if leb max_tasks k.curtasks
    then ok emaxtask k
    else (do
      pid ← if (type == sys_task) || (type == drv_task) then next_spid else next_upid
      if pid == 0 then pure enopid else use_slot type pid ppid entry privs)
        k

-- The loop of `muxx_findtcb`.
unfoldable pub find_pid : (left i : ℕ) → Tct → ℕ → Ptr
find_pid zero i t pid = none
find_pid (suc left) i t pid =
    let rest = find_pid left (suc i) t pid in if (t i).pid == pid then some i else rest

unfoldable pub findtcb : ℕ → Kernel → Ptr
findtcb pid k = if pid == 0 then k.curtcb else find_pid max_tasks 0 k.tct pid

-- The result, and what is copied to the caller's area if anything is.
unfoldable pub svc_gettpi : Frame → ℕ → Cmd (ℤ × Option Tcb)
svc_gettpi fp pid k =
    (do
      source ← deref (if pid == 0 then k.curtcb else findtcb pid k)
      cur ← current
      if ((k.tct source).uic == (k.tct cur).uic)
            || operprv (k.tct cur).privileges
            || auditprv (k.tct cur).privileges
          then pure (eok, some (k.tct source))
          else pure (enopriv, none))
      k

-- `muxx_setup_taskmem` on a task of the table.
unfoldable pub setup_task : ℕ → Cmd ℤ
setup_task i k = elim (setup_taskmem mem_nmcbs (k.tct i).task k.mmcbt) [
  | done rc b m ↦
      ok rc (record k { tct = update k.tct i (record (k.tct i) { task = b }); mmcbt = m })
  | Setup.halted ↦ panic k
  | endless ↦ hung
]

-- `&(tct->tctTable[index])`: a negative index is outside the table.
abbrev pub slot : ℤ → Cmd ℕ
slot (pos i) k = ok i k
slot (negsuc n) k = fault

-- `name` is the eight bytes that are copied.
unfoldable pub svc_creprc : Frame → (name : List ℕ) → (type entry privs : ℕ) → Cmd ℤ
svc_creprc fp name type entry privs = do
  cur ← current
  λ k.
      (do
        index ← taskinit type (k.tct cur).pid entry privs
        new ← slot index
        modify_task new (λ b. record b { taskname = name })
        rc ← setup_task new
        if same rc eok
            then (do add_ready new; λ k'. ok (pos (k'.tct new).pid) k')
            else pure (negsuc 0))
        k

-- The memory map of INIT.
abbrev pub init_mmu : MmuState
init_mmu = record {
  upar = update (update (update (update zero_mmu.upar 1 0o200) 2 0o400) 6 0o500) 7 0o7600;
  updr =
      update (update (update (update (update zero_mmu.updr 0 0x7f06) 1 0x7f06) 2 0x7f06) 6 0x400e) 7
        0x7f04;
  kpar = update (update (update (update zero_mmu.kpar 1 0o200) 2 0o400) 6 0o500) 7 0o7600;
  kpdr =
      update (update (update (update (update zero_mmu.kpdr 0 0x7f06) 1 0x7f06) 2 0x7f06) 6 0x400e) 7
        0x7f06;
}

-- "INIT    "
abbrev pub init_name : List ℕ
init_name = 73 ∷ 78 ∷ 73 ∷ 84 ∷ 32 ∷ 32 ∷ 32 ∷ 32 ∷ []

-- INIT's block: cleared, then filled in. `pc` is the address of `init`.
abbrev pub init_task : Kernel → (pc : ℕ) → TaskBlock
init_task k pc = record {
  taskname = init_name;
  pid = 1;
  ppid = 0;
  uic = 1;
  status = TaskStatus.init;
  flags = 0;
  privileges = 7;
  task_type = 0;
  task_tucb = 8192 * 3 - 64;
  first_child = none;
  last_child = none;
  next_sibling = none;
  cpu_state = record zero_cpu {
    pc = pc;
    psw = 0xc000;
    sp = k.ustackt;
    usp = k.ustackt;
    ksp = k.kstackt;
  };
  mmu_state = init_mmu;
  clock_ticks = 0;
  created_timestamp = 0;
  local_flags = 0;
}

-- `memset(mmu, 0, sizeof(TCB))` starts at the memory map of the first task, and so it goes on in
-- the second one, up to the memory map of that.
abbrev pub overrun : Tcb → Tcb
overrun b = record {
  task = record (clear_task b.task) {
    taskname = 0 ∷ 0 ∷ 0 ∷ 0 ∷ 0 ∷ 0 ∷ 0 ∷ 0 ∷ [];
    task_type = 0;
    mmu_state = b.mmu_state;
    clock_ticks = b.clock_ticks;
    created_timestamp = b.created_timestamp;
  };
  next_in_queue = none;
  prev_in_queue = none;
}

unfoldable pub fakeproc : (pc : ℕ) → Kernel → Kernel
fakeproc pc k =
    let init : Tcb = record { task = init_task k pc; next_in_queue = none; prev_in_queue = none } in
    record k {
      tct = update (update k.tct 0 init) 1 (overrun (k.tct 1));
      topspid = 1;
      curtcb = some 0;
    }

-- `prot` has no bits but the lowest three, which are cleared before it is set.
unfoldable pub set_prot : ℕ → ℕ → ℕ
set_prot pdr prot = pdr / 8 * 8 + prot

-- The user's and the kernel's descriptor of the page, in the task and in the live registers.
abbrev pub protect_map : (page pdr : ℕ) → MmuState → MmuState
protect_map page pdr m = record m { updr = update m.updr page pdr; kpdr = update m.kpdr page pdr }

unfoldable pub protect : (task page prot : ℕ) → Cmd ℤ
protect task page prot k =
    let pdr = set_prot ((k.tct task).mmu_state.updr page) prot in
    ok eok (record k {
      tct = set_task task (λ b. record b { mmu_state = protect_map page pdr b.mmu_state }) k.tct;
      mmu = protect_map page pdr k.mmu;
    })

abbrev pub is_prot : ℕ → Bool
is_prot prot = (prot == pdr_acc_rw) || (prot == pdr_acc_ro) || (prot == pdr_acc_na)

unfoldable pub svc_protmem : Frame → (pid page prot : ℕ) → Cmd ℤ
svc_protmem fp pid page prot k =
    if not (is_prot prot)
    then ok einvval k
    else (do
      cur ← current
      let privileged : Bool = operprv (k.tct cur).privileges
      if not (pid == (k.tct cur).pid) && not (pid == 0) && not privileged
          then pure enopriv
          else if ltb 7 page
          then pure einvval
          else if leb page 2 && not privileged
          then pure enopriv
          else elim (if pid == 0 then k.curtcb else findtcb pid k) [
            | none ↦ pure enotfound
            | some task ↦ protect task page prot
          ])
        k
