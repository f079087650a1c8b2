-- ===== src/Sched.antt =====
-- kernel/muxx_schedule.c, muxx_yield.c, muxx_clock_svc.c, the services YIELD and SUSPEND of
-- muxx_systrap_svc.c, and what they call of muxx_copytrapframe.s and muxx_switch.s. A return
-- from `muxx_switch` is the return of another task's service, so the code behind it in the same
-- call is not run.
pub mod Turn
pub mod Yield
pub mod Suspend
pub mod Fair
pub mod Clock
use muxx.Prelude.{
  ℕ, ◌+◌, ◌/◌, ◌%◌, ◌^◌, Bool, true, false, ◌||◌, Option, none, some, ◌==◌, ltb, if◌then◌else◌,
  update,
}
use muxx.Prelude.Int.{ℤ}
use muxx.Config.{max_tasks, TaskStatus}
use muxx.Errors.{eok, enopriv}
use muxx.Types.{Ptr, CpuState, TaskBlock, Tct, TQueue, operprv}
use muxx.Queue.{q_add_task, q_get_task, q_remove_task}
use muxx.Kernel.{
  Kernel, Run, ok, switched, fault, hung, Cmd, pure, and_then, ◌>>=◌, ◌>>◌, panic, deref, current,
  modify_task, setpl, setpl7,
}

-- The trap frame that `fp` points to, the kernel stack pointer above it and the user's.
pub record Frame : Type 0 where
  pub gpr : ℕ → ℕ
  pub pc : ℕ
  pub psw : ℕ
  pub ksp : ℕ
  pub usp : ℕ

-- The saved SP is the user's if the mode bits of the saved PSW say user mode.
abbrev pub save_frame : Frame → CpuState → CpuState
save_frame fp c = record c {
  gpr = fp.gpr;
  pc = fp.pc;
  psw = fp.psw;
  ksp = fp.ksp;
  usp = fp.usp;
  sp = if fp.psw / 2 ^ 14 == 3 then fp.usp else fp.ksp;
}

unfoldable pub copytrapfp : Frame → Cmd (Unit {0})
copytrapfp fp = do
  cur ← current
  modify_task cur (λ t. record t { cpu_state = save_frame fp t.cpu_state })

unfoldable pub copy_mmu_state : Cmd (Unit {0})
copy_mmu_state = do cur ← current; λ k. modify_task cur (λ t. record t { mmu_state = k.mmu }) k

-- The current task gets the processor, with its memory map.
unfoldable pub muxx_switch : {A : Type 0} → Cmd A
muxx_switch = do
  cur ← current
  modify_task cur (λ t. record t { status = TaskStatus.run })
  λ k. switched (record k { mmu = (k.tct cur).mmu_state })

-- `muxx_qAddTask(readyq, task)`, `muxx_qAddTask(suspq, task)`, `muxx_qGetTask(readyq)` and
-- `muxx_qRemoveTask(readyq, task)`; a queue has at most as many tasks as the table.
unfoldable pub add_ready : ℕ → Cmd (Unit {0})
add_ready n k = elim (q_add_task k.readyq n k.tct) [
  | none ↦ fault
  | some (q, t) ↦ ok tt (record k { readyq = q; tct = t })
]

unfoldable pub add_susp : ℕ → Cmd (Unit {0})
add_susp n k = elim (q_add_task k.suspq n k.tct) [
  | none ↦ fault
  | some (q, t) ↦ ok tt (record k { suspq = q; tct = t })
]

unfoldable pub get_ready : Cmd ℕ
get_ready k = elim (q_get_task k.readyq k.tct) [
  | none ↦ fault
  | some (n, q, t) ↦ ok n (record k { readyq = q; tct = t })
]

unfoldable pub remove_ready : ℕ → Cmd Ptr
remove_ready n k = elim (q_remove_task max_tasks k.readyq n k.tct) [
  | none ↦ hung
  | some (p, q, t) ↦ ok p (record k { readyq = q; tct = t })
]

unfoldable pub schedule : {A : Type 0} → Cmd A
schedule = do setpl7; next ← get_ready; λ k. muxx_switch (record k { curtcb = some next })

unfoldable pub muxx_yield : Cmd (Unit {0})
muxx_yield = do
  cur ← current
  modify_task cur (λ t. record t { status = TaskStatus.ready })
  add_ready cur

unfoldable pub svc_yield : Frame → Cmd ℤ
svc_yield fp = do
  setpl7
  cur ← current
  modify_task cur (λ t. record t { status = TaskStatus.ready })
  add_ready cur
  copytrapfp fp
  copy_mmu_state
  schedule

-- The writes of SUSPEND to a task, and what follows if the task is the current one.
unfoldable pub suspend_task : Frame → (cur task : ℕ) → Cmd ℤ
suspend_task fp cur task = do
  level ← setpl7
  remove_ready task
  modify_task task (λ t. record t { status = TaskStatus.susp })
  add_susp task
  if task == cur then (do copytrapfp fp; copy_mmu_state; schedule) else (do setpl level; pure eok)

unfoldable pub svc_suspend : Frame → Ptr → Cmd ℤ
svc_suspend fp task = do
  cur ← current
  let target : ℕ = elim task [ none ↦ cur | some p ↦ p ]
  λ k.
      let mine = (k.tct cur).task in
      if operprv mine.privileges || mine.uic == (k.tct target).uic
      then suspend_task fp cur target k
      else ok enopriv k

unfoldable pub check_quantums : Frame → Cmd (Unit {0})
check_quantums fp k =
    if ltb 0 k.readyq.count then (do setpl7; copytrapfp fp; muxx_yield; schedule) k else ok tt k

-- `utimeticks++`, and `clockTicks++` of the current task if there is one.
unfoldable pub count_tick : Kernel → Kernel
count_tick k = elim k.curtcb [
  | none ↦ record k { utimeticks = (k.utimeticks + 1) % 2 ^ 32 }
  | some cur ↦ record k {
    utimeticks = (k.utimeticks + 1) % 2 ^ 32;
    tct = update k.tct cur (record (k.tct cur) {
      task = record (k.tct cur).task { clock_ticks = ((k.tct cur).clock_ticks + 1) % 2 ^ 32 };
    });
  }
]

-- `--clkcountdown <= 0` on a `WORD`.
unfoldable pub count_down : Kernel → ℕ
count_down k = (k.clkcountdown + 65535) % 2 ^ 16

unfoldable pub clock_handler : Frame → Cmd (Unit {0})
clock_handler fp k =
    let left = count_down k in
    let k' = count_tick k in
    if left == 0
    then check_quantums fp (record k' { clkcountdown = k.clkquantum })
    else ok tt (record k' { clkcountdown = left })
