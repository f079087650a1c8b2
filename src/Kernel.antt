-- ===== src/Kernel.antt =====
-- The kernel's global state (kernel/muxx_static.c, h/externals.h, h/SCB.s), commands on it, and
-- the small operations that the system services share.
use muxx.Prelude.{ℕ, ◌≡◌, ap, none, some, List, update}
use muxx.Prelude.Int.{ℤ}
use muxx.Types.{Ptr, MmuState, TaskBlock, Tct, TQueue, Mmcbt, DrvCb, Iote, Iopkt}

pub record Kernel : Type 0 where
  pub tct : Tct
  pub curtcb : Ptr
  pub readyq : TQueue
  pub suspq : TQueue
  pub curtasks : ℕ
  pub topspid : ℕ
  pub minspid : ℕ
  pub maxspid : ℕ
  pub topupid : ℕ
  pub minupid : ℕ
  pub maxupid : ℕ
  -- the tops of the user and the kernel stack
  pub ustackt : ℕ
  pub kstackt : ℕ
  pub utimeticks : ℕ
  pub clkcountdown : ℕ
  pub clkquantum : ℕ
  -- the priority level of the processor, and the registers of the memory management unit
  pub ipl : ℕ
  pub mmu : MmuState
  pub mmcbt : Mmcbt
  pub drvcbt : ℕ → DrvCb
  pub mutexes : ℕ → ℕ
  pub iott : ℕ → Iote
  -- `t_errno` in the TUCB of each task
  pub t_errno : ℕ → ℤ
  -- `iote` in the TUCB of each task: its channels
  pub channels : ℕ → ℕ → Ptr
  -- the words of the interrupt vectors
  pub vectors : ℕ → ℕ
  -- the calls of device driver callbacks, the last one first
  pub calls : List (ℕ × Iopkt)
  -- the bytes of physical memory
  pub memory : ℕ → ℕ

-- How a call ends. `switched`: the processor runs the task `curtcb` now, and the caller goes on
-- when it is scheduled again. `halted`: panic. `fault`: an access through NULL or outside a
-- table. `hung`: a loop that did not end within the fuel.
pub data Run (A : Type 0) : Type 0 where
  ok : A → Kernel → Run A
  switched : Kernel → Run A
  halted : Kernel → Run A
  fault : Run A
  hung : Run A

abbrev pub Cmd : Type 0 → Type 0
Cmd A = Kernel → Run A

abbrev pub pure : {A : Type 0} → A → Cmd A
pure = ok

module _ {A B : Type 0} where
  abbrev pub and_then : Run A → (A → Cmd B) → Run B
  and_then (ok a k) f = f a k
  and_then (switched k) f = switched k
  and_then (halted k) f = halted k
  and_then fault f = fault
  and_then hung f = hung

  infixl 5 ◌>>=◌ ◌>>◌
  abbrev pub ◌>>=◌ : Cmd A → (A → Cmd B) → Cmd B
  m >>= f = λ k. and_then (m k) f

  abbrev pub ◌>>◌ : Cmd A → Cmd B → Cmd B
  m >> n = m >>= λ _. n

-- kernel/muxx_panic.c: interrupts are off and the dumps are left out.
abbrev pub panic : {A : Type 0} → Cmd A
panic k = halted (record k { ipl = 7 })

-- `*p` for a pointer into a table.
abbrev pub deref : Ptr → Cmd ℕ
deref none k = fault
deref (some i) k = ok i k

-- `curtcb->…`
abbrev pub current : Cmd ℕ
current k = deref k.curtcb k

pub current-eq : (k : Kernel) (c : ℕ) → k.curtcb ≡ some c → current k ≡ ok c k
current-eq k c cur = ap (λ p. deref p k) cur

abbrev pub set_task : ℕ → (TaskBlock → TaskBlock) → Tct → Tct
set_task i f t = update t i (record (t i) { task = f (t i).task })

-- A write to fields of a task.
abbrev pub modify_task : ℕ → (TaskBlock → TaskBlock) → Cmd (Unit {0})
modify_task i f k = ok tt (record k { tct = set_task i f k.tct })

-- kernel/spl.s: the old priority level is returned.
abbrev pub setpl : ℕ → Cmd ℕ
setpl level k = ok k.ipl (record k { ipl = level })

abbrev pub setpl7 : Cmd ℕ
setpl7 = setpl 7

-- `errno = rc`, in the TUCB of the current task.
abbrev pub set_errno : ℤ → Cmd (Unit {0})
set_errno rc = do cur ← current; λ k. ok tt (record k { t_errno = update k.t_errno cur rc })
