-- ===== src/Types.antt =====
-- The kernel's structures, from h/muxx.h and h/queues.h. A pointer into a table is the index of
-- the element, and `none` is NULL. An array is a function of the index.
use muxx.Prelude.{ℕ, Option, Bool, List, ◌/◌, ◌%◌, ◌==◌}
use muxx.Prelude.Int.{ℤ}
use muxx.Config.{TaskStatus}

abbrev pub Ptr : Type 0
Ptr = Option ℕ

-- `struct CPUSTATE_S`
pub record CpuState : Type 0 where
  pub gpr : ℕ → ℕ
  pub sp : ℕ
  pub pc : ℕ
  pub psw : ℕ
  pub usp : ℕ
  pub ssp : ℕ
  pub ksp : ℕ

-- `struct MMUSTATE_S`, without supervisor mode (CPU_HAS_SUPER is 0).
pub record MmuState : Type 0 where
  pub upar : ℕ → ℕ
  pub updr : ℕ → ℕ
  pub kpar : ℕ → ℕ
  pub kpdr : ℕ → ℕ

-- `struct TCB_S`, less the two queue links; `flags` and `privileges` are the words of their unions.
pub record TaskBlock : Type 0 where
  pub taskname : List ℕ
  pub pid : ℕ
  pub ppid : ℕ
  pub uic : ℕ
  pub status : TaskStatus
  pub flags : ℕ
  pub privileges : ℕ
  pub task_type : ℕ
  pub task_tucb : ℕ
  pub first_child : Ptr
  pub last_child : Ptr
  pub next_sibling : Ptr
  pub cpu_state : CpuState
  pub mmu_state : MmuState
  pub clock_ticks : ℕ
  pub created_timestamp : ℕ
  pub local_flags : ℕ

-- `struct TCB_S`: the links that the queues own, and all else.
pub record Tcb : Type 0 where
  pub task : TaskBlock
  pub open task use *
  pub next_in_queue : Ptr
  pub prev_in_queue : Ptr

-- The fields of `privileges.prvflags`: bits 0, 1 and 2 of the word.
abbrev pub operprv : ℕ → Bool
operprv w = w % 2 == 1

abbrev pub ioprv : ℕ → Bool
ioprv w = w / 2 % 2 == 1

abbrev pub auditprv : ℕ → Bool
auditprv w = w / 4 % 2 == 1

-- `struct TCTA_S`: the table of tasks.
abbrev pub Tct : Type 0
Tct = ℕ → Tcb

-- `struct TQUEUE_S`
pub record TQueue : Type 0 where
  pub head : Ptr
  pub tail : Ptr
  pub count : ℕ

-- `struct MMCB_S`; `flags` is the word of `mmcbFlags`.
pub record Mmcb : Type 0 where
  pub block_addr : ℕ
  pub block_size : ℕ
  pub owner_pid : ℕ
  pub owner_par : ℕ
  pub next_block : Ptr
  pub prev_block : Ptr
  pub flags : ℕ

-- `struct MMCBT_S`
pub record Mmcbt : Type 0 where
  pub num_entries : ℕ
  pub mmcbt : ℕ → Mmcb

-- `struct DRVISR_S`
pub record DrvIsr : Type 0 where
  pub handler : ℕ
  pub vector : ℕ
  pub ilevel : ℕ

-- `struct DRVDESC_S`; the attribute bits as Booleans.
pub record DrvDesc : Type 0 where
  pub callbacks : ℕ → ℕ
  pub shareable : Bool
  pub buffered : Bool
  pub devname : List ℕ
  pub defbufsiz : ℕ
  pub isrtable : List DrvIsr

-- `struct DRVCB_S`; `desc` is the descriptor that the pointer designates.
pub record DrvCb : Type 0 where
  pub drvname : List ℕ
  pub desc : Option DrvDesc
  pub free : Bool
  pub loaded : Bool
  pub active : Bool
  pub stopped : Bool
  pub alloc : Bool
  pub taskid : Ptr
  pub ownerid : Ptr
  pub status : ℕ

-- `struct IOPKT_S`, with an I/O area of one byte, the only size that the kernel uses.
pub record Iopkt : Type 0 where
  pub function : ℕ
  pub error : ℤ
  pub param0 : ℕ
  pub param1 : ℕ
  pub size : ℕ
  pub ioarea : ℕ

-- `struct IOTE_S`; `buffaddr` tells whether there is a buffer.
pub record Iote : Type 0 where
  pub driver : Ptr
  pub open_flag : Bool
  pub eof : Bool
  pub ioerror : Bool
  pub dealloc : Bool
  pub position : ℕ
  pub controller : ℕ
  pub unit : ℕ
  pub error : ℤ
  pub buffaddr : Bool
