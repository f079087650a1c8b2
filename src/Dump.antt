-- ===== src/Dump.antt =====
-- The dumps on the console: kernel/muxx_dumpregs.c, muxx_dumpmmu.c, muxx_dumptcb.c
-- and muxx_panic.c. What
-- `kprintf` returns is not looked at. The addresses of the elements of a table are a parameter.
pub mod Sizes
use Prim.Native.Char.{code}
use Prim.Native.String.{String}
use muxx.Prelude.{
  ℕ, zero, suc, ◌+◌, ◌-◌, ◌*◌, ◌/◌, ◌%◌, ◌^◌, Bool, true, false, List, [], ◌∷◌, ◌++◌, ◌==◌, leb,
  get_or, none, some, if◌then◌else◌,
}
use muxx.Config.{
  max_tasks, TaskStatus, init, ready, blocked, run, susp, dispose, mem_nmcbs, usr_task, sys_task,
  drv_task, tsz_med, tsz_big, tsz_smalls,
}
use muxx.Types.{Ptr, CpuState, MmuState, Mmcb, Tcb, operprv, ioprv, auditprv}
use muxx.TaskMem.{type_of, task_size, stack_size}
use muxx.Mem.{unallocated}
use muxx.Kernel.{Kernel}
use muxx.Xcopy.{physical}
use muxx.Console.{
  Console, Args, Printed, done, beyond, kprintf, kputstr, kputstrz, put_all, digits, ascii_digit,
}

abbrev codes : String → List ℕ
codes String.[] = []
codes (String.◌∷◌ c s) = code c ∷ codes s

abbrev left : Printed → Console
left (done rc s) = s
left (beyond s) = s

-- A call of `kprintf` with words as arguments.
abbrev say : String → (words : List ℕ) → Console → Console
say fmt words s = left (
    kprintf (record { words = λ i. get_or words i 0; text = λ a. []; overflow = λ w. (0, 0) })
      (codes fmt) s)

-- A call of `kputstr` or `kputstrz` with a constant.
abbrev put : String → Console → Console
put text s = (put_all (codes text) s).1

-- One after the other.
infixl 5 ◌>=>◌
abbrev ◌>=>◌ : (Console → Console) → (Console → Console) → Console → Console
(f >=> g) s = g (f s)

-- `kputstr(lastc, 1)` after `itoo`.
abbrev last_digit : ℕ → Console → Console
last_digit w s = (kputstr (ascii_digit (w % 8)) [] s).1

abbrev psw_flag : (psw weight : ℕ) → (set clear : String) → Console → Console
psw_flag psw weight set clear = if psw / weight % 2 == 1 then put set else put clear

unfoldable pub dumpregs : CpuState → Console → Console
dumpregs c =
    say "\n" []
    >=> say " R0=%o, R1=%o, R2=%o, R3=%o\n" (c.gpr 0 ∷ c.gpr 1 ∷ c.gpr 2 ∷ c.gpr 3 ∷ [])
    >=> say " R4=%o, R5=%o, SP=%o, PC=%o\n" (c.gpr 4 ∷ c.gpr 5 ∷ c.sp ∷ c.pc ∷ [])
    >=> say "PSW=%o,USP=%o,SSP=%o,KSP=%o\n" (c.psw ∷ c.usp ∷ c.ssp ∷ c.ksp ∷ [])
    >=> put " CM:"
    >=> last_digit (c.psw / 2 ^ 14)
    >=> put " PM:"
    >=> last_digit (c.psw / 2 ^ 12 % 4)
    >=> put " IPL:"
    >=> last_digit (c.psw / 2 ^ 5 % 8)
    >=> psw_flag c.psw 1 " C+" " C-"
    >=> psw_flag c.psw 2 " V+" " V-"
    >=> psw_flag c.psw 4 " Z+" " Z-"
    >=> psw_flag c.psw 8 " N+" " N-"
    >=> psw_flag c.psw 16 " T+" " T-"
    >=> say "\n" []

-- `(virtual & 0x3FFF) + par * 64`, which is computed in words.
unfoldable pub vtop : (virtual par : ℕ) → ℕ
vtop virtual par = (virtual % 2 ^ 14 + par * 64) % 2 ^ 16

-- The rows of `muxx_dumpmmu`, `more` of them.
unfoldable pub mmu_rows : (more i : ℕ) → MmuState → Console → Console
mmu_rows zero i m s = s
mmu_rows (suc more) i m s =
    mmu_rows more (suc i) m
      (say "%o-%o\t\t%o-%o\n" (m.upar i ∷ m.updr i ∷ m.kpar i ∷ m.kpdr i ∷ []) s)

unfoldable pub dumpmmu : MmuState → Console → Console
dumpmmu m = say "\nSaved MMU status:\n" [] >=> say "USER\t\t\tKERNEL\n" [] >=> mmu_rows 8 0 m

abbrev flag : (word weight : ℕ) → String → Console → Console
flag word weight text s = if word / weight % 2 == 1 then say text [] s else s

-- The two words of a physical address, for `%O`.
abbrev long : ℕ → List ℕ
long n = n / 2 ^ 16 % 2 ^ 16 ∷ n % 2 ^ 16 ∷ []

-- `address` gives the address of an MMCB, or 0 for NULL.
unfoldable pub mmcb_row : (address : Ptr → ℕ) → (i : ℕ) → Mmcb → Console → Console
mmcb_row address i b =
    let start = b.block_addr * 64 in
    say " MMCB=%o ADDR=%o SIZE=%o" (address (some i) ∷ b.block_addr ∷ b.block_size ∷ [])
    >=> (if b.owner_pid == 0
        then say " OWNR=*FREE* PAGE=*NONE*" []
        else say " OWNR=%o PAGE=%o" (b.owner_pid ∷ b.owner_par ∷ []))
    >=> say " NEXT=%o PREV=%o" (address b.next_block ∷ address b.prev_block ∷ [])
    >=> say " PHY=%O:%O" (long start ++ long ((start + b.block_size * 64 + (2 ^ 32 - 1)) % 2 ^ 32))
    >=> flag b.flags 1 " SHR"
    >=> flag b.flags 2 " FIX"
    >=> flag b.flags 4 " PRV"
    >=> flag b.flags 8 " IO "
    >=> flag b.flags 16 " STK"
    >=> flag b.flags 32 " BUF"
    >=> say "\n" []

unfoldable pub mmcb_rows : (address : Ptr → ℕ) → (more i : ℕ) → (ℕ → Mmcb) → Console → Console
mmcb_rows address zero i t s = s
mmcb_rows address (suc more) i t s =
    mmcb_rows address more (suc i) t
      (if (t i).owner_pid == unallocated then s else mmcb_row address i (t i) s)

unfoldable pub dumpmemsvc : (address : Ptr → ℕ) → Kernel → Console → Console
dumpmemsvc address k =
    say "\n*** Memory Management Control Blocks (MMCBs):\n" []
    >=> mmcb_rows address mem_nmcbs 0 k.mmcbt.mmcbt
    >=> say "---\n" []

abbrev status_code : TaskStatus → ℕ
status_code init = 0
status_code ready = 1
status_code blocked = 2
status_code run = 3
status_code susp = 4
status_code dispose = 5

abbrev status_name : TaskStatus → String
status_name init = "INIT"
status_name ready = "READY"
status_name blocked = "BLOCKED"
status_name run = "RUN"
status_name susp = "SUSPENDED"
status_name dispose = "DISPOSE"

unfoldable pub type_name : (type : ℕ) → String
type_name type =
    if type_of type == usr_task
    then "USER    "
    else if type_of type == sys_task
    then "SYSTEM  "
    else if type_of type == drv_task
    then "DRIVER  "
    else "INVALID "

unfoldable pub size_name : (type : ℕ) → String
size_name type =
    if task_size type == 0
    then "SMALL "
    else if task_size type == tsz_med
    then "MED   "
    else if task_size type == tsz_big
    then "BIG   "
    else "INVAL "

-- The stack size is compared with the task sizes.
unfoldable pub stack_name : (type : ℕ) → String
stack_name type =
    if stack_size type == tsz_smalls
    then "SMALLS \n"
    else if stack_size type == tsz_med
    then "MEDS   \n"
    else if stack_size type == tsz_big
    then "BIGS   \n"
    else "INVAL  \n"

-- A word in the kernel's map.
abbrev word_at : Kernel → ℕ → ℕ
word_at k v = k.memory (physical k.mmu v) + 2 ^ 8 * k.memory (physical k.mmu (v + 1))

abbrev stack_word : Kernel → (top addr : ℕ) → Console → Console
stack_word k top addr =
    if leb addr top then say "%o: %o\t" (addr ∷ word_at k addr ∷ []) else say "\t\t" []

unfoldable pub stack_rows : Kernel → (more ksp usp : ℕ) → Console → Console
stack_rows k zero ksp usp s = s
stack_rows k (suc more) ksp usp s =
    stack_rows k more ((ksp + 2) % 2 ^ 16) ((usp + 2) % 2 ^ 16)
      ((stack_word k k.kstackt ksp >=> stack_word k k.ustackt usp >=> say "\n" []) s)

-- The task `i`; `address` gives the address of a task.
unfoldable pub dumptcb : (address : Ptr → ℕ) → Kernel → (i : ℕ) → Console → Console
dumptcb address k i =
    let b = (k.tct i).task in
    say "\nTCB at address %o (" (address (some i) ∷ [])
    >=> (λ s. (put_all b.taskname s).1)
    >=> say ") PID   : %o \n" (b.pid ∷ [])
    >=> say "Status: %o " (status_code b.status ∷ [])
    >=> say (status_name b.status) []
    >=> say "\n" []
    >=> say "Flags : %o " (b.flags ∷ [])
    >=> flag b.flags 1 "SENDING "
    >=> flag b.flags 2 "RECEIVING "
    >=> flag b.flags 4 "SUSPENDED "
    >=> flag b.flags 8 "MSGWAIT "
    >=> say "\n" []
    >=> say "Privs : %o " (b.privileges ∷ [])
    >=> flag b.privileges 1 "OPERPRV "
    >=> flag b.privileges 2 "IOPRV "
    >=> flag b.privileges 4 "AUDITPRV "
    >=> say "\nType  : %o " (b.task_type ∷ [])
    >=> say (type_name b.task_type) []
    >=> say (size_name b.task_type) []
    >=> say (stack_name b.task_type) []
    >=> dumpregs b.cpu_state
    >=> say "\n16 top Kernel/User stack words:\n" []
    >=> say "KERNEL\t\tUSER\n" []
    >=> stack_rows k 15 b.cpu_state.ksp b.cpu_state.usp

-- The tasks of the table that are in use, `more` of them still to come.
unfoldable pub task_rows : (address : Ptr → ℕ) → Kernel → (more i : ℕ) → Console → Console
task_rows address k zero i s = s
task_rows address k (suc more) i s =
    task_rows address k more (suc i)
      (if (k.tct i).pid == 0 then s else dumpmmu (k.tct i).mmu_state (dumptcb address k i s))

-- What `panic` shows before it halts, for a current task `cur`; `task` and `mmcb` give addresses.
unfoldable pub panic_dump :
    (task mmcb : Ptr → ℕ) → Kernel → (cur : ℕ) → (msg : List ℕ) → Console → Console
panic_dump task mmcb k cur msg =
    (λ s. left (
      kprintf (record { words = λ i. 0; text = λ a. msg; overflow = λ w. (0, 0) })
        (codes "System panic!\n%s\n*** Last saved frame:\n") s))
    >=> dumptcb task k cur
    >=> say "\n*** TCBT information:\n" []
    >=> task_rows task k max_tasks 0
    >=> dumpmemsvc mmcb k
    >=> say "\n*** Halting system...\n" []
