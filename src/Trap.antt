-- ===== src/Trap.antt =====
-- The traps: the exception handlers of kernel/muxx_cputrap_svc.c, and the dispatcher of
-- kernel/muxx_systrap_svc.c. Messages are left out.
pub mod Calls
pub mod Dispatch
use muxx.Prelude.{
  ℕ, ◌+◌, ◌*◌, Bool, Option, none, some, List, [], ◌∷◌, ltb, get_elem?, if◌then◌else◌,
}
use muxx.Prelude.Int.{ℤ}
use muxx.Errors.{einvval, enoimpl}
use muxx.Kernel.{Kernel, Run, ok, halted, fault, Cmd, pure, ◌>>=◌, ◌>>◌, panic}
use muxx.Sched.{Frame, copytrapfp, copy_mmu_state}

-- Every handler saves the frame and panics; the MMU's also saves the memory map.
unfoldable pub handle_exception : Frame → Cmd (Unit {0})
handle_exception fp = do copytrapfp fp; panic

abbrev pub handle_cpuerr : Frame → Cmd (Unit {0})
handle_cpuerr = handle_exception

abbrev pub handle_illins : Frame → Cmd (Unit {0})
handle_illins = handle_exception

abbrev pub handle_iot : Frame → Cmd (Unit {0})
handle_iot = handle_exception

abbrev pub handle_buserr : Frame → Cmd (Unit {0})
handle_buserr = handle_exception

abbrev pub handle_fperr : Frame → Cmd (Unit {0})
handle_fperr = handle_exception

unfoldable pub handle_mmuerr : Frame → Cmd (Unit {0})
handle_mmuerr fp = do copytrapfp fp; copy_mmu_state; panic

abbrev pub handle_trace : Frame → Cmd (Unit {0})
handle_trace = handle_exception

abbrev pub handle_power : Frame → Cmd (Unit {0})
handle_power = handle_exception

abbrev pub handle_unimpl : Frame → Cmd (Unit {0})
handle_unimpl = handle_exception

-- The services of the table.
pub data Service : Type 0 where
  muxxhlt creprc unimpl loadprc suspend open_svc close_svc read_svc write_svc mutex yield_svc
        gettpi :
      Service
  exit_svc abort_svc alloc drvreg drvstart drvstop conputc xcopy protmem : Service

abbrev pub trap_table : List Service
trap_table =
    muxxhlt ∷ creprc ∷ unimpl ∷ unimpl ∷ loadprc ∷ unimpl ∷ unimpl ∷ unimpl ∷ suspend ∷ unimpl
    ∷ open_svc ∷ close_svc ∷ unimpl ∷ read_svc ∷ write_svc ∷ unimpl ∷ unimpl ∷ unimpl ∷ unimpl
    ∷ unimpl ∷ unimpl ∷ unimpl ∷ unimpl ∷ unimpl ∷ unimpl ∷ mutex ∷ yield_svc ∷ gettpi ∷ exit_svc
    ∷ abort_svc ∷ alloc ∷ drvreg ∷ unimpl ∷ drvstart ∷ drvstop ∷ unimpl ∷ conputc ∷ unimpl ∷ xcopy
    ∷ protmem ∷ []

-- `sizeof(trap_table)/sizeof(void *())`: forty entries of four bytes, by the size of a function
-- type, which the compiler takes as 1.
abbrev pub trap_table_entries : ℕ
trap_table_entries = 40 * 4

abbrev pub svc_unimpl : Cmd ℤ
svc_unimpl = pure enoimpl

-- The processor stops.
abbrev pub svc_muxxhlt : Cmd ℤ
svc_muxxhlt k = halted k

-- EXIT and ABORT have no `return`: `left` is what the caller then finds as the result.
abbrev pub svc_exit : (left : ℤ) → Frame → (rc : ℕ) → Cmd ℤ
svc_exit left fp rc = do svc_unimpl; pure left

abbrev pub svc_abort : (left : ℤ) → Frame → (rc : ℕ) → Cmd ℤ
svc_abort left fp rc = do svc_unimpl; pure left

-- The dispatcher, `run` being the services with the parameters of the call. A number behind the
-- table makes it call what the memory there says.
unfoldable pub systrap_handler : (run : Service → Cmd ℤ) → (numtrap : ℕ) → Cmd ℤ
systrap_handler run numtrap k =
    if ltb trap_table_entries numtrap
    then ok einvval k
    else elim (get_elem? trap_table numtrap) [ none ↦ fault | some s ↦ run s k ]
