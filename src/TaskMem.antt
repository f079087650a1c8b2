-- ===== src/TaskMem.antt =====
-- `muxx_setup_taskmem` of kernel/muxx_memsvc.c: the memory map of a new task. The messages to the
-- console are left out.
pub mod Guard
pub mod Keep
pub mod Protect
pub mod Ends
use muxx.Prelude.{
  ℕ, ◌+◌, ◌-◌, ◌*◌, ◌/◌, ◌%◌, ◌^◌, Bool, true, false, ◌&&◌, ◌||◌, ◌==◌, leb, if◌then◌else◌, update,
}
use muxx.Prelude.Int.{ℤ}
use muxx.Config.{
  sys_task, usr_task, drv_task, tsz_med, tsz_big, tsz_smalls, iot_tentries, drv_bufsiz, pdr_acc_rw,
  pdr_acc_ro, pdr_acc_na, pdr_dir_dn, pdr_siz_1k, pdr_siz_4k, pdr_siz_8k, mmcb_flg_stk,
  mmcb_flg_buf,
}
use muxx.Errors.{eok, enomem, einvval}
use muxx.Types.{MmuState, TaskBlock, operprv, ioprv, auditprv, Mmcbt}
use muxx.Mem.{Grant, null, block, panic2, hung, mem_getblock}

-- How the function ends: it returns a code, with the task and the MMCBs as they then are, or it
-- ends inside `muxx_mem_getblock`.
pub data Setup : Type 0 where
  done : ℤ → TaskBlock → Mmcbt → Setup
  halted : Setup
  endless : Setup

-- The fields of the type word: `& 0000007`, `& 0000070` and `& 0000700`.
abbrev pub type_of : ℕ → ℕ
type_of w = w % 8

abbrev pub task_size : ℕ → ℕ
task_size w = w / 8 % 8 * 8

abbrev pub stack_size : ℕ → ℕ
stack_size w = w / 64 % 8 * 64

-- Page `p` of both modes: `upar[p] = par` and so on, and the same map for user and kernel.
abbrev pub set_pages : (p upar updr kpar kpdr : ℕ) → MmuState → MmuState
set_pages p upar updr kpar kpdr s = record {
  upar = update s.upar p upar;
  updr = update s.updr p updr;
  kpar = update s.kpar p kpar;
  kpdr = update s.kpdr p kpdr;
}

abbrev pub map_page : (p par pdr : ℕ) → TaskBlock → TaskBlock
map_page p par pdr t = record t { mmu_state = set_pages p par pdr par pdr t.mmu_state }

abbrev pub rw_8k : ℕ
rw_8k = pdr_acc_rw + pdr_siz_8k

abbrev pub ro_8k : ℕ
ro_8k = pdr_acc_ro + pdr_siz_8k

-- Kernel common pages (0-2).
abbrev pub common_page : (p par : ℕ) → TaskBlock → TaskBlock
common_page p par t =
    let wpdr = if operprv t.privileges then rw_8k else ro_8k in
    record t { mmu_state = set_pages p par wpdr par rw_8k t.mmu_state }

unfoldable pub common_pages : TaskBlock → TaskBlock
common_pages t = common_page 2 0o400 (common_page 1 0o200 (common_page 0 0 t))

-- What follows a call of `muxx_mem_getblock`: ENOMEM for NULL, and `next` with the address of the
-- chunk otherwise.
unfoldable pub continue : TaskBlock → Mmcbt → Grant → (ℕ → Mmcbt → Setup) → Setup
continue t m null next = done enomem t m
continue t m (block s m') next = next (m'.mmcbt s).block_addr m'
continue t m panic2 next = halted
continue t m hung next = endless

abbrev pub with_block : (fuel n flags page : ℕ) → TaskBlock → Mmcbt → (ℕ → Mmcbt → Setup) → Setup
with_block fuel n flags page t m next = continue t m (mem_getblock fuel t.pid n flags page m) next

-- A page of the task's private space.
abbrev pub private_page : (fuel p : ℕ) → TaskBlock → Mmcbt → (TaskBlock → Mmcbt → Setup) → Setup
private_page fuel p t m next =
    with_block fuel 0o200 0 p t m (λ addr m'. next (map_page p addr rw_8k t) m')

-- The size of a TUCB, rounded up to blocks, and the address of the TUCB below `endalloc`.
abbrev pub tucb_size : ℕ
tucb_size = ((10 + 2 * iot_tentries - 1) / 64 + 1) * 64

abbrev pub set_tucb : (endalloc : ℕ) → TaskBlock → TaskBlock
set_tucb endalloc t = record t { task_tucb = endalloc - tucb_size }

-- IO space, mapped to user mode only for a privileged task.
abbrev pub io_upar : ℕ → ℕ
io_upar w = if ioprv w || operprv w then 0o7600 else if auditprv w then 0o7600 else 0

abbrev pub io_updr : ℕ → ℕ
io_updr w = if ioprv w || operprv w then rw_8k else if auditprv w then ro_8k else pdr_acc_na

unfoldable pub io_page : TaskBlock → TaskBlock
io_page t = record t {
  mmu_state = set_pages 7 (io_upar t.privileges) (io_updr t.privileges) 0o7600 rw_8k t.mmu_state;
}

-- The buffer of a driver task.
unfoldable pub driver_buffer : (fuel : ℕ) → TaskBlock → Mmcbt → Setup
driver_buffer fuel t m =
    if type_of t.task_type == drv_task
    then with_block fuel (drv_bufsiz / 64) mmcb_flg_buf 5 t m
        (λ addr m'. done eok (map_page 4 addr (pdr_acc_rw + pdr_siz_1k) t) m')
    else done eok t m

-- `mcb->blockAddr-0100` as a `WORD`.
abbrev pub stack_par : ℕ → ℕ
stack_par addr = (addr + 2 ^ 16 - 0o100) % 2 ^ 16

unfoldable pub stack_and_io : (fuel : ℕ) → TaskBlock → Mmcbt → Setup
stack_and_io fuel t m = with_block fuel 0o100 mmcb_flg_stk 6 t m (λ addr m'.
    driver_buffer fuel
      (io_page (map_page 6 (stack_par addr) (pdr_acc_rw + pdr_siz_4k + pdr_dir_dn) t)) m')

-- Page 3, and pages 4 and 5 by the task's size.
unfoldable pub private_space : (fuel : ℕ) → TaskBlock → Mmcbt → Setup
private_space fuel t m =
    let size = task_size t.task_type in
    private_page fuel 3 t m (λ t3 m3.
      if size == tsz_big
      then private_page fuel 4 t3 m3 (λ t4 m4.
        private_page fuel 5 t4 m4 (λ t5 m5. stack_and_io fuel (set_tucb (8192 * 6) t5) m5))
      else if size == tsz_med
      then private_page fuel 4 t3 m3 (λ t4 m4. stack_and_io fuel (set_tucb (8192 * 5) t4) m4)
      else stack_and_io fuel (set_tucb (8192 * 4) t3) m3)

-- The combinations of type, size and stack size that are taken.
unfoldable pub is_supported : ℕ → Bool
is_supported w =
    stack_size w == tsz_smalls
    && (type_of w == sys_task
        || type_of w == usr_task
        || (type_of w == drv_task && (if task_size w == tsz_big then false else true)))

unfoldable pub setup_taskmem : (fuel : ℕ) → TaskBlock → Mmcbt → Setup
setup_taskmem fuel t m =
    if is_supported t.task_type then private_space fuel (common_pages t) m else done einvval t m
