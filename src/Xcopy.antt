-- ===== src/Xcopy.antt =====
-- XCOPY of kernel/muxx_xcopy_svc.c: bytes go from one task's memory to another's, through pages 4
-- and 5 of the kernel's map. Memory is apart from the kernel's tables and the page registers, which
-- lie in physical pages 0 to 2 and in the I/O page, and the length of a page is not looked at: the
-- theorems are about copies that stay clear of these, within a page of the destination. The
-- windows for the copy are pages of full length.
pub mod Loop
pub mod Copied
pub mod Refused
pub mod Kept
use muxx.Prelude.{
  ℕ, zero, suc, ◌+◌, ◌-◌, ◌*◌, ◌/◌, ◌%◌, ◌^◌, Bool, true, false, ◌&&◌, ◌||◌, ◌==◌, leb, none, some,
  if◌then◌else◌, update,
}
use muxx.Prelude.Int.{ℤ, same}
use muxx.Config.{pdr_acc_rw, pdr_siz_8k, pdr_dir_up}
use muxx.Errors.{eok, enopriv}
use muxx.Types.{Ptr, MmuState, operprv, auditprv}
use muxx.Kernel.{
  Kernel, Run, ok, fault, Cmd, pure, and_then, ◌>>=◌, ◌>>◌, deref, current, setpl, setpl7,
}
use muxx.Sched.{Frame}
use muxx.Task.{findtcb}

-- The physical address behind a virtual one in kernel mode, of 18 bits.
abbrev pub physical : MmuState → ℕ → ℕ
physical m v = (m.kpar (v / 8192) * 64 + v % 8192) % 2 ^ 18

-- The variables of the loop, and memory; `par4` and `par5` are the numbers of the registers that
-- the pointers designate.
pub record Copy : Type 0 where
  pub soffset : ℕ
  pub doffset : ℕ
  pub sbyte : ℕ
  pub dbyte : ℕ
  pub par4 : ℕ
  pub par5 : ℕ
  pub bytes : ℕ → ℕ

-- At the end of a page the pointers to the registers are moved, not what is in the registers.
abbrev pub next_spage : Copy → Copy
next_spage c =
    if leb 8192 c.soffset
    then record c {
      par4 = c.par4 + 0o200;
      soffset = c.soffset - 8192;
      sbyte = 5 * 8192 + (c.soffset - 8192);
    }
    else c

abbrev pub next_dpage : Copy → Copy
next_dpage c =
    if leb 8192 c.doffset
    then record c {
      par5 = c.par5 + 0o200;
      doffset = c.doffset - 8192;
      dbyte = 6 * 8192 + (c.doffset - 8192);
    }
    else c

abbrev pub move_byte : MmuState → Copy → Copy
move_byte m c = record c {
  bytes = update c.bytes (physical m c.dbyte) (c.bytes (physical m c.sbyte));
  sbyte = c.sbyte + 1;
  dbyte = c.dbyte + 1;
  soffset = c.soffset + 1;
  doffset = c.doffset + 1;
}

-- The loop, with `left` bytes still to go.
unfoldable pub copy_bytes : (left : ℕ) → MmuState → Copy → Copy
copy_bytes zero m c = c
copy_bytes (suc left) m c = copy_bytes left m (move_byte m (next_dpage (next_spage c)))

-- `*par4 = …` and `*pdr4 = …`; there are eight registers.
unfoldable pub set_kpar : (register value : ℕ) → Cmd (Unit {0})
set_kpar register value k =
    if leb register 7
    then ok tt (record k { mmu = record k.mmu { kpar = update k.mmu.kpar register value } })
    else fault

abbrev pub set_kpdr : (register value : ℕ) → Cmd (Unit {0})
set_kpdr register value k =
    ok tt (record k { mmu = record k.mmu { kpdr = update k.mmu.kpdr register value } })

abbrev pub window_pdr : ℕ
window_pdr = pdr_acc_rw + pdr_siz_8k + pdr_dir_up

-- The pages of the two tasks at pages 4 and 5, the loop, and the registers as they were.
unfoldable pub copy_pages : (src dst srcaddr dstaddr size : ℕ) → Cmd (Unit {0})
copy_pages src dst srcaddr dstaddr size k =
    let c : Copy = record {
      soffset = srcaddr % 8192;
      doffset = dstaddr % 8192;
      sbyte = 4 * 8192 + srcaddr % 8192;
      dbyte = 5 * 8192 + dstaddr % 8192;
      par4 = 4;
      par5 = 5;
      bytes = k.memory;
    } in
    (do
      set_kpar 4 ((k.tct src).mmu_state.upar (srcaddr / 8192))
      set_kpar 5 ((k.tct dst).mmu_state.upar (dstaddr / 8192))
      set_kpdr 4 window_pdr
      set_kpdr 5 window_pdr
      λ k1.
          let c1 : Copy = copy_bytes size k1.mmu c in
          (do
            λ k2. ok tt (record k2 { memory = c1.bytes })
            set_kpar c1.par4 (k.mmu.kpar 4)
            set_kpar c1.par5 (k.mmu.kpar 5)
            set_kpdr 4 (k.mmu.kpdr 4)
            set_kpdr 5 (k.mmu.kpdr 5))
            k1)
      k

abbrev pub may_read : Kernel → (cur src : ℕ) → Bool
may_read k cur src =
    ((k.tct src).uic == (k.tct cur).uic)
    || operprv (k.tct cur).privileges
    || auditprv (k.tct cur).privileges

abbrev pub may_write : Kernel → (cur dst : ℕ) → Bool
may_write k cur dst = ((k.tct dst).uic == (k.tct cur).uic) || operprv (k.tct cur).privileges

abbrev pub task_of : ℕ → Kernel → Ptr
task_of pid k = if pid == 0 then k.curtcb else findtcb pid k

-- The checks overwrite the code ENOPID that the search for the tasks leaves, so a task that does
-- not exist is used through NULL.
unfoldable pub checked_copy : (dstpid dstaddr srcpid srcaddr size : ℕ) → Cmd ℤ
checked_copy dstpid dstaddr srcpid srcaddr size k =
    (do
      src ← deref (task_of srcpid k)
      cur ← current
      if may_read k cur src
          then (do
            dst ← deref (task_of dstpid k)
            if may_write k cur dst
                then (do copy_pages src dst srcaddr dstaddr size; pure eok)
                else pure enopriv)
          else pure enopriv)
      k

-- `memcpy` is the library's: it gives memory as it is after a copy in the kernel's map.
abbrev pub Memcpy : Type 0
Memcpy = MmuState → (dst src n : ℕ) → (ℕ → ℕ) → ℕ → ℕ

-- For the own task, the bytes are copied by `memcpy`, and then once more.
unfoldable pub svc_xcopy : Memcpy → Frame → (dstpid dstaddr srcpid srcaddr size : ℕ) → Cmd ℤ
svc_xcopy memcpy fp dstpid dstaddr srcpid srcaddr size k =
    if size == 0
    then ok eok k
    else (do
      λ k1. ok tt (
          if (dstpid == 0) && (srcpid == 0)
          then record k1 { memory = memcpy k1.mmu dstaddr srcaddr size k1.memory }
          else k1)
      level ← setpl7
      rc ← checked_copy dstpid dstaddr srcpid srcaddr size
      setpl level
      pure rc)
        k
