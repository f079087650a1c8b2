-- ===== src/Xcopy/Copied.antt =====
-- An XCOPY that is allowed and stays in a page copies the bytes; one that does not stay in a page
-- ends in a write outside the registers.
use muxx.Prelude.{
  ℕ, ◌+◌, ◌*◌, ◌/◌, ◌%◌, ◌^◌, ◌≡◌, ◌<◌, ◌≤◌, refl, true, false, ◌&&◌, ◌==◌, some, arith, update,
  fun_ext,
}
use muxx.Errors.{eok}
use muxx.Types.{MmuState}
use muxx.Kernel.{Kernel, ok, pure, and_then, ◌>>◌, current-eq, setpl}
use muxx.Sched.{Frame}
use muxx.Task.{findtcb}
use muxx.Xcopy.{
  Copy, copy_bytes, set_kpar, copy_pages, window_pdr, may_read, may_write, task_of, checked_copy,
  Memcpy, svc_xcopy,
}
use muxx.Xcopy.Loop.{IsCopied, AreApart, copy_bytes-IsCopied}

-- Where a task's address lies in physical memory, and the end of its page.
abbrev pub page_start : Kernel → (task addr : ℕ) → ℕ
page_start k task addr = (k.tct task).mmu_state.upar (addr / 8192) * 64

abbrev pub user_address : Kernel → (task addr : ℕ) → ℕ
user_address k task addr = page_start k task addr + addr % 8192

-- `size` bytes from the physical address `start` on lie behind the kernel's three pages, which hold
-- its code and its tables, and before the I/O page with the registers: they are bytes that the
-- model has nowhere but in memory.
abbrev pub IsClear : (start size : ℕ) → Type 0
IsClear start size = (3 * 8192 ≤ start) × (start + size ≤ 0o760000)

-- The kernel's map during the copy.
abbrev pub window : Kernel → (src dst srcaddr dstaddr : ℕ) → MmuState
window k src dst srcaddr dstaddr = record k.mmu {
  kpar =
      update (update k.mmu.kpar 4 ((k.tct src).mmu_state.upar (srcaddr / 8192))) 5
        ((k.tct dst).mmu_state.upar (dstaddr / 8192));
  kpdr = update (update k.mmu.kpdr 4 window_pdr) 5 window_pdr;
}

abbrev pub begin : Kernel → (srcaddr dstaddr : ℕ) → Copy
begin k srcaddr dstaddr = record {
  soffset = srcaddr % 8192;
  doffset = dstaddr % 8192;
  sbyte = 4 * 8192 + srcaddr % 8192;
  dbyte = 5 * 8192 + dstaddr % 8192;
  par4 = 4;
  par5 = 5;
  bytes = k.memory;
}

abbrev pub copied : Kernel → (src dst srcaddr dstaddr size : ℕ) → Copy
copied k src dst srcaddr dstaddr size =
    copy_bytes size (window k src dst srcaddr dstaddr) (begin k srcaddr dstaddr)

-- A register that is set twice and then set back.
set_back : (f : ℕ → ℕ) (x y : ℕ) → update (update (update (update f 4 x) 5 y) 4 (f 4)) 5 (f 5) ≡ f
set_back f x y = fun_ext (λ p. ground arith)

pub copy_pages-restored :
    (k : Kernel) (src dst srcaddr dstaddr size : ℕ)
    → (copied k src dst srcaddr dstaddr size).par4 ≡ 4
    → (copied k src dst srcaddr dstaddr size).par5 ≡ 5
    → copy_pages src dst srcaddr dstaddr size k
      ≡ ok tt (record k { memory = (copied k src dst srcaddr dstaddr size).bytes })
unfolding copy_pages set_kpar
copy_pages-restored k src dst srcaddr dstaddr size p4 p5 =
    rw (p4, p5, set_back k.mmu.kpar _ _, set_back k.mmu.kpdr _ _) refl

-- Once a task is there and the caller may use it, the pages are copied with interrupts off.
pub checked_copy-allowed :
    (k : Kernel) (c src dst dstpid dstaddr srcpid srcaddr size : ℕ)
    → k.curtcb ≡ some c
    → task_of srcpid k ≡ some src
    → task_of dstpid k ≡ some dst
    → may_read k c src ≡ true
    → may_write k c dst ≡ true
    → checked_copy dstpid dstaddr srcpid srcaddr size k
      ≡ (do copy_pages src dst srcaddr dstaddr size; pure eok) k
unfolding checked_copy
checked_copy-allowed k c src dst dstpid dstaddr srcpid srcaddr size cur s d r w =
    rw (s, current-eq k c cur, r, d, w) refl

module _ (memcpy : Memcpy) (fp : Frame) (k : Kernel)
    (c src dst dstpid dstaddr srcpid srcaddr size : ℕ) (some_bytes : 0 < size)
    (other : ((dstpid == 0) && (srcpid == 0)) ≡ false) (cur : k.curtcb ≡ some c)
    (s : task_of srcpid k ≡ some src) (d : task_of dstpid k ≡ some dst)
    (r : may_read k c src ≡ true) (w : may_write k c dst ≡ true) where
  svc_xcopy-allowed :
      svc_xcopy memcpy fp dstpid dstaddr srcpid srcaddr size k
      ≡ and_then
          ((do copy_pages src dst srcaddr dstaddr size; pure eok) (record k { ipl = 7 }))
          (λ rc. do setpl k.ipl; pure rc)
  unfolding svc_xcopy findtcb
  svc_xcopy-allowed =
      let used : (size == 0) ≡ false = ground (arith, some_bytes) in
      rw
        (
          used,
          other,
          checked_copy-allowed (record k { ipl = 7 }) c src dst dstpid dstaddr srcpid srcaddr size
              cur s d r w,
        )
        refl

  pub svc_xcopy-IsCopied :
      srcaddr % 8192 + size ≤ 8192
      → dstaddr % 8192 + size ≤ 8192
      → page_start k src srcaddr + 8192 ≤ 2 ^ 18
      → page_start k dst dstaddr + 8192 ≤ 2 ^ 18
      → AreApart size (user_address k src srcaddr) (user_address k dst dstaddr)
      → IsClear (user_address k src srcaddr) size
      → IsClear (user_address k dst dstaddr) size
      → (after : ℕ → ℕ) × (svc_xcopy memcpy fp dstpid dstaddr srcpid srcaddr size k
          ≡ ok eok (record k { memory = after }))
        × IsCopied size (user_address k src srcaddr) (user_address k dst dstaddr) k.memory after
  svc_xcopy-IsCopied ls ld fs fd apart from to =
      let k1 : Kernel = record k { ipl = 7 } in
      let (bytes, p4, p5) =
        copy_bytes-IsCopied size (window k1 src dst srcaddr dstaddr) (begin k1 srcaddr dstaddr) fs
          fd refl refl ls ld apart in
      (
        (copied k1 src dst srcaddr dstaddr size).bytes,
        rw (svc_xcopy-allowed, copy_pages-restored k1 src dst srcaddr dstaddr size p4 p5) refl,
        bytes,
      )
