-- ===== src/Xcopy/Kept.antt =====
-- An XCOPY between tasks that exist, within a page of each, changes memory at most.
use muxx.Prelude.{
  ℕ, zero, suc, ◌+◌, ◌%◌, ◌≡◌, ◌≤◌, refl, ◌&&◌, ◌==◌, some, arith, inl, inr, Bool-cases,
}
use muxx.Prelude.Int.{ℤ}
use muxx.Errors.{eok, enopriv}
use muxx.Types.{MmuState}
use muxx.Kernel.{Kernel, Run, ok}
use muxx.Sched.{Frame}
use muxx.Task.{findtcb}
use muxx.Xcopy.{
  Copy, copy_bytes, move_byte, may_read, may_write, task_of, checked_copy, Memcpy, svc_xcopy,
}
use muxx.Xcopy.Loop.{copy_bytes-suc}
use muxx.Xcopy.Copied.{window, begin, copied, copy_pages-restored, checked_copy-allowed}
use muxx.Xcopy.Refused.{checked_copy-refused}

copy_bytes-same_pars :
    (n : ℕ) (m : MmuState) (c : Copy)
    → c.soffset + n ≤ 8192
    → c.doffset + n ≤ 8192
    → ((copy_bytes n m c).par4 ≡ c.par4) × ((copy_bytes n m c).par5 ≡ c.par5)
unfolding copy_bytes
copy_bytes-same_pars zero m c ls ld = (refl, refl)
copy_bytes-same_pars (suc n) m c ls ld =
    rw (copy_bytes-suc n m c (omega (arith, ls)) (omega (arith, ld)))
      (copy_bytes-same_pars n m (move_byte m c) (omega (arith, ls)) (omega (arith, ld)))

-- A code, and a state that differs in memory at most.
abbrev pub KeepsAll : Kernel → Run ℤ → Type 0
KeepsAll k r = (rc : ℤ) × (bytes : ℕ → ℕ) × (r ≡ ok rc (record k { memory = bytes }))

checked_copy-KeepsAll :
    (k : Kernel) (c src dst dstpid dstaddr srcpid srcaddr size : ℕ)
    → k.curtcb ≡ some c
    → task_of srcpid k ≡ some src
    → task_of dstpid k ≡ some dst
    → srcaddr % 8192 + size ≤ 8192
    → dstaddr % 8192 + size ≤ 8192
    → KeepsAll k (checked_copy dstpid dstaddr srcpid srcaddr size k)
checked_copy-KeepsAll k c src dst dstpid dstaddr srcpid srcaddr size cur s d ls ld =
    elim (Bool-cases (may_read k c src)) [
      | inr unreadable ↦ (
        enopriv,
        k.memory,
        checked_copy-refused c src dst dstpid dstaddr srcpid srcaddr size k cur s (inl unreadable),
      )
      | inl readable ↦ elim (Bool-cases (may_write k c dst)) [
        | inr unwritable ↦ (
          enopriv,
          k.memory,
          checked_copy-refused c src dst dstpid dstaddr srcpid srcaddr size k cur s
              (inr (readable, d, unwritable)),
        )
        | inl writable ↦
            let (p4, p5) =
              copy_bytes-same_pars size (window k src dst srcaddr dstaddr) (begin k srcaddr dstaddr)
                ls ld in
            (
              eok,
              (copied k src dst srcaddr dstaddr size).bytes,
              rw
                  (
                    checked_copy-allowed k c src dst dstpid dstaddr srcpid srcaddr size cur s d
                        readable writable,
                    copy_pages-restored k src dst srcaddr dstaddr size p4 p5,
                  )
                  refl,
            )
      ]
    ]

-- For two tasks that exist and bytes that stay in a page of each, XCOPY returns a code, and memory
-- alone can have changed.
pub svc_xcopy-KeepsAll :
    (memcpy : Memcpy) (fp : Frame) (k : Kernel) (c src dst dstpid dstaddr srcpid srcaddr size : ℕ)
    → k.curtcb ≡ some c
    → task_of srcpid k ≡ some src
    → task_of dstpid k ≡ some dst
    → srcaddr % 8192 + size ≤ 8192
    → dstaddr % 8192 + size ≤ 8192
    → KeepsAll k (svc_xcopy memcpy fp dstpid dstaddr srcpid srcaddr size k)
unfolding svc_xcopy findtcb
svc_xcopy-KeepsAll memcpy fp k c src dst dstpid dstaddr srcpid srcaddr size cur s d ls ld =
    let from : (bytes : ℕ → ℕ)
        → KeepsAll (record k { ipl = 7; memory = bytes })
            (checked_copy dstpid dstaddr srcpid srcaddr size
              (record k { ipl = 7; memory = bytes })) =
      λ bytes.
        checked_copy-KeepsAll (record k { ipl = 7; memory = bytes }) c src dst dstpid dstaddr srcpid
          srcaddr size cur s d ls ld in
    elim (Bool-cases (size == 0)) [
      | inl nothing ↦ (eok, k.memory, rw nothing refl)
      | inr some_bytes ↦ elim (Bool-cases ((dstpid == 0) && (srcpid == 0))) [
        | inl own ↦
            let (rc, bytes, e) = from (memcpy k.mmu dstaddr srcaddr size k.memory) in
            (rc, bytes, rw (some_bytes, own, e) refl)
        | inr other ↦
            let (rc, bytes, e) = from k.memory in (rc, bytes, rw (some_bytes, other, e) refl)
      ]
    ]
