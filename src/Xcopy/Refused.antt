-- ===== src/Xcopy/Refused.antt =====
-- XCOPY of a task that the caller has no right to.
use muxx.Prelude.{ℕ, ◌≡◌, ◌<◌, refl, true, false, ◌&&◌, ◌==◌, some, arith, inl, inr, ◌⊎◌}
use muxx.Prelude.Int.{ℤ}
use muxx.Errors.{enopriv}
use muxx.Kernel.{Kernel, Run, ok, pure, and_then, ◌>>◌, current-eq, setpl}
use muxx.Sched.{Frame}
use muxx.Task.{findtcb}
use muxx.Xcopy.{may_read, may_write, task_of, checked_copy, Memcpy, svc_xcopy}

pub checked_copy-refused :
    (c src dst dstpid dstaddr srcpid srcaddr size : ℕ) (k1 : Kernel)
    → k1.curtcb ≡ some c
    → task_of srcpid k1 ≡ some src
    → (may_read k1 c src ≡ false)
      ⊎ ((may_read k1 c src ≡ true) × (task_of dstpid k1 ≡ some dst) × (may_write k1 c dst ≡ false))
    → checked_copy dstpid dstaddr srcpid srcaddr size k1 ≡ ok enopriv k1
unfolding checked_copy
checked_copy-refused c src dst dstpid dstaddr srcpid srcaddr size k1 cur1 s (inl r) =
    rw (s, current-eq k1 c cur1, r) refl
checked_copy-refused c src dst dstpid dstaddr srcpid srcaddr size k1 cur1 s (inr (r, d, w)) =
    rw (s, current-eq k1 c cur1, r, d, w) refl

module _ (memcpy : Memcpy) (fp : Frame) (k : Kernel)
    (c src dst dstpid dstaddr srcpid srcaddr size : ℕ) (some_bytes : 0 < size)
    (other : ((dstpid == 0) && (srcpid == 0)) ≡ false) (cur : k.curtcb ≡ some c) where
  svc_xcopy-checked :
      (r : Run ℤ)
      → checked_copy dstpid dstaddr srcpid srcaddr size (record k { ipl = 7 }) ≡ r
      → svc_xcopy memcpy fp dstpid dstaddr srcpid srcaddr size k
        ≡ and_then r (λ rc. do setpl k.ipl; pure rc)
  unfolding svc_xcopy
  svc_xcopy-checked r e =
      let used : (size == 0) ≡ false = ground (arith, some_bytes) in rw (used, other, e) refl

  -- A caller that may not read the source, or not write the destination, gets ENOPRIV, and
  -- nothing changes.
  pub svc_xcopy-refused :
      task_of srcpid k ≡ some src
      → (may_read k c src ≡ false)
        ⊎ ((may_read k c src ≡ true) × (task_of dstpid k ≡ some dst) × (may_write k c dst ≡ false))
      → svc_xcopy memcpy fp dstpid dstaddr srcpid srcaddr size k ≡ ok enopriv k
  unfolding findtcb
  svc_xcopy-refused s why = svc_xcopy-checked _ (
      checked_copy-refused c src dst dstpid dstaddr srcpid srcaddr size (record k { ipl = 7 }) cur s
        why)
