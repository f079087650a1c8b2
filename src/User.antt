-- ===== src/User.antt =====
-- The user's calls on channels, which run in a task and use the channel table of its TUCB:
-- lib/sys/lib_openclose.c, lib_readwrite.c and lib_getpid.c. The traps in between are left out.
pub mod Files
pub mod Wait
pub mod Loader
pub mod Image
pub mod Conio
pub mod Shell
use muxx.Prelude.{
  ℕ, zero, suc, ◌+◌, Bool, true, false, ◌||◌, Option, none, some, List, ltb, if◌then◌else◌, update,
}
use muxx.Prelude.Int.{ℤ, pos, negsuc, same, is_neg, pos_part}
use muxx.Config.{iot_tentries}
use muxx.Errors.{eok, einvval, enosysres, enotopen}
use muxx.Types.{Ptr, Tcb}
use muxx.Kernel.{
  Kernel, Run, ok, fault, Cmd, pure, and_then, ◌>>=◌, ◌>>◌, deref, current, set_errno,
}
use muxx.Sched.{Frame}
use muxx.Driver.Exec.{Callback}
use muxx.Channel.{get_errno, svc_open, svc_close}
use muxx.Transfer.{svc_read, svc_write}
use muxx.Task.{svc_gettpi}

abbrev pub set_channel : (cur fd : ℕ) → Ptr → Cmd (Unit {0})
set_channel cur fd io k =
    ok tt (record k { channels = update k.channels cur (update (k.channels cur) fd io) })

-- The first descriptor without a channel.
unfoldable pub first_free_fd : (left fd : ℕ) → (ℕ → Ptr) → Ptr
first_free_fd zero fd t = none
first_free_fd (suc left) fd t =
    let rest = first_free_fd left (suc fd) t in elim (t fd) [ none ↦ some fd | some io ↦ rest ]

unfoldable pub open_fd : (one_bit : Bool) → Frame → List ℕ → (cur fd : ℕ) → Cmd ℤ
open_fd one_bit fp name cur fd k =
    and_then (svc_open one_bit fp name k) (λ io. elim io [
      | none ↦ get_errno
      | some c ↦ (do set_channel cur fd (some c); pure (pos fd))
    ])

unfoldable pub lib_open : (one_bit : Bool) → Frame → List ℕ → Cmd ℤ
lib_open one_bit fp name = do
  cur ← current
  set_errno eok
  λ k. elim (first_free_fd iot_tentries 0 (k.channels cur)) [
    | none ↦ and_then (set_errno enosysres k) (λ done. pure enosysres)
    | some fd ↦ open_fd one_bit fp name cur fd k
  ]

unfoldable pub close_fd : Frame → (cur fd : ℕ) → Cmd ℤ
close_fd fp cur fd k = elim (k.channels cur fd) [
  | none ↦ and_then (set_errno enotopen k) (λ done. pure enotopen)
  | some io ↦ and_then (svc_close fp io k) (λ rc.
      if same rc eok then (do set_channel cur fd none; pure rc) else (do set_errno rc; pure rc))
]

-- The bound lets the descriptor behind the table through.
unfoldable pub lib_close : Frame → (fd : ℤ) → Cmd ℤ
lib_close fp fd = do
  cur ← current
  if is_neg fd || ltb iot_tentries (pos_part fd)
      then (do set_errno einvval; pure einvval)
      else close_fd fp cur (pos_part fd)

module _ (call : Callback) where
  unfoldable pub lib_write : Frame → (fd size : ℕ) → (ℕ → ℕ) → Cmd ℕ
  lib_write fp fd size buffer = do
    cur ← current
    io ← λ k. deref (k.channels cur fd) k
    svc_write call fp io size buffer

  unfoldable pub lib_read : Frame → (fd size : ℕ) → (ℕ → ℕ) → Cmd (ℕ × (ℕ → ℕ))
  lib_read fp fd size buffer = do
    cur ← current
    io ← λ k. deref (k.channels cur fd) k
    svc_read call fp io size buffer

-- GETTPI of 0 names the caller.
unfoldable pub getpid : Frame → Cmd ℤ
getpid fp = do
  (rc, area) ← svc_gettpi fp 0
  if same rc eok then elim area [ none ↦ pure rc | some t ↦ pure (pos t.pid) ] else pure rc
