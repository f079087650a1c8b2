-- ===== src/Mutex.antt =====
-- The system mutexes: `muxx_svc_mutex` of kernel/muxx_systrap_svc.c. Each is one byte that holds
-- the number of the task that has it, 0 if none has.
pub mod Lock
use muxx.Prelude.{ℕ, ◌%◌, ◌^◌, Bool, true, false, ◌==◌, ltb, if◌then◌else◌, update}
use muxx.Prelude.Int.{ℤ, pos}
use muxx.Config.{mut_mutexes, mut_read, mut_alloc, mut_dealloc}
use muxx.Errors.{eok, einvval, elocked}
use muxx.Kernel.{Kernel, Run, ok, fault, Cmd, pure, ◌>>=◌, ◌>>◌, current, setpl, setpl7}
use muxx.Sched.{Frame}

abbrev pub set_mutex : ℕ → ℕ → Cmd (Unit {0})
set_mutex mutex v k = ok tt (record k { mutexes = update k.mutexes mutex v })

-- The priority level stays at 7 when the mutex is held by another task.
unfoldable pub mutex_alloc : ℕ → Cmd ℤ
mutex_alloc mutex k =
    (do
      level ← setpl7
      if k.mutexes mutex == 0
          then (do cur ← current; set_mutex mutex ((k.tct cur).pid % 2 ^ 8); setpl level; pure eok)
          else pure elocked)
      k

unfoldable pub mutex_dealloc : ℕ → Cmd ℤ
mutex_dealloc mutex k =
    (do
      level ← setpl7
      cur ← current
      if k.mutexes mutex == (k.tct cur).pid
          then (do set_mutex mutex 0; setpl level; pure eok)
          else pure elocked)
      k

-- An access to the byte of a mutex. The bound of the service lets index 16 through, which is not
-- a byte of the table.
abbrev pub in_table : (mutex : ℕ) → Run ℤ → Run ℤ
in_table mutex r = if mutex == mut_mutexes then fault else r

unfoldable pub svc_mutex : Frame → (mutex op : ℕ) → Cmd ℤ
svc_mutex fp mutex op k =
    if ltb mut_mutexes mutex
    then ok einvval k
    else if op == mut_read
    then in_table mutex (ok (pos (k.mutexes mutex)) k)
    else if op == mut_alloc
    then in_table mutex (mutex_alloc mutex k)
    else if op == mut_dealloc
    then in_table mutex (mutex_dealloc mutex k)
    else ok einvval k
