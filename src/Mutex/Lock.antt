-- ===== src/Mutex/Lock.antt =====
-- Who holds a system mutex.
use muxx.Prelude.{
  ℕ, ◌%◌, ◌^◌, ◌≡◌, ◌≢◌, ◌<◌, ◌≤◌, refl, true, false, some, ◌==◌, ltb, update, arith, fun_ext,
}
use muxx.Config.{mut_mutexes, mut_alloc, mut_dealloc}
use muxx.Errors.{eok, elocked}
use muxx.Kernel.{Kernel, ok}
use muxx.Sched.{Frame}
use muxx.Mutex.{mutex_alloc, mutex_dealloc, svc_mutex}

-- A free mutex of the table is given to the running task: it holds the low byte of the task's number, and the
-- priority level and all the other state are as before.
pub svc_mutex-free :
    (fp : Frame) (m c : ℕ) (k : Kernel)
    → m < mut_mutexes
    → k.curtcb ≡ some c
    → k.mutexes m ≡ 0
    → svc_mutex fp m mut_alloc k
      ≡ ok eok (record k { mutexes = update k.mutexes m ((k.tct c).pid % 2 ^ 8) })
unfolding svc_mutex mutex_alloc
svc_mutex-free fp m c k le cur free =
    let bound : ltb mut_mutexes m ≡ false = ground arith in
    let inside : (m == mut_mutexes) ≡ false = ground arith in rw (bound, inside, free, cur) refl

-- A mutex of the table that is held is not given to anybody, its holder included: only the priority level
-- changes, to 7.
pub svc_mutex-held :
    (fp : Frame) (m : ℕ) (k : Kernel)
    → m < mut_mutexes
    → k.mutexes m ≢ 0
    → svc_mutex fp m mut_alloc k ≡ ok elocked (record k { ipl = 7 })
unfolding svc_mutex mutex_alloc
svc_mutex-held fp m k le held =
    let bound : ltb mut_mutexes m ≡ false = ground arith in
    let inside : (m == mut_mutexes) ≡ false = ground arith in
    let busy : (k.mutexes m == 0) ≡ false = ground arith in rw (bound, inside, busy) refl

pub svc_mutex-mine :
    (fp : Frame) (m c : ℕ) (k : Kernel)
    → m < mut_mutexes
    → k.curtcb ≡ some c
    → k.mutexes m ≡ (k.tct c).pid
    → svc_mutex fp m mut_dealloc k ≡ ok eok (record k { mutexes = update k.mutexes m 0 })
unfolding svc_mutex mutex_dealloc
svc_mutex-mine fp m c k le cur mine =
    let bound : ltb mut_mutexes m ≡ false = ground arith in
    let inside : (m == mut_mutexes) ≡ false = ground arith in
    let held : (k.mutexes m == (k.tct c).pid) ≡ true = ground arith in
    rw (bound, inside, cur, held) refl

-- Nobody but the task whose number the mutex holds can release it.
pub svc_mutex-not-mine :
    (fp : Frame) (m c : ℕ) (k : Kernel)
    → m < mut_mutexes
    → k.curtcb ≡ some c
    → k.mutexes m ≢ (k.tct c).pid
    → svc_mutex fp m mut_dealloc k ≡ ok elocked (record k { ipl = 7 })
unfolding svc_mutex mutex_dealloc
svc_mutex-not-mine fp m c k le cur other =
    let bound : ltb mut_mutexes m ≡ false = ground arith in
    let inside : (m == mut_mutexes) ≡ false = ground arith in
    let held : (k.mutexes m == (k.tct c).pid) ≡ false = ground arith in
    rw (bound, inside, cur, held) refl

pub restored : (m p : ℕ) (f : ℕ → ℕ) → f m ≡ 0 → update (update f m p) m 0 ≡ f
restored m p f free = fun_ext (λ i. ground arith)

-- A task whose number fits into a byte takes a free mutex of the table and releases it: both calls succeed, in
-- between the mutex holds the task's number, and then the kernel's state is as before.
pub svc_mutex-alloc-dealloc :
    (fp fp' : Frame) (m c : ℕ) (k : Kernel)
    → m < mut_mutexes
    → k.curtcb ≡ some c
    → (k.tct c).pid < 256
    → k.mutexes m ≡ 0
    → (k' : Kernel) × (svc_mutex fp m mut_alloc k ≡ ok eok k')
      × (k'.mutexes m ≡ (k.tct c).pid)
      × (svc_mutex fp' m mut_dealloc k' ≡ ok eok k)
svc_mutex-alloc-dealloc fp fp' m c k le cur small free =
    let byte : (k.tct c).pid % 2 ^ 8 ≡ (k.tct c).pid = omega arith in
    let k' : Kernel = record k { mutexes = update k.mutexes m ((k.tct c).pid % 2 ^ 8) } in
    let holds : k'.mutexes m ≡ (k.tct c).pid = ground (arith, byte) in
    (
      k',
      svc_mutex-free fp m c k le cur free,
      holds,
      rw (svc_mutex-mine fp' m c k' le cur holds, restored m ((k.tct c).pid % 2 ^ 8) k.mutexes free)
          refl,
    )

-- A task whose number does not fit into a byte takes a free mutex of the table and cannot release it: the
-- release is refused and the mutex keeps the low byte of the number.
pub svc_mutex-alloc-wide :
    (fp fp' : Frame) (m c : ℕ) (k : Kernel)
    → m < mut_mutexes
    → k.curtcb ≡ some c
    → 256 ≤ (k.tct c).pid
    → k.mutexes m ≡ 0
    → (k' : Kernel) × (svc_mutex fp m mut_alloc k ≡ ok eok k')
      × (k'.mutexes m ≡ (k.tct c).pid % 256)
      × (svc_mutex fp' m mut_dealloc k' ≡ ok elocked (record k' { ipl = 7 }))
svc_mutex-alloc-wide fp fp' m c k le cur wide free =
    let k' : Kernel = record k { mutexes = update k.mutexes m ((k.tct c).pid % 2 ^ 8) } in
    let holds : k'.mutexes m ≡ (k.tct c).pid % 256 = ground arith in
    let byte : k'.mutexes m ≢ (k.tct c).pid = λ e. omega (arith, holds, e) in
    (k', svc_mutex-free fp m c k le cur free, holds, svc_mutex-not-mine fp' m c k' le cur byte)
