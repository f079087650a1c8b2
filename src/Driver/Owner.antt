-- ===== src/Driver/Owner.antt =====
-- Who owns a device: the service ALLOC.
use muxx.Prelude.{
  ℕ, ◌%◌, ◌^◌, ◌≡◌, ◌≢◌, ◌<◌, refl, ◌∙◌, Bool, true, false, not, ◌&&◌, none, some, List, ◌==◌,
  if◌then◌else◌, update, arith,
}
use muxx.Prelude.Int.{ℤ}
use muxx.Config.{mut_drv, drv_alloc, drv_dealloc}
use muxx.Errors.{eok, enopriv, enoavail, enotalloc}
use muxx.Types.{DrvCb, operprv}
use muxx.Kernel.{Kernel, ok}
use muxx.Sched.{Frame}
use muxx.Mutex.Lock.{svc_mutex-free, svc_mutex-mine, restored}
use muxx.Driver.{find_driver, is_owner, alloc_driver, svc_alloc}

-- What ALLOC answers, and the driver then, for the task `c`.
abbrev pub alloc_result : (c : ℕ) (privileged : Bool) (op : ℕ) → DrvCb → ℤ × DrvCb
alloc_result c privileged op b =
    if op == drv_alloc
    then (if b.alloc then (enoavail, b) else (eok, record b { ownerid = some c; alloc = true }))
    else if b.alloc
    then (
      if not (is_owner b.ownerid c) && privileged then enopriv else eok,
      record b { ownerid = none; alloc = false },
    )
    else (enotalloc, b)

pub alloc_driver-result :
    (d op c : ℕ) (k : Kernel)
    → k.curtcb ≡ some c
    → alloc_driver d op k
      ≡ ok (alloc_result c (operprv (k.tct c).privileges) op (k.drvcbt d)).0 (record k {
        drvcbt =
            update k.drvcbt d (alloc_result c (operprv (k.tct c).privileges) op (k.drvcbt d)).1;
      })
unfolding alloc_driver
alloc_driver-result d op c k cur = ground (arith, cur)

abbrev answered : (c d op : ℕ) → Kernel → Kernel
answered c d op k = record k {
  drvcbt = update k.drvcbt d (alloc_result c (operprv (k.tct c).privileges) op (k.drvcbt d)).1;
}

-- ALLOC by a task whose number fits into a byte, the mutex being free: the mutex is free
-- afterwards, and at most the driver is changed.
pub svc_alloc-result :
    (fp : Frame) (name : List ℕ) (d op c : ℕ) (k : Kernel)
    → k.curtcb ≡ some c
    → (k.tct c).pid < 256
    → k.mutexes mut_drv ≡ 0
    → find_driver name k ≡ some d
    → svc_alloc fp name op k
      ≡ ok (alloc_result c (operprv (k.tct c).privileges) op (k.drvcbt d)).0 (answered c d op k)
unfolding svc_alloc
svc_alloc-result fp name d op c k cur small free found =
    let byte : ℕ = (k.tct c).pid % 2 ^ 8 in
    let k1 : Kernel = record k { mutexes = update k.mutexes mut_drv byte } in
    let taken = svc_mutex-free fp mut_drv c k (omega arith) cur free in
    let step = alloc_driver-result d op c k1 cur in
    let holds : k1.mutexes mut_drv ≡ (k.tct c).pid = ground (arith, small) in
    let given = svc_mutex-mine fp mut_drv c (answered c d op k1) (omega arith) cur holds in
    rw (found, svc_alloc, taken, step, given, restored mut_drv byte k.mutexes free) refl

-- With the mutex of the drivers free, a device that another task owns is freed by the DRV_DEALLOC of
-- anybody whose number fits into a byte. Without OPERPRV the caller is told EOK, and with it
-- ENOPRIV; in both cases the device has no owner afterwards, and nothing else has changed.
pub svc_alloc-freed :
    (fp : Frame) (name : List ℕ) (d c owner : ℕ) (k : Kernel)
    → k.curtcb ≡ some c
    → (k.tct c).pid < 256
    → k.mutexes mut_drv ≡ 0
    → find_driver name k ≡ some d
    → (k.drvcbt d).alloc ≡ true
    → (k.drvcbt d).ownerid ≡ some owner
    → owner ≢ c
    → svc_alloc fp name drv_dealloc k
      ≡ ok (if operprv (k.tct c).privileges then enopriv else eok) (record k {
        drvcbt = update k.drvcbt d (record (k.drvcbt d) { ownerid = none; alloc = false });
      })
svc_alloc-freed fp name d c owner k cur small free found taken own other =
    let ne : (owner == c) ≡ false = ground arith in
    svc_alloc-result fp name d drv_dealloc c k cur small free found ∙ rw (taken, own, ne) refl
