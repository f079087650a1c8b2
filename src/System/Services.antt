-- ===== src/System/Services.antt =====
-- The services that leave the queues and the tables of tasks and memory.
use muxx.Prelude.{
  ℕ, ◌≡◌, ◌≢◌, refl, ◌∙◌, none, some, List, arith, true, false, not, ◌||◌, ◌&&◌, ◌==◌, inl, inr,
  ◌⊎◌, Bool, Bool-cases, Option-cases, ltb, leb, if◌then◌else◌, update, ◌≤◌, length,
}
use muxx.Prelude.Int.{ℤ, same}
use muxx.Config.{max_drv, mut_alloc, mut_dealloc, mut_drv}
use muxx.Errors.{eok, einvval, enopriv, etctfull, enotfound}
use muxx.Types.{Ptr, DrvDesc, DrvCb, operprv, auditprv}
use muxx.Kernel.{Kernel, Run, ok, and_then, ◌>>◌, pure}
use muxx.Channel.Wired.{KeepsDrivers, IsWired-kept, IsWired-registered}
use muxx.Sched.{Frame}
use muxx.Mutex.{svc_mutex}
use muxx.Driver.{find_driver, svc_alloc, alloc_driver}
use muxx.Driver.Owner.{alloc_driver-result, alloc_result}
use muxx.Driver.Register.{
  svc_drvreg, find_free_driver, install_isrs, AreVectors, isrs_fit-AreVectors,
}
use muxx.Task.{svc_protmem, svc_gettpi, findtcb, is_prot, protect}
use muxx.System.Locks.{Quietly, Quiet-of_fields, Quiet-refl, svc_mutex-Settles}

-- What DRV_ALLOC and DRV_DEALLOC change.
abbrev pub Allocates : Kernel → Run ℤ → Type 0
Allocates k r =
    (rc : ℤ) × (level : ℕ) × (ms : ℕ → ℕ) × (ds : ℕ → DrvCb) × KeepsDrivers k.drvcbt ds
    × (r ≡ ok rc (record k { ipl = level; mutexes = ms; drvcbt = ds }))

alloc_result-kept :
    (ds : ℕ → DrvCb) (d op c : ℕ) (privileged : Bool)
    → KeepsDrivers ds (update ds d (alloc_result c privileged op (ds d)).1)
alloc_result-kept ds d op c privileged i = (ground arith, ground arith)

-- With the mutex: the device, and then the mutex is released, or that is refused.
with_mutex-Allocates :
    (fp : Frame) (k : Kernel) (d op c level : ℕ) (ms : ℕ → ℕ)
    → k.curtcb ≡ some c
    → Allocates k (
        and_then
          (alloc_driver d op (record k { ipl = level; mutexes = ms }))
          (λ rc. svc_mutex fp mut_drv mut_dealloc >> pure rc))
with_mutex-Allocates fp k d op c level ms cur =
    let k1 : Kernel = record k { ipl = level; mutexes = ms } in
    let (rc, b) = alloc_result c (operprv (k.tct c).privileges) op (k.drvcbt d) in
    let k2 : Kernel = record k1 { drvcbt = update k.drvcbt d b } in
    let step = alloc_driver-result d op c k1 cur in
    let (rc1, level1, ms1, given) =
      svc_mutex-Settles fp k2 c mut_drv mut_dealloc cur (omega arith) in
    (
      rc,
      level1,
      ms1,
      update k.drvcbt d b,
      alloc_result-kept k.drvcbt d op c _,
      rw (step, given) refl,
    )

pub svc_alloc-Allocates :
    (fp : Frame) (k : Kernel) (name : List ℕ) (op c : ℕ)
    → k.curtcb ≡ some c
    → Allocates k (svc_alloc fp name op k)
unfolding svc_alloc
svc_alloc-Allocates fp k name op c cur = elim (Option-cases (find_driver name k)) [
  | inl missing ↦
      (enotfound, k.ipl, k.mutexes, k.drvcbt, λ i. (refl, refl), rw (missing, svc_alloc) refl)
  | inr (d, found) ↦
      let (rc, level, ms, taken) = svc_mutex-Settles fp k c mut_drv mut_alloc cur (omega arith) in
      elim (Bool-cases (same rc eok)) [
        | inl got ↦
            rw (found, svc_alloc, taken, got) (with_mutex-Allocates fp k d op c level ms cur)
        | inr refused ↦
            (rc, level, ms, k.drvcbt, λ i. (refl, refl), rw (found, svc_alloc, taken, refused) refl)
      ]
]

pub svc_alloc-Quietly :
    (fp : Frame) (k : Kernel) (name : List ℕ) (op c : ℕ)
    → k.curtcb ≡ some c
    → Quietly k (svc_alloc fp name op k)
svc_alloc-Quietly fp k name op c cur =
    let (rc, level, ms, ds, kept, e) = svc_alloc-Allocates fp k name op c cur in
    (
      rc,
      _,
      e,
      Quiet-of_fields k level ms ds k.vectors k.memory (IsWired-kept k.drvcbt ds k.iott kept),
    )

pub svc_drvreg-Quietly :
    (fp : Frame) (k : Kernel) (name : List ℕ) (desc : DrvDesc) (handler : Ptr) (c : ℕ)
    → k.curtcb ≡ some c
    → length desc.isrtable ≤ 4
    → AreVectors desc.isrtable
    → Quietly k (svc_drvreg fp name desc handler k)
unfolding svc_drvreg
svc_drvreg-Quietly fp k name desc handler c cur few vectors =
    elim (Bool-cases (operprv (k.tct c).privileges)) [
      | inr unprivileged ↦ (enopriv, k, rw (cur, unprivileged) refl, Quiet-refl k)
      | inl privileged ↦ elim (Option-cases (find_free_driver max_drv 0 k.drvcbt)) [
        | inl full ↦ (etctfull, k, rw (cur, privileged, full, svc_drvreg) refl, Quiet-refl k)
        | inr (i, slot) ↦ (
          eok,
          record k {
            drvcbt = update k.drvcbt i (record (k.drvcbt i) {
              drvname = name;
              desc = some desc;
              free = false;
              loaded = true;
              stopped = true;
              taskid = handler;
            });
            vectors = install_isrs desc.isrtable k.vectors;
          },
          rw (cur, privileged, slot, svc_drvreg, isrs_fit-AreVectors 4 desc.isrtable few vectors)
              refl,
          Quiet-of_fields k k.ipl k.mutexes _ _ k.memory
              (IsWired-registered k.drvcbt k.iott i _ desc refl),
        )
      ]
    ]

pub svc_gettpi-Quietly :
    (fp : Frame) (k : Kernel) (pid c : ℕ)
    → k.curtcb ≡ some c
    → findtcb pid k ≢ none
    → Quietly k (svc_gettpi fp pid k)
unfolding svc_gettpi
svc_gettpi-Quietly fp k pid c cur known = elim (Bool-cases (pid == 0)) [
  | inl own ↦
      let mine : ((k.tct c).uic == (k.tct c).uic) ≡ true = ground arith in
      ((eok, some (k.tct c)), k, rw (own, cur, mine) refl, Quiet-refl k)
  | inr other ↦ elim (Option-cases (findtcb pid k)) [
    | inl unknown ↦ absurd (known unknown)
    | inr (s, found) ↦
        let mine = k.tct c in
        elim (Bool-cases
          ((k.tct s).uic == mine.uic || operprv mine.privileges || auditprv mine.privileges)) [
            | inl told ↦ ((eok, some (k.tct s)), k, rw (other, found, cur, told) refl, Quiet-refl k)
            | inr kept ↦ ((enopriv, none), k, rw (other, found, cur, kept) refl, Quiet-refl k)
          ]
  ]
]

protect-Quietly : (k : Kernel) (task page prot : ℕ) → Quietly k (protect task page prot k)
unfolding protect
protect-Quietly k task page prot = (
  _,
  _,
  refl,
  record {
    tables = record {
      pids = λ y. ground arith;
      topspid = refl;
      maxspid = refl;
      minupid = refl;
      topupid = refl;
      maxupid = refl;
      curtasks = refl;
      mmcbt = refl;
      wired = λ w. w;
    };
    current = refl;
    ready = refl;
    suspended = refl;
    links = λ y. ground arith;
  },
)

-- PROTMEM is refused, or it finds no task, or it changes a page.
svc_protmem-cases :
    (fp : Frame) (k : Kernel) (pid page prot c : ℕ)
    → k.curtcb ≡ some c
    → ((rc : ℤ) × (svc_protmem fp pid page prot k ≡ ok rc k))
      ⊎ ((task : ℕ) × (svc_protmem fp pid page prot k ≡ protect task page prot k))
unfolding svc_protmem
svc_protmem-cases fp k pid page prot c cur = elim (Bool-cases (is_prot prot)) [
  | inr unknown ↦ inl (einvval, rw unknown refl)
  | inl known ↦
      let mine = k.tct c in
      elim (Bool-cases (not (pid == mine.pid) && not (pid == 0) && not (operprv mine.privileges))) [
        | inl other ↦ inl (enopriv, rw (known, cur, other) refl)
        | inr own ↦ elim (Bool-cases (ltb 7 page)) [
          | inl beyond ↦ inl (einvval, rw (known, cur, own, beyond) refl)
          | inr within ↦ elim (Bool-cases (leb page 2 && not (operprv mine.privileges))) [
            | inl shared ↦ inl (enopriv, rw (known, cur, own, within, shared) refl)
            | inr allowed ↦ elim (Option-cases (if pid == 0 then k.curtcb else findtcb pid k)) [
              | inl missing ↦
                  inl (enotfound, ground (arith, known, cur, own, within, allowed, missing))
              | inr (task, found) ↦
                  inr (task, ground (arith, known, cur, own, within, allowed, found))
            ]
          ]
        ]
      ]
]

pub svc_protmem-Quietly :
    (fp : Frame) (k : Kernel) (pid page prot c : ℕ)
    → k.curtcb ≡ some c
    → Quietly k (svc_protmem fp pid page prot k)
svc_protmem-Quietly fp k pid page prot c cur = elim (svc_protmem-cases fp k pid page prot c cur) [
  | inl (rc, e) ↦ (rc, k, e, Quiet-refl k)
  | inr (task, e) ↦
      let (rc, k', step, q) = protect-Quietly k task page prot in (rc, k', e ∙ step, q)
]
