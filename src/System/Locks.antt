-- ===== src/System/Locks.antt =====
-- Calls that leave the queues and the tables of tasks and memory; the system mutexes are of them.
use muxx.Prelude.{
  ℕ, ◌%◌, ◌^◌, ◌≡◌, ◌≢◌, refl, some, List, ◌==◌, inl, inr, Bool-cases, false, ltb, update, arith,
}
use muxx.Prelude.Int.{ℤ, pos}
use muxx.Config.{mut_mutexes, mut_read, mut_alloc, mut_dealloc}
use muxx.Errors.{eok, einvval, elocked}
use muxx.Types.{DrvCb}
use muxx.Kernel.{Kernel, Run, ok}
use muxx.Channel.Wired.{IsWired}
use muxx.Sched.{Frame}
use muxx.Mutex.{svc_mutex, mutex_alloc, mutex_dealloc}
use muxx.System.{forget}
use muxx.System.Sane.{IsSane, Safe, goes_on, Quiet, IsSane-Quiet}

-- A result, and a state with the same queues and tables.
abbrev pub Quietly : {A : Type 0} → Kernel → Run A → Type 0
Quietly {A} k r = (a : A) × (k' : Kernel) × (r ≡ ok a k') × Quiet k k'

pub Quietly-Safe :
    {A : Type 0} (k : Kernel) (c : ℕ) (xs ss : List ℕ) (r : Run A)
    → IsSane k c xs ss
    → Quietly k r
    → Safe (forget r)
Quietly-Safe k c xs ss r s (a, k', e, q) = rw e (goes_on (c, xs, ss, IsSane-Quiet k k' c xs ss q s))

-- Other fields than the queues and the tables may change.
pub Quiet-of_fields :
    (k : Kernel) (level : ℕ) (ms : ℕ → ℕ) (ds : ℕ → DrvCb) (vs b : ℕ → ℕ)
    → (IsWired k.drvcbt k.iott → IsWired ds k.iott)
    → Quiet k (record k { ipl = level; mutexes = ms; drvcbt = ds; vectors = vs; memory = b })
Quiet-of_fields k level ms ds vs b wired = record {
  tables = record {
    pids = λ y. refl;
    topspid = refl;
    maxspid = refl;
    minupid = refl;
    topupid = refl;
    maxupid = refl;
    curtasks = refl;
    mmcbt = refl;
    wired = wired;
  };
  current = refl;
  ready = refl;
  suspended = refl;
  links = λ y. (refl, refl);
}

pub Quiet-refl : (k : Kernel) → Quiet k k
Quiet-refl k = Quiet-of_fields k k.ipl k.mutexes k.drvcbt k.vectors k.memory (λ w. w)

-- A call on a mutex gives a result, and changes the level and the mutexes at most.
abbrev pub Settles : Kernel → Run ℤ → Type 0
Settles k r =
    (rc : ℤ) × (level : ℕ) × (ms : ℕ → ℕ) × (r ≡ ok rc (record k { ipl = level; mutexes = ms }))

mutex_alloc-Settles : (k : Kernel) (c m : ℕ) → k.curtcb ≡ some c → Settles k (mutex_alloc m k)
unfolding mutex_alloc
mutex_alloc-Settles k c m cur = elim (Bool-cases (k.mutexes m == 0)) [
  | inl free ↦ (eok, k.ipl, update k.mutexes m ((k.tct c).pid % 2 ^ 8), rw (free, cur) refl)
  | inr held ↦ (elocked, 7, k.mutexes, rw held refl)
]

mutex_dealloc-Settles : (k : Kernel) (c m : ℕ) → k.curtcb ≡ some c → Settles k (mutex_dealloc m k)
unfolding mutex_dealloc
mutex_dealloc-Settles k c m cur = elim (Bool-cases (k.mutexes m == (k.tct c).pid)) [
  | inl mine ↦ (eok, k.ipl, update k.mutexes m 0, rw (cur, mine) refl)
  | inr other ↦ (elocked, 7, k.mutexes, rw (cur, other) refl)
]

pub svc_mutex-Settles :
    (fp : Frame) (k : Kernel) (c m op : ℕ)
    → k.curtcb ≡ some c
    → m ≢ mut_mutexes
    → Settles k (svc_mutex fp m op k)
unfolding svc_mutex
svc_mutex-Settles fp k c m op cur ne =
    let inside : (m == mut_mutexes) ≡ false = ground arith in
    elim (Bool-cases (ltb mut_mutexes m)) [
      | inl beyond ↦ (einvval, k.ipl, k.mutexes, rw beyond refl)
      | inr within ↦ elim (Bool-cases (op == mut_read)) [
        | inl reads ↦ (pos (k.mutexes m), k.ipl, k.mutexes, rw (within, reads, inside) refl)
        | inr not_read ↦ elim (Bool-cases (op == mut_alloc)) [
          | inl takes ↦ rw (within, not_read, takes, inside) (mutex_alloc-Settles k c m cur)
          | inr not_take ↦ elim (Bool-cases (op == mut_dealloc)) [
            | inl gives ↦
                rw (within, not_read, not_take, gives, inside) (mutex_dealloc-Settles k c m cur)
            | inr unknown ↦
                (einvval, k.ipl, k.mutexes, rw (within, not_read, not_take, unknown) refl)
          ]
        ]
      ]
    ]

pub svc_mutex-Quietly :
    (fp : Frame) (k : Kernel) (c m op : ℕ)
    → k.curtcb ≡ some c
    → m ≢ mut_mutexes
    → Quietly k (svc_mutex fp m op k)
svc_mutex-Quietly fp k c m op cur ne =
    let (rc, level, ms, e) = svc_mutex-Settles fp k c m op cur ne in
    (rc, _, e, Quiet-of_fields k level ms k.drvcbt k.vectors k.memory (λ w. w))
