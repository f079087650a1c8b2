-- ===== src/Sched/Turn.antt =====
-- Whose turn it is: the running task and the order of the ready ones.
use muxx.Prelude.{ℕ, ◌≡◌, ◌≢◌, refl, ◌∙◌, some, List, ◌∷◌, arith}
use muxx.Config.{TaskStatus}
use muxx.Types.{TaskBlock, Tct, TQueue}
use muxx.Queue.{q_get_task}
use muxx.Queue.Chain.{◌∉◌, IsQueue, IsQueue-links}
use muxx.Queue.Get.{Taken, q_get_task-cons}
use muxx.Kernel.{Kernel, switched, set_task}
use muxx.Channel.Wired.{IsWired}
use muxx.Sched.{muxx_switch, get_ready, schedule}

-- Task `c` runs, and the tasks `xs` are ready, in this order.
pub record IsTurn (k : Kernel) (c : ℕ) (xs : List ℕ) : Type 0 where
  pub current : k.curtcb ≡ some c
  pub ready : IsQueue k.tct k.readyq xs
  pub out : c ∉ xs

-- The tables besides the queues: no number of a task, no counter and no MMCB has changed, and the
-- channels still have drivers if they had.
pub record Tables (k k' : Kernel) : Type 0 where
  pub pids : (y : ℕ) → (k'.tct y).pid ≡ (k.tct y).pid
  pub topspid : k'.topspid ≡ k.topspid
  pub maxspid : k'.maxspid ≡ k.maxspid
  pub minupid : k'.minupid ≡ k.minupid
  pub topupid : k'.topupid ≡ k.topupid
  pub maxupid : k'.maxupid ≡ k.maxupid
  pub curtasks : k'.curtasks ≡ k.curtasks
  pub mmcbt : k'.mmcbt ≡ k.mmcbt
  pub wired : IsWired k.drvcbt k.iott → IsWired k'.drvcbt k'.iott

-- After a change that kept all but the queues, the links and other fields of tasks.
pub Tables-trans : (k j l : Kernel) → Tables k j → Tables j l → Tables k l
Tables-trans k j l a b = record {
  pids = λ y. b.pids y ∙ a.pids y;
  topspid = b.topspid ∙ a.topspid;
  maxspid = b.maxspid ∙ a.maxspid;
  minupid = b.minupid ∙ a.minupid;
  topupid = b.topupid ∙ a.topupid;
  maxupid = b.maxupid ∙ a.maxupid;
  curtasks = b.curtasks ∙ a.curtasks;
  mmcbt = b.mmcbt ∙ a.mmcbt;
  wired = λ w. b.wired (a.wired w);
}

-- A change of the queues and of fields of tasks other than the number.
pub Tables-of_pids :
    (k : Kernel) (level : ℕ) (r q : TQueue) (t : Tct)
    → ((y : ℕ) → (t y).pid ≡ (k.tct y).pid)
    → Tables k (record k { ipl = level; readyq = r; suspq = q; tct = t })
Tables-of_pids k level r q t same = record {
  pids = same;
  topspid = refl;
  maxspid = refl;
  minupid = refl;
  topupid = refl;
  maxupid = refl;
  curtasks = refl;
  mmcbt = refl;
  wired = λ w. w;
}

-- What a change of the turn leaves alone, the tasks `zs` being involved.
pub record Elsewhere (k : Kernel) (zs : List ℕ) (k' : Kernel) : Type 0 where
  pub tables : Tables k k'
  pub links : (y : ℕ) → y ∉ zs → k'.tct y ≡ k.tct y
  pub suspended : k'.suspq ≡ k.suspq

-- Writes to a task's own fields leave every queue as it is.
pub IsQueue-set_task :
    (t : Tct) (q : TQueue) (xs : List ℕ) (i : ℕ) (f : TaskBlock → TaskBlock)
    → IsQueue t q xs
    → IsQueue (set_task i f t) q xs
IsQueue-set_task t q xs i f is = IsQueue-links t (set_task i f t) q xs (λ y. ground arith) is

-- What `muxx_schedule` leaves when `n` is the first of the ready tasks: `n` runs with its memory
-- map, the others are ready in the same order, and all else of the tasks is as before.
pub record Scheduled (k : Kernel) (n : ℕ) (ys : List ℕ) (k' : Kernel) : Type 0 where
  pub turn : IsTurn k' n ys
  pub own : (k'.tct n).task ≡ record (k.tct n).task { status = TaskStatus.run }
  pub map_set : k'.mmu ≡ (k.tct n).mmu_state
  pub same : (y : ℕ) → y ≢ n → (k'.tct y).task ≡ (k.tct y).task
  pub elsewhere : Elsewhere k (n ∷ ys) k'
  pub level : k'.ipl ≡ 7

abbrev run_status : TaskBlock → TaskBlock
run_status t = record t { status = TaskStatus.run }

-- The state in which task `n`, taken from the queue, is switched to.
abbrev handed : Kernel → ℕ → TQueue → Tct → Kernel
handed k n q t = record k {
  ipl = 7;
  readyq = q;
  tct = set_task n run_status t;
  curtcb = some n;
  mmu = (set_task n run_status t n).mmu_state;
}

handed-eq :
    {A : Type 0} (k : Kernel) (n : ℕ) (q : TQueue) (t : Tct)
    → q_get_task k.readyq k.tct ≡ some (n, q, t)
    → schedule {A = A} k ≡ switched (handed k n q t)
unfolding schedule get_ready muxx_switch
handed-eq k n q t got = rw (got, get_ready) refl

handed-Scheduled :
    (k : Kernel) (n : ℕ) (ys : List ℕ) (q : TQueue) (t : Tct)
    → IsQueue k.tct k.readyq (n ∷ ys)
    → Taken k.tct k.readyq n ys q t
    → Scheduled k n ys (handed k n q t)
handed-Scheduled k n ys q t is got = record {
  turn = record {
    current = refl;
    ready = IsQueue-set_task t q ys n run_status got.queue;
    out = is.distinct.0;
  };
  own = ground (arith, got.only n);
  map_set = ground (arith, got.only n);
  same = λ y ne. ground (arith, got.only y);
  elsewhere = record {
    tables = record {
      pids = λ y. ground (arith, got.only y);
      topspid = refl;
      maxspid = refl;
      minupid = refl;
      topupid = refl;
      maxupid = refl;
      curtasks = refl;
      mmcbt = refl;
      wired = λ w. w;
    };
    links = λ y out. ground (arith, got.only y);
    suspended = refl;
  };
  level = refl;
}

-- If a task is ready, `muxx_schedule` switches to the first one.
pub schedule-next :
    {A : Type 0} (k : Kernel) (n : ℕ) (ys : List ℕ)
    → IsQueue k.tct k.readyq (n ∷ ys)
    → (k' : Kernel) × (schedule {A = A} k ≡ switched k') × Scheduled k n ys k'
schedule-next k n ys is =
    let ((q, t), got) = q_get_task-cons k.tct k.readyq n ys is in
    (handed k n q t, handed-eq k n q t got.taken, handed-Scheduled k n ys q t is got)
