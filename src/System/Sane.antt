-- ===== src/System/Sane.antt =====
-- The invariant of the kernel's tables: one task runs, the ready and the suspended queue are
-- queues of other tasks, no task is in both, all of them are tasks of the table, all numbers
-- differ, the chunks of the MMCBs but the I/O page's divide memory, and the open channels have
-- drivers.
use muxx.Prelude.{ℕ, ◌≡◌, ◌≢◌, ◌<◌, ◌≤◌, ◌∙◌, List, ◌∷◌, arith, length, ◌==◌, inl, inr, Bool-cases}
use muxx.Config.{max_tasks}
use muxx.Queue.Chain.{◌∈◌, ◌∉◌, has, IsQueue, IsQueue-frame, IsQueue-links}
use muxx.Queue.Count.{length-le}
use muxx.Mem.Sound.{IsSound}
use muxx.Kernel.{Kernel, Run, ok, switched, halted, hung}
use muxx.Channel.Wired.{IsWired}
use muxx.Sched.Turn.{IsTurn, Tables, Elsewhere}
use muxx.Task.Numbers.{IsNumbered}

-- Task `y` is in use.
abbrev pub IsUsed : Kernel → ℕ → Type 0
IsUsed k y = (y < max_tasks) × ((k.tct y).pid ≢ 0)

-- Task `c` runs, `xs` are ready and `ss` suspended.
pub record IsSane (k : Kernel) (c : ℕ) (xs ss : List ℕ) : Type 0 where
  pub turn : IsTurn k c xs
  pub suspended : IsQueue k.tct k.suspq ss
  pub awake : c ∉ ss
  pub apart : (y : ℕ) → y ∈ ss → y ∉ xs
  pub running_used : IsUsed k c
  pub ready_used : (y : ℕ) → y ∈ xs → IsUsed k y
  pub suspended_used : (y : ℕ) → y ∈ ss → IsUsed k y
  pub numbered : IsNumbered k
  pub sound : IsSound k.mmcbt
  pub few : k.curtasks < max_tasks
  pub wired : IsWired k.drvcbt k.iott

abbrev pub IsSystem : Kernel → Type 0
IsSystem k = (c : ℕ) × (xs : List ℕ) × (ss : List ℕ) × IsSane k c xs ss

-- The kernel goes on with its tables in order, or it has halted, or it looks for memory for ever;
-- it has not used NULL or left a table.
pub data Safe : Run (Unit {0}) → Type 0 where
  goes_on : {k : Kernel} → IsSystem k → Safe (ok tt k)
  hands_over : {k : Kernel} → IsSystem k → Safe (switched k)
  stops : {k : Kernel} → Safe (halted k)
  searches : Safe hung

-- Neither numbers nor memory depend on more than these tables.
pub IsNumbered-Tables : (k k' : Kernel) → Tables k k' → IsNumbered k → IsNumbered k'
IsNumbered-Tables k k' t is = record {
  started = rw t.topspid is.started;
  sys_range = rw (t.topspid, t.maxspid) is.sys_range;
  apart = rw (t.maxspid, t.minupid) is.apart;
  user_start = rw (t.topupid, t.minupid) is.user_start;
  user_range = rw (t.topupid, t.maxupid) is.user_range;
  users = rw (t.minupid, t.maxupid) is.users;
  spids = rw t.maxspid is.spids;
  upids = rw t.maxupid is.upids;
  issued = λ i l. rw (t.topspid, t.minupid, t.topupid, t.pids i) (is.issued i l);
  unique =
      λ i j li lj ne e. is.unique i j li lj (rw (← t.pids i) ne) (rw (← t.pids i, ← t.pids j) e);
}

pub IsUsed-Tables : (k k' : Kernel) (y : ℕ) → Tables k k' → IsUsed k y → IsUsed k' y
IsUsed-Tables k k' y t (l, ne) = (l, rw (t.pids y) ne)

-- The other tasks of a sane system leave room in a queue.
pub ready_length : (k : Kernel) (c : ℕ) (xs ss : List ℕ) → IsSane k c xs ss → length xs ≤ max_tasks
ready_length k c xs ss s =
    length-le max_tasks xs s.turn.ready.distinct (λ y i. (s.ready_used y i).0)

turn-IsUsed :
    (k : Kernel) (c : ℕ) (xs ss : List ℕ) → IsSane k c xs ss → (y : ℕ) → y ∈ c ∷ xs → IsUsed k y
turn-IsUsed k c xs ss s y i = elim (Bool-cases (y == c)) [
  | inl at ↦ let e : y ≡ c = ground (arith, at) in rw e s.running_used
  | inr other ↦ s.ready_used y (ground (arith, other, i))
]

-- A new order of the same running and ready tasks.
pub IsSane-turned :
    (k k' : Kernel) (c n : ℕ) (xs ys ss : List ℕ)
    → IsSane k c xs ss
    → ((y : ℕ) → has y (n ∷ ys) ≡ has y (c ∷ xs))
    → IsTurn k' n ys
    → Elsewhere k (n ∷ ys) k'
    → IsSane k' n ys ss
IsSane-turned k k' c n xs ys ss s same turn e =
    let spared : (y : ℕ) → y ∈ ss → y ∉ n ∷ ys =
      λ y i. ground (arith, same y, s.apart y i, s.awake, i) in
    let used : (y : ℕ) → y ∈ n ∷ ys → IsUsed k' y = λ y i.
      IsUsed-Tables k k' y e.tables (turn-IsUsed k c xs ss s y (ground (arith, same y, i))) in
    record {
      turn = turn;
      suspended =
          rw e.suspended
            (IsQueue-frame k.tct k'.tct k.suspq ss (λ y i. e.links y (spared y i)) s.suspended);
      awake = ground (arith, spared n);
      apart = λ y i. ground (arith, spared y i);
      running_used = used n (ground arith);
      ready_used = λ y i. used y (ground (arith, i));
      suspended_used = λ y i. IsUsed-Tables k k' y e.tables (s.suspended_used y i);
      numbered = IsNumbered-Tables k k' e.tables s.numbered;
      sound = rw e.tables.mmcbt s.sound;
      few = rw e.tables.curtasks s.few;
      wired = e.tables.wired s.wired;
    }

-- A call that leaves the queues, the turn and the tables.
pub record Quiet (k k' : Kernel) : Type 0 where
  pub tables : Tables k k'
  pub current : k'.curtcb ≡ k.curtcb
  pub ready : k'.readyq ≡ k.readyq
  pub suspended : k'.suspq ≡ k.suspq
  pub links :
      (y : ℕ)
      → ((k'.tct y).next_in_queue ≡ (k.tct y).next_in_queue)
        × ((k'.tct y).prev_in_queue ≡ (k.tct y).prev_in_queue)

pub IsSane-Quiet :
    (k k' : Kernel) (c : ℕ) (xs ss : List ℕ) → Quiet k k' → IsSane k c xs ss → IsSane k' c xs ss
IsSane-Quiet k k' c xs ss q s = record {
  turn = record {
    current = q.current ∙ s.turn.current;
    ready = rw q.ready (IsQueue-links k.tct k'.tct k.readyq xs q.links s.turn.ready);
    out = s.turn.out;
  };
  suspended = rw q.suspended (IsQueue-links k.tct k'.tct k.suspq ss q.links s.suspended);
  awake = s.awake;
  apart = s.apart;
  running_used = IsUsed-Tables k k' c q.tables s.running_used;
  ready_used = λ y i. IsUsed-Tables k k' y q.tables (s.ready_used y i);
  suspended_used = λ y i. IsUsed-Tables k k' y q.tables (s.suspended_used y i);
  numbered = IsNumbered-Tables k k' q.tables s.numbered;
  sound = rw q.tables.mmcbt s.sound;
  few = rw q.tables.curtasks s.few;
  wired = q.tables.wired s.wired;
}
