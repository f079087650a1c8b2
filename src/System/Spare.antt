-- ===== src/System/Spare.antt =====
-- A task that is in no queue yet: it is made, filled in, and put at the end of the ready queue.
use muxx.Prelude.{ℕ, ◌≡◌, ◌≢◌, refl, ◌∙◌, List, [], ◌∷◌, ◌++◌, arith, inl, inr, Bool-cases, update}
use muxx.Types.{TaskBlock, Tct, TQueue, Mmcbt}
use muxx.Queue.Chain.{◌∈◌, ◌∉◌, has, has-append, IsQueue-frame}
use muxx.Queue.Add.{Added, q_add_task-snoc}
use muxx.Mem.Sound.{IsSound}
use muxx.Kernel.{Kernel, ok}
use muxx.Sched.{add_ready}
use muxx.Sched.Turn.{Tables}
use muxx.Task.Numbers.{IsNumbered, Created}
use muxx.System.Sane.{IsUsed, IsSane, Quiet, IsSane-Quiet, IsNumbered-Tables, IsUsed-Tables}

-- The system is sane, and task `i` is used but neither runs nor waits in a queue.
pub record HasSpare (k : Kernel) (c : ℕ) (xs ss : List ℕ) (i : ℕ) : Type 0 where
  pub sane : IsSane k c xs ss
  pub idle : i ≢ c
  pub unready : i ∉ xs
  pub awake : i ∉ ss
  pub used : IsUsed k i

-- A free element is in no list of tasks.
free-out :
    (k : Kernel) (xs : List ℕ) (i : ℕ)
    → ((y : ℕ) → y ∈ xs → IsUsed k y)
    → (k.tct i).pid ≡ 0
    → i ∉ xs
free-out k xs i used free = elim (Bool-cases (has i xs)) [
  | inl inside ↦ absurd ((used i inside).1 free)
  | inr outside ↦ outside
]

other-IsUsed :
    (k k' : Kernel) (type ppid entry privs i y : ℕ)
    → Created k type ppid entry privs i k'
    → IsUsed k y
    → IsUsed k' y
other-IsUsed k k' type ppid entry privs i y n u =
    let ne : y ≢ i = λ e. u.1 (rw e n.was_free) in (u.0, rw (n.others y ne) u.1)

pub Created-HasSpare :
    (k k' : Kernel) (c : ℕ) (xs ss : List ℕ) (type ppid entry privs i : ℕ)
    → IsSane k c xs ss
    → Created k type ppid entry privs i k'
    → HasSpare k' c xs ss i
Created-HasSpare k k' c xs ss type ppid entry privs i s n =
    let unready : i ∉ xs = free-out k xs i s.ready_used n.was_free in
    let awake : i ∉ ss = free-out k ss i s.suspended_used n.was_free in
    let used : (y : ℕ) → IsUsed k y → IsUsed k' y =
      λ y u. other-IsUsed k k' type ppid entry privs i y n u in
    record {
      sane = record {
        turn = record {
          current = n.kept.current ∙ s.turn.current;
          ready = rw n.kept.ready (
              IsQueue-frame k.tct k'.tct k.readyq xs
                (λ y m. n.others y (λ e. ground (arith, e, unready, m))) s.turn.ready);
          out = s.turn.out;
        };
        suspended = rw n.kept.suspended (
            IsQueue-frame k.tct k'.tct k.suspq ss
              (λ y m. n.others y (λ e. ground (arith, e, awake, m))) s.suspended);
        awake = s.awake;
        apart = s.apart;
        running_used = used c s.running_used;
        ready_used = λ y m. used y (s.ready_used y m);
        suspended_used = λ y m. used y (s.suspended_used y m);
        numbered = n.numbered;
        sound = rw n.kept.mmcbt s.sound;
        few = rw n.kept.curtasks s.few;
        wired = rw (n.kept.drivers, n.kept.channel_table) s.wired;
      };
      idle = λ e. s.running_used.1 (rw (← e) n.was_free);
      unready = unready;
      awake = awake;
      used = (n.inner.1, n.number);
    }

pub HasSpare-Quiet :
    (k k' : Kernel) (c : ℕ) (xs ss : List ℕ) (i : ℕ)
    → Quiet k k'
    → HasSpare k c xs ss i
    → HasSpare k' c xs ss i
HasSpare-Quiet k k' c xs ss i q h = record {
  sane = IsSane-Quiet k k' c xs ss q h.sane;
  idle = h.idle;
  unready = h.unready;
  awake = h.awake;
  used = IsUsed-Tables k k' i q.tables h.used;
}

-- The fields of the task and the MMCBs change, but not the task's number.
abbrev pub refit : Kernel → ℕ → TaskBlock → Mmcbt → Kernel
refit k i b m = record k { tct = update k.tct i (record (k.tct i) { task = b }); mmcbt = m }

IsNumbered-memory : (k : Kernel) (m : Mmcbt) → IsNumbered k → IsNumbered (record k { mmcbt = m })
IsNumbered-memory k m is = record {
  started = is.started;
  sys_range = is.sys_range;
  apart = is.apart;
  user_start = is.user_start;
  user_range = is.user_range;
  users = is.users;
  spids = is.spids;
  upids = is.upids;
  issued = is.issued;
  unique = is.unique;
}

IsSane-memory :
    (k : Kernel) (m : Mmcbt) (c : ℕ) (xs ss : List ℕ)
    → IsSound m
    → IsSane k c xs ss
    → IsSane (record k { mmcbt = m }) c xs ss
IsSane-memory k m c xs ss sound s = record {
  turn = record { current = s.turn.current; ready = s.turn.ready; out = s.turn.out };
  suspended = s.suspended;
  awake = s.awake;
  apart = s.apart;
  running_used = s.running_used;
  ready_used = s.ready_used;
  suspended_used = s.suspended_used;
  numbered = IsNumbered-memory k m s.numbered;
  sound = sound;
  few = s.few;
  wired = s.wired;
}

refit-Quiet :
    (k : Kernel) (i : ℕ) (b : TaskBlock) → b.pid ≡ (k.tct i).pid → Quiet k (refit k i b k.mmcbt)
refit-Quiet k i b same = record {
  tables = record {
    pids = λ y. ground (arith, same);
    topspid = refl;
    maxspid = refl;
    minupid = refl;
    topupid = refl;
    maxupid = refl;
    curtasks = refl;
    mmcbt = refl;
    wired = λ w. w;
  };
  current = refl;
  ready = refl;
  suspended = refl;
  links = λ y. ground arith;
}

pub refit-HasSpare :
    (k : Kernel) (c : ℕ) (xs ss : List ℕ) (i : ℕ) (b : TaskBlock) (m : Mmcbt)
    → HasSpare k c xs ss i
    → b.pid ≡ (k.tct i).pid
    → IsSound m
    → HasSpare (refit k i b m) c xs ss i
refit-HasSpare k c xs ss i b m h same sound =
    let k1 : Kernel = refit k i b k.mmcbt in
    let q : Quiet k k1 = refit-Quiet k i b same in
    record {
      sane = IsSane-memory k1 m c xs ss sound (IsSane-Quiet k k1 c xs ss q h.sane);
      idle = h.idle;
      unready = h.unready;
      awake = h.awake;
      used = IsUsed-Tables k k1 i q.tables h.used;
    }

-- The state with the spare task at the end of the ready queue.
Added-IsSane :
    (k : Kernel) (c : ℕ) (xs ss : List ℕ) (i : ℕ) (q : TQueue) (t : Tct)
    → HasSpare k c xs ss i
    → Added k.tct k.readyq i xs q t
    → IsSane (record k { readyq = q; tct = t }) c (xs ++ i ∷ []) ss
Added-IsSane k c xs ss i q t h a =
    let k1 : Kernel = record k { readyq = q; tct = t } in
    let s = h.sane in
    let tables : Tables k k1 = record {
      pids = λ y. ground (arith, (a.only y).0);
      topspid = refl;
      maxspid = refl;
      minupid = refl;
      topupid = refl;
      maxupid = refl;
      curtasks = refl;
      mmcbt = refl;
      wired = λ w. w;
    } in
    let used : (y : ℕ) → IsUsed k y → IsUsed k1 y = λ y u. IsUsed-Tables k k1 y tables u in
    record {
      turn = record {
        current = s.turn.current;
        ready = a.queue;
        out = ground (arith, has-append c xs (i ∷ []), s.turn.out, h.idle);
      };
      suspended =
          IsQueue-frame k.tct t k.suspq ss
            (λ y m. (a.only y).1 (ground (arith, h.awake, m, s.apart y m))) s.suspended;
      awake = s.awake;
      apart = λ y m. ground (arith, has-append y xs (i ∷ []), s.apart y m, h.awake, m);
      running_used = used c s.running_used;
      ready_used = λ y m. elim (Bool-cases (has y xs)) [
        | inl before ↦ used y (s.ready_used y before)
        | inr new ↦
            let e : y ≡ i = ground (arith, has-append y xs (i ∷ []), new, m) in rw e (used i h.used)
      ];
      suspended_used = λ y m. used y (s.suspended_used y m);
      numbered = IsNumbered-Tables k k1 tables s.numbered;
      sound = s.sound;
      few = s.few;
      wired = s.wired;
    }

-- A spare task can be made ready.
pub add_ready-spare :
    (k : Kernel) (c : ℕ) (xs ss : List ℕ) (i : ℕ)
    → HasSpare k c xs ss i
    → (k' : Kernel) × (add_ready i k ≡ ok tt k')
      × IsSane k' c (xs ++ i ∷ []) ss
      × (k'.memory ≡ k.memory)
unfolding add_ready
add_ready-spare k c xs ss i h =
    let ((q, t), a) = q_add_task-snoc k.tct k.readyq i xs h.sane.turn.ready h.unready in
    (
      record k { readyq = q; tct = t },
      rw (a.added, add_ready) refl,
      Added-IsSane k c xs ss i q t h a,
      refl,
    )
