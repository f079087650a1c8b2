-- ===== src/Sched/Yield.antt =====
-- YIELD and the end of a quantum: the running task goes to the end of the ready queue, and the
-- first ready task runs.
use muxx.Prelude.{ℕ, ◌≡◌, ◌≢◌, refl, ap, sym, ◌∙◌, some, List, [], ◌∷◌, ◌++◌, arith}
use muxx.Prelude.Int.{ℤ}
use muxx.Config.{TaskStatus}
use muxx.Types.{TaskBlock, Tct, TQueue}
use muxx.Queue.{q_add_task}
use muxx.Queue.Chain.{◌∉◌, has-append, IsQueue, LinksOnly}
use muxx.Queue.Add.{q_add_task-snoc}
use muxx.Kernel.{Kernel, switched, set_task}
use muxx.Sched.{Frame, save_frame, copytrapfp, copy_mmu_state, add_ready, schedule, svc_yield}
use muxx.Sched.Turn.{
  IsTurn, IsQueue-set_task, Scheduled, schedule-next, Elsewhere, Tables-of_pids, Tables-trans,
}

abbrev pub ready_status : TaskBlock → TaskBlock
ready_status t = record t { status = TaskStatus.ready }

-- The state before `muxx_schedule` in `muxx_svc_yield`, the queue operation having given `q`, `t`.
abbrev queued : Frame → Kernel → ℕ → TQueue → Tct → Kernel
queued fp k c q t = record k {
  ipl = 7;
  readyq = q;
  tct =
      set_task c (λ b. record b { mmu_state = k.mmu })
        (set_task c (λ b. record b { cpu_state = save_frame fp b.cpu_state }) t);
}

yield-queued :
    (fp : Frame) (k : Kernel) (c : ℕ) (q : TQueue) (t : Tct)
    → k.curtcb ≡ some c
    → q_add_task k.readyq c (set_task c ready_status k.tct) ≡ some (q, t)
    → svc_yield fp k ≡ schedule (queued fp k c q t)
unfolding svc_yield add_ready copytrapfp copy_mmu_state
yield-queued fp k c q t cur added = rw (cur, added, add_ready) refl

-- What the running task has become after it gave up the processor to `n`.
pub record Yielded (fp : Frame) (k : Kernel) (c n : ℕ) (ys : List ℕ) (k' : Kernel) : Type 0 where
  pub turn : IsTurn k' n ys
  pub status : (k'.tct n).status ≡ TaskStatus.run
  pub map_set : k'.mmu ≡ (k'.tct n).mmu_state
  pub resumed : n ≢ c → (k'.tct n).task ≡ record (k.tct n).task { status = TaskStatus.run }
  pub waiting : n ≢ c → (k'.tct c).status ≡ TaskStatus.ready
  pub cpu_saved : n ≢ c → (k'.tct c).cpu_state ≡ save_frame fp (k.tct c).cpu_state
  pub mmu_saved : n ≢ c → (k'.tct c).mmu_state ≡ k.mmu
  pub same : (y : ℕ) → y ≢ c → y ≢ n → (k'.tct y).task ≡ (k.tct y).task
  pub elsewhere : Elsewhere k (n ∷ ys) k'

abbrev saved : Frame → Kernel → Tct → ℕ → Tct
saved fp k t c =
    set_task c (λ b. record b { mmu_state = k.mmu })
      (set_task c (λ b. record b { cpu_state = save_frame fp b.cpu_state }) t)

Scheduled-Elsewhere :
    (fp : Frame) (k : Kernel) (c n : ℕ) (xs ys : List ℕ) (q : TQueue) (t : Tct) (k' : Kernel)
    → xs ++ c ∷ [] ≡ n ∷ ys
    → LinksOnly (c ∷ xs) (set_task c ready_status k.tct) t
    → Scheduled (queued fp k c q t) n ys k'
    → Elsewhere k (n ∷ ys) k'
Scheduled-Elsewhere fp k c n xs ys q t k' e only s = record {
  tables =
      Tables-trans k (queued fp k c q t) k'
        (Tables-of_pids k 7 q k.suspq _ (λ y. ground (arith, only y))) s.elsewhere.tables;
  links = λ y out.
      let spared : y ∉ xs ++ c ∷ [] = rw e out in
      ground (arith, s.elsewhere.links y out, only y, has-append y xs (c ∷ []), spared);
  suspended = s.elsewhere.suspended;
}

Scheduled-Yielded :
    (fp : Frame) (k : Kernel) (c n : ℕ) (xs ys : List ℕ) (q : TQueue) (t : Tct) (k' : Kernel)
    → xs ++ c ∷ [] ≡ n ∷ ys
    → LinksOnly (c ∷ xs) (set_task c ready_status k.tct) t
    → Scheduled (queued fp k c q t) n ys k'
    → Yielded fp k c n ys k'
Scheduled-Yielded fp k c n xs ys q t k' e only s = record {
  turn = s.turn;
  status = ap (λ (b : TaskBlock). b.status) s.own;
  map_set = s.map_set ∙ sym (ap (λ (b : TaskBlock). b.mmu_state) s.own);
  resumed = λ ne. ground (arith, s.own, only n);
  waiting = λ ne. ground (arith, s.same c, only c);
  cpu_saved = λ ne. ground (arith, s.same c, only c);
  mmu_saved = λ ne. ground (arith, s.same c, only c);
  same = λ y nc nn. ground (arith, s.same y, only y);
  elsewhere = Scheduled-Elsewhere fp k c n xs ys q t k' e only s;
}

-- The running task `c` is put behind the ready tasks, with its registers and its memory map
-- saved, and the first of them all, `n`, gets the processor and its own memory map: `c` itself if
-- no other task is ready. No other task changes.
pub svc_yield-Yielded :
    (fp : Frame) (k : Kernel) (c n : ℕ) (xs ys : List ℕ)
    → IsTurn k c xs
    → xs ++ c ∷ [] ≡ n ∷ ys
    → (k' : Kernel) × (svc_yield fp k ≡ switched k') × Yielded fp k c n ys k'
svc_yield-Yielded fp k c n xs ys turn e =
    let t1 : Tct = set_task c ready_status k.tct in
    let is1 = IsQueue-set_task k.tct k.readyq xs c ready_status turn.ready in
    let ((q, t), added) = q_add_task-snoc t1 k.readyq c xs is1 turn.out in
    let is2 : IsQueue t q (n ∷ ys) = rw e at added.queue in
    let is3 =
      IsQueue-set_task _ q (n ∷ ys) c (λ b. record b { mmu_state = k.mmu })
        (IsQueue-set_task t q (n ∷ ys) c (λ b. record b { cpu_state = save_frame fp b.cpu_state })
          is2) in
    let (k', switch, s) = schedule-next {A = ℤ} (queued fp k c q t) n ys is3 in
    (
      k',
      yield-queued fp k c q t turn.current added.added ∙ switch,
      Scheduled-Yielded fp k c n xs ys q t k' e added.only s,
    )
