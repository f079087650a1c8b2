-- ===== src/Sched/Suspend.antt =====
-- SUSPEND: the running task suspends itself, or is not allowed to suspend another one.
use muxx.Prelude.{
  ℕ, ◌≡◌, ◌≢◌, ◌≤◌, refl, ◌∙◌, none, some, List, [], ◌∷◌, ◌++◌, arith, false, length,
}
use muxx.Prelude.Int.{ℤ}
use muxx.Config.{max_tasks, TaskStatus}
use muxx.Errors.{enopriv}
use muxx.Types.{TaskBlock, Tct, TQueue, operprv}
use muxx.Queue.{q_add_task, q_remove_task, q_get_task}
use muxx.Queue.Chain.{◌∈◌, ◌∉◌, has-append, IsQueue, IsQueue-frame}
use muxx.Queue.Add.{Added, q_add_task-snoc}
use muxx.Queue.Remove.{q_remove_task-not-mem}
use muxx.Kernel.{Kernel, ok, switched, fault, set_task}
use muxx.Sched.{
  Frame, save_frame, copytrapfp, copy_mmu_state, add_susp, get_ready, remove_ready, schedule,
  suspend_task, svc_suspend,
}
use muxx.Sched.Turn.{
  IsTurn, IsQueue-set_task, Scheduled, schedule-next, Tables, Tables-of_pids, Tables-trans,
}

abbrev pub susp_status : TaskBlock → TaskBlock
susp_status t = record t { status = TaskStatus.susp }

-- The state before `muxx_schedule`, the queue operation having given `q` and `t`.
abbrev parked : Frame → Kernel → ℕ → TQueue → Tct → Kernel
parked fp k c q t = record k {
  ipl = 7;
  suspq = q;
  tct =
      set_task c (λ b. record b { mmu_state = k.mmu })
        (set_task c (λ b. record b { cpu_state = save_frame fp b.cpu_state }) t);
}

suspend-parked :
    (fp : Frame) (k : Kernel) (c : ℕ) (q : TQueue) (t : Tct)
    → k.curtcb ≡ some c
    → q_remove_task max_tasks k.readyq c k.tct ≡ some (none, k.readyq, k.tct)
    → q_add_task k.suspq c (set_task c susp_status k.tct) ≡ some (q, t)
    → svc_suspend fp none k ≡ schedule (parked fp k c q t)
unfolding svc_suspend suspend_task add_susp remove_ready copytrapfp copy_mmu_state
suspend-parked fp k c q t cur removed added = ground (arith, cur, removed, added)

-- The suspended task waits in the suspended queue with its registers saved, and `n` runs.
pub record Parked (fp : Frame) (k : Kernel) (c n : ℕ) (ys ss : List ℕ) (k' : Kernel) : Type 0 where
  pub turn : IsTurn k' n ys
  pub suspended : IsQueue k'.tct k'.suspq (ss ++ c ∷ [])
  pub status : (k'.tct c).status ≡ TaskStatus.susp
  pub cpu_saved : (k'.tct c).cpu_state ≡ save_frame fp (k.tct c).cpu_state
  pub mmu_saved : (k'.tct c).mmu_state ≡ k.mmu
  pub same : (y : ℕ) → y ≢ c → y ≢ n → (k'.tct y).task ≡ (k.tct y).task
  pub tables : Tables k k'

-- Neither queue of two that share no task reaches the other.
parked-apart :
    (y c : ℕ) (ss xs : List ℕ) → c ∉ xs → ((z : ℕ) → z ∈ ss → z ∉ xs) → y ∈ ss ++ c ∷ [] → y ∉ xs
parked-apart y c ss xs out apart i = ground (arith, has-append y ss (c ∷ []), apart y)

parked-apart-ready :
    (y c : ℕ) (ss xs : List ℕ) → c ∉ xs → ((z : ℕ) → z ∈ ss → z ∉ xs) → y ∈ xs → y ∉ c ∷ ss
parked-apart-ready y c ss xs out apart i = ground (arith, apart y)

schedule-alone : {A : Type 0} (k : Kernel) → k.readyq.count ≡ 0 → schedule {A = A} k ≡ fault
unfolding schedule get_ready q_get_task
schedule-alone k e = ground (arith, e)

Scheduled-Parked :
    (fp : Frame) (k : Kernel) (c n : ℕ) (ys ss : List ℕ) (q : TQueue) (t : Tct) (k' : Kernel)
    → c ∉ n ∷ ys
    → ((y : ℕ) → y ∈ ss → y ∉ n ∷ ys)
    → Added (set_task c susp_status k.tct) k.suspq c ss q t
    → Scheduled (parked fp k c q t) n ys k'
    → Parked fp k c n ys ss k'
Scheduled-Parked fp k c n ys ss q t k' out apart added s =
    let waits : IsQueue (parked fp k c q t).tct q (ss ++ c ∷ []) =
      IsQueue-set_task _ q (ss ++ c ∷ []) c (λ b. record b { mmu_state = k.mmu })
        (IsQueue-set_task t q (ss ++ c ∷ []) c
          (λ b. record b { cpu_state = save_frame fp b.cpu_state }) added.queue) in
    let spared : (y : ℕ) → y ∈ ss ++ c ∷ [] → k'.tct y ≡ (parked fp k c q t).tct y =
      λ y i. s.elsewhere.links y (parked-apart y c ss (n ∷ ys) out apart i) in
    record {
      turn = s.turn;
      suspended =
          rw s.elsewhere.suspended
            (IsQueue-frame (parked fp k c q t).tct k'.tct q (ss ++ c ∷ []) spared waits);
      status = ground (arith, s.same c, added.only c);
      cpu_saved = ground (arith, s.same c, added.only c);
      mmu_saved = ground (arith, s.same c, added.only c);
      same = λ y nc nn. ground (arith, s.same y, added.only y);
      tables =
          Tables-trans k (parked fp k c q t) k'
            (Tables-of_pids k 7 k.readyq q _ (λ y. ground (arith, added.only y)))
            s.elsewhere.tables;
    }

-- A task that suspends itself while another one is ready is put at the end of the suspended
-- tasks, with its registers and its memory map saved, and the first ready task gets the
-- processor. The ready queue keeps its order, and no other task changes.
pub svc_suspend-Parked :
    (fp : Frame) (k : Kernel) (c n : ℕ) (ys ss : List ℕ)
    → IsTurn k c (n ∷ ys)
    → IsQueue k.tct k.suspq ss
    → c ∉ ss
    → ((y : ℕ) → y ∈ ss → y ∉ n ∷ ys)
    → length (n ∷ ys) ≤ max_tasks
    → (k' : Kernel) × (svc_suspend fp none k ≡ switched k') × Parked fp k c n ys ss k'
svc_suspend-Parked fp k c n ys ss turn susp new apart le =
    let t1 : Tct = set_task c susp_status k.tct in
    let ((q, t), added) =
      q_add_task-snoc t1 k.suspq c ss (IsQueue-set_task k.tct k.suspq ss c susp_status susp) new in
    let removed =
      q_remove_task-not-mem max_tasks k.tct k.readyq c (n ∷ ys) turn.ready le turn.out in
    let ready1 = IsQueue-set_task k.tct k.readyq (n ∷ ys) c susp_status turn.ready in
    let ready2 =
      IsQueue-frame t1 t k.readyq (n ∷ ys)
        (λ y i. (added.only y).1 (parked-apart-ready y c ss (n ∷ ys) turn.out apart i)) ready1 in
    let ready3 =
      IsQueue-set_task _ k.readyq (n ∷ ys) c (λ b. record b { mmu_state = k.mmu })
        (IsQueue-set_task t k.readyq (n ∷ ys) c
          (λ b. record b { cpu_state = save_frame fp b.cpu_state }) ready2) in
    let (k', switch, s) = schedule-next {A = ℤ} (parked fp k c q t) n ys ready3 in
    (
      k',
      suspend-parked fp k c q t turn.current removed added.added ∙ switch,
      Scheduled-Parked fp k c n ys ss q t k' turn.out apart added s,
    )

-- A task that suspends itself while no other one is ready makes the kernel use the NULL that
-- `muxx_qGetTask` finds in the empty queue.
pub svc_suspend-alone :
    (fp : Frame) (k : Kernel) (c : ℕ) (ss : List ℕ)
    → IsTurn k c []
    → IsQueue k.tct k.suspq ss
    → c ∉ ss
    → svc_suspend fp none k ≡ fault
svc_suspend-alone fp k c ss turn susp new =
    let t1 : Tct = set_task c susp_status k.tct in
    let ((q, t), added) =
      q_add_task-snoc t1 k.suspq c ss (IsQueue-set_task k.tct k.suspq ss c susp_status susp) new in
    let removed =
      q_remove_task-not-mem max_tasks k.tct k.readyq c [] turn.ready (omega arith) refl in
    suspend-parked fp k c q t turn.current removed added.added
    ∙ schedule-alone (parked fp k c q t) turn.ready.count

-- A task without OPERPRV can suspend no task of another user: nothing changes.
pub svc_suspend-refused :
    (fp : Frame) (k : Kernel) (c p : ℕ)
    → k.curtcb ≡ some c
    → operprv (k.tct c).privileges ≡ false
    → (k.tct c).uic ≢ (k.tct p).uic
    → svc_suspend fp (some p) k ≡ ok enopriv k
unfolding svc_suspend
svc_suspend-refused fp k c p cur noprv other = ground (arith, cur, noprv, other)
