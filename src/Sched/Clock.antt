-- ===== src/Sched/Clock.antt =====
-- The clock interrupt: ticks are counted, and at the end of a quantum the running task is put
-- behind the ready ones.
use muxx.Prelude.{
  ℕ, zero, suc, ◌+◌, ◌%◌, ◌^◌, ◌≡◌, ◌<◌, ◌≤◌, refl, ◌∙◌, some, List, [], ◌∷◌, ◌++◌, arith, ◌==◌,
  ltb, true, false, suc,
}
use muxx.Types.{TaskBlock, Tct, TQueue}
use muxx.Queue.{q_add_task}
use muxx.Queue.Chain.{has-append, LinksOnly}
use muxx.Queue.Add.{q_add_task-snoc}
use muxx.Kernel.{Kernel, ok, switched, Cmd, set_task, ◌>>◌}
use muxx.Sched.{
  Frame, save_frame, copytrapfp, add_ready, schedule, muxx_yield, check_quantums, count_tick,
  count_down, clock_handler,
}
use muxx.Sched.Turn.{
  IsTurn, IsQueue-set_task, Scheduled, schedule-next, Elsewhere, Tables-of_pids, Tables-trans,
}
use muxx.Sched.Yield.{ready_status}

abbrev cpu_saved : Frame → TaskBlock → TaskBlock
cpu_saved fp b = record b { cpu_state = save_frame fp b.cpu_state }

preempted-eq :
    (fp : Frame) (k : Kernel) (c : ℕ) (q : TQueue) (t : Tct)
    → k.curtcb ≡ some c
    → 0 < k.readyq.count
    → q_add_task k.readyq c (set_task c ready_status (set_task c (cpu_saved fp) k.tct))
      ≡ some (q, t)
    → check_quantums fp k ≡ schedule (record k { ipl = 7; readyq = q; tct = t })
unfolding check_quantums muxx_yield add_ready copytrapfp
preempted-eq fp k c q t cur some_ready added =
    let test : ltb 0 k.readyq.count ≡ true = ground arith in rw (test, cur, added, add_ready) refl

Scheduled-Elsewhere :
    (fp : Frame) (k : Kernel) (c n : ℕ) (ys : List ℕ) (q : TQueue) (t : Tct) (k' : Kernel)
    → LinksOnly (c ∷ n ∷ ys) (set_task c ready_status (set_task c (cpu_saved fp) k.tct)) t
    → Scheduled (record k { ipl = 7; readyq = q; tct = t }) n (ys ++ c ∷ []) k'
    → Elsewhere k (n ∷ ys ++ c ∷ []) k'
Scheduled-Elsewhere fp k c n ys q t k' only s = record {
  tables =
      Tables-trans k (record k { ipl = 7; readyq = q; tct = t }) k'
        (Tables-of_pids k 7 q k.suspq t (λ y. ground (arith, only y))) s.elsewhere.tables;
  links = λ y out. ground (arith, s.elsewhere.links y out, only y, has-append y ys (c ∷ []), out);
  suspended = s.elsewhere.suspended;
}

-- With a task ready, the end of a quantum puts the running task at the end of the ready queue and
-- switches to the first one.
pub check_quantums-switches :
    (fp : Frame) (k : Kernel) (c n : ℕ) (ys : List ℕ)
    → IsTurn k c (n ∷ ys)
    → (k' : Kernel) × (check_quantums fp k ≡ switched k')
      × IsTurn k' n (ys ++ c ∷ [])
      × Elsewhere k (n ∷ ys ++ c ∷ []) k'
check_quantums-switches fp k c n ys turn =
    let t1 : Tct = set_task c ready_status (set_task c (cpu_saved fp) k.tct) in
    let is1 =
      IsQueue-set_task _ k.readyq (n ∷ ys) c ready_status
        (IsQueue-set_task k.tct k.readyq (n ∷ ys) c (cpu_saved fp) turn.ready) in
    let ((q, t), added) = q_add_task-snoc t1 k.readyq c (n ∷ ys) is1 turn.out in
    let (k', switch, s) =
      schedule-next {A = Unit {0}} (record k { ipl = 7; readyq = q; tct = t }) n (ys ++ c ∷ [])
        added.queue in
    (
      k',
      preempted-eq fp k c q t turn.current (omega (arith, turn.ready.count)) added.added ∙ switch,
      s.turn,
      Scheduled-Elsewhere fp k c n ys q t k' added.only s,
    )

abbrev pub one_tick : TaskBlock → TaskBlock
one_tick b = record b { clock_ticks = (b.clock_ticks + 1) % 2 ^ 32 }

abbrev pub ticked : Kernel → ℕ → Kernel
ticked k c = record k { utimeticks = (k.utimeticks + 1) % 2 ^ 32; tct = set_task c one_tick k.tct }

pub count_tick-eq : (k : Kernel) (c : ℕ) → k.curtcb ≡ some c → count_tick k ≡ ticked k c
unfolding count_tick
count_tick-eq k c cur = ground (arith, cur)

pub ticked-IsTurn :
    (k : Kernel) (c d : ℕ) (xs : List ℕ)
    → IsTurn k c xs
    → IsTurn (record (ticked k c) { clkcountdown = d }) c xs
ticked-IsTurn k c d xs turn = record {
  current = turn.current;
  ready = IsQueue-set_task k.tct k.readyq xs c one_tick turn.ready;
  out = turn.out;
}

-- An interrupt before the end of the quantum only counts.
clock-counts :
    (fp : Frame) (k : Kernel) (c d : ℕ)
    → k.curtcb ≡ some c
    → k.clkcountdown ≡ suc (suc d)
    → suc (suc d) < 65536
    → clock_handler fp k ≡ ok tt (record (ticked k c) { clkcountdown = suc d })
unfolding clock_handler count_down
clock-counts fp k c d cur e lt =
    let left : (k.clkcountdown + 65535) % 2 ^ 16 ≡ suc d = omega arith in
    let more : (suc d == 0) ≡ false = ground arith in rw (left, more, count_tick-eq k c cur) refl

clock-ends :
    (fp : Frame) (k : Kernel) (c : ℕ)
    → k.curtcb ≡ some c
    → k.clkcountdown ≡ 1
    → clock_handler fp k ≡ check_quantums fp (record (ticked k c) { clkcountdown = k.clkquantum })
unfolding clock_handler count_down
clock-ends fp k c cur e =
    let left : (k.clkcountdown + 65535) % 2 ^ 16 ≡ 0 = omega arith in
    rw (left, count_tick-eq k c cur) refl

-- `n` interrupts, with any trap frames.
pub ticks : (frames : ℕ → Frame) → ℕ → Cmd (Unit {0})
ticks frames zero = ok tt
ticks frames (suc n) = clock_handler (frames n) >> ticks frames n

abbrev waiting : Kernel → ℕ → ℕ → Kernel
waiting k c d = record (ticked k c) { clkcountdown = d }

ticks-keep :
    (frames : ℕ → Frame) (m d : ℕ) (k : Kernel) (c : ℕ) (xs : List ℕ)
    → IsTurn k c xs
    → k.clkcountdown ≡ suc d
    → suc d < 65536
    → m ≤ d
    → (k' : Kernel) × (ticks frames m k ≡ ok tt k') × IsTurn k' c xs
unfolding ticks
ticks-keep frames zero d k c xs turn e lt le = (k, refl, turn)
ticks-keep frames (suc m) zero k c xs turn e lt le = absurd (omega arith)
ticks-keep frames (suc m) (suc d) k c xs turn e lt le =
    let (k', rest, turn') =
      ticks-keep frames m d (waiting k c (suc d)) c xs (ticked-IsTurn k c (suc d) xs turn) refl
        (omega arith) (omega arith) in
    (k', rw (clock-counts (frames m) k c d turn.current e lt) rest, turn')

ticks-switch :
    (frames : ℕ → Frame) (d : ℕ) (k : Kernel) (c n : ℕ) (ys : List ℕ)
    → IsTurn k c (n ∷ ys)
    → k.clkcountdown ≡ suc d
    → suc d < 65536
    → (k' : Kernel) × (ticks frames (suc d) k ≡ switched k') × IsTurn k' n (ys ++ c ∷ [])
unfolding ticks
ticks-switch frames zero k c n ys turn e lt =
    let (k', switch, turn', other) =
      check_quantums-switches (frames 0) (waiting k c k.clkquantum) c n ys
        (ticked-IsTurn k c k.clkquantum (n ∷ ys) turn) in
    (k', rw (clock-ends (frames 0) k c turn.current e, switch) refl, turn')
ticks-switch frames (suc d) k c n ys turn e lt =
    let (k', rest, turn') =
      ticks-switch frames d (waiting k c (suc d)) c n ys (ticked-IsTurn k c (suc d) (n ∷ ys) turn)
        refl (omega arith) in
    (k', rw (clock-counts (frames (suc d)) k c d turn.current e lt) rest, turn')

-- While another task is ready, the running task keeps the processor for as many clock interrupts
-- as its quantum has left, less one, if nothing else calls the kernel: the next interrupt puts it
-- at the end of the ready queue and switches to the first ready task.
pub ticks-preempt :
    (frames : ℕ → Frame) (d : ℕ) (k : Kernel) (c n : ℕ) (ys : List ℕ)
    → IsTurn k c (n ∷ ys)
    → k.clkcountdown ≡ suc d
    → suc d < 65536
    → ((m : ℕ) → m ≤ d → (k' : Kernel) × (ticks frames m k ≡ ok tt k') × IsTurn k' c (n ∷ ys))
      × ((k' : Kernel) × (ticks frames (suc d) k ≡ switched k') × IsTurn k' n (ys ++ c ∷ []))
ticks-preempt frames d k c n ys turn e lt = (
  λ m le. ticks-keep frames m d k c (n ∷ ys) turn e lt le,
  ticks-switch frames d k c n ys turn e lt,
)
