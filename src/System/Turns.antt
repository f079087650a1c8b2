-- ===== src/System/Turns.antt =====
-- YIELD, SUSPEND and the clock interrupt keep the tables in order.
use muxx.Prelude.{ℕ, ◌≡◌, ◌<◌, refl, none, List, [], ◌∷◌, ◌++◌, arith, ◌==◌, inl, inr, Bool-cases}
use muxx.Queue.Chain.{has, has-append}
use muxx.Kernel.{Kernel, ok}
use muxx.Sched.{Frame, svc_yield, svc_suspend, clock_handler, check_quantums, count_down}
use muxx.Sched.Yield.{svc_yield-Yielded}
use muxx.Sched.Suspend.{Parked, svc_suspend-Parked}
use muxx.Sched.Clock.{ticked, count_tick-eq, check_quantums-switches}
use muxx.System.{forget}
use muxx.System.Sane.{
  IsUsed, IsSane, Safe, goes_on, hands_over, IsSane-turned, IsSane-Quiet, Quiet, IsNumbered-Tables,
  IsUsed-Tables, ready_length,
}

-- The first of the ready tasks and the caller, and the others behind it.
first_ready :
    (c : ℕ) (xs : List ℕ)
    → (n : ℕ) × (ys : List ℕ) × (xs ++ c ∷ [] ≡ n ∷ ys)
      × ((y : ℕ) → has y (n ∷ ys) ≡ has y (c ∷ xs))
first_ready c [] = (c, [], refl, λ y. refl)
first_ready c (x ∷ xs) = (x, xs ++ c ∷ [], refl, λ y. ground (arith, has-append y xs (c ∷ [])))

pub svc_yield-Safe :
    (fp : Frame) (k : Kernel) (c : ℕ) (xs ss : List ℕ)
    → IsSane k c xs ss
    → Safe (forget (svc_yield fp k))
svc_yield-Safe fp k c xs ss s =
    let (n, ys, e, same) = first_ready c xs in
    let (k', switch, y) = svc_yield-Yielded fp k c n xs ys s.turn e in
    rw switch (hands_over (n, ys, ss, IsSane-turned k k' c n xs ys ss s same y.turn y.elsewhere))

Parked-IsSane :
    (fp : Frame) (k k' : Kernel) (c n : ℕ) (ys ss : List ℕ)
    → IsSane k c (n ∷ ys) ss
    → Parked fp k c n ys ss k'
    → IsSane k' n ys (ss ++ c ∷ [])
Parked-IsSane fp k k' c n ys ss s p =
    let used : (y : ℕ) → IsUsed k y → IsUsed k' y = λ y u. IsUsed-Tables k k' y p.tables u in
    record {
      turn = p.turn;
      suspended = p.suspended;
      awake = ground (arith, has-append n ss (c ∷ []), s.apart n, s.turn.out);
      apart = λ y i. ground (arith, has-append y ss (c ∷ []), s.apart y, s.turn.out, i);
      running_used = used n (s.ready_used n (ground arith));
      ready_used = λ y i. used y (s.ready_used y (ground (arith, i)));
      suspended_used = λ y i. elim (Bool-cases (has y ss)) [
        | inl before ↦ used y (s.suspended_used y before)
        | inr new ↦
            let e : y ≡ c = ground (arith, has-append y ss (c ∷ []), new, i) in
            rw e (used c s.running_used)
      ];
      numbered = IsNumbered-Tables k k' p.tables s.numbered;
      sound = rw p.tables.mmcbt s.sound;
      few = rw p.tables.curtasks s.few;
      wired = p.tables.wired s.wired;
    }

pub svc_suspend-Safe :
    (fp : Frame) (k : Kernel) (c : ℕ) (xs ss : List ℕ)
    → IsSane k c xs ss
    → 0 < k.readyq.count
    → Safe (forget (svc_suspend fp none k))
svc_suspend-Safe fp k c [] ss s some_ready = absurd (omega (arith, s.turn.ready.count, some_ready))
svc_suspend-Safe fp k c (n ∷ ys) ss s some_ready =
    let (k', switch, p) =
      svc_suspend-Parked fp k c n ys ss s.turn s.suspended s.awake s.apart
        (ready_length k c (n ∷ ys) ss s) in
    rw switch (hands_over (n, ys, ss ++ c ∷ [], Parked-IsSane fp k k' c n ys ss s p))

check_quantums-idle : (fp : Frame) (k : Kernel) → k.readyq.count ≡ 0 → check_quantums fp k ≡ ok tt k
unfolding check_quantums
check_quantums-idle fp k e = ground (arith, e)

check_quantums-Safe :
    (fp : Frame) (k : Kernel) (c : ℕ) (xs ss : List ℕ)
    → IsSane k c xs ss
    → Safe (check_quantums fp k)
check_quantums-Safe fp k c [] ss s =
    rw (check_quantums-idle fp k s.turn.ready.count) (goes_on (c, [], ss, s))
check_quantums-Safe fp k c (n ∷ ys) ss s =
    let (k', switch, turn, e) = check_quantums-switches fp k c n ys s.turn in
    let same : (y : ℕ) → has y (n ∷ ys ++ c ∷ []) ≡ has y (c ∷ n ∷ ys) =
      λ y. ground (arith, has-append y ys (c ∷ [])) in
    rw switch (
      hands_over
        (n, ys ++ c ∷ [], ss, IsSane-turned k k' c n (n ∷ ys) (ys ++ c ∷ []) ss s same turn e))

ticked-Quiet : (k : Kernel) (c d : ℕ) → Quiet k (record (ticked k c) { clkcountdown = d })
ticked-Quiet k c d = record {
  tables = record {
    pids = λ y. ground arith;
    topspid = refl;
    maxspid = refl;
    minupid = refl;
    topupid = refl;
    maxupid = refl;
    curtasks = refl;
    mmcbt = refl;
    wired = λ w. w;
  };
  current = refl;
  ready = refl;
  suspended = refl;
  links = λ y. ground arith;
}

pub clock_handler-Safe :
    (fp : Frame) (k : Kernel) (c : ℕ) (xs ss : List ℕ)
    → IsSane k c xs ss
    → Safe (clock_handler fp k)
unfolding clock_handler
clock_handler-Safe fp k c xs ss s =
    let after : (d : ℕ) → IsSane (record (ticked k c) { clkcountdown = d }) c xs ss = λ d.
      IsSane-Quiet k (record (ticked k c) { clkcountdown = d }) c xs ss (ticked-Quiet k c d) s in
    elim (Bool-cases (count_down k == 0)) [
      | inl end ↦
          rw (end, count_tick-eq k c s.turn.current)
            (check_quantums-Safe fp (record (ticked k c) { clkcountdown = k.clkquantum }) c xs ss
              (after k.clkquantum))
      | inr more ↦
          rw (more, count_tick-eq k c s.turn.current) (goes_on (c, xs, ss, after (count_down k)))
    ]
