-- ===== src/Tests/Turns.antt =====
-- The scheduler's theorems where task 2 runs and 3, 5 and 7 are ready.
use muxx.Prelude.{ℕ, ◌≡◌, ◌≤◌, refl, none, [], ◌∷◌, arith}
use muxx.Kernel.{Kernel, ok, switched}
use muxx.Sched.{svc_yield, svc_suspend}
use muxx.Sched.Turn.{IsTurn}
use muxx.Sched.Yield.{Yielded, svc_yield-Yielded}
use muxx.Sched.Fair.{Yields, Yields-fair}
use muxx.Sched.Clock.{ticks, ticks-preempt}
use muxx.Sched.Suspend.{Parked, svc_suspend-Parked}
use muxx.Tests.Kernels.{a_frame, running, running-IsTurn}
use muxx.Tests.Queues.{none-IsQueue}

svc_yield-Yielded_example :
    (k' : Kernel) × (svc_yield a_frame running ≡ switched k')
    × Yielded a_frame running 2 3 (5 ∷ 7 ∷ 2 ∷ []) k'
svc_yield-Yielded_example =
    svc_yield-Yielded a_frame running 2 3 (3 ∷ 5 ∷ 7 ∷ []) (5 ∷ 7 ∷ 2 ∷ []) running-IsTurn refl

svc_suspend-Parked_example :
    (k' : Kernel) × (svc_suspend a_frame none running ≡ switched k')
    × Parked a_frame running 2 3 (5 ∷ 7 ∷ []) [] k'
svc_suspend-Parked_example =
    svc_suspend-Parked a_frame running 2 3 (5 ∷ 7 ∷ []) [] running-IsTurn none-IsQueue refl
      (λ y i. ground arith) (omega arith)

-- Task 7 runs after three yields.
Yields-fair_example :
    (k' : Kernel) × Yields (λ i. a_frame) running 3 k' × IsTurn k' 7 (2 ∷ 3 ∷ 5 ∷ [])
Yields-fair_example = Yields-fair (λ i. a_frame) (3 ∷ 5 ∷ []) [] running 2 7 running-IsTurn

ticks-preempt_example :
    ((m : ℕ)
      → m ≤ 4
      → (k' : Kernel) × (ticks (λ i. a_frame) m running ≡ ok tt k') × IsTurn k' 2 (3 ∷ 5 ∷ 7 ∷ []))
    × ((k' : Kernel) × (ticks (λ i. a_frame) 5 running ≡ switched k')
        × IsTurn k' 3 (5 ∷ 7 ∷ 2 ∷ []))
ticks-preempt_example =
    ticks-preempt (λ i. a_frame) 4 running 2 3 (5 ∷ 7 ∷ []) running-IsTurn refl (omega arith)
