-- ===== src/Sched/Fair.antt =====
-- Round robin: each ready task gets the processor after as many yields as there are tasks before
-- it.
use muxx.Prelude.{ℕ, suc, zero, ◌≡◌, refl, List, [], ◌∷◌, ◌++◌, append_assoc, length}
use muxx.Kernel.{Kernel, switched}
use muxx.Sched.{Frame, svc_yield}
use muxx.Sched.Turn.{IsTurn}
use muxx.Sched.Yield.{svc_yield-Yielded}

-- `m` calls of YIELD lead from `k` to `k'`, each by the task that runs then, with any trap frame.
pub data Yields (frames : ℕ → Frame) : Kernel → ℕ → Kernel → Type 0 where
  here : {k : Kernel} → Yields frames k zero k
  next :
      {k k' k'' : Kernel} {m : ℕ}
      → svc_yield (frames m) k ≡ switched k'
      → Yields frames k' m k''
      → Yields frames k (suc m) k''

-- If `c` runs and `n` is ready behind the tasks `ps`, then after one yield for each of these and
-- one more `n` runs, the tasks behind it are next, and `c` and `ps` follow in this order.
pub Yields-fair :
    (frames : ℕ → Frame) (ps qs : List ℕ) (k : Kernel) (c n : ℕ)
    → IsTurn k c (ps ++ n ∷ qs)
    → (k' : Kernel) × Yields frames k (suc (length ps)) k' × IsTurn k' n (qs ++ c ∷ ps)
Yields-fair frames [] qs k c n turn =
    let (k', e, y) = svc_yield-Yielded (frames 0) k c n (n ∷ qs) (qs ++ c ∷ []) turn refl in
    (k', next e here, y.turn)
Yields-fair frames (p ∷ ps) qs k c n turn =
    let (k1, e, y) =
      svc_yield-Yielded (frames (suc (length ps))) k c p (p ∷ ps ++ n ∷ qs)
        ((ps ++ n ∷ qs) ++ c ∷ []) turn refl in
    let turn1 : IsTurn k1 p (ps ++ n ∷ (qs ++ c ∷ [])) =
      rw (append_assoc ps (n ∷ qs) (c ∷ [])) at y.turn in
    let (k', steps, turn') = Yields-fair frames ps (qs ++ c ∷ []) k1 p n turn1 in
    (k', next e steps, rw (append_assoc qs (c ∷ []) (p ∷ ps)) at turn')
