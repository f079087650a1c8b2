-- ===== src/Queue/RemoveInner.antt =====
-- `muxx_qRemoveTask` on a task that is not the first of its queue. The source writes
-- `theTask->prevInQueue = theTask->nextInQueue` where `theTask->prevInQueue->nextInQueue` has to
-- be written.
use muxx.Prelude.{
  ℕ, suc, ◌-◌, ◌≤◌, ◌≡◌, ◌≢◌, none, some, List, [], ◌∷◌, ◌++◌, arith, length, length-append,
}
use muxx.Types.{Ptr, Tct, TQueue}
use muxx.Queue.{q_add_task, q_unlink_task, q_remove_task}
use muxx.Queue.Chain.{◌∈◌, IsDistinct, Linked, IsQueue, has-append}
use muxx.Queue.Remove.{find_in_queue-mem}

-- From `p` the forward links lead through `xs` to NULL.
abbrev pub Leads : Tct → Ptr → List ℕ → Type 0
Leads t p [] = p ≡ none
Leads t p (x ∷ xs) = (p ≡ some x) × Leads t (t x).next_in_queue xs

-- What the writes to an inner task `n` do, `m` being the task before it.
unlink-inner :
    (t : Tct) (q : TQueue) (n m y : ℕ)
    → (t n).prev_in_queue ≡ some m
    → let (q', t') = q_unlink_task q n t in
      (q'.head ≡ q.head)
      × (q'.count ≡ q.count - 1)
      × ((t' n).next_in_queue ≡ none)
      × (y ≢ n → (t' y).next_in_queue ≡ (t y).next_in_queue)
unfolding q_unlink_task
unlink-inner t q n m y e = ground arith

-- In a chain the back link of a task behind the first is not NULL.
prev_of_inner :
    (t : Tct) (prev last p : Ptr) (x n : ℕ) (ys zs : List ℕ)
    → Linked t prev last p (x ∷ ys ++ n ∷ zs)
    → (m : ℕ) × ((t n).prev_in_queue ≡ some m)
prev_of_inner t prev last p x n [] zs l = (x, l.2.1)
prev_of_inner t prev last p x n (y ∷ ys) zs l =
    prev_of_inner t (some x) last (t x).next_in_queue y n ys zs l.2

-- Cutting the link behind `n` leaves the chain up to `n`.
Leads-cut :
    (t u : Tct) (prev last p : Ptr) (n : ℕ) (xs zs : List ℕ)
    → ((y : ℕ) → y ≢ n → (u y).next_in_queue ≡ (t y).next_in_queue)
    → (u n).next_in_queue ≡ none
    → Linked t prev last p (xs ++ n ∷ zs)
    → IsDistinct (xs ++ n ∷ zs)
    → Leads u p (xs ++ n ∷ [])
Leads-cut t u prev last p n [] zs same cut l d = (l.0, cut)
Leads-cut t u prev last p n (x ∷ xs) zs same cut l d =
    let kept : (u x).next_in_queue ≡ (t x).next_in_queue =
      same x (ground (arith, has-append x xs (n ∷ zs))) in
    (l.0, rw kept (Leads-cut t u (some x) last (t x).next_in_queue n xs zs same cut l.2 d.1))

has-inner : (n : ℕ) (xs zs : List ℕ) → n ∈ xs ++ n ∷ zs
has-inner n xs zs = ground (arith, has-append n xs (n ∷ zs))

remove-inner-eq :
    (fuel : ℕ) (t : Tct) (q : TQueue) (n x : ℕ) (ys zs : List ℕ)
    → IsQueue t q (x ∷ ys ++ n ∷ zs)
    → length (x ∷ ys ++ n ∷ zs) ≤ fuel
    → q_remove_task fuel q n t ≡ some (some n, (q_unlink_task q n t).0, (q_unlink_task q n t).1)
unfolding q_remove_task
remove-inner-eq fuel t q n x ys zs is f = ground (
  arith,
  is.count,
  has-inner n (x ∷ ys) zs,
  find_in_queue-mem fuel t none q.tail q.head n (x ∷ ys ++ n ∷ zs) is.linked f,
)

-- A task that is not the first of its queue is returned and the count goes down, but the task
-- stays linked as the last one that is reached from the head, and the tasks behind it are lost.
pub q_remove_task-inner :
    (fuel : ℕ) (t : Tct) (q : TQueue) (n x : ℕ) (ys zs : List ℕ)
    → IsQueue t q (x ∷ ys ++ n ∷ zs)
    → length (x ∷ ys ++ n ∷ zs) ≤ fuel
    → (r : TQueue × Tct) × (q_remove_task fuel q n t ≡ some (some n, r.0, r.1))
      × Leads r.1 r.0.head (x ∷ ys ++ n ∷ [])
      × (suc r.0.count ≡ length (x ∷ ys ++ n ∷ zs))
q_remove_task-inner fuel t q n x ys zs is f =
    let (m, e) = prev_of_inner t none q.tail q.head x n ys zs is.linked in
    let facts = λ (y : ℕ). unlink-inner t q n m y e in
    (
      q_unlink_task q n t,
      remove-inner-eq fuel t q n x ys zs is f,
      rw (facts n).0 (
          Leads-cut t (q_unlink_task q n t).1 none q.tail q.head n (x ∷ ys) zs (λ y. (facts y).3)
            (facts n).2 is.linked is.distinct),
      omega (arith, is.count, (facts n).1),
    )

next_of_last :
    (t : Tct) (prev last p : Ptr) (n : ℕ) (xs : List ℕ)
    → Linked t prev last p (xs ++ n ∷ [])
    → (t n).next_in_queue ≡ none
next_of_last t prev last p n [] l = l.2.0
next_of_last t prev last p n (x ∷ xs) l = next_of_last t (some x) last (t x).next_in_queue n xs l.2

unlink-last :
    (t : Tct) (q : TQueue) (n m : ℕ)
    → (t n).prev_in_queue ≡ some m
    → (t n).next_in_queue ≡ none
    → ((q_unlink_task q n t).0.tail ≡ none) × ((q_unlink_task q n t).0.count ≡ q.count - 1)
unfolding q_unlink_task
unlink-last t q n m e e' = ground arith

-- The last of two or more tasks leaves the tail NULL while the count is not zero: the next
-- `muxx_qAddTask` writes through NULL.
pub q_add_task-after-remove_last :
    (fuel : ℕ) (t : Tct) (q : TQueue) (n x k : ℕ) (ys : List ℕ)
    → IsQueue t q (x ∷ ys ++ n ∷ [])
    → length (x ∷ ys ++ n ∷ []) ≤ fuel
    → (r : TQueue × Tct) × (q_remove_task fuel q n t ≡ some (some n, r.0, r.1))
      × (q_add_task r.0 k r.1 ≡ none)
unfolding q_add_task
q_add_task-after-remove_last fuel t q n x k ys is f =
    let (m, e) = prev_of_inner t none q.tail q.head x n ys [] is.linked in
    let end = next_of_last t none q.tail q.head n (x ∷ ys) is.linked in
    let (no_tail, left) = unlink-last t q n m e end in
    (
      q_unlink_task q n t,
      remove-inner-eq fuel t q n x ys [] is f,
      ground (arith, no_tail, left, is.count, length-append ys (n ∷ [])),
    )
