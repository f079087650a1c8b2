-- ===== src/Queue/Remove.antt =====
-- `muxx_qRemoveTask` unlinks a task from a queue: right for the first task of the queue and for a
-- task that is not in it, wrong for any other.
use muxx.Prelude.{ℕ, zero, suc, ◌-◌, ◌≤◌, ◌≡◌, refl, none, some, List, [], ◌∷◌, arith, length}
use muxx.Types.{Ptr, Tct, TQueue}
use muxx.Queue.{set_prev, unlink, find_in_queue, q_unlink_task, q_remove_task}
use muxx.Queue.Chain.{◌∈◌, ◌∉◌, Linked, IsQueue, LinksOnly, frame}

-- The walk meets a task of the chain, if the fuel is not shorter than the chain.
pub find_in_queue-mem :
    (fuel : ℕ) (t : Tct) (prev last p : Ptr) (n : ℕ) (xs : List ℕ)
    → Linked t prev last p xs
    → length xs ≤ fuel
    → n ∈ xs
    → find_in_queue fuel t n p ≡ some (some n)
unfolding find_in_queue
find_in_queue-mem fuel t prev last p n [] l f i = ground arith
find_in_queue-mem zero t prev last p n (x ∷ xs) l f i = absurd (omega arith)
find_in_queue-mem (suc fuel) t prev last p n (x ∷ xs) l f i =
    ground (arith, find_in_queue-mem fuel t (some x) last (t x).next_in_queue n xs l.2)

find_in_queue-not-mem :
    (fuel : ℕ) (t : Tct) (prev last p : Ptr) (n : ℕ) (xs : List ℕ)
    → Linked t prev last p xs
    → length xs ≤ fuel
    → n ∉ xs
    → find_in_queue fuel t n p ≡ some none
unfolding find_in_queue
find_in_queue-not-mem zero t prev last p n [] l f i = ground arith
find_in_queue-not-mem (suc fuel) t prev last p n [] l f i = ground arith
find_in_queue-not-mem zero t prev last p n (x ∷ xs) l f i = absurd (omega arith)
find_in_queue-not-mem (suc fuel) t prev last p n (x ∷ xs) l f i =
    ground (arith, find_in_queue-not-mem fuel t (some x) last (t x).next_in_queue n xs l.2)

-- A task that is not in the queue: NULL is returned, and nothing changes.
pub q_remove_task-not-mem :
    (fuel : ℕ) (t : Tct) (q : TQueue) (n : ℕ) (xs : List ℕ)
    → IsQueue t q xs
    → length xs ≤ fuel
    → n ∉ xs
    → q_remove_task fuel q n t ≡ some (none, q, t)
unfolding q_remove_task
q_remove_task-not-mem fuel t q n xs is f out =
    ground (arith, find_in_queue-not-mem fuel t none q.tail q.head n xs is.linked)

-- What `muxx_qRemoveTask` leaves when it finds the task `n`.
pub record Removed (fuel : ℕ) (t : Tct) (q : TQueue) (n : ℕ) (xs : List ℕ) (q' : TQueue) (t' : Tct)
    : Type 0 where
  pub removed : q_remove_task fuel q n t ≡ some (some n, q', t')
  pub queue : IsQueue t' q' xs
  pub only : LinksOnly (n ∷ xs) t t'

remove-only :
    (fuel : ℕ) (t : Tct) (q : TQueue) (n : ℕ)
    → IsQueue t q (n ∷ [])
    → 1 ≤ fuel
    → Removed fuel t q n [] (record { head = none; tail = none; count = 0 }) (unlink t n)
unfolding q_remove_task q_unlink_task
remove-only fuel t q n is f = record {
  removed = ground (
    arith,
    is.count,
    is.linked,
    find_in_queue-mem fuel t none q.tail q.head n (n ∷ []) is.linked,
  );
  queue = record { linked = ground arith; count = refl; distinct = tt };
  only = λ y. ground arith;
}

remove-head :
    (fuel : ℕ) (t : Tct) (q : TQueue) (n x : ℕ) (xs : List ℕ)
    → IsQueue t q (n ∷ x ∷ xs)
    → length (n ∷ x ∷ xs) ≤ fuel
    → Removed fuel t q n
        (x ∷ xs)
        (record q { head = some x; count = q.count - 1 })
        (unlink (set_prev t x none) n)
unfolding q_remove_task q_unlink_task
remove-head fuel t q n x xs is f =
    let u : Tct = unlink (set_prev t x none) n in
    let kept : (u x).next_in_queue ≡ (t x).next_in_queue = ground arith in
    let rest =
      frame t u (some x) q.tail (t x).next_in_queue xs (λ y i. ground arith) is.linked.2.2 in
    record {
      removed = ground (
        arith,
        is.count,
        is.linked,
        find_in_queue-mem fuel t none q.tail q.head n (n ∷ x ∷ xs) is.linked,
      );
      queue = record {
        linked = (refl, ground arith, rw kept rest);
        count = omega (arith, is.count);
        distinct = is.distinct.1;
      };
      only = λ y. ground arith;
    }

-- The first task of the queue is removed and returned: the others keep their order, and nothing
-- else of the table changes than the links of these tasks.
pub q_remove_task-head :
    (fuel : ℕ) (t : Tct) (q : TQueue) (n : ℕ) (xs : List ℕ)
    → IsQueue t q (n ∷ xs)
    → length (n ∷ xs) ≤ fuel
    → (r : TQueue × Tct) × Removed fuel t q n xs r.0 r.1
q_remove_task-head fuel t q n [] is f = (_, remove-only fuel t q n is (omega arith))
q_remove_task-head fuel t q n (x ∷ xs) is f = (_, remove-head fuel t q n x xs is f)
