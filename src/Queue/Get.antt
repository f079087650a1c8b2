-- ===== src/Queue/Get.antt =====
-- `muxx_qGetTask` takes the first task of a queue.
use muxx.Prelude.{ℕ, ◌-◌, ◌≡◌, refl, none, some, List, [], ◌∷◌, arith}
use muxx.Types.{Tct, TQueue}
use muxx.Queue.{set_prev, unlink, q_get_task}
use muxx.Queue.Chain.{IsQueue, LinksOnly, frame}

-- What `muxx_qGetTask` leaves when the first task is `n`.
pub record Taken (t : Tct) (q : TQueue) (n : ℕ) (xs : List ℕ) (q' : TQueue) (t' : Tct)
    : Type 0 where
  pub taken : q_get_task q t ≡ some (n, q', t')
  pub queue : IsQueue t' q' xs
  pub only : LinksOnly (n ∷ xs) t t'

get-last :
    (t : Tct) (q : TQueue) (n : ℕ)
    → IsQueue t q (n ∷ [])
    → Taken t q n [] (record { head = none; tail = none; count = 0 }) (unlink t n)
unfolding q_get_task
get-last t q n is = record {
  taken = ground (arith, is.count, is.linked.0);
  queue = record { linked = ground arith; count = refl; distinct = tt };
  only = λ y. ground arith;
}

get-more :
    (t : Tct) (q : TQueue) (n x : ℕ) (xs : List ℕ)
    → IsQueue t q (n ∷ x ∷ xs)
    → Taken t q n
        (x ∷ xs)
        (record q { head = some x; count = q.count - 1 })
        (unlink (set_prev t x none) n)
unfolding q_get_task
get-more t q n x xs is =
    let u : Tct = unlink (set_prev t x none) n in
    let kept : (u x).next_in_queue ≡ (t x).next_in_queue = ground arith in
    let rest =
      frame t u (some x) q.tail (t x).next_in_queue xs (λ y i. ground arith) is.linked.2.2 in
    record {
      taken = ground (arith, is.count, is.linked);
      queue = record {
        linked = (refl, ground arith, rw kept rest);
        count = omega (arith, is.count);
        distinct = is.distinct.1;
      };
      only = λ y. ground arith;
    }

-- From a queue that is not empty the call takes the first task; the others keep their order, and
-- nothing else of the table changes than the links of these tasks.
pub q_get_task-cons :
    (t : Tct) (q : TQueue) (n : ℕ) (xs : List ℕ)
    → IsQueue t q (n ∷ xs)
    → (r : TQueue × Tct) × Taken t q n xs r.0 r.1
q_get_task-cons t q n [] is = (_, get-last t q n is)
q_get_task-cons t q n (x ∷ xs) is = (_, get-more t q n x xs is)

-- On an empty queue `muxx_qGetTask` writes the links of the task at NULL.
pub q_get_task-nil : (t : Tct) (q : TQueue) → IsQueue t q [] → q_get_task q t ≡ none
unfolding q_get_task
q_get_task-nil t q is = ground (arith, is.count)
