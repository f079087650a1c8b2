-- ===== src/Queue/Add.antt =====
-- `muxx_qAddTask` puts a task at the end of a queue.
use muxx.Prelude.{ℕ, ◌+◌, ◌≡◌, refl, none, some, List, [], ◌∷◌, ◌++◌, arith, length-append}
use muxx.Types.{Ptr, Tct, TQueue}
use muxx.Queue.{set_next, set_prev, unlink, q_add_task}
use muxx.Queue.Chain.{◌∈◌, ◌∉◌, IsDistinct, Linked, IsQueue, LinksOnly, last-mem, IsDistinct-snoc}

-- The table after the writes of the branch for a queue that is not empty.
abbrev appended : Tct → (last task : ℕ) → Tct
appended t last task = set_next (set_prev (set_next t last (some task)) task (some last)) task none

Linked-appended :
    (t : Tct) (prev p : Ptr) (l n x : ℕ) (xs : List ℕ)
    → Linked t prev (some l) p (x ∷ xs)
    → IsDistinct (x ∷ xs)
    → n ∉ x ∷ xs
    → Linked (appended t l n) prev (some n) p (x ∷ xs ++ n ∷ [])
Linked-appended t prev p l n x [] h d out = ground arith
Linked-appended t prev p l n x (y ∷ ys) h d out =
    let in_rest : l ∈ y ∷ ys = last-mem t (some x) (t x).next_in_queue l y ys h.2 in
    let kept : appended t l n x ≡ t x = ground arith in
    (
      h.0,
      rw kept h.1,
      rw kept (Linked-appended t (some x) (t x).next_in_queue l n y ys h.2 d.1 (ground arith)),
    )

last-some :
    (t : Tct) (prev last p : Ptr) (x : ℕ) (xs : List ℕ)
    → Linked t prev last p (x ∷ xs)
    → (l : ℕ) × (last ≡ some l)
last-some t prev last p x [] h = (x, h.2.1)
last-some t prev last p x (y ∷ ys) h = last-some t (some x) last (t x).next_in_queue y ys h.2

appended-LinksOnly :
    (t : Tct) (l n : ℕ) (xs : List ℕ) → l ∈ xs → LinksOnly (n ∷ xs) t (appended t l n)
appended-LinksOnly t l n xs i y = ground arith

-- The queue and the table that `muxx_qAddTask` leaves.
pub record Added (t : Tct) (q : TQueue) (n : ℕ) (xs : List ℕ) (q' : TQueue) (t' : Tct)
    : Type 0 where
  pub added : q_add_task q n t ≡ some (q', t')
  pub queue : IsQueue t' q' (xs ++ n ∷ [])
  pub only : LinksOnly (n ∷ xs) t t'

add-empty :
    (t : Tct) (q : TQueue) (n : ℕ)
    → IsQueue t q []
    → Added t q n [] (record { head = some n; tail = some n; count = 1 }) (unlink t n)
unfolding q_add_task
add-empty t q n is = record {
  added = ground (arith, is.count);
  queue = record { linked = ground arith; count = refl; distinct = ground arith };
  only = λ y. ground arith;
}

add-nonempty :
    (t : Tct) (q : TQueue) (n l x : ℕ) (xs : List ℕ)
    → q.tail ≡ some l
    → IsQueue t q (x ∷ xs)
    → n ∉ x ∷ xs
    → Added t q n (x ∷ xs) (record q { tail = some n; count = q.count + 1 }) (appended t l n)
unfolding q_add_task
add-nonempty t q n l x xs e is out = record {
  added = ground (arith, is.count, e);
  queue = record {
    linked = Linked-appended t none q.head l n x xs (rw e at is.linked) is.distinct out;
    count = omega (arith, is.count, length-append xs (n ∷ []));
    distinct = IsDistinct-snoc n (x ∷ xs) out is.distinct;
  };
  only = appended-LinksOnly t l n (x ∷ xs) (last-mem t none q.head l x xs (rw e at is.linked));
}

-- A task that is not in the queue is put at the end: the tasks that the queue held before keep
-- their order, and nothing else of the table changes than the links of these tasks.
pub q_add_task-snoc :
    (t : Tct) (q : TQueue) (n : ℕ) (xs : List ℕ)
    → IsQueue t q xs
    → n ∉ xs
    → (r : TQueue × Tct) × Added t q n xs r.0 r.1
q_add_task-snoc t q n [] is out = (_, add-empty t q n is)
q_add_task-snoc t q n (x ∷ xs) is out =
    let (l, e) = last-some t none q.tail q.head x xs is.linked in
    (_, add-nonempty t q n l x xs e is out)
