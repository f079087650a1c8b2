-- ===== src/Queue.antt =====
-- kernel/muxx_taskqueues.c: the doubly linked queues of tasks, which run through the table of
-- tasks. Each function returns the queue and the table; `none` is an access through NULL. The
-- `int` count of a queue counts tasks, of which there are at most 16.
pub mod Chain
pub mod Count
pub mod Add
pub mod Get
pub mod Remove
pub mod RemoveInner
use muxx.Prelude.{ℕ, zero, suc, ◌+◌, ◌-◌, Option, none, some, ◌==◌, if◌then◌else◌, update}
use muxx.Types.{Ptr, Tct, TQueue}

abbrev pub set_next : Tct → ℕ → Ptr → Tct
set_next t p v = update t p (record (t p) { next_in_queue = v })

abbrev pub set_prev : Tct → ℕ → Ptr → Tct
set_prev t p v = update t p (record (t p) { prev_in_queue = v })

-- Both links of a task are cleared.
abbrev pub unlink : Tct → ℕ → Tct
unlink t p = set_next (set_prev t p none) p none

infixl 5 ◌>>=◌
abbrev pub ◌>>=◌ {ℓ κ} : {A : Type ℓ} {B : Type κ} → Option A → (A → Option B) → Option B
none >>= f = none
some a >>= f = f a

unfoldable pub q_add_task : TQueue → ℕ → Tct → Option (TQueue × Tct)
q_add_task q task t =
    if q.count == 0
    then some (record { head = some task; tail = some task; count = 1 }, unlink t task)
    else do
      last ← q.tail
      let t1 = set_next t last (some task)
      let t2 = set_prev t1 task (some last)
      some (record q { tail = some task; count = q.count + 1 }, set_next t2 task none)

-- The dequeued task; a call on an empty queue writes through NULL.
unfoldable pub q_get_task : TQueue → Tct → Option (ℕ × TQueue × Tct)
q_get_task q t = if q.count == 0 then none else do
  task ← q.head
  if q.count - 1 == 0
      then some (task, record { head = none; tail = none; count = 0 }, unlink t task)
      else do
        first ← (t task).next_in_queue
        let q' = record q { head = some first; count = q.count - 1 }
        some (task, q', unlink (set_prev t first none) task)

-- `while (theTask != task && theTask != NULL) theTask = theTask->nextInQueue;` on fuel: the inner
-- option is the pointer where the walk ends, the outer is `none` if the fuel runs out.
unfoldable pub find_in_queue : ℕ → Tct → ℕ → Ptr → Option Ptr
find_in_queue fuel t task none = some none
find_in_queue zero t task (some p) = if p == task then some (some p) else none
find_in_queue (suc fuel) t task (some p) =
    let rest = find_in_queue fuel t task (t p).next_in_queue in
    if p == task then some (some p) else rest

-- The writes of `muxx_qRemoveTask` to the task `p` that it found, in two steps: the link from the
-- side of the head, and the link from the side of the tail.
unfoldable pub unlink_before : TQueue → ℕ → Tct → TQueue × Tct
unlink_before q p t = elim (t p).prev_in_queue [
  | some before ↦ (q, set_prev t p (t p).next_in_queue)
  | none ↦ (record q { head = (t p).next_in_queue }, t)
]

unfoldable pub unlink_after : TQueue → ℕ → Tct → TQueue × Tct
unlink_after q p t = elim (t p).next_in_queue [
  | some after ↦ (q, set_prev t after (t p).prev_in_queue)
  | none ↦ (record q { tail = (t p).prev_in_queue }, t)
]

unfoldable pub q_unlink_task : TQueue → ℕ → Tct → TQueue × Tct
unfolding unlink_before unlink_after
q_unlink_task q p t =
    let (q1, t1) = unlink_before q p t in
    let (q2, t2) = unlink_after q1 p t1 in (record q2 { count = q2.count - 1 }, unlink t2 p)

-- The result is what the function returns, the queue and the table; `none` is no fault here but
-- a walk that does not end.
unfoldable pub q_remove_task : ℕ → TQueue → ℕ → Tct → Option (Ptr × TQueue × Tct)
unfolding find_in_queue q_unlink_task
q_remove_task fuel q task t = if q.count == 0 then some (none, q, t) else do
  found ← find_in_queue fuel t task q.head
  elim found [
    | none ↦ some (none, q, t)
    | some p ↦ let (q', t') = q_unlink_task q p t in some (some p, q', t')
  ]
