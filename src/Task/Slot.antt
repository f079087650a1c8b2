-- ===== src/Task/Slot.antt =====
-- The searches of the task table.
use muxx.Prelude.{
  ℕ, zero, suc, ◌+◌, ◌≡◌, ◌≢◌, ◌<◌, ◌≤◌, none, some, if◌then◌else◌, arith, inl, inr, ◌⊎◌, leb, ltb,
  ◌&&◌,
}
use muxx.Types.{Tct}
use muxx.Task.{find_slot, find_pid, tcbinit_from, tcbinit, clear_task}

-- What the search finds is a free task.
pub find_slot-free :
    (left i : ℕ) (t : Tct)
    → 0 < find_slot left i t
    → (i ≤ find_slot left i t)
      × (find_slot left i t < i + left)
      × ((t (find_slot left i t)).pid ≡ 0)
unfolding find_slot
find_slot-free zero i t p = absurd (omega arith)
find_slot-free (suc left) i t p = ground (arith, find_slot-free left (suc i) t)

-- It finds none only if all but the first one of the table are in use.
pub find_slot-full :
    (left i : ℕ) (t : Tct)
    → find_slot left i t ≡ 0
    → (j : ℕ) → 0 < j
    → i ≤ j
    → j < i + left
    → (t j).pid ≢ 0
unfolding find_slot
find_slot-full zero i t e j p le lt = absurd (omega arith)
find_slot-full (suc left) i t e j p le lt =
    let rest : find_slot left (suc i) t ≡ 0 → suc i ≤ j → j < suc i + left → (t j).pid ≢ 0 =
      λ h a b. find_slot-full left (suc i) t h j p a b in
    let here : (j ≡ i) ⊎ (suc i ≤ j) = omega arith in
    elim here [ inl at ↦ ground (arith, at) | inr above ↦ ground (arith, rest) ]

-- The search by number gives a task that has it, the first one.
pub find_pid-found :
    (left i : ℕ) (t : Tct) (pid j : ℕ)
    → find_pid left i t pid ≡ some j
    → (i ≤ j) × (j < i + left) × ((t j).pid ≡ pid) × ((l : ℕ) → i ≤ l → l < j → (t l).pid ≢ pid)
unfolding find_pid
find_pid-found zero i t pid j e = ground arith
find_pid-found (suc left) i t pid j e = ground (arith, find_pid-found left (suc i) t pid j)

pub find_pid-none :
    (left i : ℕ) (t : Tct) (pid : ℕ)
    → find_pid left i t pid ≡ none
    → (j : ℕ) → i ≤ j
    → j < i + left
    → (t j).pid ≢ pid
unfolding find_pid
find_pid-none zero i t pid e j le lt = absurd (omega arith)
find_pid-none (suc left) i t pid e j le lt =
    let rest : find_pid left (suc i) t pid ≡ none → suc i ≤ j → j < suc i + left → (t j).pid ≢ pid =
      λ h a b. find_pid-none left (suc i) t pid h j a b in
    let here : (j ≡ i) ⊎ (suc i ≤ j) = omega arith in
    elim here [ inl at ↦ ground (arith, at) | inr above ↦ ground (arith, rest) ]

pub tcbinit_from-cleared :
    (left i : ℕ) (t : Tct) (j : ℕ)
    → tcbinit_from left i t j
      ≡ (if leb i j && ltb j (i + left) then record (t j) { task = clear_task (t j).task } else t j)
unfolding tcbinit_from
tcbinit_from-cleared zero i t j = ground arith
tcbinit_from-cleared (suc left) i t j =
    ground (arith, tcbinit_from-cleared left (suc i) (tcbinit i t) j)
