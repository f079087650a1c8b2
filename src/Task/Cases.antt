-- ===== src/Task/Cases.antt =====
-- What `muxx_taskinit` can do while `curtasks` is below its limit: it panics, or there is a new
-- task.
use muxx.Prelude.{
  ℕ, ◌+◌, ◌%◌, ◌^◌, ◌≡◌, ◌<◌, ◌≤◌, refl, ◌==◌, if◌then◌else◌, arith, inl, inr, ◌⊎◌, ltb, Bool-cases,
}
use muxx.Prelude.Int.{ℤ, pos}
use muxx.Config.{max_tasks}
use muxx.Kernel.{Kernel, Run, ok, halted}
use muxx.Task.{next_spid, next_upid, find_slot, use_slot, taskinit}
use muxx.Task.Slot.{find_slot-free}
use muxx.Task.Numbers.{IsNumbered, Created, Issued, next_spid-Issued, next_upid-Issued}
use muxx.Task.Create.{is_system, filled, filled-Created, use_slot-found, taskinit-use}

-- A panic, or a result that is as `P` says.
abbrev pub Stops : {A : Type 0} → Run A → Type 0
Stops {A} r = (k' : Kernel) × (r ≡ halted k')

abbrev GivesOut : Kernel → Run ℕ → Type 0
GivesOut k r = Stops r ⊎ ((pid : ℕ) × (k1 : Kernel) × (r ≡ ok pid k1) × Issued k pid k1)

next_spid-cases : (k : Kernel) → IsNumbered k → GivesOut k (next_spid k)
unfolding next_spid
next_spid-cases k is = elim (Bool-cases (ltb k.maxspid (k.topspid + 1))) [
  | inl beyond ↦
      let at_end : k.topspid ≡ k.maxspid = ground (arith, beyond, is.sys_range) in
      let pid : (k.topspid + 1) % 2 ^ 16 ≡ k.topspid + 1 = omega (arith, is.spids, at_end) in
      inl (record k { topspid = k.topspid; ipl = 7 }, ground (arith, is.started, pid, beyond))
  | inr left ↦ inr (next_spid-Issued k is (ground (arith, left)))
]

next_upid-cases : (k : Kernel) → IsNumbered k → GivesOut k (next_upid k)
unfolding next_upid
next_upid-cases k is =
    let top : ℕ = if k.topupid == 0 then k.minupid else k.topupid in
    let low : (k.minupid ≤ top) × (k.topupid ≤ top) × (top ≤ k.maxupid) =
      ground (arith, is.user_start, is.user_range, is.users) in
    let pid : (top + 1) % 2 ^ 16 ≡ top + 1 = omega (arith, is.upids, low) in
    elim (Bool-cases (ltb k.maxupid (top + 1))) [
      | inl beyond ↦ inl (record k { topupid = top; ipl = 7 }, rw (pid, beyond) refl)
      | inr left ↦
          let below : top < k.maxupid = ground (arith, left) in
          inr (next_upid-Issued k is (omega (arith, low, below)) (omega (arith, low, below)))
    ]

next_pid-cases :
    (k : Kernel) (type : ℕ)
    → IsNumbered k
    → GivesOut k ((if is_system type then next_spid else next_upid) k)
next_pid-cases k type is = elim (Bool-cases (is_system type)) [
  | inl system ↦ rw system (next_spid-cases k is)
  | inr user ↦ rw user (next_upid-cases k is)
]

-- A panic, or the new task `i`.
abbrev pub Makes : Kernel → (type ppid entry privs : ℕ) → Run ℤ → Type 0
Makes k type ppid entry privs r =
    Stops r ⊎ ((i : ℕ) × (k' : Kernel) × (r ≡ ok (pos i) k') × Created k type ppid entry privs i k')

use_slot-cases :
    (k k1 : Kernel) (type pid ppid entry privs : ℕ)
    → IsNumbered k
    → Issued k pid k1
    → Makes k type ppid entry privs (use_slot type pid ppid entry privs k1)
unfolding use_slot
use_slot-cases k k1 type pid ppid entry privs is n =
    elim (Bool-cases (find_slot max_tasks 0 k1.tct == 0)) [
      | inl full ↦ inl (record k1 { ipl = 7 }, rw full refl)
      | inr some_free ↦
          let found : 0 < find_slot max_tasks 0 k1.tct = ground (arith, some_free) in
          let (low, high, free) = find_slot-free max_tasks 0 k1.tct found in
          let i : ℕ = find_slot max_tasks 0 k1.tct in
          inr (
            i,
            filled k1 type pid ppid entry privs i,
            use_slot-found k1 type pid ppid entry privs found,
            filled-Created k k1 type pid ppid entry privs i is n (found, omega (arith, high))
                (rw (← n.tct_same) free),
          )
    ]

taskinit-stops :
    (k k1 : Kernel) (type ppid entry privs : ℕ)
    → k.curtasks < max_tasks
    → (if is_system type then next_spid else next_upid) k ≡ halted k1
    → taskinit type ppid entry privs k ≡ halted k1
unfolding taskinit
taskinit-stops k k1 type ppid entry privs few next = ground (arith, next)

-- Whatever the numbers and the table are, a task is made as it should be, or the kernel panics.
pub taskinit-cases :
    (k : Kernel) (type ppid entry privs : ℕ)
    → IsNumbered k
    → k.curtasks < max_tasks
    → Makes k type ppid entry privs (taskinit type ppid entry privs k)
taskinit-cases k type ppid entry privs is few = elim (next_pid-cases k type is) [
  | inl (k1, e) ↦ inl (k1, taskinit-stops k k1 type ppid entry privs few e)
  | inr (pid, k1, next, n) ↦
      rw (taskinit-use k k1 type ppid entry privs pid few next n.positive)
        (use_slot-cases k k1 type pid ppid entry privs is n)
]
