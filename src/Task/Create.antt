-- ===== src/Task/Create.antt =====
-- `muxx_taskinit`: a new task, or a panic.
use muxx.Prelude.{
  ℕ, ◌≡◌, ◌≢◌, ◌<◌, refl, ap, sym, ◌∙◌, Bool, true, false, ◌||◌, ◌==◌, if◌then◌else◌, arith, inl,
  inr, ◌⊎◌, leb, Bool-cases,
}
use muxx.Prelude.Int.{pos}
use muxx.Config.{max_tasks, sys_task, drv_task}
use muxx.Types.{Tct}
use muxx.Kernel.{Kernel, ok, halted, set_task}
use muxx.Task.{new_task, next_spid, next_upid, find_slot, use_slot, taskinit}
use muxx.Task.Slot.{find_slot-free, find_slot-full}
use muxx.Task.Numbers.{IsNumbered, Created, Issued, next_spid-Issued, next_upid-Issued}

pub use_slot-found :
    (k : Kernel) (type pid ppid entry privs : ℕ)
    → 0 < find_slot max_tasks 0 k.tct
    → use_slot type pid ppid entry privs k
      ≡ ok (pos (find_slot max_tasks 0 k.tct)) (record k {
        tct = set_task (find_slot max_tasks 0 k.tct) (new_task k type pid ppid entry privs) k.tct;
      })
unfolding use_slot
use_slot-found k type pid ppid entry privs p =
    let test : (find_slot max_tasks 0 k.tct == 0) ≡ false = ground arith in rw test refl

-- The state after the block `i` has been filled in.
abbrev pub filled : Kernel → (type pid ppid entry privs i : ℕ) → Kernel
filled k type pid ppid entry privs i = record k {
  tct = set_task i (new_task k type pid ppid entry privs) k.tct;
}

filled-IsNumbered :
    (k k1 : Kernel) (type pid ppid entry privs i : ℕ)
    → IsNumbered k
    → Issued k pid k1
    → IsNumbered (filled k1 type pid ppid entry privs i)
filled-IsNumbered k k1 type pid ppid entry privs i is n = record {
  started = n.numbered.started;
  sys_range = n.numbered.sys_range;
  apart = n.numbered.apart;
  user_start = n.numbered.user_start;
  user_range = n.numbered.user_range;
  users = n.numbered.users;
  spids = n.numbered.spids;
  upids = n.numbered.upids;
  issued = λ j l. ground (arith, n.numbered.issued j, n.covered);
  unique = λ a b la lb ne e. ground (
    arith,
    n.numbered.unique a b,
    n.new (k.tct a).pid,
    n.new (k.tct b).pid,
    is.issued a,
    is.issued b,
    ap (λ (t : Tct). t a) n.tct_same,
    ap (λ (t : Tct). t b) n.tct_same,
  );
}

pub filled-Created :
    (k k1 : Kernel) (type pid ppid entry privs i : ℕ)
    → IsNumbered k
    → Issued k pid k1
    → (0 < i) × (i < max_tasks)
    → (k.tct i).pid ≡ 0
    → Created k type ppid entry privs i (filled k1 type pid ppid entry privs i)
filled-Created k k1 type pid ppid entry privs i is n inner free = record {
  inner = inner;
  was_free = free;
  number = ground (arith, n.positive);
  fresh = λ j l. ground (arith, n.new (k.tct j).pid, is.issued j);
  others = λ j ne. ground (arith, ap (λ (t : Tct). t j) n.tct_same);
  parent = ground arith;
  kind = ground arith;
  privileges = ground arith;
  entry_point = ground arith;
  numbered = filled-IsNumbered k k1 type pid ppid entry privs i is n;
  kept = record {
    current = n.kept.current;
    ready = n.kept.ready;
    suspended = n.kept.suspended;
    mmcbt = n.kept.mmcbt;
    curtasks = n.kept.curtasks;
    map = n.kept.map;
    memory = n.kept.memory;
    drivers = n.kept.drivers;
    channel_table = n.kept.channel_table;
  };
}

-- A task of the table but the first one is free.
abbrev pub HasRoom : Tct → Type 0
HasRoom t = (j : ℕ) × (0 < j) × (j < max_tasks) × ((t j).pid ≡ 0)

HasRoom-found : (t : Tct) → HasRoom t → 0 < find_slot max_tasks 0 t
HasRoom-found t (j, p, l, e) =
    let cases : (find_slot max_tasks 0 t ≡ 0) ⊎ (0 < find_slot max_tasks 0 t) = omega arith in
    elim cases [
      | inl none_left ↦
          absurd (find_slot-full max_tasks 0 t none_left j p (omega arith) (omega (arith, l)) e)
      | inr found ↦ found
    ]

use_slot-Created :
    (k k1 : Kernel) (type pid ppid entry privs : ℕ)
    → IsNumbered k
    → Issued k pid k1
    → HasRoom k.tct
    → (i : ℕ) × (k' : Kernel) × (use_slot type pid ppid entry privs k1 ≡ ok (pos i) k')
      × Created k type ppid entry privs i k'
use_slot-Created k k1 type pid ppid entry privs is n room =
    let some_free : 0 < find_slot max_tasks 0 k1.tct = HasRoom-found k1.tct (rw n.tct_same room) in
    let (low, high, free) = find_slot-free max_tasks 0 k1.tct some_free in
    let i : ℕ = find_slot max_tasks 0 k1.tct in
    (
      i,
      filled k1 type pid ppid entry privs i,
      use_slot-found k1 type pid ppid entry privs some_free,
      filled-Created k k1 type pid ppid entry privs i is n (some_free, omega (arith, high))
          (rw (sym n.tct_same) free),
    )

-- Whether the type word asks for a number of the system's.
abbrev pub is_system : ℕ → Bool
is_system type = (type == sys_task) || (type == drv_task)

next_pid-Issued :
    (k : Kernel) (type : ℕ)
    → IsNumbered k
    → k.topspid < k.maxspid
    → k.topupid < k.maxupid
    → k.minupid < k.maxupid
    → (pid : ℕ) × (k1 : Kernel) × ((if is_system type then next_spid else next_upid) k ≡ ok pid k1)
      × Issued k pid k1
next_pid-Issued k type is spids upids range = elim (Bool-cases (is_system type)) [
  | inl system ↦ rw system (next_spid-Issued k is spids)
  | inr user ↦ rw user (next_upid-Issued k is upids range)
]

pub taskinit-use :
    (k k1 : Kernel) (type ppid entry privs pid : ℕ)
    → k.curtasks < max_tasks
    → (if is_system type then next_spid else next_upid) k ≡ ok pid k1
    → pid ≢ 0
    → taskinit type ppid entry privs k ≡ use_slot type pid ppid entry privs k1
unfolding taskinit
taskinit-use k k1 type ppid entry privs pid few next ne =
    let below : leb max_tasks k.curtasks ≡ false = ground arith in
    let used : (pid == 0) ≡ false = ground arith in rw (below, next, used) refl

-- If the table has a free element besides the first, and neither range of numbers is used up,
-- `muxx_taskinit` returns the index of an element that was free, which has the given fields, and
-- whose number is not 0 and differs from the numbers of all tasks before. No other element
-- changes, and all numbers in use are still different and within what has been given out.
pub taskinit-Created :
    (k : Kernel) (type ppid entry privs : ℕ)
    → IsNumbered k
    → HasRoom k.tct
    → k.curtasks < max_tasks
    → k.topspid < k.maxspid
    → k.topupid < k.maxupid
    → k.minupid < k.maxupid
    → (i : ℕ) × (k' : Kernel) × (taskinit type ppid entry privs k ≡ ok (pos i) k')
      × Created k type ppid entry privs i k'
taskinit-Created k type ppid entry privs is room few spids upids range =
    let (pid, k1, next, n) = next_pid-Issued k type is spids upids range in
    let (i, k', used, c) = use_slot-Created k k1 type pid ppid entry privs is n room in
    (i, k', taskinit-use k k1 type ppid entry privs pid few next n.positive ∙ used, c)

full_table :
    (t : Tct) → ((j : ℕ) → 0 < j → j < max_tasks → (t j).pid ≢ 0) → find_slot max_tasks 0 t ≡ 0
full_table t used =
    let cases : (find_slot max_tasks 0 t ≡ 0) ⊎ (0 < find_slot max_tasks 0 t) = omega arith in
    elim cases [
      | inl none_left ↦ none_left
      | inr found ↦
          let (low, high, free) = find_slot-free max_tasks 0 t found in
          absurd (used (find_slot max_tasks 0 t) found (omega (arith, high)) free)
    ]

-- If all elements but the first are in use, the kernel panics: EMAXTASK is not returned while
-- `curtasks` is below its limit.
pub taskinit-full :
    (k : Kernel) (type ppid entry privs : ℕ)
    → IsNumbered k
    → ((j : ℕ) → 0 < j → j < max_tasks → (k.tct j).pid ≢ 0)
    → k.curtasks < max_tasks
    → k.topspid < k.maxspid
    → k.topupid < k.maxupid
    → k.minupid < k.maxupid
    → (k' : Kernel) × (taskinit type ppid entry privs k ≡ halted k') × (k'.tct ≡ k.tct)
unfolding use_slot
taskinit-full k type ppid entry privs is used few spids upids range =
    let (pid, k1, next, n) = next_pid-Issued k type is spids upids range in
    let none_left : find_slot max_tasks 0 k1.tct ≡ 0 = rw n.tct_same (full_table k.tct used) in
    let test : (find_slot max_tasks 0 k1.tct == 0) ≡ true = ground arith in
    (
      record k1 { ipl = 7 },
      taskinit-use k k1 type ppid entry privs pid few next n.positive ∙ rw test refl,
      n.tct_same,
    )
