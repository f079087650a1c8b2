-- ===== src/Task/Numbers.antt =====
-- The numbers of the tasks: a new task gets a free element of the table and a number of its own.
use muxx.Prelude.{
  ℕ, ◌+◌, ◌%◌, ◌^◌, ◌≡◌, ◌≢◌, ◌<◌, ◌≤◌, refl, false, ◌==◌, if◌then◌else◌, arith, inl, inr, ◌⊎◌, ltb,
}
use muxx.Config.{max_tasks}
use muxx.Kernel.{Kernel, ok}
use muxx.Task.{next_spid, next_upid}

-- A number that has been given out: up to the top of the system's, or of the users'.
abbrev pub IsIssued : (topspid minupid topupid : ℕ) → ℕ → Type 0
IsIssued topspid minupid topupid p = (p ≤ topspid) ⊎ ((minupid < p) × (p ≤ topupid))

-- All numbers in use have been given out, each to one task.
pub record IsNumbered (k : Kernel) : Type 0 where
  pub started : 0 < k.topspid
  pub sys_range : k.topspid ≤ k.maxspid
  pub apart : k.maxspid ≤ k.minupid
  pub user_start : (k.topupid ≡ 0) ⊎ (k.minupid ≤ k.topupid)
  pub user_range : k.topupid ≤ k.maxupid
  pub users : k.minupid ≤ k.maxupid
  pub spids : k.maxspid < 65535
  pub upids : k.maxupid < 65535
  pub issued : (i : ℕ) → i < max_tasks → IsIssued k.topspid k.minupid k.topupid (k.tct i).pid
  pub unique :
      (i j : ℕ)
      → i < max_tasks
      → j < max_tasks
      → (k.tct i).pid ≢ 0
      → (k.tct i).pid ≡ (k.tct j).pid
      → i ≡ j

-- Giving out a number or filling in a block leaves the queues, the turn, memory, drivers and channels.
pub record Kept (k k' : Kernel) : Type 0 where
  pub current : k'.curtcb ≡ k.curtcb
  pub ready : k'.readyq ≡ k.readyq
  pub suspended : k'.suspq ≡ k.suspq
  pub mmcbt : k'.mmcbt ≡ k.mmcbt
  pub curtasks : k'.curtasks ≡ k.curtasks
  pub map : k'.mmu ≡ k.mmu
  pub memory : k'.memory ≡ k.memory
  pub drivers : k'.drvcbt ≡ k.drvcbt
  pub channel_table : k'.iott ≡ k.iott

-- The step from `k` to `k'` made task `i` with the number `pid`.
pub record Created (k : Kernel) (type ppid entry privs i : ℕ) (k' : Kernel) : Type 0 where
  pub inner : (0 < i) × (i < max_tasks)
  pub was_free : (k.tct i).pid ≡ 0
  pub number : (k'.tct i).pid ≢ 0
  pub fresh : (j : ℕ) → j < max_tasks → (k.tct j).pid ≢ (k'.tct i).pid
  pub others : (j : ℕ) → j ≢ i → k'.tct j ≡ k.tct j
  pub parent : (k'.tct i).ppid ≡ ppid
  pub kind : (k'.tct i).task_type ≡ type
  pub privileges : (k'.tct i).privileges ≡ privs
  pub entry_point : (k'.tct i).cpu_state.pc ≡ entry
  pub numbered : IsNumbered k'
  pub kept : Kept k k'

-- What giving out a number does.
pub record Issued (k : Kernel) (pid : ℕ) (k1 : Kernel) : Type 0 where
  pub positive : pid ≢ 0
  pub new : (p : ℕ) → IsIssued k.topspid k.minupid k.topupid p → p ≢ pid
  pub tct_same : k1.tct ≡ k.tct
  pub covered : IsIssued k1.topspid k1.minupid k1.topupid pid
  pub numbered : IsNumbered k1
  pub kept : Kept k k1

pub next_spid-Issued :
    (k : Kernel)
    → IsNumbered k
    → k.topspid < k.maxspid
    → (pid : ℕ) × (k1 : Kernel) × (next_spid k ≡ ok pid k1) × Issued k pid k1
unfolding next_spid
next_spid-Issued k is lt =
    let pid : (k.topspid + 1) % 2 ^ 16 ≡ k.topspid + 1 = omega (arith, is.spids) in
    (
      k.topspid + 1,
      record k { topspid = k.topspid + 1 },
      ground (arith, is.started, pid),
      record {
        positive = λ e. omega (arith, e);
        new = λ p i e. ground (arith, is.sys_range, is.apart);
        tct_same = refl;
        covered = inl (omega arith);
        numbered = record {
          started = omega arith;
          sys_range = omega arith;
          apart = is.apart;
          user_start = is.user_start;
          user_range = is.user_range;
          users = is.users;
          spids = is.spids;
          upids = is.upids;
          issued = λ i l. ground (arith, is.issued i);
          unique = is.unique;
        };
        kept = record {
          current = refl;
          ready = refl;
          suspended = refl;
          mmcbt = refl;
          curtasks = refl;
          map = refl;
          memory = refl;
          drivers = refl;
          channel_table = refl;
        };
      },
    )

pub next_upid-Issued :
    (k : Kernel)
    → IsNumbered k
    → k.topupid < k.maxupid
    → k.minupid < k.maxupid
    → (pid : ℕ) × (k1 : Kernel) × (next_upid k ≡ ok pid k1) × Issued k pid k1
unfolding next_upid
next_upid-Issued k is lt some_left =
    let top : ℕ = if k.topupid == 0 then k.minupid else k.topupid in
    let bounds : (k.minupid ≤ top) × (k.topupid ≤ top) × (top < k.maxupid) =
      ground (arith, is.user_start) in
    let pid : (top + 1) % 2 ^ 16 ≡ top + 1 = omega (arith, is.upids, bounds) in
    let fits : ltb k.maxupid (top + 1) ≡ false = ground (arith, bounds) in
    (
      top + 1,
      record k { topupid = top + 1 },
      rw (pid, fits) refl,
      record {
        positive = λ e. omega (arith, e);
        new = λ p i e. ground (arith, is.sys_range, is.apart, bounds);
        tct_same = refl;
        covered = inr (omega (arith, bounds), omega arith);
        numbered = record {
          started = is.started;
          sys_range = is.sys_range;
          apart = is.apart;
          user_start = inr (omega (arith, bounds));
          user_range = omega (arith, bounds);
          users = is.users;
          spids = is.spids;
          upids = is.upids;
          issued = λ i l. ground (arith, is.issued i, bounds);
          unique = is.unique;
        };
        kept = record {
          current = refl;
          ready = refl;
          suspended = refl;
          mmcbt = refl;
          curtasks = refl;
          map = refl;
          memory = refl;
          drivers = refl;
          channel_table = refl;
        };
      },
    )
