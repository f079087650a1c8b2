-- ===== src/System/Boot.antt =====
-- What sys/sys.s leaves: INIT runs, and no other task is there.
use muxx.Prelude.{ℕ, ◌≡◌, ◌<◌, refl, [], arith, inl, inr, ◌==◌, false, Bool-cases, if◌then◌else◌}
use muxx.Config.{max_tasks, TaskStatus}
use muxx.Types.{Tct}
use muxx.Mem.Sound.{mem_init-IsSound}
use muxx.Kernel.{Kernel, switched, set_task}
use muxx.Sched.{muxx_switch}
use muxx.Task.{tctinit, fakeproc, init_mmu}
use muxx.Task.Slot.{tcbinit_from-cleared}
use muxx.Task.Numbers.{IsNumbered}
use muxx.Driver.{drvinit}
use muxx.Channel.{iottinit}
use muxx.Channel.Wired.{booted-IsWired}
use muxx.System.{scb, init_tables, sysstart}
use muxx.System.Sane.{IsSane, Quiet, IsSane-Quiet}

tctinit-pid : (t : Tct) (j : ℕ) → j < max_tasks → (tctinit t j).pid ≡ 0
unfolding tctinit
tctinit-pid t j l = ground (arith, tcbinit_from-cleared max_tasks 0 t j, l)

fakeproc-pid :
    (pc : ℕ) (k : Kernel) (j : ℕ)
    → (k.tct j).pid ≡ 0
    → ((fakeproc pc k).tct j).pid ≡ (if j == 0 then 1 else 0)
unfolding fakeproc
fakeproc-pid pc k j e = elim (Bool-cases (j == 0)) [
  | inl init ↦ ground (arith, init)
  | inr other ↦ elim (Bool-cases (j == 1)) [
    | inl next ↦ let at : j ≡ 1 = ground (arith, next) in rw at refl
    | inr far ↦
        let ne0 : (0 == j) ≡ false = ground (arith, other) in
        let ne1 : (1 == j) ≡ false = ground (arith, far) in rw (other, ne0, ne1, e) refl
  ]
]

-- All numbers but INIT's are 0.
init_pids :
    (pc : ℕ) (k : Kernel) (j : ℕ)
    → j < max_tasks
    → ((init_tables pc (scb k)).tct j).pid ≡ (if j == 0 then 1 else 0)
unfolding init_tables drvinit iottinit scb
init_pids pc k j l = fakeproc-pid pc _ j (tctinit-pid k.tct j l)

-- The state that `sysstart` switches to INIT from.
abbrev booted : (pc : ℕ) → Kernel → Kernel
booted pc k = init_tables pc (scb k)

booted-IsNumbered : (pc : ℕ) (k : Kernel) → IsNumbered (booted pc k)
unfolding init_tables fakeproc drvinit iottinit scb
booted-IsNumbered pc k = record {
  started = omega arith;
  sys_range = omega arith;
  apart = omega arith;
  user_start = inl refl;
  user_range = omega arith;
  users = omega arith;
  spids = omega arith;
  upids = omega arith;
  issued = λ j l. ground (arith, init_pids pc k j l);
  unique = λ i j li lj ne e. ground (arith, init_pids pc k i li, init_pids pc k j lj);
}

booted-IsSane : (pc : ℕ) (k : Kernel) → IsSane (booted pc k) 0 [] []
unfolding init_tables fakeproc drvinit iottinit scb
booted-IsSane pc k = record {
  turn = record {
    current = refl;
    ready = record { linked = (refl, refl); count = refl; distinct = tt };
    out = refl;
  };
  suspended = record { linked = (refl, refl); count = refl; distinct = tt };
  awake = refl;
  apart = λ y i. refl;
  running_used = (omega arith, λ e. ground (arith, e));
  ready_used = λ y i. ground (arith, i);
  suspended_used = λ y i. ground (arith, i);
  numbered = booted-IsNumbered pc k;
  sound = mem_init-IsSound;
  few = omega arith;
  wired = booted-IsWired k.drvcbt k.iott;
}

-- The state after the switch to INIT.
abbrev pub in_init : (pc : ℕ) → Kernel → Kernel
in_init pc k = record (booted pc k) {
  tct = set_task 0 (λ b. record b { status = TaskStatus.run }) (booted pc k).tct;
  mmu = ((booted pc k).tct 0).mmu_state;
}

in_init-Quiet : (pc : ℕ) (k : Kernel) → Quiet (booted pc k) (in_init pc k)
in_init-Quiet pc k = record {
  tables = record {
    pids = λ y. ground arith;
    topspid = refl;
    maxspid = refl;
    minupid = refl;
    topupid = refl;
    maxupid = refl;
    curtasks = refl;
    mmcbt = refl;
    wired = λ w. w;
  };
  current = refl;
  ready = refl;
  suspended = refl;
  links = λ y. ground arith;
}

pub in_init-IsSane : (pc : ℕ) (k : Kernel) → IsSane (in_init pc k) 0 [] []
in_init-IsSane pc k =
    IsSane-Quiet (booted pc k) (in_init pc k) 0 [] [] (in_init-Quiet pc k) (booted-IsSane pc k)

-- Whatever the tables held before, the start switches to INIT: it runs at the address of `init`
-- with its own memory map, no task is ready or suspended, and the tables are in order.
pub sysstart-IsSane :
    (pc : ℕ) (k : Kernel)
    → (k' : Kernel) × (sysstart pc (scb k) ≡ switched k')
      × IsSane k' 0 [] []
      × (k'.mmu ≡ init_mmu)
      × ((k'.tct 0).cpu_state.pc ≡ pc)
unfolding sysstart muxx_switch init_tables fakeproc drvinit iottinit scb
sysstart-IsSane pc k = (in_init pc k, refl, in_init-IsSane pc k, refl, refl)
