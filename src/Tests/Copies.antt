-- ===== src/Tests/Copies.antt =====
-- XCOPY and LOADPRC between INIT and a new task.
use muxx.Prelude.{ℕ, ◌+◌, ◌*◌, ◌≡◌, refl, arith, update, inl, inr, some, [], ◌∷◌}
use muxx.Prelude.Int.{pos}
use muxx.Config.{task_base}
use muxx.Mem.Sound.{mem_init-IsSound}
use muxx.Kernel.{Kernel, ok}
use muxx.Task.Numbers.{IsNumbered}
use muxx.Xcopy.{Memcpy}
use muxx.Xcopy.Loop.{IsCopied}
use muxx.Xcopy.Copied.{user_address}
use muxx.Load.{Strlen, load_name}
use muxx.System.Sane.{IsSane}
use muxx.System.Spare.{HasSpare}
use muxx.System.Loaded.{load_name-IsCopied}
use muxx.Tests.Kernels.{a_frame, running, running-IsWired}
use muxx.Tests.Queues.{no_queue, no_mmu}
use muxx.Tests.Tasks.{with_pids}

-- The pages of the new task start at block 1024, those of INIT at block 0.
abbrev pages_at : (block : ℕ) → ℕ → ℕ
pages_at block p = block + p * 128

abbrev with_pages : Kernel → (task block : ℕ) → Kernel
with_pages k task block = record k {
  tct = update k.tct task (record (k.tct task) {
    task = record (k.tct task).task { mmu_state = record no_mmu { upar = pages_at block } };
  });
}

-- INIT runs, and task 1 with the number 65 has just been made.
abbrev newcomer : Kernel
newcomer =
    with_pages
      (with_pages
        (record running {
          tct = with_pids (update (update (λ i. 0) 0 1) 1 65);
          curtcb = some 0;
          readyq = no_queue;
          topupid = 65;
        })
        0 0)
      1 1024

newcomer-IsNumbered : IsNumbered newcomer
newcomer-IsNumbered = record {
  started = omega arith;
  sys_range = omega arith;
  apart = omega arith;
  user_start = inr (omega arith);
  user_range = omega arith;
  users = omega arith;
  spids = omega arith;
  upids = omega arith;
  issued = λ i l. ground arith;
  unique = λ i j li lj ne e. ground arith;
}

newcomer-IsSane : IsSane newcomer 0 [] []
newcomer-IsSane = record {
  turn = record {
    current = refl;
    ready = record { linked = (refl, refl); count = refl; distinct = tt };
    out = refl;
  };
  suspended = record { linked = (refl, refl); count = refl; distinct = tt };
  awake = refl;
  apart = λ y i. refl;
  running_used = (omega arith, λ e. ground (arith, e));
  ready_used = λ y i. ground (arith, i);
  suspended_used = λ y i. ground (arith, i);
  numbered = newcomer-IsNumbered;
  sound = mem_init-IsSound;
  few = omega arith;
  wired = running-IsWired;
}

newcomer-HasSpare : HasSpare newcomer 0 [] [] 1
newcomer-HasSpare = record {
  sane = newcomer-IsSane;
  idle = λ e. ground (arith, e);
  unready = refl;
  awake = refl;
  used = (omega arith, λ e. ground (arith, e));
}

abbrev a_memcpy : Memcpy
a_memcpy m dst src n bytes = bytes

abbrev a_strlen : Strlen
a_strlen m addr bytes = 5

load_name-IsCopied_example :
    (k' : Kernel) × (load_name a_memcpy a_strlen a_frame 1 0o61000 newcomer
      ≡ ok (pos (k'.tct 1).pid) k')
    × IsSane k' 0 (1 ∷ []) []
    × IsCopied 5
        (user_address newcomer 0 0o61000)
        (user_address newcomer 1 task_base)
        newcomer.memory
        k'.memory
load_name-IsCopied_example =
    load_name-IsCopied a_memcpy a_strlen a_frame newcomer 0 [] [] 1 0o61000 newcomer-HasSpare refl
      (omega arith) (omega arith) (omega arith) (omega arith) (inl (omega arith))
      (omega arith, omega arith) (omega arith, omega arith)
