-- ===== src/Tests/Tasks.antt =====
-- The table of tasks when only INIT is there.
use muxx.Prelude.{ℕ, ◌≡◌, refl, arith, update, inl, inr}
use muxx.Prelude.Int.{pos}
use muxx.Config.{pdr_acc_ro}
use muxx.Errors.{eok}
use muxx.Types.{Tct}
use muxx.Kernel.{Kernel, ok}
use muxx.Task.{taskinit, svc_protmem}
use muxx.Task.Numbers.{IsNumbered, Created}
use muxx.Task.Create.{HasRoom, taskinit-Created}
use muxx.Task.Pages.{Protected, svc_protmem-Protected}
use muxx.Tests.Kernels.{a_frame, running}
use muxx.Tests.Queues.{three}

-- The numbers are given by the function.
abbrev pub with_pids : (ℕ → ℕ) → Tct
with_pids f i = record (three i) { task = record (three i).task { pid = f i } }

abbrev init_only : Kernel
init_only = record running { tct = with_pids (update (λ i. 0) 0 1) }

init_only-IsNumbered : IsNumbered init_only
init_only-IsNumbered = record {
  started = omega arith;
  sys_range = omega arith;
  apart = omega arith;
  user_start = inl refl;
  user_range = omega arith;
  users = omega arith;
  spids = omega arith;
  upids = omega arith;
  issued = λ i l. ground arith;
  unique = λ i j li lj ne e. ground arith;
}

init_only-HasRoom : HasRoom init_only.tct
init_only-HasRoom = (1, omega arith, omega arith, refl)

taskinit-Created_example :
    (i : ℕ) × (k' : Kernel) × (taskinit 1 1 0o60000 0 init_only ≡ ok (pos i) k')
    × Created init_only 1 1 0o60000 0 i k'
taskinit-Created_example =
    taskinit-Created init_only 1 1 0o60000 0 init_only-IsNumbered init_only-HasRoom (omega arith)
      (omega arith) (omega arith) (omega arith)

svc_protmem-Protected_example :
    (k' : Kernel) × (svc_protmem a_frame 0 4 pdr_acc_ro running ≡ ok eok k')
    × Protected running 2 4 pdr_acc_ro k'
svc_protmem-Protected_example =
    svc_protmem-Protected a_frame running 2 2 0 4 pdr_acc_ro refl
      (record {
        prot_known = refl;
        in_range = omega arith;
        own_task = inr (inl refl);
        own_page = inr (omega arith);
      })
      refl
