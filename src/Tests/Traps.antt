-- ===== src/Tests/Traps.antt =====
-- Trap numbers, exceptions and the user's calls, where task 2 runs.
use muxx.Prelude.{ℕ, ◌%◌, ◌≡◌, ◌<◌, ◌≤◌, refl, false, none, some, arith, update}
use muxx.Prelude.Int.{ℤ, pos}
use muxx.Errors.{eok, einvval, enoimpl}
use muxx.Kernel.{Kernel, Cmd, ok, fault}
use muxx.Mutex.{svc_mutex, mutex_alloc, mutex_dealloc}
use muxx.Driver.{
  locate_pdev, locate_from, try_driver, match_driver, same_bytes, trim, str_len, svc_alloc,
  alloc_driver, find_driver, find_driver_from,
}
use muxx.Channel.{
  svc_open, open_channel, find_free_iote, first_free_iote, open_located, claim_device, mark_open,
}
use muxx.Trap.{Service, open_svc, systrap_handler}
use muxx.Trap.Calls.{Macro, trap_number, trap_name}
use muxx.Trap.Dispatch.{reached, systrap_handler-reached}
use muxx.User.{lib_open}
use muxx.User.Files.{lib_open-lowest}
use muxx.User.Wait.{mutexw, mutexw-FreeAfter}
use muxx.Config.{mut_alloc}
use muxx.Tests.Kernels.{a_frame, running, pc_name, pc_driver}

-- A run that tells OPEN from the others.
abbrev only_open : Service → Cmd ℤ
only_open open_svc k = ok eok k
only_open s k = ok enoimpl k

systrap_handler-reached_example :
    ((call : Macro)
      → systrap_handler only_open (trap_number (trap_name call)) running
        ≡ only_open (reached call) running)
    × ((n : ℕ) → 40 ≤ n → n ≤ 160 → systrap_handler only_open n running ≡ fault)
    × ((n : ℕ) → 160 < n → systrap_handler only_open n running ≡ ok einvval running)
systrap_handler-reached_example = systrap_handler-reached only_open running

-- Nobody owns the device.
abbrev unowned : Kernel
unowned = record running {
  drvcbt = update running.drvcbt 0 (record pc_driver { alloc = false; ownerid = none });
}

opened_run :
    (k' : Kernel) × (svc_open false a_frame pc_name
        (record unowned { t_errno = update unowned.t_errno 2 eok })
      ≡ ok (some 0) k')
unfolding svc_open open_channel find_free_iote first_free_iote open_located claim_device mark_open
    svc_mutex mutex_alloc mutex_dealloc locate_pdev locate_from try_driver match_driver same_bytes
    trim str_len svc_alloc alloc_driver find_driver find_driver_from
opened_run = (_, refl)

lib_open-lowest_example :
    lib_open false a_frame pc_name unowned
    ≡ ok (pos 0) (record opened_run.0 {
      channels = update opened_run.0.channels 2 (update (opened_run.0.channels 2) 0 (some 0));
    })
lib_open-lowest_example =
    lib_open-lowest false a_frame pc_name unowned opened_run.0 2 0 0 refl (omega arith) refl
      (λ j l. absurd (omega (arith, l))) opened_run.1

-- Another task has mutex 7, and releases it while the caller waits.
abbrev taken : Kernel
taken = record running { mutexes = update running.mutexes 7 9 }

abbrev release : Kernel → Kernel
release k = record k { mutexes = update k.mutexes 7 0 }

mutexw-FreeAfter_example :
    (k' : Kernel) × (mutexw release a_frame 5 7 mut_alloc taken ≡ ok eok k')
    × (k'.mutexes 7 ≡ (k'.tct 2).pid % 256)
mutexw-FreeAfter_example =
    mutexw-FreeAfter release a_frame 1 5 7 2 taken (omega arith) (λ j. refl) refl
      ((λ e. ground arith), refl) (omega arith)
