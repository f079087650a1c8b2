-- ===== src/Tests/Services.antt =====
-- The theorems on mutexes, devices and channels, where task 2 runs.
use muxx.Prelude.{
  ℕ, ◌+◌, ◌%◌, ◌≡◌, refl, none, some, [], arith, update, true, false, ltb, ◌*◌, if◌then◌else◌,
}
use muxx.Prelude.Int.{pos, negsuc}
use muxx.Config.{mut_alloc, mut_dealloc, mut_chan, drv_write, drv_dealloc, max_drv}
use muxx.Errors.{eok, elocked}
use muxx.Kernel.{Kernel, ok, halted}
use muxx.Mutex.{svc_mutex}
use muxx.Mutex.Lock.{svc_mutex-alloc-dealloc, svc_mutex-alloc-wide}
use muxx.Driver.{svc_alloc, find_driver, find_driver_from, same_bytes, locate_pdev}
use muxx.Driver.Names.{locate_pdev-first, located, first_named, name_length}
use muxx.Driver.Owner.{svc_alloc-freed}
use muxx.Driver.Exec.{Callback}
use muxx.Channel.{svc_open, svc_close}
use muxx.Channel.Panics.{svc_open-held}
use muxx.Channel.Close.{closed, svc_close-closed}
use muxx.Transfer.{svc_write, byte_iopkt}
use muxx.Transfer.Write.{svc_write-sent, sent}
use muxx.Tests.Kernels.{a_frame, running, pc_name, pc_desc, pc_channel, running-HasDescriptors}

svc_mutex-alloc-dealloc_example :
    (k' : Kernel) × (svc_mutex a_frame 7 mut_alloc running ≡ ok eok k')
    × (k'.mutexes 7 ≡ (running.tct 2).pid)
    × (svc_mutex a_frame 7 mut_dealloc k' ≡ ok eok running)
svc_mutex-alloc-dealloc_example =
    svc_mutex-alloc-dealloc a_frame a_frame 7 2 running (omega arith) refl (omega arith) refl

-- The running task has the number 0405.
abbrev numbered : Kernel
numbered = record running {
  tct =
      update running.tct 2
        (record (running.tct 2) { task = record (running.tct 2).task { pid = 0o405 } });
}

svc_mutex-alloc-wide_example :
    (k' : Kernel) × (svc_mutex a_frame 7 mut_alloc numbered ≡ ok eok k')
    × (k'.mutexes 7 ≡ 0o405 % 256)
    × (svc_mutex a_frame 7 mut_dealloc k' ≡ ok elocked (record k' { ipl = 7 }))
svc_mutex-alloc-wide_example =
    svc_mutex-alloc-wide a_frame a_frame 7 2 numbered (omega arith) refl (omega arith) refl

pc_found : find_driver pc_name running ≡ some 0
unfolding find_driver find_driver_from same_bytes
pc_found = refl

svc_alloc-freed_example :
    svc_alloc a_frame pc_name drv_dealloc running
    ≡ ok eok (record running {
      drvcbt =
          update running.drvcbt 0 (record (running.drvcbt 0) { ownerid = none; alloc = false });
    })
svc_alloc-freed_example =
    svc_alloc-freed a_frame pc_name 0 2 7 running refl (omega arith) refl pc_found refl refl
      (λ e. ground arith)

locate_pdev-first_example :
    locate_pdev pc_name 5 running
    ≡ located 5 (first_named max_drv 0 running.drvcbt (name_length pc_name) pc_name) running
locate_pdev-first_example = locate_pdev-first pc_name 5 running running-HasDescriptors

-- A driver that takes bytes below 128.
abbrev pub ascii : Callback
ascii h address p = (if ltb p.ioarea 128 then pos 1 else negsuc 4, p)

abbrev letters : ℕ → ℕ
letters i = 100 + 20 * i

svc_write-sent_example :
    svc_write ascii a_frame 4 3 letters running
    ≡ ok 2 (record running {
      calls =
          sent
            (λ x. ltb x 128)
            (pc_desc.callbacks drv_write)
            (byte_iopkt drv_write pc_channel)
            3
            0
            letters
            [];
      t_errno = update running.t_errno 2 (negsuc 4);
      iott = update running.iott 4 (record pc_channel { ioerror = true });
    })
svc_write-sent_example =
    svc_write-sent ascii (λ x. ltb x 128) 4 a_frame 4 3 letters running 2 0 pc_desc refl refl refl
      refl refl (λ h p. refl) (omega arith)

svc_close-closed_example :
    svc_close a_frame 4 running
    ≡ ok (closed pc_channel).0 (record running {
      iott = update running.iott 4 (closed pc_channel).1;
      t_errno = update running.t_errno 2 (closed pc_channel).0;
    })
svc_close-closed_example = svc_close-closed a_frame 4 2 running refl (omega arith) refl refl refl

-- Task 5 has the mutex of the channels.
abbrev busy : Kernel
busy = record running { mutexes = update running.mutexes mut_chan 5 }

svc_open-held_example :
    (svc_open false a_frame pc_name busy ≡ halted (record busy { ipl = 7 }))
    × (svc_close a_frame 4 busy ≡ halted (record busy { ipl = 7 }))
svc_open-held_example =
    svc_open-held false a_frame pc_name 4 2 busy refl (λ e. ground arith) (λ e. ground arith)
