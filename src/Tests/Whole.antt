-- ===== src/Tests/Whole.antt =====
-- The kernel as a whole, from the start on.
use muxx.Prelude.{◌≡◌, refl, some, []}
use muxx.Kernel.{Kernel, Run, ok, switched, halted, fault, hung}
use muxx.Task.{
  init_mmu, svc_creprc, fakeproc, taskinit, tctinit, tcbinit_from, next_upid, use_slot, find_slot,
  setup_task,
}
use muxx.TaskMem.{
  setup_taskmem, is_supported, private_space, common_pages, stack_and_io, io_page, driver_buffer,
  continue,
}
use muxx.Mem.{mem_getblock, scan, carve, find_free_from, find_free_mmcb, mem_init, take_from}
use muxx.Channel.{iottinit, iottinit_from}
use muxx.Driver.{drvinit, drvinit_from}
use muxx.Queue.{q_add_task, q_get_task}
use muxx.Sched.{add_ready, svc_yield, copytrapfp, copy_mmu_state, schedule, get_ready, muxx_switch}
use muxx.System.{Event, yield_now, create, run, init_tables, scb, sysstart}
use muxx.System.Sane.{IsSane, Safe}
use muxx.System.Boot.{in_init, sysstart-IsSane}
use muxx.Tests.Kernels.{running, a_frame, pc_name}

-- INIT runs.
abbrev first : Kernel
first = in_init 0o20000 running

-- What an event leaves.
abbrev after : Run (Unit {0}) → Kernel → Kernel
after (ok a k) k0 = k
after (switched k) k0 = k
after (halted k) k0 = k
after fault k0 = k0
after hung k0 = k0

abbrev made : Event
made = create a_frame pc_name 1 0o40000 0

abbrev yielded : Event
yielded = yield_now a_frame

abbrev second : Kernel
second = after (run made first) first

abbrev third : Kernel
third = after (run yielded second) second

-- The new task has the first number of the users', and runs after INIT's YIELD.
turns :
    (second.readyq.count ≡ 1)
    × ((second.tct 1).pid ≡ 65)
    × (third.curtcb ≡ some 1)
    × (third.readyq.head ≡ some 0)
unfolding run svc_creprc init_tables fakeproc taskinit iottinit iottinit_from drvinit drvinit_from
    tctinit tcbinit_from scb next_upid use_slot find_slot setup_task setup_taskmem is_supported
    private_space common_pages stack_and_io io_page driver_buffer continue mem_getblock scan carve
    find_free_from find_free_mmcb mem_init take_from add_ready q_add_task svc_yield copytrapfp
    copy_mmu_state schedule get_ready q_get_task muxx_switch
turns = (refl, refl, refl, refl)

sysstart-IsSane_example :
    (k' : Kernel) × (sysstart 0o20000 (scb running) ≡ switched k')
    × IsSane k' 0 [] []
    × (k'.mmu ≡ init_mmu)
    × ((k'.tct 0).cpu_state.pc ≡ 0o20000)
sysstart-IsSane_example = sysstart-IsSane 0o20000 running
