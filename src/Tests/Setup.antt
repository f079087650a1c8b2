-- ===== src/Tests/Setup.antt =====
-- `muxx_setup_taskmem` for a small user task.
use muxx.Prelude.{arith}
use muxx.Types.{TaskBlock}
use muxx.Mem.{mem_init}
use muxx.Mem.Sound.{IsSound, mem_init-IsSound}
use muxx.TaskMem.{setup_taskmem}
use muxx.TaskMem.Ends.{Ends, setup_taskmem-Ends}
use muxx.TaskMem.Keep.{Leaves, setup_taskmem-IsSound}
use muxx.TaskMem.Protect.{Guarded, setup_taskmem-Guarded}
use muxx.Tests.Queues.{no_task}

abbrev pub user_task : TaskBlock
user_task = record no_task { pid = 65; task_type = 1 }

abbrev pub big_driver : TaskBlock
big_driver = record no_task { pid = 2; task_type = 0o22 }

setup_taskmem-IsSound_example : Leaves (λ rc t m. IsSound m) (setup_taskmem 128 user_task mem_init)
setup_taskmem-IsSound_example =
    setup_taskmem-IsSound 128 user_task mem_init (omega arith, omega arith) mem_init-IsSound

setup_taskmem-Guarded_example : Leaves (Guarded 0) (setup_taskmem 128 user_task mem_init)
setup_taskmem-Guarded_example = setup_taskmem-Guarded 128 user_task mem_init

setup_taskmem-Ends_example : Ends (setup_taskmem 128 user_task mem_init)
unfolding mem_init
setup_taskmem-Ends_example =
    setup_taskmem-Ends 128 user_task mem_init (omega arith) (omega arith, omega arith)
      mem_init-IsSound (omega arith)
