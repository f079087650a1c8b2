-- ===== src/TaskMem/Guard.antt =====
-- Which task types `muxx_setup_taskmem` takes.
use muxx.Prelude.{ℕ, ◌<◌, ◌≡◌, ◌≢◌, ◌⊎◌, ◌↔◌, true, arith}
use muxx.Config.{drv_task, tsz_big, usr_task}
use muxx.Errors.{einvval}
use muxx.Types.{TaskBlock, Mmcbt}
use muxx.TaskMem.{done, type_of, task_size, stack_size, is_supported, setup_taskmem}

-- A type word is taken exactly when its stack size field is 0 and its type is system, user, or
-- driver with a task size that is not big.
pub is_supported_iff :
    (w : ℕ)
    → (is_supported w ≡ true) ↔ (
        (stack_size w ≡ 0)
        × ((type_of w ≡ 0)
            ⊎ ((type_of w ≡ usr_task) ⊎ ((type_of w ≡ drv_task) × (task_size w ≢ tsz_big)))))
unfolding is_supported
is_supported_iff w = (λ h. ground arith, λ h. ground arith)

-- Any other type word is refused with EINVVAL, and neither the task nor the MMCBs change.
pub setup_taskmem-refused :
    (fuel : ℕ) (t : TaskBlock) (m : Mmcbt)
    → ((stack_size t.task_type ≢ 0)
        ⊎ ((2 < type_of t.task_type)
            ⊎ ((type_of t.task_type ≡ drv_task) × (task_size t.task_type ≡ tsz_big))))
    → setup_taskmem fuel t m ≡ done einvval t m
unfolding setup_taskmem is_supported
setup_taskmem-refused fuel t m h = ground arith
