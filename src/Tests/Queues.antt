-- ===== src/Tests/Queues.antt =====
-- kernel/muxx_taskqueues.c on queues of up to three tasks.
use muxx.Prelude.{◌≡◌, refl, none, some, [], ◌∷◌, arith, suc, update}
use muxx.Config.{TaskStatus}
use muxx.Types.{Ptr, CpuState, MmuState, TaskBlock, Tcb, Tct, TQueue}
use muxx.Queue.{q_add_task, q_remove_task}
use muxx.Queue.Chain.{IsQueue}
use muxx.Queue.Add.{Added, q_add_task-snoc}
use muxx.Queue.Get.{Taken, q_get_task-cons}
use muxx.Queue.RemoveInner.{Leads, q_remove_task-inner, q_add_task-after-remove_last}

abbrev pub no_cpu : CpuState
no_cpu = record { gpr = λ i. 0; sp = 0; pc = 0; psw = 0; usp = 0; ssp = 0; ksp = 0 }

abbrev pub no_mmu : MmuState
no_mmu = record { upar = λ i. 0; updr = λ i. 0; kpar = λ i. 0; kpdr = λ i. 0 }

abbrev pub no_task : TaskBlock
no_task = record {
  taskname = [];
  pid = 0;
  ppid = 0;
  uic = 0;
  status = TaskStatus.init;
  flags = 0;
  privileges = 0;
  task_type = 0;
  task_tucb = 0;
  first_child = none;
  last_child = none;
  next_sibling = none;
  cpu_state = no_cpu;
  mmu_state = no_mmu;
  clock_ticks = 0;
  created_timestamp = 0;
  local_flags = 0;
}

abbrev linked_task : (next prev : Ptr) → Tcb
linked_task next prev = record { task = no_task; next_in_queue = next; prev_in_queue = prev }

-- Tasks 3, 5 and 7 are queued in this order.
abbrev pub three : Tct
three =
    update
      (update (update (λ i. linked_task none none) 3 (linked_task (some 5) none)) 5
        (linked_task (some 7) (some 3)))
      7 (linked_task none (some 5))

abbrev pub three_queue : TQueue
three_queue = record { head = some 3; tail = some 7; count = 3 }

abbrev pub no_queue : TQueue
no_queue = record { head = none; tail = none; count = 0 }

pub three-IsQueue : IsQueue three three_queue (3 ∷ 5 ∷ 7 ∷ [])
three-IsQueue = record { linked = ground arith; count = refl; distinct = ground arith }

pub none-IsQueue : IsQueue three no_queue []
none-IsQueue = record { linked = ground arith; count = refl; distinct = tt }

q_add_task-snoc_example : (r : TQueue × Tct) × Added three three_queue 2 (3 ∷ 5 ∷ 7 ∷ []) r.0 r.1
q_add_task-snoc_example = q_add_task-snoc three three_queue 2 (3 ∷ 5 ∷ 7 ∷ []) three-IsQueue refl

q_get_task-cons_example : (r : TQueue × Tct) × Taken three three_queue 3 (5 ∷ 7 ∷ []) r.0 r.1
q_get_task-cons_example = q_get_task-cons three three_queue 3 (5 ∷ 7 ∷ []) three-IsQueue

q_remove_task-inner_example :
    (r : TQueue × Tct) × (q_remove_task 16 three_queue 5 three ≡ some (some 5, r.0, r.1))
    × Leads r.1 r.0.head (3 ∷ 5 ∷ [])
    × (suc r.0.count ≡ 3)
q_remove_task-inner_example =
    q_remove_task-inner 16 three three_queue 5 3 [] (7 ∷ []) three-IsQueue (omega arith)

q_add_task-after-remove_last_example :
    (r : TQueue × Tct) × (q_remove_task 16 three_queue 7 three ≡ some (some 7, r.0, r.1))
    × (q_add_task r.0 2 r.1 ≡ none)
q_add_task-after-remove_last_example =
    q_add_task-after-remove_last 16 three three_queue 7 3 2 (5 ∷ []) three-IsQueue (omega arith)
