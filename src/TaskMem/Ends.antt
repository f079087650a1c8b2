-- ===== src/TaskMem/Ends.antt =====
-- With enough free memory, `muxx_setup_taskmem` ends.
use muxx.Prelude.{ℕ, ◌+◌, ◌/◌, ◌≡◌, ◌≤◌, refl, ◌==◌, inl, inr, ◌⊎◌, arith, Bool-cases}
use muxx.Prelude.Int.{ℤ}
use muxx.Config.{drv_task, tsz_big, tsz_med, drv_bufsiz, mmcb_flg_stk, mmcb_flg_buf}
use muxx.Types.{TaskBlock, Mmcbt}
use muxx.Mem.{block, panic2, take_from, carve, find_free_mmcb, mem_getblock}
use muxx.Mem.Layout.{free_mmcb, mem_getblock-listed}
use muxx.Mem.Grow.{mem_getblock-IsGrown}
use muxx.Mem.Sound.{IsPid, IsSound, free-lt, mem_getblock-IsSound}
use muxx.TaskMem.{
  Setup, done, halted, type_of, task_size, with_block, continue, driver_buffer, stack_and_io,
  io_page, private_space, common_pages, setup_taskmem, is_supported,
}

-- The function returns or panics.
pub data Ends : Setup → Type 0 where
  returns : {rc : ℤ} {t : TaskBlock} {m : Mmcbt} → Ends (done rc t m)
  panics : Ends halted

-- The MMCBs are in order, and the free chunk has `r` blocks at least.
abbrev HasFree : (r : ℕ) → Mmcbt → Type 0
HasFree r m = IsSound m × (r ≤ (m.mmcbt free_mmcb).block_size)

take_from-cases :
    (cur pid n flags page : ℕ) (m : Mmcbt)
    → (take_from cur pid n flags page m ≡ panic2)
      ⊎ ((s : ℕ) × (m' : Mmcbt) × (take_from cur pid n flags page m ≡ block s m'))
unfolding take_from
take_from-cases cur pid n flags page m = elim (Bool-cases (find_free_mmcb m == 0)) [
  | inl none_left ↦ inl (rw none_left refl)
  | inr found ↦ inr (
    find_free_mmcb m,
    record m { mmcbt = carve cur (find_free_mmcb m) pid n flags page m.mmcbt },
    rw found refl,
  )
]

with_block-Ends :
    (fuel n flags page r : ℕ) (t : TaskBlock) (m : Mmcbt) (next : ℕ → Mmcbt → Setup)
    → 5 ≤ fuel
    → IsPid t.pid
    → n ≤ 128
    → HasFree (n + r) m
    → ((addr : ℕ) (m' : Mmcbt) → HasFree r m' → Ends (next addr m'))
    → Ends (with_block fuel n flags page t m next)
unfolding continue
with_block-Ends fuel n flags page r t m next enough p small (sound, room) rest =
    let e =
      mem_getblock-listed t.pid n flags page m fuel enough small sound.listed
        (omega (arith, room)) in
    elim (take_from-cases free_mmcb t.pid n flags page m) [
      | inl none_left ↦ rw (e, none_left) panics
      | inr (s, m', taken) ↦
          let got : mem_getblock fuel t.pid n flags page m ≡ block s m' = rw e taken in
          let (grown, granted) =
            mem_getblock-IsGrown fuel t.pid n flags page s m m' sound.listed p.0 (free-lt m sound)
              got in
          rw got (
            rest _ m' (
              mem_getblock-IsSound fuel t.pid n flags page s m m' p sound got,
              omega (arith, granted.rest_size, room),
            ))
    ]

driver_buffer-Ends :
    (fuel : ℕ) (t : TaskBlock) (m : Mmcbt)
    → 5 ≤ fuel
    → IsPid t.pid
    → HasFree 32 m
    → Ends (driver_buffer fuel t m)
unfolding driver_buffer
driver_buffer-Ends fuel t m enough p h = elim (Bool-cases (type_of t.task_type == drv_task)) [
  | inl driver ↦ rw driver (
      with_block-Ends fuel (drv_bufsiz / 64) mmcb_flg_buf 5 0 t m _ enough p (omega arith)
        (h.0, omega (arith, h.1)) (λ addr m' h'. returns))
  | inr other ↦ rw other returns
]

stack_and_io-Ends :
    (fuel : ℕ) (t : TaskBlock) (m : Mmcbt)
    → 5 ≤ fuel
    → IsPid t.pid
    → HasFree 96 m
    → Ends (stack_and_io fuel t m)
unfolding stack_and_io io_page
stack_and_io-Ends fuel t m enough p h =
    with_block-Ends fuel 0o100 mmcb_flg_stk 6 32 t m _ enough p (omega arith) h
      (λ addr m' h'. driver_buffer-Ends fuel _ m' enough p h')

less : (r q : ℕ) (m : Mmcbt) → q ≤ r → HasFree r m → HasFree q m
less r q m le h = (h.0, omega (arith, le, h.1))

private_space-Ends :
    (fuel : ℕ) (t : TaskBlock) (m : Mmcbt)
    → 5 ≤ fuel
    → IsPid t.pid
    → HasFree 480 m
    → Ends (private_space fuel t m)
unfolding private_space
private_space-Ends fuel t m enough p h =
    with_block-Ends fuel 0o200 0 3 352 t m _ enough p (omega arith) h λ a3 m3 h3.
      elim (Bool-cases (task_size t.task_type == tsz_big)) [
        | inl big ↦ rw big (
            with_block-Ends fuel 0o200 0 4 224 _ m3 _ enough p (omega arith) h3 λ a4 m4 h4.
              with_block-Ends fuel 0o200 0 5 96 _ m4 _ enough p (omega arith) h4
                λ a5 m5 h5. stack_and_io-Ends fuel _ m5 enough p h5)
        | inr small ↦ rw small (elim (Bool-cases (task_size t.task_type == tsz_med)) [
          | inl med ↦ rw med (
              with_block-Ends fuel 0o200 0 4 224 _ m3 _ enough p (omega arith) h3
                λ a4 m4 h4. stack_and_io-Ends fuel _ m4 enough p (less 224 96 m4 (omega arith) h4))
          | inr one ↦
              rw one (stack_and_io-Ends fuel _ m3 enough p (less 352 96 m3 (omega arith) h3))
        ])
      ]

-- With the MMCBs in order and 480 blocks in the free chunk, which is 30 KB, the memory of a task
-- is set up, refused or given up by a panic, with any fuel from 5 on: the search for a chunk
-- ends, although the list of the MMCBs runs into a cycle once a chunk has been given.
pub setup_taskmem-Ends :
    (fuel : ℕ) (t : TaskBlock) (m : Mmcbt)
    → 5 ≤ fuel
    → IsPid t.pid
    → IsSound m
    → 480 ≤ (m.mmcbt free_mmcb).block_size
    → Ends (setup_taskmem fuel t m)
unfolding setup_taskmem common_pages
setup_taskmem-Ends fuel t m enough p sound room = elim (Bool-cases (is_supported t.task_type)) [
  | inl taken ↦ rw taken (private_space-Ends fuel _ m enough p (sound, room))
  | inr refused ↦ rw refused returns
]
