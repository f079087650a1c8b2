-- ===== src/TaskMem/Keep.antt =====
-- What `muxx_mem_getblock` keeps of the MMCBs, `muxx_setup_taskmem` keeps.
use muxx.Prelude.{ℕ, ◌/◌, ◌≡◌, refl, ◌==◌, inl, inr, Bool-cases}
use muxx.Prelude.Int.{ℤ}
use muxx.Config.{drv_task, tsz_big, tsz_med, drv_bufsiz, mmcb_flg_stk, mmcb_flg_buf}
use muxx.Errors.{enomem}
use muxx.Types.{TaskBlock, Mmcbt}
use muxx.Mem.{Grant, null, block, panic2, hung, mem_getblock}
use muxx.Mem.Sound.{IsPid, IsSound, mem_getblock-IsSound}
use muxx.TaskMem.{
  Setup, done, halted, endless, type_of, task_size, with_block, continue, driver_buffer,
  stack_and_io, io_page, private_space, common_pages, setup_taskmem, is_supported,
}

-- If the function returns, `P` holds of the code, the task and the MMCBs.
pub data Leaves (P : ℤ → TaskBlock → Mmcbt → Type 0) : Setup → Type 0 where
  leaves : {rc : ℤ} {t : TaskBlock} {m : Mmcbt} → P rc t m → Leaves P (done rc t m)
  halts : Leaves P halted
  loops : Leaves P endless

pub continue-Leaves :
    (P : ℤ → TaskBlock → Mmcbt → Type 0) (t : TaskBlock) (m : Mmcbt) (g : Grant)
    (next : ℕ → Mmcbt → Setup)
    → P enomem t m
    → ((s : ℕ) (m' : Mmcbt) → g ≡ block s m' → Leaves P (next (m'.mmcbt s).block_addr m'))
    → Leaves P (continue t m g next)
unfolding continue
continue-Leaves P t m null next p rest = leaves p
continue-Leaves P t m (block s m') next p rest = rest s m' refl
continue-Leaves P t m panic2 next p rest = halts
continue-Leaves P t m hung next p rest = loops

module _ (fuel : ℕ) (Q : Mmcbt → Type 0)
    (keep : (pid n flags page s : ℕ) (m m' : Mmcbt)
      → IsPid pid
      → Q m
      → mem_getblock fuel pid n flags page m ≡ block s m'
      → Q m') where
  -- The task keeps its number.
  abbrev pub P : ℕ → ℤ → TaskBlock → Mmcbt → Type 0
  P pid rc t m = (t.pid ≡ pid) × Q m

  with_block-keep :
      (n flags page : ℕ) (t : TaskBlock) (m : Mmcbt) (next : ℕ → Mmcbt → Setup)
      → IsPid t.pid
      → Q m
      → ((addr : ℕ) (m' : Mmcbt) → Q m' → Leaves (P t.pid) (next addr m'))
      → Leaves (P t.pid) (with_block fuel n flags page t m next)
  with_block-keep n flags page t m next e p rest =
      continue-Leaves (P t.pid) t m _ next (refl, p)
        λ s m' g. rest _ m' (keep t.pid n flags page s m m' e p g)

  driver_buffer-keep :
      (t : TaskBlock) (m : Mmcbt) → IsPid t.pid → Q m → Leaves (P t.pid) (driver_buffer fuel t m)
  unfolding driver_buffer
  driver_buffer-keep t m e p = elim (Bool-cases (type_of t.task_type == drv_task)) [
    | inl driver ↦
        rw driver (
          with_block-keep (drv_bufsiz / 64) mmcb_flg_buf 5 t m _ e p
            (λ addr m' q. leaves (refl, q)))
    | inr other ↦ rw other (leaves (refl, p))
  ]

  stack_and_io-keep :
      (t : TaskBlock) (m : Mmcbt) → IsPid t.pid → Q m → Leaves (P t.pid) (stack_and_io fuel t m)
  unfolding stack_and_io io_page
  stack_and_io-keep t m e p =
      with_block-keep 0o100 mmcb_flg_stk 6 t m _ e p (λ addr m' q. driver_buffer-keep _ m' e q)

  private_space-keep :
      (t : TaskBlock) (m : Mmcbt) → IsPid t.pid → Q m → Leaves (P t.pid) (private_space fuel t m)
  unfolding private_space
  private_space-keep t m e p = with_block-keep 0o200 0 3 t m _ e p λ a3 m3 p3.
      elim (Bool-cases (task_size t.task_type == tsz_big)) [
        | inl big ↦ rw big (
            with_block-keep 0o200 0 4 _ m3 _ e p3 λ a4 m4 p4.
              with_block-keep 0o200 0 5 _ m4 _ e p4 λ a5 m5 p5. stack_and_io-keep _ m5 e p5)
        | inr small ↦ rw small (elim (Bool-cases (task_size t.task_type == tsz_med)) [
          | inl med ↦
              rw med (with_block-keep 0o200 0 4 _ m3 _ e p3 λ a4 m4 p4. stack_and_io-keep _ m4 e p4)
          | inr one ↦ rw one (stack_and_io-keep _ m3 e p3)
        ])
      ]

  pub setup_taskmem-keep :
      (t : TaskBlock) (m : Mmcbt) → IsPid t.pid → Q m → Leaves (P t.pid) (setup_taskmem fuel t m)
  unfolding setup_taskmem common_pages
  setup_taskmem-keep t m e p = elim (Bool-cases (is_supported t.task_type)) [
    | inl taken ↦ rw taken (private_space-keep _ m e p)
    | inr refused ↦ rw refused (leaves (refl, p))
  ]

pub Leaves-map :
    (P R : ℤ → TaskBlock → Mmcbt → Type 0) (s : Setup)
    → ((rc : ℤ) (t : TaskBlock) (m : Mmcbt) → P rc t m → R rc t m)
    → Leaves P s
    → Leaves R s
Leaves-map P R (done rc t m) f (leaves p) = leaves (f rc t m p)
Leaves-map P R halted f h = halts
Leaves-map P R endless f h = loops

-- So it is for the invariant of the MMCBs.
pub setup_taskmem-keep_pid :
    (fuel : ℕ) (t : TaskBlock) (m : Mmcbt)
    → IsPid t.pid
    → IsSound m
    → Leaves (λ rc t' m'. (t'.pid ≡ t.pid) × IsSound m') (setup_taskmem fuel t m)
setup_taskmem-keep_pid fuel t m =
    setup_taskmem-keep fuel IsSound
      (λ pid n flags page s m m' e h. mem_getblock-IsSound fuel pid n flags page s m m' e h) t m

-- Whatever `muxx_setup_taskmem` returns for a task with a number, an error too, the invariant of the
-- MMCBs holds if it did before: every block of physical memory belongs to exactly one of the
-- MMCBs in use other than the I/O page's, and the list of the MMCBs leads over the kernel's to the
-- free one. The free MMCB counts as in use, and overlaps the I/O page.
pub setup_taskmem-IsSound :
    (fuel : ℕ) (t : TaskBlock) (m : Mmcbt)
    → IsPid t.pid
    → IsSound m
    → Leaves (λ rc t' m'. IsSound m') (setup_taskmem fuel t m)
setup_taskmem-IsSound fuel t m e h =
    Leaves-map _ _ (setup_taskmem fuel t m) (λ rc t' m' p. p.1)
      (setup_taskmem-keep_pid fuel t m e h)
