-- ===== src/TaskMem/Protect.antt =====
-- What a new task may touch of the kernel's pages and of the I/O page.
use muxx.Prelude.{ℕ, ◌≡◌, ◌<◌, refl, true, false, ◌==◌, if◌then◌else◌, arith, inl, inr, Bool-cases}
use muxx.Prelude.Int.{ℤ}
use muxx.Config.{drv_task, tsz_big, tsz_med}
use muxx.Errors.{eok}
use muxx.Types.{TaskBlock, Mmcbt, operprv, ioprv, auditprv}
use muxx.TaskMem.{
  type_of, task_size, driver_buffer, stack_and_io, io_page, private_space, common_pages,
  setup_taskmem, is_supported, map_page, rw_8k,
}
use muxx.TaskMem.Keep.{Leaves, leaves, continue-Leaves}

-- A descriptor of 077406 is 8 KB for reading and writing, one of 077402 for reading, and 0 is no
-- access. A task that has access to page 7 sees the last 8 KB of physical memory there.
pub record IsPermitted (t : TaskBlock) : Type 0 where
  pub oper :
      operprv t.privileges ≡ true → (t.mmu_state.updr 7 ≡ 0o77406) × (t.mmu_state.upar 7 ≡ 0o7600)
  pub own :
      ioprv t.privileges ≡ true → (t.mmu_state.updr 7 ≡ 0o77406) × (t.mmu_state.upar 7 ≡ 0o7600)
  pub audit :
      operprv t.privileges ≡ false
      → ioprv t.privileges ≡ false
      → auditprv t.privileges ≡ true
      → (t.mmu_state.updr 7 ≡ 0o77402) × (t.mmu_state.upar 7 ≡ 0o7600)
  pub other :
      operprv t.privileges ≡ false
      → ioprv t.privileges ≡ false
      → auditprv t.privileges ≡ false
      → t.mmu_state.updr 7 ≡ 0

-- The user-mode map of the pages that all tasks share.
pub record IsProtected (t : TaskBlock) : Type 0 where
  pub pars : (t.mmu_state.upar 0 ≡ 0) × (t.mmu_state.upar 1 ≡ 0o200) × (t.mmu_state.upar 2 ≡ 0o400)
  pub kernel :
      (p : ℕ) → p < 3 → t.mmu_state.updr p ≡ (if operprv t.privileges then 0o77406 else 0o77402)
  pub io : IsPermitted t

-- The first clause of `IsProtected` and the second, which hold before the I/O page is mapped.
abbrev IsCommon : TaskBlock → Type 0
IsCommon t =
    ((t.mmu_state.upar 0 ≡ 0) × (t.mmu_state.upar 1 ≡ 0o200) × (t.mmu_state.upar 2 ≡ 0o400))
    × ((p : ℕ) → p < 3 → t.mmu_state.updr p ≡ (if operprv t.privileges then 0o77406 else 0o77402))

-- If EOK is returned, the task is protected, and its privileges are those that it had.
abbrev pub Guarded : ℕ → ℤ → TaskBlock → Mmcbt → Type 0
Guarded privs rc t m = rc ≡ eok → IsProtected t × (t.privileges ≡ privs)

map_page-IsCommon :
    (p par pdr : ℕ) (t : TaskBlock) → 2 < p → IsCommon t → IsCommon (map_page p par pdr t)
map_page-IsCommon p par pdr t lt c = (ground arith, λ q h. ground (arith, c.1 q h))

common_pages-IsCommon : (t : TaskBlock) → IsCommon (common_pages t)
unfolding common_pages
common_pages-IsCommon t = (ground arith, λ q h. ground arith)

driver_buffer-Guarded :
    (fuel : ℕ) (t : TaskBlock) (m : Mmcbt)
    → IsProtected t
    → Leaves (Guarded t.privileges) (driver_buffer fuel t m)
unfolding driver_buffer
driver_buffer-Guarded fuel t m p = elim (Bool-cases (type_of t.task_type == drv_task)) [
  | inl driver ↦ rw driver (
      continue-Leaves (Guarded t.privileges) t m _ _ (λ e. ground arith)
        λ s m' g. leaves λ e. (
          record {
            pars = ground (arith, p.pars);
            kernel = λ q h. ground (arith, p.kernel q h);
            io = record {
              oper = λ o. ground (arith, p.io.oper o);
              own = λ o. ground (arith, p.io.own o);
              audit = λ o i a. ground (arith, p.io.audit o i a);
              other = λ o i a. ground (arith, p.io.other o i a);
            };
          },
          refl,
        ))
  | inr other ↦ rw other (leaves λ e. (p, refl))
]

stack_and_io-Guarded :
    (fuel : ℕ) (t : TaskBlock) (m : Mmcbt)
    → IsCommon t
    → Leaves (Guarded t.privileges) (stack_and_io fuel t m)
unfolding stack_and_io io_page
stack_and_io-Guarded fuel t m c =
    continue-Leaves (Guarded t.privileges) t m _ _ (λ e. ground arith)
      λ s m' g. driver_buffer-Guarded fuel _ m' (record {
        pars = ground (arith, c.0);
        kernel = λ q h. ground (arith, c.1 q h);
        io = record {
          oper = λ o. ground (arith, o);
          own = λ o. ground (arith, o);
          audit = λ o i a. ground (arith, o, i, a);
          other = λ o i a. ground (arith, o, i, a);
        };
      })

private_space-Guarded :
    (fuel : ℕ) (t : TaskBlock) (m : Mmcbt)
    → IsCommon t
    → Leaves (Guarded t.privileges) (private_space fuel t m)
unfolding private_space
private_space-Guarded fuel t m c =
    continue-Leaves (Guarded t.privileges) t m _ _ (λ e. ground arith)
      λ s3 m3 g3.
        let t3 = map_page 3 (m3.mmcbt s3).block_addr rw_8k t in
        let c3 = map_page-IsCommon 3 (m3.mmcbt s3).block_addr rw_8k t (omega arith) c in
        elim (Bool-cases (task_size t.task_type == tsz_big)) [
          | inl big ↦ rw big (
              continue-Leaves (Guarded t.privileges) t3 m3 _ _ (λ e. ground arith)
                λ s4 m4 g4.
                  let t4 = map_page 4 (m4.mmcbt s4).block_addr rw_8k t3 in
                  let c4 = map_page-IsCommon 4 (m4.mmcbt s4).block_addr rw_8k t3 (omega arith) c3 in
                  continue-Leaves (Guarded t.privileges) t4 m4 _ _ (λ e. ground arith)
                    λ s5 m5 g5.
                      stack_and_io-Guarded fuel _ m5
                        (map_page-IsCommon 5 (m5.mmcbt s5).block_addr rw_8k t4 (omega arith) c4))
          | inr small ↦ rw small (elim (Bool-cases (task_size t.task_type == tsz_med)) [
            | inl med ↦ rw med (
                continue-Leaves (Guarded t.privileges) t3 m3 _ _ (λ e. ground arith)
                  λ s4 m4 g4.
                    stack_and_io-Guarded fuel _ m4
                      (map_page-IsCommon 4 (m4.mmcbt s4).block_addr rw_8k t3 (omega arith) c3))
            | inr one ↦ rw one (stack_and_io-Guarded fuel _ m3 c3)
          ])
        ]

-- A task whose memory is set up with EOK has the kernel's three pages mapped, for writing if it
-- has the operator's privilege and else for reading, and the I/O page for writing with the
-- operator's or the I/O privilege, without these for reading with the auditor's, and with none of
-- the three there is no access to page 7. The privileges are those that it had.
pub setup_taskmem-Guarded :
    (fuel : ℕ) (t : TaskBlock) (m : Mmcbt) → Leaves (Guarded t.privileges) (setup_taskmem fuel t m)
unfolding setup_taskmem common_pages
setup_taskmem-Guarded fuel t m = elim (Bool-cases (is_supported t.task_type)) [
  | inl taken ↦ rw taken (private_space-Guarded fuel (common_pages t) m (common_pages-IsCommon t))
  | inr refused ↦ rw refused (leaves λ e. ground arith)
]
