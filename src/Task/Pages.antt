-- ===== src/Task/Pages.antt =====
-- PROTMEM: who may change the protection of a page, and what changes.
use muxx.Prelude.{
  ℕ, ◌/◌, ◌%◌, ◌≡◌, ◌≢◌, ◌≤◌, refl, ◌∙◌, true, some, ◌==◌, if◌then◌else◌, arith, ◌⊎◌,
}
use muxx.Errors.{eok}
use muxx.Types.{Ptr, operprv}
use muxx.Kernel.{Kernel, ok}
use muxx.Sched.{Frame}
use muxx.Task.{findtcb, is_prot, protect, set_prot, svc_protmem}

-- The task that `pid` stands for: 0 is the caller.
abbrev pub target : ℕ → Kernel → Ptr
target pid k = if pid == 0 then k.curtcb else findtcb pid k

-- What the caller `c` may do.
pub record IsAllowed (k : Kernel) (c pid page prot : ℕ) : Type 0 where
  pub prot_known : is_prot prot ≡ true
  pub in_range : page ≤ 7
  pub own_task : (operprv (k.tct c).privileges ≡ true) ⊎ ((pid ≡ 0) ⊎ (pid ≡ (k.tct c).pid))
  pub own_page : (operprv (k.tct c).privileges ≡ true) ⊎ (3 ≤ page)

set_prot-fields :
    (pdr prot : ℕ)
    → is_prot prot ≡ true
    → (set_prot pdr prot % 8 ≡ prot) × (set_prot pdr prot / 8 ≡ pdr / 8)
unfolding set_prot
set_prot-fields pdr prot known = ground arith

-- Without OPERPRV a call of PROTMEM that returns EOK named the caller and a page from 3 on; and in
-- any case it named a known protection and a page up to 7.
pub svc_protmem-IsAllowed :
    (fp : Frame) (k k' : Kernel) (c pid page prot : ℕ)
    → k.curtcb ≡ some c
    → svc_protmem fp pid page prot k ≡ ok eok k'
    → IsAllowed k c pid page prot
unfolding svc_protmem
svc_protmem-IsAllowed fp k k' c pid page prot cur e = ground (arith, cur)

pub svc_protmem-protect :
    (fp : Frame) (k : Kernel) (c p pid page prot : ℕ)
    → k.curtcb ≡ some c
    → IsAllowed k c pid page prot
    → target pid k ≡ some p
    → svc_protmem fp pid page prot k ≡ protect p page prot k
unfolding svc_protmem
svc_protmem-protect fp k c p pid page prot cur allowed e =
    ground (arith, cur, allowed.prot_known, allowed.in_range, allowed.own_task, allowed.own_page, e)

-- What PROTMEM leaves.
pub record Protected (k : Kernel) (p page prot : ℕ) (k' : Kernel) : Type 0 where
  pub access : (k'.tct p).mmu_state.updr page % 8 ≡ prot
  pub extent : (k'.tct p).mmu_state.updr page / 8 ≡ (k.tct p).mmu_state.updr page / 8
  pub kernel_page : (k'.tct p).mmu_state.kpdr page ≡ (k'.tct p).mmu_state.updr page
  pub live_kernel : k'.mmu.kpdr page ≡ (k'.tct p).mmu_state.updr page
  pub live : k'.mmu.updr page ≡ (k'.tct p).mmu_state.updr page
  pub pages : (i : ℕ) → i ≢ page → (k'.tct p).mmu_state.updr i ≡ (k.tct p).mmu_state.updr i
  pub tasks : (y : ℕ) → y ≢ p → k'.tct y ≡ k.tct y

protect-Protected :
    (k : Kernel) (p page prot : ℕ)
    → is_prot prot ≡ true
    → (k' : Kernel) × (protect p page prot k ≡ ok eok k') × Protected k p page prot k'
unfolding protect
protect-Protected k p page prot known =
    let (low, high) = set_prot-fields ((k.tct p).mmu_state.updr page) prot known in
    (
      _,
      refl,
      record {
        access = ground (arith, low);
        extent = ground (arith, high);
        kernel_page = ground arith;
        live_kernel = ground arith;
        live = ground arith;
        pages = λ i ne. ground arith;
        tasks = λ y ne. ground arith;
      },
    )

-- The call succeeds if the protection is one of the three known ones, the page is at most 7 and
-- the task exists, and if a caller without OPERPRV names itself and a page from 3 on. Then the
-- access bits of the user's page are the ones asked for, its size and direction are as before,
-- and the kernel's page of the same number has the same descriptor, and so have the live
-- registers of both pages, also if the task is not the running one. No other user page and no other task changes.
pub svc_protmem-Protected :
    (fp : Frame) (k : Kernel) (c p pid page prot : ℕ)
    → k.curtcb ≡ some c
    → IsAllowed k c pid page prot
    → target pid k ≡ some p
    → (k' : Kernel) × (svc_protmem fp pid page prot k ≡ ok eok k') × Protected k p page prot k'
svc_protmem-Protected fp k c p pid page prot cur allowed e =
    let (k', step, s) = protect-Protected k p page prot allowed.prot_known in
    (k', svc_protmem-protect fp k c p pid page prot cur allowed e ∙ step, s)
