-- ===== src/System/Creation.antt =====
-- CREPRC keeps the tables in order, also when there is no memory for the new task; so far as it
-- goes like LOADPRC, so does that.
use muxx.Prelude.{ℕ, ◌≡◌, refl, List, arith, inl, inr, Bool-cases, some, if◌then◌else◌}
use muxx.Prelude.Int.{ℤ, pos, negsuc, same}
use muxx.Config.{mem_nmcbs}
use muxx.Errors.{eok}
use muxx.Mem.Sound.{IsPid, IsSound}
use muxx.TaskMem.{Setup, done, halted, endless, setup_taskmem}
use muxx.TaskMem.Keep.{Leaves, leaves, setup_taskmem-keep_pid}
use muxx.Kernel.{Kernel, Run, ok, halted, Cmd, pure, ◌>>=◌, ◌>>◌, current-eq}
use muxx.Sched.{Frame, add_ready}
use muxx.Task.{svc_creprc, taskinit, setup_task}
use muxx.Task.Numbers.{IsNumbered}
use muxx.Task.Cases.{taskinit-cases}
use muxx.System.{forget}
use muxx.System.Sane.{IsUsed, IsSane, Safe, goes_on, stops, searches}
use muxx.System.Spare.{HasSpare, Created-HasSpare, refit, refit-HasSpare, add_ready-spare}

-- The state in which the new task has its name.
abbrev pub named : Kernel → ℕ → List ℕ → Kernel
named k i name = refit k i (record (k.tct i).task { taskname = name }) k.mmcbt

-- Numbers that have been given out are none of the two marks of an MMCB.
used-IsPid : (k : Kernel) (i : ℕ) → IsNumbered k → IsUsed k i → IsPid (k.tct i).pid
used-IsPid k i is (l, ne) =
    (ne, λ e. ground (arith, e, is.issued i l, is.sys_range, is.user_range, is.spids, is.upids))

-- What CREPRC and LOADPRC do with the new task once its name is set; they differ in `next`.
abbrev pub finish : (next : ℕ → Cmd ℤ) → ℕ → Cmd ℤ
finish next i = do rc ← setup_task i; if same rc eok then next i else pure (negsuc 0)

-- The end of CREPRC.
abbrev make_ready : ℕ → Cmd ℤ
make_ready i = do add_ready i; λ k'. ok (pos (k'.tct i).pid) k'

make_ready-Safe :
    (k : Kernel) (c : ℕ) (xs ss : List ℕ) (i : ℕ)
    → HasSpare k c xs ss i
    → Safe (forget (make_ready i k))
make_ready-Safe k c xs ss i h =
    let (k', added, s, bytes) = add_ready-spare k c xs ss i h in rw added (goes_on (c, _, ss, s))

module _ (k : Kernel) (c : ℕ) (xs ss : List ℕ) (next : ℕ → Cmd ℤ)
    (ends : (k' : Kernel) (i : ℕ)
      → HasSpare k' c xs ss i
      → k'.mmu ≡ k.mmu
      → k'.memory ≡ k.memory
      → Safe (forget (next i k'))) where
  finish-done :
      (k1 : Kernel) (i : ℕ) (rc : ℤ)
      → HasSpare k1 c xs ss i
      → k1.mmu ≡ k.mmu
      → k1.memory ≡ k.memory
      → Safe (forget ((if same rc eok then next i else pure (negsuc 0)) k1))
  finish-done k1 i rc h map bytes = elim (Bool-cases (same rc eok)) [
    | inl set_up ↦ rw set_up (ends k1 i h map bytes)
    | inr refused ↦ rw refused (goes_on (c, xs, ss, h.sane))
  ]

  finish-Safe :
      (k1 : Kernel) (i : ℕ) (result : Setup)
      → HasSpare k1 c xs ss i
      → k1.mmu ≡ k.mmu
      → k1.memory ≡ k.memory
      → setup_taskmem mem_nmcbs (k1.tct i).task k1.mmcbt ≡ result
      → Leaves (λ rc t' m'. (t'.pid ≡ (k1.tct i).pid) × IsSound m') result
      → Safe (forget (finish next i k1))
  unfolding setup_task
  finish-Safe k1 i (done rc b m) h map bytes e (leaves (pid, sound)) =
      rw (e, setup_task)
        (finish-done (refit k1 i b m) i rc (refit-HasSpare k1 c xs ss i b m h pid sound) map bytes)
  finish-Safe k1 i halted h map bytes e kept = rw (e, setup_task) stops
  finish-Safe k1 i endless h map bytes e kept = rw (e, setup_task) searches

  -- From a task just made on.
  created-Safe :
      (k1 : Kernel) (i : ℕ)
      → HasSpare k1 c xs ss i
      → k1.mmu ≡ k.mmu
      → k1.memory ≡ k.memory
      → Safe (forget (finish next i k1))
  created-Safe k1 i h map bytes =
      finish-Safe k1 i (setup_taskmem mem_nmcbs (k1.tct i).task k1.mmcbt) h map bytes refl (
        setup_taskmem-keep_pid mem_nmcbs (k1.tct i).task k1.mmcbt
          (used-IsPid k1 i h.sane.numbered h.used) h.sane.sound)

  -- If what is run goes on with `finish` when a task is made, and stops when none is.
  pub made-Safe :
      (name : List ℕ) (type entry privs : ℕ) (r : Run ℤ)
      → IsSane k c xs ss
      → ((k1 : Kernel) (i : ℕ)
          → taskinit type (k.tct c).pid entry privs k ≡ ok (pos i) k1
          → r ≡ finish next i (named k1 i name))
      → ((k1 : Kernel) → taskinit type (k.tct c).pid entry privs k ≡ halted k1 → r ≡ halted k1)
      → Safe (forget r)
  made-Safe name type entry privs r s made stopped =
      elim (taskinit-cases k type (k.tct c).pid entry privs s.numbered s.few) [
        | inl (k1, e) ↦ rw (stopped k1 e) stops
        | inr (i, k1, e, n) ↦
            let h : HasSpare k1 c xs ss i =
              Created-HasSpare k k1 c xs ss type (k.tct c).pid entry privs i s n in
            let named_spare : HasSpare (named k1 i name) c xs ss i =
              refit-HasSpare k1 c xs ss i _ k1.mmcbt h refl h.sane.sound in
            rw (made k1 i e) (created-Safe (named k1 i name) i named_spare n.kept.map n.kept.memory)
      ]

svc_creprc-made :
    (fp : Frame) (k k1 : Kernel) (c i : ℕ) (name : List ℕ) (type entry privs : ℕ)
    → k.curtcb ≡ some c
    → taskinit type (k.tct c).pid entry privs k ≡ ok (pos i) k1
    → svc_creprc fp name type entry privs k ≡ finish make_ready i (named k1 i name)
unfolding svc_creprc
svc_creprc-made fp k k1 c i name type entry privs cur e = rw (current-eq k c cur, e) refl

svc_creprc-stopped :
    (fp : Frame) (k k1 : Kernel) (c : ℕ) (name : List ℕ) (type entry privs : ℕ)
    → k.curtcb ≡ some c
    → taskinit type (k.tct c).pid entry privs k ≡ halted k1
    → svc_creprc fp name type entry privs k ≡ halted k1
unfolding svc_creprc
svc_creprc-stopped fp k k1 c name type entry privs cur e = rw (current-eq k c cur, e) refl

pub svc_creprc-Safe :
    (fp : Frame) (k : Kernel) (c : ℕ) (xs ss : List ℕ) (name : List ℕ) (type entry privs : ℕ)
    → IsSane k c xs ss
    → Safe (forget (svc_creprc fp name type entry privs k))
svc_creprc-Safe fp k c xs ss name type entry privs s =
    made-Safe k c xs ss make_ready (λ k1 i h map bytes. make_ready-Safe k1 c xs ss i h) name type
      entry privs (svc_creprc fp name type entry privs k) s
      (λ k1 i e. svc_creprc-made fp k k1 c i name type entry privs s.turn.current e)
      (λ k1 e. svc_creprc-stopped fp k k1 c name type entry privs s.turn.current e)
