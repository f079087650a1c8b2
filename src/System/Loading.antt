-- ===== src/System/Loading.antt =====
-- XCOPY and LOADPRC keep the tables in order, as long as the bytes stay in a page; that they stay
-- clear of the tables in memory is asked for by System.Allowed.
use muxx.Prelude.{
  ℕ, ◌+◌, ◌%◌, ◌≡◌, ◌≢◌, ◌≤◌, refl, List, arith, inl, inr, Bool-cases, Option-cases, false, ◌==◌,
  none, some,
}
use muxx.Prelude.Int.{pos, is_neg}
use muxx.Config.{max_tasks, task_base}
use muxx.Kernel.{Kernel, ok, halted, current-eq}
use muxx.Sched.{Frame}
use muxx.Task.{taskinit, findtcb, find_pid}
use muxx.Task.Slot.{find_pid-found, find_pid-none}
use muxx.Task.Numbers.{IsNumbered}
use muxx.Xcopy.{Memcpy, svc_xcopy, task_of}
use muxx.Xcopy.Kept.{svc_xcopy-KeepsAll}
use muxx.Load.{Strlen, load_name, svc_loadprc}
use muxx.System.{forget}
use muxx.System.Sane.{IsUsed, IsSane, Safe, goes_on, stops, Quiet}
use muxx.System.Locks.{Quietly, Quiet-of_fields}
use muxx.System.Spare.{HasSpare, HasSpare-Quiet, add_ready-spare}
use muxx.System.Creation.{finish, named, made-Safe}

pub memory-Quiet : (k : Kernel) (b : ℕ → ℕ) → Quiet k (record k { memory = b })
memory-Quiet k b = Quiet-of_fields k k.ipl k.mutexes k.drvcbt k.vectors b (λ w. w)

pub svc_xcopy-Quietly :
    (memcpy : Memcpy) (fp : Frame) (k : Kernel) (c dstpid dstaddr srcpid srcaddr size : ℕ)
    → k.curtcb ≡ some c
    → task_of srcpid k ≢ none
    → task_of dstpid k ≢ none
    → srcaddr % 8192 + size ≤ 8192
    → dstaddr % 8192 + size ≤ 8192
    → Quietly k (svc_xcopy memcpy fp dstpid dstaddr srcpid srcaddr size k)
svc_xcopy-Quietly memcpy fp k c dstpid dstaddr srcpid srcaddr size cur s d ls ld =
    elim (Option-cases (task_of srcpid k)) [
      | inl missing ↦ absurd (s missing)
      | inr (src, from) ↦ elim (Option-cases (task_of dstpid k)) [
        | inl missing ↦ absurd (d missing)
        | inr (dst, to) ↦
            let (rc, bytes, e) =
              svc_xcopy-KeepsAll memcpy fp k c src dst dstpid dstaddr srcpid srcaddr size cur from
                to ls ld in
            (rc, _, e, memory-Quiet k bytes)
      ]
    ]

-- The number of a task in use leads to the task.
pub task_of-used :
    (k : Kernel) (i : ℕ) → IsNumbered k → IsUsed k i → task_of (k.tct i).pid k ≡ some i
unfolding findtcb
task_of-used k i is (l, ne) =
    let used : ((k.tct i).pid == 0) ≡ false = ground (arith, ne) in
    elim (Option-cases (find_pid max_tasks 0 k.tct (k.tct i).pid)) [
      | inl missing ↦ absurd (
          find_pid-none max_tasks 0 k.tct (k.tct i).pid missing i (omega arith) (omega (arith, l))
            refl)
      | inr (j, found) ↦
          let (low, high, same_pid, first) =
            find_pid-found max_tasks 0 k.tct (k.tct i).pid j found in
          let e : j ≡ i =
            is.unique j i (omega (arith, high)) l (λ z. ne (ground (arith, same_pid, z)))
              same_pid in
          rw (used, found, e) refl
    ]

-- The end of LOADPRC, for a name that stays in a page.
load_name-Safe :
    (memcpy : Memcpy) (strlen : Strlen) (fp : Frame) (k : Kernel) (c : ℕ) (xs ss : List ℕ)
    (i file : ℕ)
    → HasSpare k c xs ss i
    → file % 8192 + strlen k.mmu file k.memory ≤ 8192
    → Safe (forget (load_name memcpy strlen fp i file k))
unfolding load_name
load_name-Safe memcpy strlen fp k c xs ss i file h fits =
    let cur = h.sane.turn.current in
    let (rc, bytes, e) =
      svc_xcopy-KeepsAll memcpy fp k c c i (k.tct i).pid task_base (k.tct c).pid file
        (strlen k.mmu file k.memory) cur (task_of-used k c h.sane.numbered h.sane.running_used)
        (task_of-used k i h.sane.numbered h.used) fits (omega (arith, fits)) in
    elim (Bool-cases (is_neg rc)) [
      | inl failed ↦ rw (current-eq k c cur, e, failed) stops
      | inr copied ↦
          let k1 : Kernel = record k { memory = bytes } in
          let (k', added, s, same_bytes) =
            add_ready-spare k1 c xs ss i (HasSpare-Quiet k k1 c xs ss i (memory-Quiet k bytes) h) in
          rw (current-eq k c cur, e, copied, added) (goes_on (c, _, ss, s))
    ]

svc_loadprc-made :
    (memcpy : Memcpy) (strlen : Strlen) (shell : ℕ) (fp : Frame) (k k1 : Kernel) (c i : ℕ)
    (name : List ℕ) (type file privs : ℕ)
    → k.curtcb ≡ some c
    → taskinit type (k.tct c).pid shell privs k ≡ ok (pos i) k1
    → svc_loadprc memcpy strlen shell fp name type file privs k
      ≡ finish (λ new. load_name memcpy strlen fp new file) i (named k1 i name)
unfolding svc_loadprc
svc_loadprc-made memcpy strlen shell fp k k1 c i name type file privs cur e =
    rw (current-eq k c cur, e) refl

svc_loadprc-stopped :
    (memcpy : Memcpy) (strlen : Strlen) (shell : ℕ) (fp : Frame) (k k1 : Kernel) (c : ℕ)
    (name : List ℕ) (type file privs : ℕ)
    → k.curtcb ≡ some c
    → taskinit type (k.tct c).pid shell privs k ≡ halted k1
    → svc_loadprc memcpy strlen shell fp name type file privs k ≡ halted k1
unfolding svc_loadprc
svc_loadprc-stopped memcpy strlen shell fp k k1 c name type file privs cur e =
    rw (current-eq k c cur, e) refl

pub svc_loadprc-Safe :
    (memcpy : Memcpy) (strlen : Strlen) (shell : ℕ) (fp : Frame) (k : Kernel) (c : ℕ)
    (xs ss : List ℕ) (name : List ℕ) (type file privs : ℕ)
    → IsSane k c xs ss
    → file % 8192 + strlen k.mmu file k.memory ≤ 8192
    → Safe (forget (svc_loadprc memcpy strlen shell fp name type file privs k))
svc_loadprc-Safe memcpy strlen shell fp k c xs ss name type file privs s fits =
    made-Safe k c xs ss (λ new. load_name memcpy strlen fp new file)
      (λ k1 i h map bytes.
        load_name-Safe memcpy strlen fp k1 c xs ss i file h (rw (map, bytes) fits))
      name type shell privs (svc_loadprc memcpy strlen shell fp name type file privs k) s
      (λ k1 i e.
        svc_loadprc-made memcpy strlen shell fp k k1 c i name type file privs s.turn.current e)
      (λ k1 e.
        svc_loadprc-stopped memcpy strlen shell fp k k1 c name type file privs s.turn.current e)
