-- ===== src/System/Loaded.antt =====
-- What LOADPRC leaves for `rshell`: the name of the file at the start of the new task's memory.
use muxx.Prelude.{
  ℕ, ◌+◌, ◌%◌, ◌^◌, ◌≡◌, ◌<◌, ◌≤◌, refl, List, [], ◌∷◌, ◌++◌, arith, false, true, ◌&&◌, ◌==◌,
}
use muxx.Prelude.Int.{pos}
use muxx.Config.{task_base}
use muxx.Kernel.{Kernel, ok, current-eq}
use muxx.Sched.{Frame}
use muxx.Xcopy.{Memcpy, may_read, may_write}
use muxx.Xcopy.Loop.{IsCopied, AreApart}
use muxx.Xcopy.Copied.{IsClear, page_start, user_address, svc_xcopy-IsCopied}
use muxx.Load.{Strlen, load_name}
use muxx.System.Sane.{IsSane}
use muxx.System.Spare.{HasSpare, HasSpare-Quiet, add_ready-spare}
use muxx.System.Loading.{memory-Quiet, task_of-used}

abbrev pub name_length : Strlen → Kernel → (file : ℕ) → ℕ
name_length strlen k file = strlen k.mmu file k.memory

-- If the tables are in order, the new task `i` is not yet in a queue, the caller may write its
-- memory, the name is not empty and stays in a page, that page and the new task's first one lie in
-- physical memory, and the name and its place there have no byte in common and lie neither in the
-- kernel's three pages nor in the I/O page, then the new task is the last of the ready ones,
-- the tables are in order, and its memory starts with the name. The 0 behind the name is not
-- copied: no other byte changes.
pub load_name-IsCopied :
    (memcpy : Memcpy) (strlen : Strlen) (fp : Frame) (k : Kernel) (c : ℕ) (xs ss : List ℕ)
    (i file : ℕ)
    → HasSpare k c xs ss i
    → may_write k c i ≡ true
    → 0 < name_length strlen k file
    → file % 8192 + name_length strlen k file ≤ 8192
    → page_start k c file + 8192 ≤ 2 ^ 18
    → page_start k i task_base + 8192 ≤ 2 ^ 18
    → AreApart (name_length strlen k file) (user_address k c file) (user_address k i task_base)
    → IsClear (user_address k c file) (name_length strlen k file)
    → IsClear (user_address k i task_base) (name_length strlen k file)
    → (k' : Kernel) × (load_name memcpy strlen fp i file k ≡ ok (pos (k'.tct i).pid) k')
      × IsSane k' c (xs ++ i ∷ []) ss
      × IsCopied
          (name_length strlen k file)
          (user_address k c file)
          (user_address k i task_base)
          k.memory
          k'.memory
unfolding load_name
load_name-IsCopied memcpy strlen fp k c xs ss i file h w some_bytes fits fs fd apart from to =
    let cur = h.sane.turn.current in
    let r : may_read k c c ≡ true = ground arith in
    let numbered : (((k.tct i).pid == 0) && ((k.tct c).pid == 0)) ≡ false =
      ground (arith, h.used.1) in
    let (after, e, copied) =
      svc_xcopy-IsCopied memcpy fp k c c i (k.tct i).pid task_base (k.tct c).pid file
        (name_length strlen k file) some_bytes numbered cur
        (task_of-used k c h.sane.numbered h.sane.running_used)
        (task_of-used k i h.sane.numbered h.used) r w fits (omega (arith, fits)) fs fd apart from
        to in
    let k1 : Kernel = record k { memory = after } in
    let (k', added, s, same_bytes) =
      add_ready-spare k1 c xs ss i (HasSpare-Quiet k k1 c xs ss i (memory-Quiet k after) h) in
    (k', rw (current-eq k c cur, e, added) refl, s, rw same_bytes copied)
