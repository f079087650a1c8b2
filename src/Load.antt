-- ===== src/Load.antt =====
-- LOADPRC of kernel/muxx_creprc.c: a new task that runs the loader, with the name of its file at
-- the start of its private memory. `strlen` is the library's, in the kernel's map, and the message
-- is left out.
use muxx.Prelude.{ℕ, List, if◌then◌else◌}
use muxx.Prelude.Int.{ℤ, pos, negsuc, same, is_neg}
use muxx.Config.{task_base}
use muxx.Errors.{eok}
use muxx.Types.{MmuState}
use muxx.Kernel.{ok, Cmd, pure, ◌>>=◌, ◌>>◌, current, modify_task, panic}
use muxx.Sched.{Frame, add_ready}
use muxx.Task.{taskinit, slot, setup_task}
use muxx.Xcopy.{Memcpy, svc_xcopy}

abbrev pub Strlen : Type 0
Strlen = MmuState → (addr : ℕ) → (ℕ → ℕ) → ℕ

-- The file's name goes to the new task, which is then ready.
unfoldable pub load_name : Memcpy → Strlen → Frame → (new file : ℕ) → Cmd ℤ
load_name memcpy strlen fp new file k =
    (do
      cur ← current
      rc ←
          svc_xcopy memcpy fp (k.tct new).pid task_base (k.tct cur).pid file
            (strlen k.mmu file k.memory)
      if is_neg rc then panic else (do add_ready new; λ k'. ok (pos (k'.tct new).pid) k'))
      k

-- `shell` is the address of `rshell`.
unfoldable pub svc_loadprc :
    Memcpy → Strlen → (shell : ℕ) → Frame → (name : List ℕ) → (type file privs : ℕ) → Cmd ℤ
svc_loadprc memcpy strlen shell fp name type file privs = do
  cur ← current
  λ k.
      (do
        index ← taskinit type (k.tct cur).pid shell privs
        new ← slot index
        modify_task new (λ b. record b { taskname = name })
        rc ← setup_task new
        if same rc eok then load_name memcpy strlen fp new file else pure (negsuc 0))
        k
