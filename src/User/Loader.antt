-- ===== src/User/Loader.antt =====
-- `load` of lib/sys/lib_load.c, which reads a program into the task's private memory. The memory
-- is a function of the user's address, and a read goes through a buffer of the size asked for.
use muxx.Prelude.{
  ℕ, ◌+◌, ◌-◌, ◌*◌, ◌/◌, ◌%◌, ◌^◌, Bool, not, ◌&&◌, ◌||◌, Option, none, some, List, ◌==◌, ltb, leb,
  if◌then◌else◌,
}
use muxx.Prelude.Int.{ℤ, pos, same, is_neg, pos_part}
use muxx.Config.{task_base}
use muxx.Errors.{eok, enomem, einvload}
use muxx.Kernel.{fault, Cmd, pure, ◌>>=◌, ◌>>◌, set_errno}
use muxx.Sched.{Frame}
use muxx.Driver.Exec.{Callback}
use muxx.Channel.{get_errno}
use muxx.Task.{svc_gettpi}
use muxx.User.{lib_open, lib_close, lib_read}

abbrev pub Memory : Type 0
Memory = ℕ → ℕ

-- `n` bytes of `buffer` at `dest`.
unfoldable pub store : (dest n : ℕ) → (buffer : ℕ → ℕ) → Memory → Memory
store dest n buffer m a = if leb dest a && ltb a (dest + n) then buffer (a - dest) else m a

-- `struct exec` of h/exec.h, less the fields that are not used.
pub record ExecHeader : Type 0 where
  pub a_magic : ℕ
  pub a_text : ℕ
  pub a_data : ℕ
  pub a_bss : ℕ
  pub a_entry : ℕ

abbrev word_in : (ℕ → ℕ) → (i : ℕ) → ℕ
word_in b i = b (2 * i) % 2 ^ 8 + 2 ^ 8 * (b (2 * i + 1) % 2 ^ 8)

abbrev pub header_of : (ℕ → ℕ) → ExecHeader
header_of b = record {
  a_magic = word_in b 0;
  a_text = word_in b 1;
  a_data = word_in b 2;
  a_bss = word_in b 3;
  a_entry = word_in b 5;
}

abbrev pub has_magic : ExecHeader → Bool
has_magic h = (h.a_magic == 0o407) || (h.a_magic == 0o410)

-- `taskType & TSZ_BIG` and `taskType & TSZ_MED`.
unfoldable pub space_of : (type : ℕ) → ℕ
space_of type =
    if type / 0o20 % 2 == 1 then 3 * 8192 else if type / 0o10 % 2 == 1 then 2 * 8192 else 8192

-- The sum of three words is a word.
abbrev pub image_size : ExecHeader → ℕ
image_size h = (h.a_text + h.a_data + h.a_bss) % 2 ^ 16

-- A result of `load`: the code, the size, the entry point if it was set, and memory.
pub record Loaded : Type 0 where
  pub rc : ℤ
  pub size : ℕ
  pub entry : Option ℕ
  pub memory : Memory

module _ (call : Callback) (fp : Frame) where
  -- `read(fd, n, dest)`; the address after the bytes wraps around at the end of the address space.
  abbrev pub read_at : (fd n dest : ℕ) → Memory → Cmd (ℕ × Memory)
  read_at fd n dest m = do
    (got, buffer) ← lib_read call fp fd n (λ i. m (dest + i))
    pure (got, store dest n buffer m)

  -- Text, data and a cleared area behind them.
  unfoldable pub load_segments : (fd : ℕ) → ExecHeader → Memory → Cmd Loaded
  load_segments fd h m = do
    (n, m1) ← read_at fd h.a_text task_base m
    if ltb n h.a_text
        then (do
          rc ← get_errno
          pure (record { rc = rc; size = image_size h; entry = some h.a_entry; memory = m1 }))
        else (do
          (n2, m2) ← read_at fd h.a_data (task_base + h.a_text) m1
          if ltb n2 h.a_data
              then (do
                rc ← get_errno
                pure (record { rc = rc; size = image_size h; entry = some h.a_entry; memory = m2 }))
              else pure (record {
                rc = eok;
                size = image_size h;
                entry = some h.a_entry;
                memory = store (task_base + h.a_text + h.a_data) h.a_bss (λ i. 0) m2;
              }))

  unfoldable pub load_image : (fd : ℕ) → ExecHeader → Memory → Cmd Loaded
  load_image fd h m =
      if not (has_magic h)
      then pure (record { rc = einvload; size = 0; entry = none; memory = m })
      else (do
        (rc, area) ← svc_gettpi fp 0
        elim area [
          | none ↦ λ k. fault
          | some tcb ↦
              if ltb (space_of tcb.task_type) (image_size h)
              then (do
                set_errno enomem
                pure (record {
                  rc = enomem;
                  size = image_size h;
                  entry = some h.a_entry;
                  memory = m;
                }))
              else load_segments fd h m
        ])

  unfoldable pub load_file : (fd : ℕ) → Memory → Cmd Loaded
  load_file fd m = do
    (n, buffer) ← lib_read call fp fd 16 (λ i. 0)
    if n == 16
        then load_image fd (header_of buffer) m
        else (do rc ← get_errno; pure (record { rc = rc; size = 0; entry = none; memory = m }))

  -- For an error other than of `open`, the result is 0.
  unfoldable pub load : (one_bit : Bool) → (dev : List ℕ) → Memory → Cmd Loaded
  load one_bit dev m = do
    fd ← lib_open one_bit fp dev
    if is_neg fd then pure (record { rc = fd; size = 0; entry = none; memory = m }) else (do
      r ← load_file (pos_part fd) m
      lib_close fp fd
      pure (record r { rc = if same r.rc eok then pos r.size else pos 0 }))
