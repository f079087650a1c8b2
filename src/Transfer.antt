-- ===== src/Transfer.antt =====
-- Reading and writing a channel: kernel/muxx_readwrite_svc.c. A buffer is a function of the index,
-- and a negative size, which moves nothing, is 0. The driver's callbacks are a parameter.
pub mod Write
pub mod Read
use muxx.Prelude.{
  ℕ, zero, suc, ◌+◌, ◌*◌, ◌%◌, ◌^◌, Bool, true, false, not, ◌&&◌, ◌||◌, Option, none, some, List,
  [], ◌∷◌, ◌==◌, if◌then◌else◌, update,
}
use muxx.Prelude.Int.{ℤ, pos, negsuc, same, is_neg, pos_part}
use muxx.Config.{drv_read, drv_write}
use muxx.Errors.{eok, enoimpl, enotopen, eeof}
use muxx.Types.{Ptr, DrvDesc, DrvCb, Iopkt, Iote}
use muxx.Kernel.{Kernel, Run, ok, fault, Cmd, pure, and_then, ◌>>=◌, ◌>>◌, deref, set_errno}
use muxx.Driver.{set_iote}
use muxx.Driver.Exec.{Callback, drv_exec}
use muxx.Channel.{desc_of}
use muxx.Sched.{Frame}

-- The packet for one byte at a time.
abbrev pub byte_iopkt : (function : ℕ) → Iote → Iopkt
byte_iopkt function e = record {
  function = function;
  error = eok;
  param0 = e.controller;
  param1 = e.unit;
  size = 1;
  ioarea = 0;
}

-- `numchars += rc` if `rc > 0`
abbrev pub count_chars : ℕ → ℤ → ℕ
count_chars n rc = (n + pos_part rc) % 2 ^ 16

module _ (call : Callback) where
  -- The loops, from index `i` on, with `left` bytes left: the last result code and `numchars`, and
  -- of the reading one also the buffer.
  unfoldable pub write_from : (d left i : ℕ) → (ℕ → ℕ) → Iopkt → ℤ → ℕ → Cmd (ℤ × ℕ)
  write_from d zero i buffer p rc n = pure (rc, n)
  write_from d (suc left) i buffer p rc n = if is_neg rc then pure (rc, n) else (do
    (rc', p') ← drv_exec call d (record p { ioarea = buffer i })
    write_from d left (suc i) buffer p' rc' (count_chars n rc'))

  unfoldable pub read_from : (d left i : ℕ) → (ℕ → ℕ) → Iopkt → ℤ → ℕ → Cmd (ℤ × ℕ × (ℕ → ℕ))
  read_from d zero i buffer p rc n = pure (rc, n, buffer)
  read_from d (suc left) i buffer p rc n = if is_neg rc then pure (rc, n, buffer) else (do
    (rc', p') ← drv_exec call d p
    let buffer' : ℕ → ℕ = if is_neg rc' || same rc' eok then buffer else update buffer i p'.ioarea
    read_from d left (suc i) buffer' p' rc' (count_chars n rc'))

  unfoldable pub write_open : (channel size : ℕ) → (ℕ → ℕ) → Cmd (ℤ × ℕ)
  write_open channel size buffer k =
      if not (k.iott channel).open_flag
      then ok (enotopen, 0) k
      else (do
        d ← deref (k.iott channel).driver
        desc ← desc_of d
        if desc.buffered
            then pure (enoimpl, 0)
            else write_from d size 0 buffer (byte_iopkt drv_write (k.iott channel)) eok 0)
          k

  -- The number of bytes that were written.
  unfoldable pub svc_write : Frame → (channel size : ℕ) → (ℕ → ℕ) → Cmd ℕ
  svc_write fp channel size buffer = do
    (rc, n) ← write_open channel size buffer
    set_errno (if is_neg rc then rc else eok)
    set_iote channel (λ e. record e { ioerror = is_neg rc })
    pure n

  unfoldable pub read_open : (channel size : ℕ) → (ℕ → ℕ) → Cmd (ℤ × ℕ × (ℕ → ℕ))
  read_open channel size buffer k =
      if not (k.iott channel).open_flag
      then ok (enotopen, 0, buffer) k
      else (do
        d ← deref (k.iott channel).driver
        desc ← desc_of d
        if desc.buffered
            then pure (enoimpl, 0, buffer)
            else read_from d size 0 buffer (byte_iopkt drv_read (k.iott channel)) (pos 0) 0)
          k

  abbrev pub read_status : ℤ → Iote → Iote
  read_status rc e =
      if not (is_neg rc)
      then record e { ioerror = false; eof = false }
      else if same rc eeof
      then record e { eof = true; ioerror = false }
      else record e { ioerror = true }

  -- The number of bytes that were read, and the buffer.
  unfoldable pub svc_read : Frame → (channel size : ℕ) → (ℕ → ℕ) → Cmd (ℕ × (ℕ → ℕ))
  svc_read fp channel size buffer = do
    (rc, n, buffer') ← read_open channel size buffer
    set_iote channel (read_status rc)
    set_errno (if is_neg rc then rc else eok)
    pure (n, buffer')
