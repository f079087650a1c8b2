-- ===== src/Channel.antt =====
-- Channels: kernel/muxx_channels.c. A `PIOTE` is the index in the I/O table, eyecatchers and
-- messages are left out, and `buffaddr` tells whether there is a buffer.
pub mod Panics
pub mod Close
pub mod Wired
pub mod Answer
pub mod Claimed
pub mod Entries
pub mod Opened
pub mod Refused
pub mod RoundTrip
pub mod Registered
use muxx.Prelude.{
  ℕ, zero, suc, ◌+◌, ◌*◌, ◌%◌, ◌^◌, Bool, true, false, not, ◌&&◌, ◌||◌, Option, none, some, List,
  [], ◌∷◌, ◌==◌, ltb, leb, if◌then◌else◌, update,
}
use muxx.Prelude.Int.{ℤ, pos, negsuc, same, is_neg, pos_part}
use muxx.Config.{iot_sentries, mut_chan, mut_alloc, mut_dealloc, drv_alloc, drv_dealloc}
use muxx.Errors.{eok, enotfound, enoavail, enoimpl, enosysres, eoffline, enotopen}
use muxx.Types.{Ptr, DrvDesc, DrvCb, Iote}
use muxx.Kernel.{
  Kernel, Run, ok, fault, Cmd, pure, and_then, ◌>>=◌, ◌>>◌, panic, deref, current, set_errno,
}
use muxx.Mutex.{svc_mutex}
use muxx.Driver.{is_owner, locate_dev, set_iote, svc_alloc}
use muxx.Sched.{Frame}

abbrev pub zero_iote : Iote
zero_iote = record {
  driver = none;
  open_flag = false;
  eof = false;
  ioerror = false;
  dealloc = false;
  position = 0;
  controller = 0;
  unit = 0;
  error = eok;
  buffaddr = false;
}

unfoldable pub iottinit_from : (left i : ℕ) → (ℕ → Iote) → ℕ → Iote
iottinit_from zero i t = t
iottinit_from (suc left) i t = iottinit_from left (suc i) (update t i zero_iote)

unfoldable pub iottinit : Kernel → Kernel
iottinit k = record k { iott = iottinit_from iot_sentries 0 k.iott }

-- The first entry without a driver.
unfoldable pub first_free_iote : (left i : ℕ) → (ℕ → Iote) → Ptr
first_free_iote zero i t = none
first_free_iote (suc left) i t =
    let rest = first_free_iote left (suc i) t in elim (t i).driver [ none ↦ some i | some d ↦ rest ]

unfoldable pub find_free_iote : Kernel → ℤ
find_free_iote k = elim (first_free_iote iot_sentries 0 k.iott) [
  | none ↦ enosysres
  | some i ↦ pos i
]

-- Buffers are not implemented: there is none, and the error is recorded.
abbrev pub allocate_iobuffer : (size : ℕ) → Cmd Bool
allocate_iobuffer size = do set_errno enoimpl; pure false

abbrev pub deallocate_iobuffer : Cmd ℤ
deallocate_iobuffer = do set_errno enoimpl; pure enoimpl

abbrev pub get_errno : Cmd ℤ
get_errno = do cur ← current; λ k. ok (k.t_errno cur) k

-- The descriptor of driver `d`.
abbrev pub desc_of : ℕ → Cmd DrvDesc
desc_of d k = elim (k.drvcbt d).desc [ none ↦ fault | some b ↦ ok b k ]

-- A device that is not shareable is allocated, unless the caller has it already.
unfoldable pub claim_device : Frame → (io d : ℕ) → Cmd ℤ
claim_device fp io d = do
  desc ← desc_of d
  cur ← current
  λ k.
      if desc.shareable
      then ok eok k
      else if not (k.drvcbt d).alloc
      then (do
        rc ← svc_alloc fp (k.drvcbt d).drvname drv_alloc
        if same rc eok
            then set_iote io (λ e. record e { dealloc = true })
            else set_iote io (λ e. record e { error = rc })
        pure rc)
          k
      else if not (is_owner (k.drvcbt d).ownerid cur)
      then (do set_iote io (λ e. record e { error = enoavail }); pure enoavail) k
      else ok eok k

-- `one_bit`: a set `int` bit field of one bit, compared with 1, counts as equal. The C standard
-- leaves it to the compiler.
unfoldable pub mark_open : (one_bit : Bool) (io d : ℕ) → ℤ → Cmd ℤ
mark_open one_bit io d rc = do
  desc ← desc_of d
  λ k.
      if not (same (k.iott io).error eok)
      then ok rc k
      else if desc.buffered && one_bit
      then (do
        buffer ← allocate_iobuffer desc.defbufsiz
        set_iote io (λ e. record e { buffaddr = buffer })
        if buffer
            then (do set_iote io (λ e. record e { open_flag = true }); pure rc)
            else get_errno)
          k
      else (do set_iote io (λ e. record e { open_flag = true }); pure rc) k

unfoldable pub open_located : (one_bit : Bool) → Frame → (io : ℕ) → Cmd ℤ
open_located one_bit fp io k =
    (do
      d ← deref (k.iott io).driver
      if (k.drvcbt d).active
          then (do
            set_iote io (λ e. record e {
              open_flag = false;
              eof = false;
              ioerror = false;
              dealloc = false;
              error = eok;
              position = 0;
            })
            rc ← claim_device fp io d
            mark_open one_bit io d rc)
          else pure eoffline)
      k

-- What `muxx_svc_open` does with the mutex in hand: the result code, and the channel if one is
-- used.
unfoldable pub open_channel : (one_bit : Bool) → Frame → List ℕ → Cmd (ℤ × Ptr)
open_channel one_bit fp device k =
    let index = find_free_iote k in
    if is_neg index
    then ok (index, none) k
    else (do
      let io : ℕ = pos_part index
      rc ← locate_dev device io
      if same rc eok
          then (do rc' ← open_located one_bit fp io; pure (rc', some io))
          else pure (rc, some io))
        k

-- The mutex is released whether or not it was taken.
unfoldable pub svc_open : (one_bit : Bool) → Frame → List ℕ → Cmd Ptr
svc_open one_bit fp device = do
  rc ← svc_mutex fp mut_chan mut_alloc
  (rc', io) ← if same rc eok then open_channel one_bit fp device else pure (rc, none)
  rc1 ← svc_mutex fp mut_chan mut_dealloc
  if not (same rc1 eok)
      then panic
      else if same rc' eok
      then pure io
      else (do set_errno rc'; pure none)

unfoldable pub release_device : Frame → (io : ℕ) → Cmd ℤ
release_device fp io k =
    if (k.iott io).dealloc
    then (do
      d ← deref (k.iott io).driver
      rc ← svc_alloc fp (k.drvcbt d).drvname drv_dealloc
      if not (same rc eok) then panic else pure rc)
        k
    else ok eok k

unfoldable pub close_channel : Frame → (io : ℕ) → Cmd ℤ
close_channel fp io k =
    if not (k.iott io).open_flag
    then ok enotopen k
    else (do
      rc ← release_device fp io
      set_iote io (λ e. record e { open_flag = false; driver = none; controller = 0; unit = 0 })
      if (k.iott io).buffaddr then (do deallocate_iobuffer; pure eok) else pure rc)
        k

unfoldable pub svc_close : Frame → (io : ℕ) → Cmd ℤ
svc_close fp io = do
  rc ← svc_mutex fp mut_chan mut_alloc
  rc' ← if same rc eok then close_channel fp io else pure rc
  rc1 ← svc_mutex fp mut_chan mut_dealloc
  if not (same rc1 eok) then panic else (do set_errno rc'; pure rc')
