-- ===== src/Channel/Close.antt =====
-- CLOSE of a channel, the mutex being free.
use muxx.Prelude.{ℕ, ◌%◌, ◌^◌, ◌≡◌, ◌<◌, refl, false, none, some, if◌then◌else◌, update, arith}
use muxx.Prelude.Int.{ℤ}
use muxx.Config.{mut_chan}
use muxx.Errors.{eok, enotopen}
use muxx.Types.{Iote}
use muxx.Kernel.{Kernel, ok}
use muxx.Sched.{Frame}
use muxx.Mutex.Lock.{svc_mutex-free, svc_mutex-mine, restored}
use muxx.Channel.{svc_close, close_channel, release_device}

-- What CLOSE answers and what it makes of the entry, if no device is to be freed and there is no
-- buffer.
abbrev pub closed : Iote → ℤ × Iote
closed e =
    if e.open_flag
    then (eok, record e { open_flag = false; driver = none; controller = 0; unit = 0 })
    else (enotopen, e)

close_channel-closed :
    (fp : Frame) (io : ℕ) (k : Kernel)
    → (k.iott io).dealloc ≡ false
    → (k.iott io).buffaddr ≡ false
    → close_channel fp io k
      ≡ ok (closed (k.iott io)).0 (record k { iott = update k.iott io (closed (k.iott io)).1 })
unfolding close_channel release_device
close_channel-closed fp io k keep plain = ground (arith, keep, plain)

-- If the caller's number fits into a byte, the mutex of the channels is free, and the channel has
-- no device to free and no buffer, CLOSE makes the entry of an open channel free again and returns
-- EOK; it refuses a channel that is not open with ENOTOPEN and leaves it. The mutex is free
-- afterwards, `errno` is the result, and all else is as before.
pub svc_close-closed :
    (fp : Frame) (io c : ℕ) (k : Kernel)
    → k.curtcb ≡ some c
    → (k.tct c).pid < 256
    → k.mutexes mut_chan ≡ 0
    → (k.iott io).dealloc ≡ false
    → (k.iott io).buffaddr ≡ false
    → svc_close fp io k
      ≡ ok (closed (k.iott io)).0 (record k {
        iott = update k.iott io (closed (k.iott io)).1;
        t_errno = update k.t_errno c (closed (k.iott io)).0;
      })
unfolding svc_close
svc_close-closed fp io c k cur small free keep plain =
    let byte : ℕ = (k.tct c).pid % 2 ^ 8 in
    let k1 : Kernel = record k { mutexes = update k.mutexes mut_chan byte } in
    let taken = svc_mutex-free fp mut_chan c k (omega arith) cur free in
    let step = close_channel-closed fp io k1 keep plain in
    let k2 : Kernel = record k1 { iott = update k1.iott io (closed (k1.iott io)).1 } in
    let holds : k2.mutexes mut_chan ≡ (k.tct c).pid = ground (arith, small) in
    let given = svc_mutex-mine fp mut_chan c k2 (omega arith) cur holds in
    rw (taken, step, given, restored mut_chan byte k.mutexes free, cur) refl
