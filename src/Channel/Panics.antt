-- ===== src/Channel/Panics.antt =====
-- OPEN and CLOSE release the mutex of the channels also where they did not get it, and panic if
-- the release is refused.
use muxx.Prelude.{ℕ, ◌%◌, ◌^◌, ◌≡◌, ◌≢◌, ◌≤◌, refl, Bool, false, some, List, update, arith}
use muxx.Config.{mut_chan}
use muxx.Kernel.{Kernel, halted}
use muxx.Sched.{Frame}
use muxx.Mutex.Lock.{svc_mutex-held, svc_mutex-not-mine, svc_mutex-free}
use muxx.Channel.{svc_open, svc_close, close_channel}

-- While another task has the mutex of the channels, OPEN and CLOSE halt the kernel, whatever the
-- device or the channel.
pub svc_open-held :
    (one_bit : Bool) (fp : Frame) (device : List ℕ) (io c : ℕ) (k : Kernel)
    → k.curtcb ≡ some c
    → k.mutexes mut_chan ≢ 0
    → k.mutexes mut_chan ≢ (k.tct c).pid
    → (svc_open one_bit fp device k ≡ halted (record k { ipl = 7 }))
      × (svc_close fp io k ≡ halted (record k { ipl = 7 }))
unfolding svc_open svc_close
svc_open-held one_bit fp device io c k cur held other =
    let taken = svc_mutex-held fp mut_chan k (omega arith) held in
    let refused = svc_mutex-not-mine fp mut_chan c (record k { ipl = 7 }) (omega arith) cur other in
    (rw (taken, refused) refl, rw (taken, refused) refl)

-- A task whose number does not fit into a byte halts the kernel when it closes a channel that is
-- not open, the mutex being free: CLOSE does not return ENOTOPEN.
pub svc_close-wide :
    (fp : Frame) (io c : ℕ) (k : Kernel)
    → k.curtcb ≡ some c
    → 256 ≤ (k.tct c).pid
    → k.mutexes mut_chan ≡ 0
    → (k.iott io).open_flag ≡ false
    → (k' : Kernel) × (svc_close fp io k ≡ halted k') × (k'.mutexes mut_chan ≡ (k.tct c).pid % 256)
unfolding svc_close close_channel
svc_close-wide fp io c k cur wide free closed =
    let byte : ℕ = (k.tct c).pid % 2 ^ 8 in
    let k1 : Kernel = record k { mutexes = update k.mutexes mut_chan byte } in
    let taken = svc_mutex-free fp mut_chan c k (omega arith) cur free in
    let holds : k1.mutexes mut_chan ≡ (k.tct c).pid % 256 = ground arith in
    let other : k1.mutexes mut_chan ≢ (k.tct c).pid = λ e. omega (arith, holds, e) in
    let refused = svc_mutex-not-mine fp mut_chan c k1 (omega arith) cur other in
    (record k1 { ipl = 7 }, rw (taken, closed, refused) refl, holds)
