-- ===== src/Channel/Opened.antt =====
-- OPEN against what it answers and what it makes of the driver and of the entry.
use muxx.Prelude.{
  ℕ, ◌%◌, ◌^◌, ◌≡◌, ◌<◌, refl, ap, ◌∙◌, Bool, false, inl, inr, none, some, List, if◌then◌else◌,
  update, arith, Bool-cases,
}
use muxx.Prelude.Int.{ℤ, same}
use muxx.Config.{max_drv, iot_sentries, mut_chan, mut_drv}
use muxx.Errors.{eok}
use muxx.Types.{DrvDesc, DrvCb, Iote}
use muxx.Kernel.{Kernel, ok}
use muxx.Sched.{Frame}
use muxx.Mutex.Lock.{svc_mutex-free, svc_mutex-mine, restored}
use muxx.Driver.{locate_pdev}
use muxx.Driver.Names.{HasDescriptors, first_named, name_length, locate_pdev-first, located}
use muxx.Channel.{open_located, open_channel, svc_open, first_free_iote, find_free_iote}
use muxx.Channel.Answer.{update-step, opening, noted, IsClaimable}
use muxx.Channel.Claimed.{open_located-opened}

-- The entry with the driver that was found.
abbrev pub placed : ℕ → Iote → Iote
placed d e = record e { driver = some d; controller = 0; unit = 0 }

module _ (one_bit : Bool) (fp : Frame) (device : List ℕ) (io d : ℕ) (rc : ℤ) (x : DrvCb)
    (f : Iote → Iote) where
  pub open_channel-placed :
      (k : Kernel)
      → HasDescriptors k.drvcbt
      → first_free_iote iot_sentries 0 k.iott ≡ some io
      → first_named max_drv 0 k.drvcbt (name_length device) device ≡ some d
      → (let k1 : Kernel = record k { iott = update k.iott io (placed d (k.iott io)) } in
          open_located one_bit fp io k1 ≡ ok rc (noted io d x (f (k1.iott io)) k1))
      → open_channel one_bit fp device k
        ≡ ok (rc, some io) (noted io d x (f (placed d (k.iott io))) k)
  unfolding open_channel find_free_iote
  open_channel-placed k descs slot found opened =
      let there : locate_pdev device io k ≡ located io (some d) k =
        locate_pdev-first device io k descs ∙ ap (λ p. located io p k) found in
      let run : open_channel one_bit fp device k
          ≡ ok (rc, some io)
              (record k {
                drvcbt = update k.drvcbt d x;
                iott =
                    update (update k.iott io (placed d (k.iott io))) io
                      (f (update k.iott io (placed d (k.iott io)) io));
              }) =
        rw (slot, find_free_iote, there, opened) refl in
      run
      ∙ ap (λ t. ok (rc, some io) (record k { drvcbt = update k.drvcbt d x; iott = t }))
          (update-step k.iott io (placed d (k.iott io)) f)

  -- Between taking and releasing the mutex.
  pub svc_open-placed :
      (c : ℕ) (k : Kernel)
      → k.curtcb ≡ some c
      → (k.tct c).pid < 256
      → k.mutexes mut_chan ≡ 0
      → (let k1 : Kernel = record k {
        mutexes = update k.mutexes mut_chan ((k.tct c).pid % 2 ^ 8);
      } in
          open_channel one_bit fp device k1
          ≡ ok (rc, some io) (noted io d x (f (placed d (k.iott io))) k1))
      → svc_open one_bit fp device k
        ≡ ok
            (if same rc eok then some io else none)
            (record (noted io d x (f (placed d (k.iott io))) k) {
              t_errno = if same rc eok then k.t_errno else update k.t_errno c rc;
            })
  unfolding svc_open
  svc_open-placed c k cur small free opened =
      let byte : ℕ = (k.tct c).pid % 2 ^ 8 in
      let k1 : Kernel = record k { mutexes = update k.mutexes mut_chan byte } in
      let k2 : Kernel = noted io d x (f (placed d (k.iott io))) k1 in
      let taken = svc_mutex-free fp mut_chan c k (omega arith) cur free in
      let holds : k2.mutexes mut_chan ≡ (k.tct c).pid = ground (arith, small) in
      let given = svc_mutex-mine fp mut_chan c k2 (omega arith) cur holds in
      elim (Bool-cases (same rc eok)) [
        | inl right ↦ rw (taken, opened, given, right, restored mut_chan byte k.mutexes free) refl
        | inr wrong ↦
            rw (taken, opened, given, wrong, cur, restored mut_chan byte k.mutexes free) refl
      ]

-- OPEN by a task whose number fits into a byte, with the mutexes of channels and drivers free, with
-- entry `io` the first free one, and with `d` the first driver of the table whose device name begins
-- like the device's, which has no buffers and which, where it is to be allocated, ALLOC finds by its
-- name. The entry gets the driver. If the driver is active, and it is shareable, free or the
-- caller's, the result is the channel, which is open, and a free driver that is not shareable
-- becomes the caller's; else the result is NULL, `errno` is EOFFLINE for a driver that is not
-- active and ENOAVAIL for another task's, and the entry keeps the driver all the same. The mutexes
-- are free afterwards, and all else is as before.
pub svc_open-opening :
    (one_bit : Bool) (fp : Frame) (device : List ℕ) (io d c : ℕ) (b : DrvDesc) (k : Kernel)
    → k.curtcb ≡ some c
    → (k.tct c).pid < 256
    → k.mutexes mut_chan ≡ 0
    → k.mutexes mut_drv ≡ 0
    → HasDescriptors k.drvcbt
    → first_free_iote iot_sentries 0 k.iott ≡ some io
    → first_named max_drv 0 k.drvcbt (name_length device) device ≡ some d
    → (k.drvcbt d).desc ≡ some b
    → b.buffered ≡ false
    → IsClaimable d b k.drvcbt
    → svc_open one_bit fp device k ≡ (
        let (rc, x, f) = opening c b (k.drvcbt d) in
        ok
          (if same rc eok then some io else none)
          (record (noted io d x (f (placed d (k.iott io))) k) {
            t_errno = if same rc eok then k.t_errno else update k.t_errno c rc;
          }))
svc_open-opening one_bit fp device io d c b k cur small free free_drv descs slot found has plain
      claimable =
    let (rc, x, f) = opening c b (k.drvcbt d) in
    let k1 : Kernel = record k { mutexes = update k.mutexes mut_chan ((k.tct c).pid % 2 ^ 8) } in
    let k2 : Kernel = record k1 { iott = update k.iott io (placed d (k.iott io)) } in
    let on : (k2.iott io).driver ≡ some d = ground arith in
    svc_open-placed one_bit fp device io d rc x f c k cur small free (
      open_channel-placed one_bit fp device io d rc x f k1 descs slot found
        (open_located-opened fp io d c b one_bit k2 cur small free_drv on has plain claimable))
