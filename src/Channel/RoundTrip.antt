-- ===== src/Channel/RoundTrip.antt =====
-- OPEN of a device that nobody has, and CLOSE of the channel.
use muxx.Prelude.{
  ℕ, zero, suc, ◌%◌, ◌^◌, ◌≡◌, ◌<◌, refl, ap, sym, ◌∙◌, Bool, true, false, none, some, List, ◌==◌,
  if◌then◌else◌, update, arith, inr,
}
use muxx.Prelude.Int.{same}
use muxx.Config.{max_drv, iot_sentries, mut_chan, mut_drv, drv_dealloc}
use muxx.Errors.{eok}
use muxx.Types.{DrvDesc, DrvCb, Iote}
use muxx.Kernel.{Kernel, ok, deref}
use muxx.Sched.{Frame}
use muxx.Mutex.Lock.{svc_mutex-free, svc_mutex-mine, restored}
use muxx.Driver.{find_driver, find_driver_from}
use muxx.Driver.Names.{HasDescriptors, first_named, name_length}
use muxx.Driver.Owner.{svc_alloc-result}
use muxx.Channel.{svc_open, svc_close, close_channel, release_device, first_free_iote}
use muxx.Channel.Answer.{update-same, update-step, noted, cleared, opening-claimed}
use muxx.Channel.Opened.{placed, svc_open-opening}

find_driver_from-kept :
    (left i : ℕ) (ds ds' : ℕ → DrvCb) (name : List ℕ)
    → ((j : ℕ) → ((ds' j).free ≡ (ds j).free) × ((ds' j).drvname ≡ (ds j).drvname))
    → find_driver_from left i ds' name ≡ find_driver_from left i ds name
unfolding find_driver_from
find_driver_from-kept zero i ds ds' name kept = refl
find_driver_from-kept (suc left) i ds ds' name kept =
    rw ((kept i).0, (kept i).1, find_driver_from-kept left (suc i) ds ds' name kept) refl

abbrev pub freed : DrvCb → DrvCb
freed x = record x { ownerid = none; alloc = false }

abbrev pub unlinked : Iote → Iote
unlinked e = record e { open_flag = false; driver = none; controller = 0; unit = 0 }

module _ (fp : Frame) (io d c : ℕ) where
  -- The channel is open on the device, which is the caller's by this OPEN.
  abbrev pub IsHeld : Kernel → Type 0
  IsHeld k =
      ((k.iott io).open_flag ≡ true)
      × ((k.iott io).dealloc ≡ true)
      × ((k.iott io).driver ≡ some d)
      × ((k.iott io).buffaddr ≡ false)
      × ((k.drvcbt d).alloc ≡ true)
      × ((k.drvcbt d).ownerid ≡ some c)
      × (find_driver_from max_drv 0 k.drvcbt (k.drvcbt d).drvname ≡ some d)

  release_device-IsHeld :
      (k : Kernel)
      → k.curtcb ≡ some c
      → (k.tct c).pid < 256
      → k.mutexes mut_drv ≡ 0
      → IsHeld k
      → release_device fp io k
        ≡ ok eok (record k { drvcbt = update k.drvcbt d (freed (k.drvcbt d)) })
  unfolding release_device find_driver
  release_device-IsHeld k cur small free (is_open, frees, on, plain, owned, mine, named) =
      let there : deref (k.iott io).driver k ≡ ok d k = ap (λ p. deref p k) on in
      let own : (c == c) ≡ true = ground arith in
      let step = svc_alloc-result fp (k.drvcbt d).drvname d drv_dealloc c k cur small free named in
      rw (frees, there, step, owned, mine, own) refl

  close_channel-IsHeld :
      (k : Kernel)
      → k.curtcb ≡ some c
      → (k.tct c).pid < 256
      → k.mutexes mut_drv ≡ 0
      → IsHeld k
      → close_channel fp io k ≡ ok eok (noted io d (freed (k.drvcbt d)) (unlinked (k.iott io)) k)
  unfolding close_channel
  close_channel-IsHeld k cur small free held =
      rw (held.0, release_device-IsHeld k cur small free held, held.3) refl

  svc_close-IsHeld :
      (k : Kernel)
      → k.curtcb ≡ some c
      → (k.tct c).pid < 256
      → k.mutexes mut_chan ≡ 0
      → k.mutexes mut_drv ≡ 0
      → IsHeld k
      → svc_close fp io k
        ≡ ok eok (record (noted io d (freed (k.drvcbt d)) (unlinked (k.iott io)) k) {
          t_errno = update k.t_errno c eok;
        })
  unfolding svc_close
  svc_close-IsHeld k cur small free free_drv held =
      let byte : ℕ = (k.tct c).pid % 2 ^ 8 in
      let k1 : Kernel = record k { mutexes = update k.mutexes mut_chan byte } in
      let taken = svc_mutex-free fp mut_chan c k (omega arith) cur free in
      let step = close_channel-IsHeld k1 cur small free_drv held in
      let k2 : Kernel = noted io d (freed (k.drvcbt d)) (unlinked (k.iott io)) k1 in
      let holds : k2.mutexes mut_chan ≡ (k.tct c).pid = ground (arith, small) in
      let given = svc_mutex-mine fp mut_chan c k2 (omega arith) cur holds in
      rw (taken, step, given, restored mut_chan byte k.mutexes free, cur) refl

-- The driver and the entry while the channel is open, and the entry after it was closed.
abbrev pub taken_by : (c : ℕ) → DrvCb → DrvCb
taken_by c x = record x { ownerid = some c; alloc = true }

abbrev pub opened_entry : (d : ℕ) → Iote → Iote
opened_entry d e = record (cleared (placed d e)) { dealloc = true; open_flag = true }

abbrev pub returned : Iote → Iote
returned e = record (cleared e) { dealloc = true; driver = none; controller = 0; unit = 0 }

module _ (fp : Frame) (io d c : ℕ) (b : DrvDesc) (k : Kernel) where
  abbrev while_open : Kernel
  while_open = noted io d (taken_by c (k.drvcbt d)) (opened_entry d (k.iott io)) k

  opened-IsHeld :
      (k.iott io).buffaddr ≡ false
      → find_driver_from max_drv 0 k.drvcbt (k.drvcbt d).drvname ≡ some d
      → IsHeld fp io d c while_open
  opened-IsHeld plain named =
      let same_name : (while_open.drvcbt d).drvname ≡ (k.drvcbt d).drvname = ground arith in
      let kept : find_driver_from max_drv 0 while_open.drvcbt (k.drvcbt d).drvname
          ≡ find_driver_from max_drv 0 k.drvcbt (k.drvcbt d).drvname =
        find_driver_from-kept max_drv 0 k.drvcbt while_open.drvcbt (k.drvcbt d).drvname
          (λ j. (ground arith, ground arith)) in
      (
        ground arith,
        ground arith,
        ground arith,
        ground (arith, plain),
        ground arith,
        ground arith,
        ap (λ n. find_driver_from max_drv 0 while_open.drvcbt n) same_name ∙ kept ∙ named,
      )

  -- After the CLOSE, the driver is as before the OPEN.
  driver_back :
      (k.drvcbt d).alloc ≡ false
      → (k.drvcbt d).ownerid ≡ none
      → update while_open.drvcbt d (freed (while_open.drvcbt d)) ≡ k.drvcbt
  driver_back unowned nobody =
      let x = k.drvcbt d in
      update-step k.drvcbt d (taken_by c x) freed
      ∙ ap (λ a. update k.drvcbt d (record x { ownerid = none; alloc = a })) (sym unowned)
      ∙ ap (λ o. update k.drvcbt d (record x { ownerid = o })) (sym nobody)
      ∙ update-same k.drvcbt d

-- A task whose number fits into a byte opens a device that is not shareable, has no buffers and is
-- nobody's, and whose driver is active and is found by its own name too, with the mutexes of
-- channels and drivers free, and closes the channel. OPEN returns the first free entry of the I/O
-- table, which is then open, and the device is the task's; CLOSE returns EOK, and afterwards the
-- entry is free again and the drivers are as before, with all else but `errno`.
pub svc_open-close :
    (one_bit : Bool) (fp fp' : Frame) (device : List ℕ) (io d c : ℕ) (b : DrvDesc) (k : Kernel)
    → k.curtcb ≡ some c
    → (k.tct c).pid < 256
    → k.mutexes mut_chan ≡ 0
    → k.mutexes mut_drv ≡ 0
    → HasDescriptors k.drvcbt
    → first_free_iote iot_sentries 0 k.iott ≡ some io
    → (k.iott io).buffaddr ≡ false
    → first_named max_drv 0 k.drvcbt (name_length device) device ≡ some d
    → (k.drvcbt d).desc ≡ some b
    → b.buffered ≡ false
    → b.shareable ≡ false
    → (k.drvcbt d).active ≡ true
    → (k.drvcbt d).alloc ≡ false
    → (k.drvcbt d).ownerid ≡ none
    → find_driver_from max_drv 0 k.drvcbt (k.drvcbt d).drvname ≡ some d
    → (k1 : Kernel) × (svc_open one_bit fp device k ≡ ok (some io) k1)
      × ((k1.iott io).open_flag ≡ true)
      × ((k1.drvcbt d).ownerid ≡ some c)
      × (svc_close fp' io k1
          ≡ ok eok (record k {
            iott = update k.iott io (returned (k.iott io));
            t_errno = update k.t_errno c eok;
          }))
svc_open-close one_bit fp fp' device io d c b k cur small free free_drv descs slot plain found has
      unbuffered single started unowned nobody named =
    let k1 : Kernel = while_open fp io d c b k in
    let answer = opening-claimed c b (k.drvcbt d) started single unowned in
    let opened : svc_open one_bit fp device k ≡ ok (some io) k1 =
      svc_open-opening one_bit fp device io d c b k cur small free free_drv descs slot found has
        unbuffered (inr (inr named))
      ∙ ap
          (λ (rc, x, f).
            ok (if same rc eok then some io else none)
              (record (noted io d x (f (placed d (k.iott io))) k) {
                t_errno = if same rc eok then k.t_errno else update k.t_errno c rc;
              }))
          answer in
    let closed =
      svc_close-IsHeld fp' io d c k1 cur small free free_drv
        (opened-IsHeld fp io d c b k plain named) in
    let entry : update k1.iott io (unlinked (k1.iott io))
        ≡ update k.iott io (returned (k.iott io)) =
      update-step k.iott io (opened_entry d (k.iott io)) unlinked in
    (
      k1,
      opened,
      ground arith,
      ground arith,
      closed
          ∙ ap
              (λ ds. ok eok (record k {
                drvcbt = ds;
                iott = update k1.iott io (unlinked (k1.iott io));
                t_errno = update k.t_errno c eok;
              }))
              (driver_back fp io d c b k unowned nobody)
          ∙ ap (λ t. ok eok (record k { iott = t; t_errno = update k.t_errno c eok })) entry,
    )
