-- ===== src/Channel/Refused.antt =====
-- OPEN of a device that is refused, again and again.
use muxx.Prelude.{
  ℕ, zero, suc, ◌%◌, ◌^◌, ◌≡◌, ◌<◌, refl, ap, sym, ◌∙◌, Bool, true, false, none, some, List,
  if◌then◌else◌, update, arith, inl, inr, ◌⊎◌,
}
use muxx.Prelude.Int.{ℤ, same}
use muxx.Config.{max_drv, iot_sentries, mut_chan}
use muxx.Errors.{eok, enoavail, eoffline, enosysres}
use muxx.Types.{DrvDesc, DrvCb, Iote}
use muxx.Kernel.{Kernel, ok, deref, current-eq, Cmd, and_then}
use muxx.Sched.{Frame}
use muxx.Mutex.Lock.{svc_mutex-free, svc_mutex-mine, restored}
use muxx.Driver.{is_owner}
use muxx.Driver.Names.{HasDescriptors, first_named, name_length}
use muxx.Channel.{
  desc_of, claim_device, mark_open, open_located, open_channel, svc_open, first_free_iote,
  find_free_iote,
}
use muxx.Channel.Answer.{update-same, update-step, cleared}
use muxx.Channel.Opened.{placed, open_channel-placed, svc_open-placed}
use muxx.Channel.Entries.{free_entries, first_free_iote-none, first_free_iote-found}

-- `n` OPENs, one after another.
abbrev pub opens : (n : ℕ) (one_bit : Bool) → Frame → (device : List ℕ) → Cmd (Unit {0})
opens zero one_bit fp device k = ok tt k
opens (suc n) one_bit fp device k =
    and_then (svc_open one_bit fp device k) (λ io. opens n one_bit fp device)

module _ (one_bit : Bool) (fp : Frame) (c : ℕ) where
  -- The caller's number fits into a byte, and the mutex of the channels is free.
  abbrev pub MayOpen : Kernel → Type 0
  MayOpen k =
      (k.curtcb ≡ some c)
      × ((k.tct c).pid < 256)
      × (k.mutexes mut_chan ≡ 0)
      × HasDescriptors k.drvcbt

  -- The device's driver is `d`, which is not started, or which another task has.
  abbrev pub IsRefused : (device : List ℕ) (d : ℕ) → (ℕ → DrvCb) → Type 0
  IsRefused device d ds =
      (first_named max_drv 0 ds (name_length device) device ≡ some d)
      × (((ds d).active ≡ false)
          ⊎ (((ds d).active ≡ true)
              × ((ds d).alloc ≡ true)
              × (is_owner (ds d).ownerid c ≡ false)
              × (b : DrvDesc) × ((ds d).desc ≡ some b)
              × (b.shareable ≡ false)))

  pub svc_open-full :
      (device : List ℕ) (k : Kernel)
      → MayOpen k
      → first_free_iote iot_sentries 0 k.iott ≡ none
      → svc_open one_bit fp device k ≡ ok none (record k { t_errno = update k.t_errno c enosysres })
  unfolding svc_open open_channel find_free_iote
  svc_open-full device k (cur, small, free, descs) full =
      let byte : ℕ = (k.tct c).pid % 2 ^ 8 in
      let k1 : Kernel = record k { mutexes = update k.mutexes mut_chan byte } in
      let taken = svc_mutex-free fp mut_chan c k (omega arith) cur free in
      let holds : k1.mutexes mut_chan ≡ (k.tct c).pid = ground (arith, small) in
      let given = svc_mutex-mine fp mut_chan c k1 (omega arith) cur holds in
      rw
        (
          taken,
          full,
          find_free_iote,
          open_channel,
          given,
          cur,
          restored mut_chan byte k.mutexes free,
        )
        refl

  open_located-offline :
      (io d : ℕ) (k : Kernel)
      → (k.iott io).driver ≡ some d
      → (k.drvcbt d).active ≡ false
      → open_located one_bit fp io k ≡ ok eoffline k
  unfolding open_located
  open_located-offline io d k on off =
      let there : deref (k.iott io).driver k ≡ ok d k = ap (λ p. deref p k) on in
      rw (there, off) refl

  mark_open-failed :
      (io d : ℕ) (b : DrvDesc) (rc : ℤ) (k : Kernel)
      → (k.drvcbt d).desc ≡ some b
      → same (k.iott io).error eok ≡ false
      → mark_open one_bit io d rc k ≡ ok rc k
  unfolding mark_open
  mark_open-failed io d b rc k has failed =
      let has_desc : desc_of d k ≡ ok b k = rw (has, desc_of) refl in rw (has_desc, failed) refl

  claim_device-taken :
      (io d : ℕ) (b : DrvDesc) (k : Kernel)
      → k.curtcb ≡ some c
      → (k.drvcbt d).desc ≡ some b
      → b.shareable ≡ false
      → (k.drvcbt d).alloc ≡ true
      → is_owner (k.drvcbt d).ownerid c ≡ false
      → claim_device fp io d k
        ≡ ok enoavail
            (record k { iott = update k.iott io (record (k.iott io) { error = enoavail }) })
  unfolding claim_device
  claim_device-taken io d b k cur has single owned other =
      let has_desc : desc_of d k ≡ ok b k = rw (has, desc_of) refl in
      rw (has_desc, current-eq k c cur, single, owned, other) refl

  open_located-taken :
      (io d : ℕ) (b : DrvDesc) (k : Kernel)
      → k.curtcb ≡ some c
      → (k.iott io).driver ≡ some d
      → (k.drvcbt d).active ≡ true
      → (k.drvcbt d).desc ≡ some b
      → b.shareable ≡ false
      → (k.drvcbt d).alloc ≡ true
      → is_owner (k.drvcbt d).ownerid c ≡ false
      → open_located one_bit fp io k
        ≡ ok enoavail (record k {
          iott = update k.iott io (record (cleared (k.iott io)) { error = enoavail });
        })
  unfolding open_located
  open_located-taken io d b k cur on started has single owned other =
      let there : deref (k.iott io).driver k ≡ ok d k = ap (λ p. deref p k) on in
      let refuse : Iote → Iote = λ e. record e { error = enoavail } in
      let k1 : Kernel = record k { iott = update k.iott io (cleared (k.iott io)) } in
      let k2 : Kernel = record k1 { iott = update k1.iott io (refuse (k1.iott io)) } in
      let taken = claim_device-taken io d b k1 cur has single owned other in
      let failed = mark_open-failed io d b enoavail k2 has (ground arith) in
      let run : open_located one_bit fp io k ≡ ok enoavail k2 =
        rw (there, started, taken, failed) refl in
      run
      ∙ ap (λ t. ok enoavail (record k { iott = t }))
          (update-step k.iott io (cleared (k.iott io)) refuse)

  -- OPEN with what it makes of the entry, if the driver stays as it is.
  svc_open-left :
      (device : List ℕ) (io d : ℕ) (rc : ℤ) (f : Iote → Iote) (k : Kernel)
      → MayOpen k
      → first_named max_drv 0 k.drvcbt (name_length device) device ≡ some d
      → first_free_iote iot_sentries 0 k.iott ≡ some io
      → same rc eok ≡ false
      → ((k2 : Kernel)
          → k2.curtcb ≡ k.curtcb
          → k2.drvcbt ≡ k.drvcbt
          → (k2.iott io).driver ≡ some d
          → open_located one_bit fp io k2
            ≡ ok rc (record k2 { iott = update k2.iott io (f (k2.iott io)) }))
      → svc_open one_bit fp device k
        ≡ ok none (record k {
          iott = update k.iott io (f (placed d (k.iott io)));
          t_errno = update k.t_errno c rc;
        })
  svc_open-left device io d rc f k (cur, small, free, descs) found slot failed opened =
      let k1 : Kernel = record k { mutexes = update k.mutexes mut_chan ((k.tct c).pid % 2 ^ 8) } in
      let k2 : Kernel = record k1 { iott = update k.iott io (placed d (k.iott io)) } in
      svc_open-placed one_bit fp device io d rc (k.drvcbt d) f c k cur small free (
        open_channel-placed one_bit fp device io d rc (k.drvcbt d) f k1 descs slot found (
          opened k2 refl refl (ground arith)
          ∙ ap (λ ds. ok rc (record k2 { drvcbt = ds; iott = update k2.iott io (f (k2.iott io)) }))
              (sym (update-same k.drvcbt d))))
      ∙ ap
          (λ ds. ok (if same rc eok then some io else none) (record k {
            drvcbt = ds;
            iott = update k.iott io (f (placed d (k.iott io)));
            t_errno = if same rc eok then k.t_errno else update k.t_errno c rc;
          }))
          (update-same k.drvcbt d)
      ∙ rw failed refl

  svc_open-IsRefused :
      (device : List ℕ) (io d : ℕ) (k : Kernel)
      → MayOpen k
      → IsRefused device d k.drvcbt
      → first_free_iote iot_sentries 0 k.iott ≡ some io
      → (rc : ℤ) × (e : Iote) × (e.driver ≡ some d)
        × (svc_open one_bit fp device k
            ≡ ok none (record k { iott = update k.iott io e; t_errno = update k.t_errno c rc }))
  svc_open-IsRefused device io d k may (found, inl off) slot = (
    eoffline,
    placed d (k.iott io),
    refl,
    svc_open-left device io d eoffline (λ e. e) k may found slot refl
        (λ k2 cur2 ds2 on.
          open_located-offline io d k2 on (rw ds2 off)
          ∙ ap (λ t. ok eoffline (record k2 { iott = t })) (sym (update-same k2.iott io))),
  )
  svc_open-IsRefused device io d k may (found, inr (started, owned, other, b, has, single)) slot = (
    enoavail,
    record (cleared (placed d (k.iott io))) { error = enoavail },
    refl,
    svc_open-left device io d enoavail (λ e. record (cleared e) { error = enoavail }) k may found
        slot refl
        (λ k2 cur2 ds2 on.
          open_located-taken io d b k2 (cur2 ∙ may.0) on (rw ds2 started) (rw ds2 has) single
            (rw ds2 owned) (rw ds2 other)),
  )

  -- Each OPEN of a device whose driver is not started, or which another task has, uses up an entry of
  -- the I/O table, if the caller's number fits into a byte and the mutex of the channels is free:
  -- with `n` entries free, after `n` OPENs every OPEN of any device returns NULL with ENOSYSRES.
  pub opens-IsRefused :
      (n : ℕ) (device : List ℕ) (d : ℕ) (k : Kernel)
      → MayOpen k
      → IsRefused device d k.drvcbt
      → free_entries iot_sentries 0 k.iott ≡ n
      → (k' : Kernel) × (opens n one_bit fp device k ≡ ok tt k')
        × ((other_device : List ℕ)
            → svc_open one_bit fp other_device k'
              ≡ ok none (record k' { t_errno = update k'.t_errno c enosysres }))
  opens-IsRefused zero device d k may refused count = (
    k,
    refl,
    λ other_device.
        svc_open-full other_device k may (first_free_iote-none iot_sentries 0 k.iott count),
  )
  opens-IsRefused (suc n) device d k may refused count =
      let (io, found, low, less) = first_free_iote-found iot_sentries 0 n k.iott count in
      let (rc, e, on, run1) = svc_open-IsRefused device io d k may refused found in
      let k1 : Kernel = record k { iott = update k.iott io e; t_errno = update k.t_errno c rc } in
      let (k', run, full) = opens-IsRefused n device d k1 may refused (less e d on) in
      (k', rw run1 run, full)
