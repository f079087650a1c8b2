-- ===== src/System/Opening.antt =====
-- The steps of OPEN keep the tables in order.
use muxx.Prelude.{
  ℕ, ◌≡◌, refl, Bool, true, false, ◌&&◌, some, List, arith, inl, inr, Bool-cases, Option-cases,
  update,
}
use muxx.Prelude.Int.{ℤ, same}
use muxx.Config.{max_drv}
use muxx.Errors.{eok, enoimpl, enoavail}
use muxx.Types.{DrvDesc, Iote}
use muxx.Kernel.{Kernel, ok, current-eq}
use muxx.Sched.{Frame}
use muxx.Driver.{is_owner, svc_alloc, locate_dev, set_iote}
use muxx.Driver.Names.{locate_pdev-first, first_named, first_named-found, name_length}
use muxx.Channel.{desc_of, claim_device, mark_open, open_located, get_errno}
use muxx.Channel.Wired.{Drives, Drives-kept, IsWired-kept}
use muxx.System.Services.{svc_alloc-Allocates}
use muxx.System.Leads.{
  Leads, Leads-and_then, Tame-fields, With, Any, On, On-IsServed, runs, set_iote-Leads,
}

pub desc_of-eq :
    (d : ℕ) (b : DrvDesc) (k : Kernel) → (k.drvcbt d).desc ≡ some b → desc_of d k ≡ ok b k
desc_of-eq d b k e = rw (e, desc_of) refl

module _ (k0 : Kernel) (c : ℕ) (cur : k0.curtcb ≡ some c) where
  get_errno-Leads : (k : Kernel) → With k0 Any k → Leads (λ rc k'. With k0 Any k') (get_errno k)
  get_errno-Leads k w = rw (current-eq k c (runs k0 c cur Any k w)) w

  pub svc_alloc-Leads :
      (fp : Frame) (name : List ℕ) (op io d : ℕ) (k : Kernel)
      → With k0 (On io d) k
      → Leads (λ rc k'. With k0 (On io d) k') (svc_alloc fp name op k)
  svc_alloc-Leads fp name op io d k (g, on) =
      let (rc, level, ms, ds, kept, e) =
        svc_alloc-Allocates fp k name op c (runs k0 c cur (On io d) k (g, on)) in
      rw e (
        Tame-fields k0 k level ms ds k.iott k.t_errno k.calls g
            (IsWired-kept k.drvcbt ds k.iott kept g.wired),
        (on.0, Drives-kept k.drvcbt ds d kept on.1),
      )

  -- A write to other fields of the entry than the driver.
  pub set_iote-On :
      (io d : ℕ) (f : Iote → Iote) (k : Kernel)
      → (f (k.iott io)).driver ≡ (k.iott io).driver
      → With k0 (On io d) k
      → Leads (λ a k'. With k0 (On io d) k') (set_iote io f k)
  set_iote-On io d f k kept (g, on) =
      set_iote-Leads k0 c cur (On io d) (On io d) io f k (g, on)
        (On-IsServed io d k.drvcbt k.iott (f (k.iott io)) kept on)
        (ground (arith, kept, on.0), on.1)

  claim_device-Leads :
      (fp : Frame) (io d : ℕ) (k : Kernel)
      → With k0 (On io d) k
      → Leads (λ rc k'. With k0 (On io d) k') (claim_device fp io d k)
  unfolding claim_device
  claim_device-Leads fp io d k (g, on) =
      let (lt, b, has_desc) = on.1 in
      let has = desc_of-eq d b k has_desc in
      let runs_now = current-eq k c (runs k0 c cur (On io d) k (g, on)) in
      elim (Bool-cases b.shareable) [
        | inl shared ↦ rw (has, runs_now, shared) (g, on)
        | inr single ↦ elim (Bool-cases (k.drvcbt d).alloc) [
          | inr free ↦
              rw (has, runs_now, single, free)
                (Leads-and_then (λ rc k'. With k0 (On io d) k') (λ rc k'. With k0 (On io d) k')
                  (svc_alloc fp (k.drvcbt d).drvname 0 k) _
                  (svc_alloc-Leads fp (k.drvcbt d).drvname 0 io d k (g, on))
                  (λ rc k1 w. elim (Bool-cases (same rc eok)) [
                    | inl got ↦
                        rw got (set_iote-On io d (λ e. record e { dealloc = true }) k1 refl w)
                    | inr refused ↦
                        rw refused (set_iote-On io d (λ e. record e { error = rc }) k1 refl w)
                  ]))
          | inl taken ↦ elim (Bool-cases (is_owner (k.drvcbt d).ownerid c)) [
            | inl mine ↦ rw (has, runs_now, single, taken, mine) (g, on)
            | inr other ↦
                rw (has, runs_now, single, taken, other)
                  (set_iote-On io d (λ e. record e { error = enoavail }) k refl (g, on))
          ]
        ]
      ]

  mark_open-Leads :
      (one_bit : Bool) (io d : ℕ) (rc : ℤ) (k : Kernel)
      → With k0 (On io d) k
      → Leads (λ rc k'. With k0 Any k') (mark_open one_bit io d rc k)
  unfolding mark_open
  mark_open-Leads one_bit io d rc k (g, on) =
      let (lt, b, has_desc) = on.1 in
      let has = desc_of-eq d b k has_desc in
      elim (Bool-cases (same (k.iott io).error eok)) [
        | inr failed ↦ rw (has, failed) (g, tt)
        | inl right ↦ elim (Bool-cases (b.buffered && one_bit)) [
          | inl wants ↦
              let unbuffered : Iote → Iote = λ e. record e { buffaddr = false } in
              let k1 : Kernel = record k {
                t_errno = update k.t_errno c enoimpl;
                iott = update k.iott io (record (k.iott io) { buffaddr = false });
              } in
              let w =
                set_iote-Leads k0 c cur (On io d) Any io unbuffered
                  (record k { t_errno = update k.t_errno c enoimpl })
                  (Tame-fields k0 k k.ipl k.mutexes k.drvcbt k.iott _ k.calls g g.wired, on)
                  (On-IsServed io d k.drvcbt k.iott (unbuffered (k.iott io)) refl on) tt in
              rw (has, right, wants, current-eq k c (runs k0 c cur (On io d) k (g, on)))
                (get_errno-Leads k1 w)
          | inr plain ↦
              let opened : Iote → Iote = λ e. record e { open_flag = true } in
              rw (has, right, plain)
                (set_iote-Leads k0 c cur (On io d) Any io opened k (g, on)
                  (On-IsServed io d k.drvcbt k.iott (opened (k.iott io)) refl on) tt)
        ]
      ]

  pub open_located-Leads :
      (one_bit : Bool) (fp : Frame) (io d : ℕ) (k : Kernel)
      → With k0 (On io d) k
      → Leads (λ rc k'. With k0 Any k') (open_located one_bit fp io k)
  unfolding open_located
  open_located-Leads one_bit fp io d k (g, on) = elim (Bool-cases (k.drvcbt d).active) [
    | inr off ↦ rw (on.0, off) (g, tt)
    | inl started ↦
        let clear : Iote → Iote = λ e. record e {
          open_flag = false;
          eof = false;
          ioerror = false;
          dealloc = false;
          error = eok;
          position = 0;
        } in
        let k1 : Kernel = record k { iott = update k.iott io (clear (k.iott io)) } in
        rw (on.0, started)
          (Leads-and_then (λ rc k'. With k0 (On io d) k') (λ rc k'. With k0 Any k')
            (claim_device fp io d k1) _
            (claim_device-Leads fp io d k1 (set_iote-On io d clear k refl (g, on)))
            (λ rc k2 w. mark_open-Leads one_bit io d rc k2 w))
  ]

  -- The driver that is found for a device.
  pub locate_dev-Leads :
      (device : List ℕ) (io : ℕ) (k : Kernel)
      → With k0 Any k
      → Leads
          (λ rc k'. With k0 Any k' × (same rc eok ≡ true → (d : ℕ) × On io d k'.drvcbt k'.iott))
          (locate_dev device io k)
  locate_dev-Leads device io k (g, u) =
      let l : ℕ = name_length device in
      elim (Option-cases (first_named max_drv 0 k.drvcbt l device)) [
        | inl missing ↦
            rw (locate_pdev-first device io k g.wired.registered, missing)
              ((g, tt), λ e. absurd (ground (arith, e)))
        | inr (d, found) ↦
            let (lt, used) = first_named-found max_drv 0 k.drvcbt l device d found in
            let drives : Drives k.drvcbt d = elim (g.wired.registered d (omega (arith, lt))) [
              | inl free ↦ absurd (ground (arith, free, used))
              | inr (b, e) ↦ (omega (arith, lt), b, e)
            ] in
            let place : Iote → Iote = λ e. record e { driver = some d; controller = 0; unit = 0 } in
            rw (locate_pdev-first device io k g.wired.registered, found)
              (
                set_iote-Leads k0 c cur Any Any io place k (g, u) (λ is. (d, refl, drives)) tt,
                λ e. (d, (ground arith, drives)),
              )
      ]
