-- ===== src/System/Channels.antt =====
-- OPEN and CLOSE keep the tables in order.
use muxx.Prelude.{
  ℕ, ◌≡◌, ◌<◌, Bool, true, false, some, none, List, arith, inl, inr, Bool-cases, Option-cases,
  update,
}
use muxx.Prelude.Int.{ℤ, same}
use muxx.Config.{iot_sentries, mut_chan, mut_alloc, mut_dealloc, drv_dealloc}
use muxx.Errors.{eok, enoimpl}
use muxx.Types.{Iote}
use muxx.Kernel.{Kernel, Run, ok, Cmd, and_then, set_errno, ◌>>=◌}
use muxx.Mutex.{svc_mutex}
use muxx.Sched.{Frame}
use muxx.Driver.{svc_alloc, locate_dev}
use muxx.Channel.{
  open_located, open_channel, svc_open, first_free_iote, find_free_iote, deallocate_iobuffer,
  release_device, close_channel, svc_close,
}
use muxx.System.{forget}
use muxx.System.Sane.{IsSane, Safe}
use muxx.System.Opening.{locate_dev-Leads, open_located-Leads, svc_alloc-Leads}
use muxx.System.Leads.{
  Leads, Leads-and_then, Any-Safe, With, With-refl, Any, On, set_errno-Leads, svc_mutex-Leads,
  set_iote-Leads,
}

module _ (k0 : Kernel) (c : ℕ) (cur : k0.curtcb ≡ some c) where
  open_channel-Leads :
      (one_bit : Bool) (fp : Frame) (device : List ℕ) (k : Kernel)
      → With k0 Any k
      → Leads (λ r k'. With k0 Any k') (open_channel one_bit fp device k)
  unfolding open_channel find_free_iote
  open_channel-Leads one_bit fp device k w =
      elim (Option-cases (first_free_iote iot_sentries 0 k.iott)) [
        | inl full ↦ rw (full, find_free_iote) w
        | inr (io, found) ↦
            rw (found, find_free_iote)
              (Leads-and_then
                (λ rc k'.
                  With k0 Any k' × (same rc eok ≡ true → (d : ℕ) × On io d k'.drvcbt k'.iott))
                (λ r k'. With k0 Any k') (locate_dev device io k) _
                (locate_dev-Leads k0 c cur device io k w)
                (λ rc k1 (w1, on). elim (Bool-cases (same rc eok)) [
                  | inr failed ↦ rw failed w1
                  | inl right ↦
                      let (d, on_d) = on right in
                      rw right (
                        Leads-and_then (λ rc' k'. With k0 Any k') (λ r k'. With k0 Any k')
                          (open_located one_bit fp io k1) _
                          (open_located-Leads k0 c cur one_bit fp io d k1 (w1.0, on_d))
                          (λ rc' k2 w2. w2))
                ]))
      ]

  -- A call between taking and releasing the mutex of the channels.
  released-Leads :
      {A B : Type 0} (fp : Frame) (r : Run A) (f : A → ℤ → Cmd B)
      → Leads (λ a k'. With k0 Any k') r
      → ((a : A) (rc : ℤ) (k' : Kernel)
          → With k0 Any k'
          → Leads (λ b k''. With k0 Any k'') (f a rc k'))
      → Leads (λ b k'. With k0 Any k') (and_then r (λ a. svc_mutex fp mut_chan mut_dealloc >>= f a))
  released-Leads {A = A} {B = B} fp r f w h =
      Leads-and_then (λ a k'. With k0 Any k') (λ b k'. With k0 Any k') r _ w
        (λ a k1 w1.
          Leads-and_then (λ rc k'. With k0 Any k') (λ b k'. With k0 Any k')
            (svc_mutex fp mut_chan mut_dealloc k1) (f a)
            (svc_mutex-Leads k0 c cur Any fp mut_chan mut_dealloc k1 (omega arith) w1)
            (λ rc k2 w2. h a rc k2 w2))

  svc_open-Leads :
      (one_bit : Bool) (fp : Frame) (device : List ℕ) (k : Kernel)
      → With k0 Any k
      → Leads (λ p k'. With k0 Any k') (svc_open one_bit fp device k)
  unfolding svc_open
  svc_open-Leads one_bit fp device k w =
      Leads-and_then (λ rc k'. With k0 Any k') (λ p k'. With k0 Any k')
        (svc_mutex fp mut_chan mut_alloc k) _
        (svc_mutex-Leads k0 c cur Any fp mut_chan mut_alloc k (omega arith) w)
        (λ rc k1 w1.
          released-Leads fp _ _
            (elim (Bool-cases (same rc eok)) [
              | inl got ↦ rw got (open_channel-Leads one_bit fp device k1 w1)
              | inr refused ↦ rw refused w1
            ])
            (λ a rc1 k2 w2. elim (Bool-cases (same rc1 eok)) [
              | inr stuck ↦ rw stuck tt
              | inl freed ↦ elim (Bool-cases (same a.0 eok)) [
                | inl right ↦ rw (freed, right) w2
                | inr wrong ↦
                    rw (freed, wrong)
                      (Leads-and_then (λ u k'. With k0 Any k') (λ p k'. With k0 Any k')
                        (set_errno a.0 k2) _ (set_errno-Leads k0 c cur Any a.0 k2 w2)
                        (λ u k3 w3. w3))
              ]
            ]))

  release_device-Leads :
      (fp : Frame) (io d : ℕ) (k : Kernel)
      → With k0 (On io d) k
      → Leads (λ rc k'. With k0 Any k') (release_device fp io k)
  unfolding release_device
  release_device-Leads fp io d k (g, on) = elim (Bool-cases (k.iott io).dealloc) [
    | inr keeps ↦ rw keeps (g, tt)
    | inl frees ↦
        rw (frees, on.0)
          (Leads-and_then (λ rc k'. With k0 (On io d) k') (λ rc k'. With k0 Any k')
            (svc_alloc fp (k.drvcbt d).drvname drv_dealloc k) _
            (svc_alloc-Leads k0 c cur fp (k.drvcbt d).drvname drv_dealloc io d k (g, on))
            (λ rc k1 w1. elim (Bool-cases (same rc eok)) [
              | inl freed ↦ rw freed (w1.0, tt)
              | inr kept ↦ rw kept tt
            ]))
  ]

  deallocate_iobuffer-Leads :
      (k : Kernel) → With k0 Any k → Leads (λ rc k'. With k0 Any k') (deallocate_iobuffer k)
  deallocate_iobuffer-Leads k w =
      Leads-and_then (λ u k'. With k0 Any k') (λ rc k'. With k0 Any k') (set_errno enoimpl k)
        (λ u. ok enoimpl) (set_errno-Leads k0 c cur Any enoimpl k w) (λ u k1 w1. w1)

  close_channel-Leads :
      (fp : Frame) (io : ℕ) (k : Kernel)
      → io < iot_sentries
      → With k0 Any k
      → Leads (λ rc k'. With k0 Any k') (close_channel fp io k)
  unfolding close_channel
  close_channel-Leads fp io k lt (g, u) = elim (Bool-cases (k.iott io).open_flag) [
    | inr shut ↦ rw shut (g, u)
    | inl is_open ↦
        let (d, driver, drives) = g.wired.served io lt is_open in
        let on : On io d k.drvcbt k.iott = (driver, drives) in
        let shut : Iote → Iote =
          λ e. record e { open_flag = false; driver = none; controller = 0; unit = 0 } in
        rw is_open (
          Leads-and_then (λ rc k'. With k0 Any k') (λ rc k'. With k0 Any k')
            (release_device fp io k) _ (release_device-Leads fp io d k (g, on))
            (λ rc k1 w1.
              let w2 =
                set_iote-Leads k0 c cur Any Any io shut k1 w1 (λ is. absurd (ground (arith, is)))
                  tt in
              elim (Bool-cases (k.iott io).buffaddr) [
                | inr plain ↦ rw plain w2
                | inl buffered ↦ rw buffered (
                    Leads-and_then (λ u k'. With k0 Any k') (λ rc k'. With k0 Any k')
                      (deallocate_iobuffer
                        (record k1 { iott = update k1.iott io (shut (k1.iott io)) }))
                      (λ u. ok eok) (deallocate_iobuffer-Leads _ w2) (λ u k3 w3. w3))
              ]))
  ]

  svc_close-Leads :
      (fp : Frame) (io : ℕ) (k : Kernel)
      → io < iot_sentries
      → With k0 Any k
      → Leads (λ rc k'. With k0 Any k') (svc_close fp io k)
  unfolding svc_close
  svc_close-Leads fp io k lt w =
      Leads-and_then (λ rc k'. With k0 Any k') (λ rc k'. With k0 Any k')
        (svc_mutex fp mut_chan mut_alloc k) _
        (svc_mutex-Leads k0 c cur Any fp mut_chan mut_alloc k (omega arith) w)
        (λ rc k1 w1.
          released-Leads fp _ _
            (elim (Bool-cases (same rc eok)) [
              | inl got ↦ rw got (close_channel-Leads fp io k1 lt w1)
              | inr refused ↦ rw refused w1
            ])
            (λ a rc1 k2 w2. elim (Bool-cases (same rc1 eok)) [
              | inr stuck ↦ rw stuck tt
              | inl freed ↦ rw freed (
                  Leads-and_then (λ u k'. With k0 Any k') (λ rc k'. With k0 Any k') (set_errno a k2)
                    _ (set_errno-Leads k0 c cur Any a k2 w2) (λ u k3 w3. w3))
            ]))

pub svc_open-Safe :
    (one_bit : Bool) (fp : Frame) (device : List ℕ) (k : Kernel) (c : ℕ) (xs ss : List ℕ)
    → IsSane k c xs ss
    → Safe (forget (svc_open one_bit fp device k))
svc_open-Safe one_bit fp device k c xs ss s =
    Any-Safe k c xs ss _ s
      (svc_open-Leads k c s.turn.current one_bit fp device k (With-refl k s.wired))

pub svc_close-Safe :
    (fp : Frame) (io : ℕ) (k : Kernel) (c : ℕ) (xs ss : List ℕ)
    → io < iot_sentries
    → IsSane k c xs ss
    → Safe (forget (svc_close fp io k))
svc_close-Safe fp io k c xs ss lt s =
    Any-Safe k c xs ss _ s (svc_close-Leads k c s.turn.current fp io k lt (With-refl k s.wired))
