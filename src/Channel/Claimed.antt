-- ===== src/Channel/Claimed.antt =====
-- What OPEN makes of the driver and of the entry, once the driver is found.
use muxx.Prelude.{
  ℕ, ◌≡◌, ◌<◌, refl, ap, sym, ◌∙◌, Bool, true, false, inl, inr, some, update, arith, Bool-cases,
}
use muxx.Prelude.Int.{ℤ, same}
use muxx.Config.{mut_drv}
use muxx.Errors.{eok, enoavail, eoffline}
use muxx.Types.{DrvDesc, DrvCb, Iote}
use muxx.Kernel.{Kernel, Run, ok, deref, current-eq}
use muxx.Sched.{Frame}
use muxx.Driver.{is_owner, find_driver}
use muxx.Driver.Owner.{svc_alloc-result}
use muxx.Channel.{desc_of, claim_device, mark_open, open_located}
use muxx.Channel.Answer.{
  update-same, update-step, Answer, claim_of, claim, cleared, marked, opening_of, opening, noted,
  IsClaimable,
}

pub noted-same : (io d : ℕ) (k : Kernel) → noted io d (k.drvcbt d) (k.iott io) k ≡ k
noted-same io d k =
    ap (λ ds. record k { drvcbt = ds; iott = update k.iott io (k.iott io) })
      (update-same k.drvcbt d)
    ∙ ap (λ t. record k { iott = t }) (update-same k.iott io)

module _ (fp : Frame) (io d c : ℕ) (b : DrvDesc) where
  abbrev pub answered : Answer → Kernel → Run ℤ
  answered a k = ok a.0 (noted io d a.1 (a.2 (k.iott io)) k)

  claim_device-claimed :
      (k : Kernel)
      → k.curtcb ≡ some c
      → (k.tct c).pid < 256
      → k.mutexes mut_drv ≡ 0
      → (k.drvcbt d).desc ≡ some b
      → IsClaimable d b k.drvcbt
      → claim_device fp io d k ≡ answered (claim c b (k.drvcbt d)) k
  unfolding claim_device find_driver
  claim_device-claimed k cur small free has claimable =
      let x = k.drvcbt d in
      let has_desc : desc_of d k ≡ ok b k = rw (has, desc_of) refl in
      let runs = current-eq k c cur in
      let answer : (s t m : Bool)
          → b.shareable ≡ s
          → x.alloc ≡ t
          → is_owner x.ownerid c ≡ m
          → answered (claim_of s t m c x) k ≡ answered (claim c b x) k =
        λ s t m es et em. rw (← es, ← et, ← em) refl in
      elim (Bool-cases b.shareable) [
        | inl shared ↦
            let step : claim_device fp io d k ≡ ok eok k = rw (has_desc, runs, shared) refl in
            step ∙ ap (ok eok) (sym (noted-same io d k)) ∙ answer true x.alloc _ shared refl refl
        | inr single ↦ elim (Bool-cases x.alloc) [
          | inr unowned ↦
              let found : find_driver x.drvname k ≡ some d =
                ground (arith, claimable, single, unowned) in
              let step : claim_device fp io d k ≡ answered (claim_of false false true c x) k =
                rw
                  (
                    has_desc,
                    runs,
                    single,
                    unowned,
                    svc_alloc-result fp x.drvname d 0 c k cur small free found,
                    unowned,
                  )
                  refl in
              step ∙ answer false false _ single unowned refl
          | inl owned ↦ elim (Bool-cases (is_owner x.ownerid c)) [
            | inl mine ↦
                let step : claim_device fp io d k ≡ ok eok k =
                  rw (has_desc, runs, single, owned, mine) refl in
                step
                ∙ ap (ok eok) (sym (noted-same io d k))
                ∙ answer false true true single owned mine
            | inr other ↦
                let step : claim_device fp io d k
                    ≡ ok enoavail (record k {
                      iott = update k.iott io (record (k.iott io) { error = enoavail });
                    }) =
                  rw (has_desc, runs, single, owned, other) refl in
                step
                ∙ ap
                    (λ ds. ok enoavail (record k {
                      drvcbt = ds;
                      iott = update k.iott io (record (k.iott io) { error = enoavail });
                    }))
                    (sym (update-same k.drvcbt d))
                ∙ answer false true false single owned other
          ]
        ]
      ]

  mark_open-marked :
      (one_bit : Bool) (rc : ℤ) (k : Kernel)
      → (k.drvcbt d).desc ≡ some b
      → b.buffered ≡ false
      → mark_open one_bit io d rc k
        ≡ ok rc (record k { iott = update k.iott io (marked (k.iott io)) })
  unfolding mark_open
  mark_open-marked one_bit rc k has plain =
      let has_desc : desc_of d k ≡ ok b k = rw (has, desc_of) refl in
      elim (Bool-cases (same (k.iott io).error eok)) [
        | inl right ↦ rw (has_desc, right, plain) refl
        | inr wrong ↦ rw (has_desc, wrong, update-same k.iott io) refl
      ]

  -- Three writes to the entry are one.
  open_located-active :
      (one_bit : Bool) (k : Kernel) (rc : ℤ) (x : DrvCb) (f : Iote → Iote)
      → (k.iott io).driver ≡ some d
      → (k.drvcbt d).active ≡ true
      → x.desc ≡ some b
      → b.buffered ≡ false
      → (let k1 : Kernel = record k { iott = update k.iott io (cleared (k.iott io)) } in
          claim_device fp io d k1 ≡ answered (rc, x, f) k1)
      → open_located one_bit fp io k ≡ answered (rc, x, λ e. marked (f (cleared e))) k
  unfolding open_located
  open_located-active one_bit k rc x f on started has plain claimed =
      let t1 : ℕ → Iote = update k.iott io (cleared (k.iott io)) in
      let k1 : Kernel = record k { iott = t1 } in
      let k2 : Kernel = noted io d x (f (k1.iott io)) k1 in
      let kept : (k2.drvcbt d).desc ≡ some b = ground (arith, has) in
      let written : update k2.iott io (marked (k2.iott io))
          ≡ update k.iott io (marked (f (cleared (k.iott io)))) =
        update-step t1 io (f (t1 io)) marked
        ∙ update-step k.iott io (cleared (k.iott io)) (λ e. marked (f e)) in
      let there : deref (k.iott io).driver k ≡ ok d k = ap (λ p. deref p k) on in
      let run : open_located one_bit fp io k
          ≡ ok rc (record k2 { iott = update k2.iott io (marked (k2.iott io)) }) =
        rw (there, started, claimed, mark_open-marked one_bit rc k2 kept plain) refl in
      run ∙ ap (λ t. ok rc (record k { drvcbt = update k.drvcbt d x; iott = t })) written

  claim-desc : (x : DrvCb) → (claim c b x).1.desc ≡ x.desc
  claim-desc x = ground arith

  pub open_located-opened :
      (one_bit : Bool) (k : Kernel)
      → k.curtcb ≡ some c
      → (k.tct c).pid < 256
      → k.mutexes mut_drv ≡ 0
      → (k.iott io).driver ≡ some d
      → (k.drvcbt d).desc ≡ some b
      → b.buffered ≡ false
      → IsClaimable d b k.drvcbt
      → open_located one_bit fp io k ≡ answered (opening c b (k.drvcbt d)) k
  unfolding open_located
  open_located-opened one_bit k cur small free on has plain claimable =
      elim (Bool-cases (k.drvcbt d).active) [
        | inl started ↦
            let (rc, x, f) = claim c b (k.drvcbt d) in
            open_located-active one_bit k rc x f on started (claim-desc (k.drvcbt d) ∙ has) plain (
              claim_device-claimed (record k { iott = update k.iott io (cleared (k.iott io)) }) cur
                small free has claimable)
            ∙ ap (λ a. answered (opening_of a c b (k.drvcbt d)) k) (sym started)
        | inr off ↦
            let run : open_located one_bit fp io k ≡ ok eoffline k = rw (on, off) refl in
            run
            ∙ ap (ok eoffline) (sym (noted-same io d k))
            ∙ ap (λ a. answered (opening_of a c b (k.drvcbt d)) k) (sym off)
      ]
