-- ===== src/System/Transfers.antt =====
-- READ and WRITE of a channel of the table keep the tables in order, whatever the driver answers.
use muxx.Prelude.{
  ℕ, zero, suc, ◌≡◌, ◌<◌, refl, some, List, arith, inl, inr, Bool-cases, update, if◌then◌else◌,
}
use muxx.Prelude.Int.{ℤ, pos, is_neg}
use muxx.Config.{iot_sentries, drv_read, drv_write}
use muxx.Errors.{eok}
use muxx.Types.{Iopkt, Iote}
use muxx.Kernel.{Kernel, set_errno}
use muxx.Sched.{Frame}
use muxx.Driver.{set_iote}
use muxx.Driver.Exec.{Callback, drv_exec}
use muxx.Transfer.{
  write_from, read_from, write_open, read_open, svc_write, svc_read, byte_iopkt, count_chars,
  read_status,
}
use muxx.System.{forget}
use muxx.System.Sane.{IsSane, Safe}
use muxx.System.Opening.{desc_of-eq}
use muxx.System.Leads.{
  Leads, Leads-and_then, Leads-weaken, Any-Safe, Tame-fields, With, With-refl, Any, On,
  set_errno-Leads, set_iote-Leads,
}

module _ (call : Callback) (k0 : Kernel) (c : ℕ) (cur : k0.curtcb ≡ some c) where
  pub drv_exec-Leads :
      (io d : ℕ) (p : Iopkt) (k : Kernel)
      → With k0 (On io d) k
      → Leads (λ r k'. With k0 (On io d) k') (drv_exec call d p k)
  unfolding drv_exec
  drv_exec-Leads io d p k (g, on) =
      let (lt, b, has) = on.1 in
      rw (has, drv_exec)
        (Tame-fields k0 k k.ipl k.mutexes k.drvcbt k.iott k.t_errno _ g g.wired, on)

  write_from-Leads :
      (io d left i : ℕ) (buffer : ℕ → ℕ) (p : Iopkt) (rc : ℤ) (n : ℕ) (k : Kernel)
      → With k0 (On io d) k
      → Leads (λ r k'. With k0 (On io d) k') (write_from call d left i buffer p rc n k)
  unfolding write_from
  write_from-Leads io d zero i buffer p rc n k w = w
  write_from-Leads io d (suc left) i buffer p rc n k w = elim (Bool-cases (is_neg rc)) [
    | inl failed ↦ rw failed w
    | inr right ↦ rw right (
        Leads-and_then (λ r k'. With k0 (On io d) k') (λ r k'. With k0 (On io d) k')
          (drv_exec call d (record p { ioarea = buffer i }) k) _
          (drv_exec-Leads io d (record p { ioarea = buffer i }) k w)
          (λ (rc', p') k1 w1.
            write_from-Leads io d left (suc i) buffer p' rc' (count_chars n rc') k1 w1))
  ]

  read_from-Leads :
      (io d left i : ℕ) (buffer : ℕ → ℕ) (p : Iopkt) (rc : ℤ) (n : ℕ) (k : Kernel)
      → With k0 (On io d) k
      → Leads (λ r k'. With k0 (On io d) k') (read_from call d left i buffer p rc n k)
  unfolding read_from
  read_from-Leads io d zero i buffer p rc n k w = w
  read_from-Leads io d (suc left) i buffer p rc n k w = elim (Bool-cases (is_neg rc)) [
    | inl failed ↦ rw failed w
    | inr right ↦ rw right (
        Leads-and_then (λ r k'. With k0 (On io d) k') (λ r k'. With k0 (On io d) k')
          (drv_exec call d p k) _ (drv_exec-Leads io d p k w)
          (λ (rc', p') k1 w1. read_from-Leads io d left (suc i) _ p' rc' (count_chars n rc') k1 w1))
  ]

  write_open-Leads :
      (channel size : ℕ) (buffer : ℕ → ℕ) (k : Kernel)
      → channel < iot_sentries
      → With k0 Any k
      → Leads (λ r k'. With k0 Any k') (write_open call channel size buffer k)
  unfolding write_open
  write_open-Leads channel size buffer k lt (g, u) = elim (Bool-cases (k.iott channel).open_flag) [
    | inr shut ↦ rw shut (g, u)
    | inl is_open ↦
        let (d, driver, (ld, b, has_desc)) = g.wired.served channel lt is_open in
        let has = desc_of-eq d b k has_desc in
        elim (Bool-cases b.buffered) [
          | inl buffered ↦ rw (is_open, driver, has, buffered) (g, u)
          | inr plain ↦
              rw (is_open, driver, has, plain)
                (Leads-weaken (λ r k'. With k0 (On channel d) k') (λ r k'. With k0 Any k') _
                  (write_from-Leads channel d size 0 buffer (byte_iopkt drv_write (k.iott channel))
                    eok 0 k (g, (driver, (ld, b, has_desc))))
                  (λ r k1 w1. (w1.0, tt)))
        ]
  ]

  read_open-Leads :
      (channel size : ℕ) (buffer : ℕ → ℕ) (k : Kernel)
      → channel < iot_sentries
      → With k0 Any k
      → Leads (λ r k'. With k0 Any k') (read_open call channel size buffer k)
  unfolding read_open
  read_open-Leads channel size buffer k lt (g, u) = elim (Bool-cases (k.iott channel).open_flag) [
    | inr shut ↦ rw shut (g, u)
    | inl is_open ↦
        let (d, driver, (ld, b, has_desc)) = g.wired.served channel lt is_open in
        let has = desc_of-eq d b k has_desc in
        elim (Bool-cases b.buffered) [
          | inl buffered ↦ rw (is_open, driver, has, buffered) (g, u)
          | inr plain ↦
              rw (is_open, driver, has, plain)
                (Leads-weaken (λ r k'. With k0 (On channel d) k') (λ r k'. With k0 Any k') _
                  (read_from-Leads channel d size 0 buffer (byte_iopkt drv_read (k.iott channel))
                    (pos 0) 0 k (g, (driver, (ld, b, has_desc))))
                  (λ r k1 w1. (w1.0, tt)))
        ]
  ]

  -- A write to the status bits of an entry.
  status-Leads :
      (channel : ℕ) (f : Iote → Iote) (k : Kernel)
      → channel < iot_sentries
      → ((e : Iote) → ((f e).driver ≡ e.driver) × ((f e).open_flag ≡ e.open_flag))
      → With k0 Any k
      → Leads (λ a k'. With k0 Any k') (set_iote channel f k)
  status-Leads channel f k lt kept (g, u) =
      let (same_driver, same_flag) = kept (k.iott channel) in
      set_iote-Leads k0 c cur Any Any channel f k (g, u)
        (λ is.
          let (d, driver, drives) = g.wired.served channel lt (ground (arith, is, same_flag)) in
          (d, ground (arith, same_driver, driver), drives))
        tt

  svc_write-Leads :
      (fp : Frame) (channel size : ℕ) (buffer : ℕ → ℕ) (k : Kernel)
      → channel < iot_sentries
      → With k0 Any k
      → Leads (λ n k'. With k0 Any k') (svc_write call fp channel size buffer k)
  unfolding svc_write
  svc_write-Leads fp channel size buffer k lt w =
      Leads-and_then (λ r k'. With k0 Any k') (λ n k'. With k0 Any k')
        (write_open call channel size buffer k) _ (write_open-Leads channel size buffer k lt w)
        (λ (rc, n) k1 w1.
          Leads-and_then (λ u k'. With k0 Any k') (λ n k'. With k0 Any k')
            (set_errno (if is_neg rc then rc else eok) k1) _
            (set_errno-Leads k0 c cur Any (if is_neg rc then rc else eok) k1 w1)
            (λ u k2 w2.
              status-Leads channel (λ e. record e { ioerror = is_neg rc }) k2 lt (λ e. (refl, refl))
                w2))

  svc_read-Leads :
      (fp : Frame) (channel size : ℕ) (buffer : ℕ → ℕ) (k : Kernel)
      → channel < iot_sentries
      → With k0 Any k
      → Leads (λ r k'. With k0 Any k') (svc_read call fp channel size buffer k)
  unfolding svc_read
  svc_read-Leads fp channel size buffer k lt w =
      Leads-and_then (λ r k'. With k0 Any k') (λ r k'. With k0 Any k')
        (read_open call channel size buffer k) _ (read_open-Leads channel size buffer k lt w)
        (λ (rc, n, buffer') k1 w1.
          Leads-and_then (λ u k'. With k0 Any k') (λ r k'. With k0 Any k')
            (set_errno (if is_neg rc then rc else eok)
              (record k1 { iott = update k1.iott channel (read_status call rc (k1.iott channel)) }))
            _
            (set_errno-Leads k0 c cur Any (if is_neg rc then rc else eok) _ (
              status-Leads channel (read_status call rc) k1 lt (λ e. (ground arith, ground arith))
                w1))
            (λ u k2 w2. w2))

pub svc_write-Safe :
    (call : Callback) (fp : Frame) (channel size : ℕ) (buffer : ℕ → ℕ) (k : Kernel) (c : ℕ)
    (xs ss : List ℕ)
    → channel < iot_sentries
    → IsSane k c xs ss
    → Safe (forget (svc_write call fp channel size buffer k))
svc_write-Safe call fp channel size buffer k c xs ss lt s =
    Any-Safe k c xs ss _ s
      (svc_write-Leads call k c s.turn.current fp channel size buffer k lt (With-refl k s.wired))

pub svc_read-Safe :
    (call : Callback) (fp : Frame) (channel size : ℕ) (buffer : ℕ → ℕ) (k : Kernel) (c : ℕ)
    (xs ss : List ℕ)
    → channel < iot_sentries
    → IsSane k c xs ss
    → Safe (forget (svc_read call fp channel size buffer k))
svc_read-Safe call fp channel size buffer k c xs ss lt s =
    Any-Safe k c xs ss _ s
      (svc_read-Leads call k c s.turn.current fp channel size buffer k lt (With-refl k s.wired))
