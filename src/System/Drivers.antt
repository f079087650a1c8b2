-- ===== src/System/Drivers.antt =====
-- DRVSTART and DRVSTOP keep the tables in order, whatever the driver answers.
use muxx.Prelude.{
  ℕ, zero, suc, ◌+◌, ◌≡◌, ◌<◌, false, not, ◌&&◌, some, List, ◌∷◌, arith, inl, inr, Bool-cases,
  Option-cases, if◌then◌else◌, ◌==◌,
}
use muxx.Prelude.Int.{ℤ, same}
use muxx.Config.{max_drv, drv_start, drv_stop}
use muxx.Errors.{eok}
use muxx.Types.{DrvCb, operprv}
use muxx.Kernel.{Kernel, pure, current-eq, ◌>>◌}
use muxx.Sched.{Frame}
use muxx.Driver.{set_driver, find_driver, find_driver_from, same_bytes}
use muxx.Driver.Exec.{Callback, drv_exec, drv_startstop, svc_drvstart, svc_drvstop, zero_iopkt}
use muxx.Channel.Wired.{IsWired-kept}
use muxx.System.{forget}
use muxx.System.Sane.{IsSane, Safe}
use muxx.System.Leads.{Leads, Any-Safe, Tame-fields, With, With-refl, Any, runs}

-- A driver that is found by its name is one of the table, in use.
find_driver-found :
    (left i : ℕ) (t : ℕ → DrvCb) (name : List ℕ) (d : ℕ)
    → find_driver_from left i t name ≡ some d
    → (d < i + left) × ((t d).free ≡ false)
unfolding find_driver_from
find_driver-found zero i t name d e = absurd (ground (arith, e))
find_driver-found (suc left) i t name d e =
    elim (Bool-cases (not (t i).free && same_bytes 8 name (t i).drvname)) [
      | inl here ↦ let at : i ≡ d = ground (arith, e, here) in ground (arith, here, at)
      | inr there ↦
          let found = find_driver-found left (suc i) t name d (ground (arith, e, there)) in
          (omega (arith, found), found.1)
    ]

module _ (call : Callback) (k0 : Kernel) (c : ℕ) (cur : k0.curtcb ≡ some c) where
  answered-Leads :
      (op d : ℕ) (rc : ℤ) (k : Kernel)
      → With k0 Any k
      → Leads
          (λ rc k'. With k0 Any k')
          ((if same rc eok
              then (do
                set_driver d
                    (λ b. record b { active = op == drv_start; stopped = not (op == drv_start) })
                pure rc)
              else pure rc)
            k)
  answered-Leads op d rc k (g, u) = elim (Bool-cases (same rc eok)) [
    | inr refused ↦ rw refused (g, u)
    | inl right ↦ rw right (
      Tame-fields k0 k k.ipl k.mutexes _ k.iott k.t_errno k.calls g
          (IsWired-kept k.drvcbt _ k.iott (λ i. (ground arith, ground arith)) g.wired),
      u,
    )
  ]

  drv_startstop-Leads :
      (fp : Frame) (op : ℕ) (name : List ℕ) (k : Kernel)
      → With k0 Any k
      → Leads (λ rc k'. With k0 Any k') (drv_startstop call fp op name k)
  unfolding drv_startstop find_driver drv_exec
  drv_startstop-Leads fp op name k (g, u) =
      let runs_now = current-eq k c (runs k0 c cur Any k (g, u)) in
      elim (Bool-cases (operprv (k.tct c).privileges)) [
        | inr unprivileged ↦ rw (runs_now, unprivileged) (g, u)
        | inl privileged ↦ elim (Option-cases (find_driver_from max_drv 0 k.drvcbt name)) [
          | inl missing ↦ rw (runs_now, privileged, missing, drv_startstop, find_driver) (g, u)
          | inr (d, found) ↦
              let (lt, used) = find_driver-found max_drv 0 k.drvcbt name d found in
              elim (g.wired.registered d (omega (arith, lt))) [
                | inl free ↦ absurd (ground (arith, free, used))
                | inr (b, has) ↦
                    rw (runs_now, privileged, found, drv_startstop, find_driver, has, drv_exec)
                      (answered-Leads op d
                        (call k.calls (b.callbacks op) (record zero_iopkt { function = op })).0
                        (record k {
                          calls = (b.callbacks op, record zero_iopkt { function = op }) ∷ k.calls;
                        })
                        (Tame-fields k0 k k.ipl k.mutexes k.drvcbt k.iott k.t_errno _ g g.wired, u))
              ]
        ]
      ]

module _ (call : Callback) (fp : Frame) (name : List ℕ) (k : Kernel) (c : ℕ) (xs ss : List ℕ)
    (s : IsSane k c xs ss) where
  pub svc_drvstart-Safe : Safe (forget (svc_drvstart call fp name k))
  unfolding svc_drvstart
  svc_drvstart-Safe =
      Any-Safe k c xs ss _ s
        (drv_startstop-Leads call k c s.turn.current fp drv_start name k (With-refl k s.wired))

  pub svc_drvstop-Safe : Safe (forget (svc_drvstop call fp name k))
  unfolding svc_drvstop
  svc_drvstop-Safe =
      Any-Safe k c xs ss _ s
        (drv_startstop-Leads call k c s.turn.current fp drv_stop name k (With-refl k s.wired))
