-- ===== src/Driver/Exec.antt =====
-- The calls of a driver's callbacks, and starting and stopping it. What a callback does is a
-- parameter: given the calls so far, its address and the packet, its result and the packet then.
use muxx.Prelude.{ℕ, not, none, some, List, ◌∷◌, ◌==◌, if◌then◌else◌}
use muxx.Prelude.Int.{ℤ, same}
use muxx.Config.{drv_start, drv_stop}
use muxx.Errors.{eok, enopriv, enotfound}
use muxx.Types.{Iopkt, operprv}
use muxx.Kernel.{ok, fault, Cmd, pure, ◌>>=◌, ◌>>◌, current}
use muxx.Driver.{find_driver, set_driver}
use muxx.Sched.{Frame}

abbrev pub Callback : Type 0
Callback = List (ℕ × Iopkt) → (address : ℕ) → Iopkt → ℤ × Iopkt

abbrev pub zero_iopkt : Iopkt
zero_iopkt = record { function = 0; error = eok; param0 = 0; param1 = 0; size = 0; ioarea = 0 }

module _ (call : Callback) where
  unfoldable pub drv_exec : (d : ℕ) → Iopkt → Cmd (ℤ × Iopkt)
  drv_exec d p k = elim (k.drvcbt d).desc [
    | none ↦ fault
    | some b ↦
        ok (call k.calls (b.callbacks p.function) p)
          (record k { calls = (b.callbacks p.function, p) ∷ k.calls })
  ]

  unfoldable pub drv_startstop : Frame → (op : ℕ) → List ℕ → Cmd ℤ
  drv_startstop fp op name = do
    cur ← current
    λ k. if not (operprv (k.tct cur).privileges) then ok enopriv k else elim (find_driver name k) [
      | none ↦ ok enotfound k
      | some d ↦
          (do
            (rc, p) ← drv_exec d (record zero_iopkt { function = op })
            if same rc eok
                then (do
                  set_driver d
                      (λ b. record b { active = op == drv_start; stopped = not (op == drv_start) })
                  pure rc)
                else pure rc)
            k
    ]

  unfoldable pub svc_drvstart : Frame → List ℕ → Cmd ℤ
  svc_drvstart fp name = drv_startstop fp drv_start name

  unfoldable pub svc_drvstop : Frame → List ℕ → Cmd ℤ
  svc_drvstop fp name = drv_startstop fp drv_stop name
