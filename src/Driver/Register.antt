-- ===== src/Driver/Register.antt =====
-- The service DRVREG of kernel/muxx_systrap_svc.c.
use muxx.Prelude.{
  ℕ, zero, suc, ◌≡◌, ◌≤◌, refl, length, arith, ◌+◌, ◌*◌, ◌%◌, ◌^◌, Bool, leb, true, false, not,
  none, some, List, [], ◌∷◌, if◌then◌else◌, update,
}
use muxx.Prelude.Int.{ℤ}
use muxx.Config.{max_drv}
use muxx.Errors.{eok, enopriv, etctfull}
use muxx.Types.{Ptr, DrvIsr, DrvDesc, DrvCb, operprv}
use muxx.Kernel.{ok, fault, Cmd, ◌>>=◌, ◌>>◌, current}
use muxx.Driver.{set_driver}
use muxx.Sched.{Frame}

unfoldable pub find_free_driver : (left i : ℕ) → (ℕ → DrvCb) → Ptr
find_free_driver zero i t = none
find_free_driver (suc left) i t =
    let rest = find_free_driver left (suc i) t in if (t i).free then some i else rest

-- A vector is two words: the handler and the PSW, which gets the priority level.
unfoldable pub install_isrs : List DrvIsr → (ℕ → ℕ) → ℕ → ℕ
install_isrs [] v = v
install_isrs (r ∷ rs) v =
    install_isrs rs (update (update v r.vector r.handler) (r.vector + 2) (r.ilevel * 32 % 2 ^ 16))

-- The descriptor has a table of four ISRs, and the vectors are the first 256 bytes of memory.
unfoldable pub isrs_fit : (left : ℕ) → List DrvIsr → Bool
isrs_fit left [] = true
isrs_fit zero (r ∷ rs) = false
isrs_fit (suc left) (r ∷ rs) =
    let rest = isrs_fit left rs in if leb (r.vector + 4) 0o400 then rest else false

-- Every vector is two words of the first 256 bytes of memory.
abbrev pub AreVectors : List DrvIsr → Type 0
AreVectors [] = Unit
AreVectors (r ∷ rs) = (r.vector + 4 ≤ 256) × AreVectors rs

pub isrs_fit-AreVectors :
    (n : ℕ) (rs : List DrvIsr) → length rs ≤ n → AreVectors rs → isrs_fit n rs ≡ true
unfolding isrs_fit
isrs_fit-AreVectors n [] le are = refl
isrs_fit-AreVectors zero (r ∷ rs) le are = absurd (omega (arith, le))
isrs_fit-AreVectors (suc n) (r ∷ rs) le (is, are) =
    ground (arith, is, isrs_fit-AreVectors n rs (omega (arith, le)) are)

-- The address of a vector is not checked: with one outside the vectors, or with more ISRs than the
-- table holds, the code writes elsewhere in the kernel.
unfoldable pub svc_drvreg : Frame → (name : List ℕ) → DrvDesc → (handler : Ptr) → Cmd ℤ
svc_drvreg fp name descriptor handler = do
  cur ← current
  λ k.
      if not (operprv (k.tct cur).privileges)
      then ok enopriv k
      else elim (find_free_driver max_drv 0 k.drvcbt) [
        | none ↦ ok etctfull k
        | some i ↦
            (do
              set_driver i (λ b. record b {
                drvname = name;
                desc = some descriptor;
                free = false;
                loaded = true;
                stopped = true;
                taskid = handler;
              })
              λ k'.
                  if isrs_fit 4 descriptor.isrtable
                  then ok eok (record k' { vectors = install_isrs descriptor.isrtable k'.vectors })
                  else fault)
              k
      ]
