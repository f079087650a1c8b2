-- ===== src/Driver.antt =====
-- Device drivers: kernel/muxx_drvinit.c, muxx_drvctl.c, muxx_drvctl_a.s and the service DRVREG of
-- muxx_systrap_svc.c. Eyecatchers and messages are left out. A name is the bytes at its pointer;
-- where it has fewer than are compared, the missing ones count as 0.
pub mod Names
pub mod Owner
pub mod Register
pub mod Exec
use muxx.Prelude.{
  ℕ, zero, suc, ◌+◌, ◌*◌, ◌%◌, ◌^◌, Bool, true, false, not, ◌&&◌, ◌||◌, Option, none, some, List,
  [], ◌∷◌, ◌==◌, ltb, leb, if◌then◌else◌, update, get_or,
}
use muxx.Prelude.Int.{ℤ, pos, negsuc, same}
use muxx.Config.{max_drv, mut_drv, mut_alloc, mut_dealloc, drv_start, drv_stop, drv_alloc}
use muxx.Errors.{eok, enopriv, enotfound, enoavail, enotalloc, etctfull}
use muxx.Types.{Ptr, DrvIsr, DrvDesc, DrvCb, Iopkt, Iote, operprv}
use muxx.Kernel.{Kernel, Run, ok, fault, Cmd, pure, and_then, ◌>>=◌, ◌>>◌, deref, current}
use muxx.Mutex.{svc_mutex}
use muxx.Sched.{Frame}

-- `memcmp(a, b, n) == 0`
unfoldable pub same_bytes : ℕ → (a b : List ℕ) → Bool
same_bytes zero a b = true
same_bytes (suc n) a b = same_bytes n a b && (get_or a n 0 == get_or b n 0)

abbrev pub set_driver : ℕ → (DrvCb → DrvCb) → Cmd (Unit {0})
set_driver i f k = ok tt (record k { drvcbt = update k.drvcbt i (f (k.drvcbt i)) })

abbrev pub blank_name : List ℕ
blank_name = 32 ∷ 32 ∷ 32 ∷ 32 ∷ 32 ∷ 32 ∷ 32 ∷ 32 ∷ []

-- `alloc` and `ownerid` are left as they are.
abbrev pub free_driver : DrvCb → DrvCb
free_driver d = record d {
  drvname = blank_name;
  desc = none;
  free = true;
  loaded = false;
  active = false;
  stopped = false;
  taskid = none;
  status = 0;
}

unfoldable pub drvinit_from : (left i : ℕ) → (ℕ → DrvCb) → ℕ → DrvCb
drvinit_from zero i t = t
drvinit_from (suc left) i t = drvinit_from left (suc i) (update t i (free_driver (t i)))

unfoldable pub drvinit : Kernel → Kernel
drvinit k = record k { drvcbt = drvinit_from max_drv 0 k.drvcbt }

-- The first driver in use with this name.
unfoldable pub find_driver_from : (left i : ℕ) → (ℕ → DrvCb) → List ℕ → Ptr
find_driver_from zero i t name = none
find_driver_from (suc left) i t name =
    let rest = find_driver_from left (suc i) t name in
    if not (t i).free && same_bytes 8 name (t i).drvname then some i else rest

unfoldable pub find_driver : List ℕ → Kernel → Ptr
find_driver name k = find_driver_from max_drv 0 k.drvcbt name

-- The state of the loop in `muxx_locate_pdev`.
pub record Search : Type 0 where
  pub l : ℕ
  pub driver : Ptr
  pub controller : ℕ
  pub unit : ℕ
  pub found : Bool

abbrev pub is_digit : ℕ → Bool
is_digit u = leb 48 u && leb u 57

abbrev pub is_alpha : ℕ → Bool
is_alpha c = (leb 65 c && leb c 90) || (leb 97 c && leb c 122)

-- `strlen` of the first `n` bytes, which are followed by a 0.
unfoldable pub str_len : ℕ → List ℕ → ℕ
str_len zero s = 0
str_len (suc n) [] = 0
str_len (suc n) (x ∷ xs) = let rest = str_len n xs in if x == 0 then 0 else suc rest

-- `wdev`: the name, cut off behind its eighth byte.
abbrev pub work_name : List ℕ → ℕ → ℕ
work_name name i = if ltb i 8 then get_or name i 0 else 0

-- `for (i = …; i >= 0 && wdev[i] == ' '; i--) wdev[i] = 0`, from the index `i` = n - 1 on; the
-- result is the index at the end, plus one, and the name.
unfoldable pub trim : (n : ℕ) → (ℕ → ℕ) → ℕ × (ℕ → ℕ)
trim zero wdev = (0, wdev)
trim (suc i) wdev =
    let rest = trim i (update wdev i 0) in if wdev i == 32 then rest else (suc i, wdev)

-- The three attempts to match a driver. `l` is a word; -1 is 65535.
unfoldable pub match_driver :
    (wdev : ℕ → ℕ) (name : List ℕ) (i : ℕ) (devname : List ℕ) → Search → Search
match_driver wdev name i devname s =
    let u = wdev s.l in
    let short = (s.l + 65535) % 2 ^ 16 in
    let c = wdev short in
    if same_bytes s.l name devname
    then record s { driver = some i; controller = 0; unit = 0; found = true }
    else if not (is_digit u)
    then record s { driver = some i }
    else if same_bytes short name devname
    then record { l = short; driver = some i; controller = 0; unit = u; found = true }
    else if is_alpha c
    then record {
      l = short;
      driver = some i;
      controller = c;
      unit = u;
      found = same_bytes short name devname;
    }
    else record s { l = short; driver = some i; unit = u }

unfoldable pub try_driver : (wdev : ℕ → ℕ) (name : List ℕ) (i : ℕ) → Search → Cmd Search
try_driver wdev name i s k = if (k.drvcbt i).free then ok s k else elim (k.drvcbt i).desc [
  | none ↦ fault
  | some d ↦ ok (match_driver wdev name i d.devname s) k
]

unfoldable pub locate_from : (left i : ℕ) (wdev : ℕ → ℕ) (name : List ℕ) → Search → Cmd Search
locate_from zero i wdev name s = pure s
locate_from (suc left) i wdev name s = do
  s' ← try_driver wdev name i s
  if s'.found then pure s' else locate_from left (suc i) wdev name s'

abbrev pub set_iote : ℕ → (Iote → Iote) → Cmd (Unit {0})
set_iote io f k = ok tt (record k { iott = update k.iott io (f (k.iott io)) })

unfoldable pub locate_pdev : List ℕ → (io : ℕ) → Cmd ℤ
locate_pdev name io =
    let (n, wdev) = trim (suc (str_len 8 name)) (work_name name) in
    let start : Search = record {
      l = (n + 65535) % 2 ^ 16;
      driver = none;
      controller = 0;
      unit = 0;
      found = false;
    } in
    do
      s ← locate_from max_drv 0 wdev name start
      if s.found
          then (do
            set_iote io
                (λ e. record e { driver = s.driver; controller = s.controller; unit = s.unit })
            pure eok)
          else pure enotfound

abbrev pub locate_dev : List ℕ → (io : ℕ) → Cmd ℤ
locate_dev = locate_pdev

-- `driver->ownerid == curtcb`
abbrev pub is_owner : Ptr → ℕ → Bool
is_owner none c = false
is_owner (some o) c = o == c

-- `muxx_svc_alloc` between locking and unlocking. The device is freed also if the caller has no
-- privilege for it.
unfoldable pub alloc_driver : (d op : ℕ) → Cmd ℤ
alloc_driver d op k =
    if op == drv_alloc
    then (if (k.drvcbt d).alloc
        then ok enoavail k
        else (do set_driver d (λ b. record b { ownerid = k.curtcb; alloc = true }); pure eok) k)
    else if (k.drvcbt d).alloc
    then (do
      cur ← current
      let rc : ℤ =
          if not (is_owner (k.drvcbt d).ownerid cur) && operprv (k.tct cur).privileges
          then enopriv
          else eok
      set_driver d (λ b. record b { ownerid = none; alloc = false })
      pure rc)
        k
    else ok enotalloc k

unfoldable pub svc_alloc : Frame → List ℕ → (op : ℕ) → Cmd ℤ
svc_alloc fp name op k = elim (find_driver name k) [
  | none ↦ ok enotfound k
  | some d ↦
      (do
        rc ← svc_mutex fp mut_drv mut_alloc
        if same rc eok
            then (do rc' ← alloc_driver d op; svc_mutex fp mut_drv mut_dealloc; pure rc')
            else pure rc)
        k
]
