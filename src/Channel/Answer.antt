-- ===== src/Channel/Answer.antt =====
-- What OPEN answers and makes of the driver and of the entry.
use muxx.Prelude.{
  ℕ, ◌≡◌, refl, ap, ◌∙◌, fun_ext, Bool, true, false, not, ◌⊎◌, some, if◌then◌else◌, update, arith,
}
use muxx.Prelude.Int.{ℤ, same}
use muxx.Config.{max_drv}
use muxx.Errors.{eok, enoavail, eoffline}
use muxx.Types.{DrvDesc, DrvCb, Iote}
use muxx.Kernel.{Kernel}
use muxx.Driver.{is_owner, find_driver_from}

module _ {A : Type 0} (t : ℕ → A) (i : ℕ) where
  pub update-at : (a : A) → update t i a i ≡ a
  update-at a = ground arith

  update-twice : (a b : A) → update (update t i a) i b ≡ update t i b
  update-twice a b = fun_ext (λ j. ground arith)

  pub update-same : update t i (t i) ≡ t
  update-same = fun_ext (λ j. ground arith)

  pub update-step :
      (a : A) (f : A → A) → update (update t i a) i (f (update t i a i)) ≡ update t i (f a)
  update-step a f = rw (update-at a) (update-twice a (f a))

-- A result code, the driver then, and what is written to the entry.
abbrev pub Answer : Type 0
Answer = ℤ × DrvCb × (Iote → Iote)

-- Of `c`, which asks for a driver.
abbrev pub claim_of : (shareable taken mine : Bool) (c : ℕ) → DrvCb → Answer
claim_of shareable taken mine c x =
    if shareable
    then (eok, x, λ e. e)
    else if not taken
    then (eok, record x { ownerid = some c; alloc = true }, λ e. record e { dealloc = true })
    else if not mine
    then (enoavail, x, λ e. record e { error = enoavail })
    else (eok, x, λ e. e)

abbrev pub claim : (c : ℕ) → DrvDesc → DrvCb → Answer
claim c b x = claim_of b.shareable x.alloc (is_owner x.ownerid c) c x

abbrev pub cleared : Iote → Iote
cleared e = record e {
  open_flag = false;
  eof = false;
  ioerror = false;
  dealloc = false;
  error = eok;
  position = 0;
}

abbrev pub marked : Iote → Iote
marked e = if same e.error eok then record e { open_flag = true } else e

abbrev pub opening_of : (active : Bool) (c : ℕ) → DrvDesc → DrvCb → Answer
opening_of active c b x =
    if active
    then (let (rc, x', f) = claim c b x in (rc, x', λ e. marked (f (cleared e))))
    else (eoffline, x, λ e. e)

-- Of the driver that was found for the device.
abbrev pub opening : (c : ℕ) → DrvDesc → DrvCb → Answer
opening c b x = opening_of x.active c b x

-- For a driver that is active and free, and not shareable.
pub opening-claimed :
    (c : ℕ) (b : DrvDesc) (x : DrvCb)
    → x.active ≡ true
    → b.shareable ≡ false
    → x.alloc ≡ false
    → opening c b x ≡ (
      eok,
      record x { ownerid = some c; alloc = true },
      λ e. marked (record (cleared e) { dealloc = true }),
    )
opening-claimed c b x started single free =
    let then_mark : Answer → Answer = λ (rc, x', f). (rc, x', λ e. marked (f (cleared e))) in
    ap (λ a. opening_of a c b x) started
    ∙ ap (λ s. then_mark (claim_of s x.alloc (is_owner x.ownerid c) c x)) single
    ∙ ap (λ t. then_mark (claim_of false t (is_owner x.ownerid c) c x)) free

claim_of-free : (s m : Bool) (c : ℕ) (x : DrvCb) → (claim_of s false m c x).0 ≡ eok
claim_of-free true m c x = refl
claim_of-free false m c x = refl

-- A driver that is active and free is opened.
pub opening-free :
    (c : ℕ) (b : DrvDesc) (x : DrvCb) → x.active ≡ true → x.alloc ≡ false → (opening c b x).0 ≡ eok
opening-free c b x started free =
    ap (λ a. (opening_of a c b x).0) started
    ∙ ap (λ t. (claim_of b.shareable t (is_owner x.ownerid c) c x).0) free
    ∙ claim_of-free b.shareable (is_owner x.ownerid c) c x

-- The state with the answer written down.
abbrev pub noted : (io d : ℕ) → DrvCb → Iote → Kernel → Kernel
noted io d x e k = record k { drvcbt = update k.drvcbt d x; iott = update k.iott io e }

-- The device that ALLOC looks for by name is the driver itself, where it is asked.
abbrev pub IsClaimable : (d : ℕ) → DrvDesc → (ℕ → DrvCb) → Type 0
IsClaimable d b ds =
    (b.shareable ≡ true)
    ⊎ ((ds d).alloc ≡ true)
    ⊎ (find_driver_from max_drv 0 ds (ds d).drvname ≡ some d)
