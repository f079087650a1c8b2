-- ===== src/Channel/Wired.antt =====
-- What the tables of drivers and channels owe each other.
use muxx.Prelude.{
  ℕ, zero, suc, ◌+◌, ◌≡◌, ◌<◌, ◌≤◌, ◌∙◌, true, false, some, arith, ◌==◌, inl, inr, ◌⊎◌, Bool-cases,
  update,
}
use muxx.Config.{max_drv, iot_sentries}
use muxx.Types.{DrvDesc, DrvCb, Iote}
use muxx.Driver.{drvinit_from, free_driver}
use muxx.Driver.Names.{HasDescriptors}
use muxx.Channel.{iottinit_from, zero_iote}

-- Driver `d` is one of the table and has a descriptor.
abbrev pub Drives : (ℕ → DrvCb) → ℕ → Type 0
Drives ds d = (d < max_drv) × (b : DrvDesc) × ((ds d).desc ≡ some b)

-- An entry of the I/O table that is open has such a driver.
abbrev pub IsServed : (ℕ → DrvCb) → Iote → Type 0
IsServed ds e = e.open_flag ≡ true → (d : ℕ) × (e.driver ≡ some d) × Drives ds d

pub record IsWired (ds : ℕ → DrvCb) (t : ℕ → Iote) : Type 0 where
  pub registered : HasDescriptors ds
  pub served : (i : ℕ) → i < iot_sentries → IsServed ds (t i)

-- Drivers keep their descriptors and stay in use.
abbrev pub KeepsDrivers : (ds ds' : ℕ → DrvCb) → Type 0
KeepsDrivers ds ds' = (i : ℕ) → ((ds' i).free ≡ (ds i).free) × ((ds' i).desc ≡ (ds i).desc)

pub Drives-kept : (ds ds' : ℕ → DrvCb) (d : ℕ) → KeepsDrivers ds ds' → Drives ds d → Drives ds' d
Drives-kept ds ds' d kept (lt, b, e) = (lt, b, (kept d).1 ∙ e)

pub IsWired-kept :
    (ds ds' : ℕ → DrvCb) (t : ℕ → Iote) → KeepsDrivers ds ds' → IsWired ds t → IsWired ds' t
IsWired-kept ds ds' t kept w = record {
  registered = λ i l. elim (w.registered i l) [
    | inl free ↦ inl ((kept i).0 ∙ free)
    | inr (b, e) ↦ inr (b, (kept i).1 ∙ e)
  ];
  served =
      λ i l is. let (d, e, drives) = w.served i l is in (d, e, Drives-kept ds ds' d kept drives);
}

pub IsWired-registered :
    (ds : ℕ → DrvCb) (t : ℕ → Iote) (i : ℕ) (x : DrvCb) (b : DrvDesc)
    → x.desc ≡ some b
    → IsWired ds t
    → IsWired (update ds i x) t
IsWired-registered ds t i x b desc w = record {
  registered = λ j l. elim (Bool-cases (j == i)) [
    | inl at ↦ inr (b, ground (arith, at, desc))
    | inr far ↦ elim (w.registered j l) [
      | inl free ↦ inl (ground (arith, far, free))
      | inr (b', e) ↦ inr (b', ground (arith, far, e))
    ]
  ];
  served = λ j l is.
      let (d, e, (lt, b', has_desc)) = w.served j l is in
      elim (Bool-cases (d == i)) [
        | inl at ↦ (d, e, (lt, b, ground (arith, at, desc)))
        | inr far ↦ (d, e, (lt, b', ground (arith, far, has_desc)))
      ];
}

pub IsWired-entry :
    (ds : ℕ → DrvCb) (t : ℕ → Iote) (io : ℕ) (x : Iote)
    → IsServed ds x
    → IsWired ds t
    → IsWired ds (update t io x)
IsWired-entry ds t io x is w = record {
  registered = w.registered;
  served = λ i l. elim (Bool-cases (i == io)) [
    | inl at ↦ ground (arith, at, is)
    | inr far ↦ ground (arith, far, w.served i l)
  ];
}

drvinit_from-free :
    (left i : ℕ) (t : ℕ → DrvCb) (j : ℕ)
    → ((i ≤ j) × (j < i + left)) ⊎ ((t j).free ≡ true)
    → (drvinit_from left i t j).free ≡ true
unfolding drvinit_from
drvinit_from-free zero i t j h = ground (arith, h)
drvinit_from-free (suc left) i t j h =
    drvinit_from-free left (suc i) (update t i (free_driver (t i))) j (ground (arith, h))

iottinit_from-closed :
    (left i : ℕ) (t : ℕ → Iote) (j : ℕ)
    → ((i ≤ j) × (j < i + left)) ⊎ ((t j).open_flag ≡ false)
    → (iottinit_from left i t j).open_flag ≡ false
unfolding iottinit_from
iottinit_from-closed zero i t j h = ground (arith, h)
iottinit_from-closed (suc left) i t j h =
    iottinit_from-closed left (suc i) (update t i zero_iote) j (ground (arith, h))

-- At the start there are no drivers and no open channels.
pub booted-IsWired :
    (ds : ℕ → DrvCb) (t : ℕ → Iote)
    → IsWired (drvinit_from max_drv 0 ds) (iottinit_from iot_sentries 0 t)
booted-IsWired ds t = record {
  registered = λ i l. inl (drvinit_from-free max_drv 0 ds i (inl (omega arith, omega (arith, l))));
  served = λ i l is.
      let closed = iottinit_from-closed iot_sentries 0 t i (inl (omega arith, omega (arith, l))) in
      absurd (ground (arith, closed, is));
}
