-- ===== src/Driver/Names.antt =====
-- Device names: what `muxx_locate_pdev` finds.
use muxx.Prelude.{
  ℕ, zero, suc, ◌+◌, ◌%◌, ◌^◌, ◌≡◌, ◌<◌, ◌≤◌, refl, Bool, true, false, not, ◌&&◌, none, some, List,
  [], ◌∷◌, ◌==◌, if◌then◌else◌, update, arith, get_or, Bool-cases, inl, inr, ◌⊎◌,
}
use muxx.Prelude.Int.{ℤ}
use muxx.Config.{max_drv}
use muxx.Errors.{eok, enotfound}
use muxx.Types.{Ptr, DrvDesc, DrvCb}
use muxx.Kernel.{Kernel, Run, ok, pure, ◌>>◌}
use muxx.Driver.{
  Search, same_bytes, str_len, work_name, trim, match_driver, try_driver, locate_from, locate_pdev,
  set_iote,
}

-- The byte behind the name is 0.
str_len-end : (n : ℕ) (s : List ℕ) → (str_len n s ≡ n) ⊎ (get_or s (str_len n s) 0 ≡ 0)
unfolding str_len
str_len-end zero s = inl refl
str_len-end (suc n) [] = inr refl
str_len-end (suc n) (x ∷ xs) = ground (arith, str_len-end n xs)

str_len-le : (n : ℕ) (s : List ℕ) → str_len n s ≤ n
unfolding str_len
str_len-le zero s = omega arith
str_len-le (suc n) [] = omega arith
str_len-le (suc n) (x ∷ xs) = ground (arith, str_len-le n xs)

-- The length of a name: up to eight bytes, or up to the first 0.
abbrev pub name_length : List ℕ → ℕ
name_length name = str_len 8 name

work_name-end : (name : List ℕ) → work_name name (name_length name) ≡ 0
work_name-end name = ground (arith, str_len-end 8 name, str_len-le 8 name)

-- No blank is cut off, because the search for blanks starts at the 0 behind the name.
trim-name :
    (name : List ℕ)
    → trim (suc (name_length name)) (work_name name) ≡ (suc (name_length name), work_name name)
unfolding trim
trim-name name =
    let blank : (work_name name (name_length name) == 32) ≡ false = rw (work_name-end name) refl in
    rw blank refl

-- A driver in use whose device name begins like this.
abbrev pub named : ℕ → List ℕ → DrvCb → Bool
named l name b = not b.free && elim b.desc [ none ↦ false | some x ↦ same_bytes l name x.devname ]

-- The first of them.
abbrev pub first_named : (left i : ℕ) → (ℕ → DrvCb) → ℕ → List ℕ → Ptr
first_named zero i t l name = none
first_named (suc left) i t l name =
    let rest = first_named left (suc i) t l name in if named l name (t i) then some i else rest

-- Every driver of the table that is in use has a descriptor.
abbrev pub HasDescriptors : (ℕ → DrvCb) → Type 0
HasDescriptors t =
    (i : ℕ) → i < max_drv → ((t i).free ≡ true) ⊎ ((b : DrvDesc) × ((t i).desc ≡ some b))

-- The driver found is one of the table, in use.
pub first_named-found :
    (left i : ℕ) (t : ℕ → DrvCb) (l : ℕ) (name : List ℕ) (d : ℕ)
    → first_named left i t l name ≡ some d
    → (d < i + left) × ((t d).free ≡ false)
first_named-found zero i t l name d e = absurd (ground (arith, e))
first_named-found (suc left) i t l name d e = elim (Bool-cases (named l name (t i))) [
  | inl here ↦ let at : i ≡ d = ground (arith, e, here) in ground (arith, here, at)
  | inr there ↦
      let found = first_named-found left (suc i) t l name d (ground (arith, e, there)) in
      (omega (arith, found), found.1)
]

abbrev searching : ℕ → Ptr → Search
searching l p = record { l = l; driver = p; controller = 0; unit = 0; found = false }

abbrev hit : ℕ → ℕ → Search
hit l d = record { l = l; driver = some d; controller = 0; unit = 0; found = true }

try_driver-step :
    (wdev : ℕ → ℕ) (name : List ℕ) (i l : ℕ) (p : Ptr) (k : Kernel)
    → wdev l ≡ 0
    → HasDescriptors k.drvcbt
    → i < max_drv
    → (p' : Ptr) × (try_driver wdev name i (searching l p) k
        ≡ ok (if named l name (k.drvcbt i) then hit l i else searching l p') k)
unfolding try_driver match_driver
try_driver-step wdev name i l p k zero_byte descs lt = elim (descs i lt) [
  | inl free ↦ (p, rw free refl)
  | inr (b, e) ↦ (if (k.drvcbt i).free then p else some i, ground (arith, e, zero_byte))
]

-- The loop's result, as `first_named` tells it.
abbrev found_or : ℕ → Ptr → Ptr → Search
found_or l p none = searching l p
found_or l p (some d) = hit l d

locate_from-first :
    (left i : ℕ) (wdev : ℕ → ℕ) (name : List ℕ) (l : ℕ) (p : Ptr) (k : Kernel)
    → wdev l ≡ 0
    → HasDescriptors k.drvcbt
    → i + left ≤ max_drv
    → (p' : Ptr) × (locate_from left i wdev name (searching l p) k
        ≡ ok (found_or l p' (first_named left i k.drvcbt l name)) k)
unfolding locate_from
locate_from-first zero i wdev name l p k zero_byte descs le = (p, refl)
locate_from-first (suc left) i wdev name l p k zero_byte descs le =
    let (p1, step) = try_driver-step wdev name i l p k zero_byte descs (omega (arith, le)) in
    let (p2, rest) =
      locate_from-first left (suc i) wdev name l p1 k zero_byte descs (omega (arith, le)) in
    elim (Bool-cases (named l name (k.drvcbt i))) [
      | inl here ↦ (p1, rw (step, here) refl)
      | inr there ↦ (p2, rw (step, there) rest)
    ]

-- What `muxx_locate_pdev` does about the entry `io` of the I/O table.
abbrev pub located : (io : ℕ) → Ptr → Kernel → Run ℤ
located io none k = ok enotfound k
located io (some d) k = ok eok (record k {
  iott = update k.iott io (record (k.iott io) { driver = some d; controller = 0; unit = 0 });
})

located-eq :
    (io l : ℕ) (p o : Ptr) (k : Kernel)
    → (let s = found_or l p o in
        (if s.found
            then (do
              set_iote io
                  (λ e. record e { driver = s.driver; controller = s.controller; unit = s.unit })
              pure eok)
            else pure enotfound)
          k)
      ≡ located io o k
located-eq io l p none k = refl
located-eq io l p (some d) k = refl

-- If every driver of the table that is in use has a descriptor, the device name is matched, as a whole and with its
-- blanks, against the beginnings of the drivers' device names: the first driver in use that
-- matches gets the channel entry, with controller and unit 0, and else the result is ENOTFOUND.
-- No unit and no controller is ever read off the name.
pub locate_pdev-first :
    (name : List ℕ) (io : ℕ) (k : Kernel)
    → HasDescriptors k.drvcbt
    → locate_pdev name io k ≡ located io (first_named max_drv 0 k.drvcbt (name_length name) name) k
unfolding locate_pdev
locate_pdev-first name io k descs =
    let l : ℕ = name_length name in
    let le : l ≤ 8 = str_len-le 8 name in
    let index : (suc l + 65535) % 2 ^ 16 ≡ l = omega arith in
    let (p, loop) =
      locate_from-first max_drv 0 (work_name name) name l none k (work_name-end name) descs
        (omega arith) in
    rw (trim-name name, index, loop) (located-eq io l p (first_named max_drv 0 k.drvcbt l name) k)
