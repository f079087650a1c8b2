-- ===== src/Xcopy/Loop.antt =====
-- The loop of XCOPY, within one page and beyond.
use muxx.Prelude.{
  ℕ, zero, suc, ◌+◌, ◌-◌, ◌*◌, ◌/◌, ◌%◌, ◌^◌, ◌≡◌, ◌<◌, ◌≤◌, refl, false, ◌&&◌, leb, ltb,
  if◌then◌else◌, arith, ◌⊎◌, update, ap,
}
use muxx.Types.{MmuState}
use muxx.Xcopy.{Copy, physical, move_byte, next_spage, next_dpage, copy_bytes}

-- `after` is `before`, once `n` bytes from `s` on have been copied to `d`.
abbrev pub IsCopied : (n s d : ℕ) → (before after : ℕ → ℕ) → Type 0
IsCopied n s d before after =
    (a : ℕ) → after a ≡ (if leb d a && ltb a (d + n) then before (s + (a - d)) else before a)

-- Where pages 4 and 5 of the kernel begin.
abbrev pub base4 : MmuState → ℕ
base4 m = m.kpar 4 * 64

abbrev pub base5 : MmuState → ℕ
base5 m = m.kpar 5 * 64

physical-page4 :
    (m : MmuState) (off : ℕ)
    → base4 m + 8192 ≤ 2 ^ 18
    → off < 8192
    → physical m (4 * 8192 + off) ≡ base4 m + off
physical-page4 m off fits l =
    let page : (4 * 8192 + off) / 8192 ≡ 4 = omega (arith, l) in
    let rest : (4 * 8192 + off) % 8192 ≡ off = omega (arith, l) in
    rw (page, rest) (omega (arith, fits, l))

physical-page5 :
    (m : MmuState) (off : ℕ)
    → base5 m + 8192 ≤ 2 ^ 18
    → off < 8192
    → physical m (5 * 8192 + off) ≡ base5 m + off
physical-page5 m off fits l =
    let page : (5 * 8192 + off) / 8192 ≡ 5 = omega (arith, l) in
    let rest : (5 * 8192 + off) % 8192 ≡ off = omega (arith, l) in
    rw (page, rest) (omega (arith, fits, l))

-- The two areas have no byte in common.
abbrev pub AreApart : (n s d : ℕ) → Type 0
AreApart n s d = (s + n ≤ d) ⊎ (d + n ≤ s)

-- One byte, and then the others.
IsCopied-suc :
    (n s d : ℕ) (before after : ℕ → ℕ)
    → AreApart (suc n) s d
    → IsCopied n (suc s) (suc d) (update before d (before s)) after
    → IsCopied (suc n) s d before after
IsCopied-suc n s d before after apart h a =
    let shift : suc d ≤ a → suc s + (a - suc d) ≡ s + (a - d) = λ l. omega (arith, l) in
    ground (arith, h a, shift, apart)

-- One turn of the loop, within a page.
pub copy_bytes-suc :
    (n : ℕ) (m : MmuState) (c : Copy)
    → c.soffset < 8192
    → c.doffset < 8192
    → copy_bytes (suc n) m c ≡ copy_bytes n m (move_byte m c)
unfolding copy_bytes
copy_bytes-suc n m c ls ld =
    let in_s : leb 8192 c.soffset ≡ false = ground (arith, ls) in
    let in_d : leb 8192 c.doffset ≡ false = ground (arith, ld) in
    ap (copy_bytes n m) (rw (in_s, in_d) refl)

-- While neither offset leaves its page, the loop copies the bytes and moves no pointer to a
-- register.
pub copy_bytes-IsCopied :
    (n : ℕ) (m : MmuState) (c : Copy)
    → base4 m + 8192 ≤ 2 ^ 18
    → base5 m + 8192 ≤ 2 ^ 18
    → c.sbyte ≡ 4 * 8192 + c.soffset
    → c.dbyte ≡ 5 * 8192 + c.doffset
    → c.soffset + n ≤ 8192
    → c.doffset + n ≤ 8192
    → AreApart n (base4 m + c.soffset) (base5 m + c.doffset)
    → IsCopied n (base4 m + c.soffset) (base5 m + c.doffset) c.bytes (copy_bytes n m c).bytes
      × ((copy_bytes n m c).par4 ≡ c.par4)
      × ((copy_bytes n m c).par5 ≡ c.par5)
unfolding copy_bytes
copy_bytes-IsCopied zero m c f4 f5 sb db ls ld apart = (λ a. ground arith, refl, refl)
copy_bytes-IsCopied (suc n) m c f4 f5 sb db ls ld apart =
    let from : physical m c.sbyte ≡ base4 m + c.soffset =
      rw sb (physical-page4 m c.soffset f4 (omega (arith, ls))) in
    let to : physical m c.dbyte ≡ base5 m + c.doffset =
      rw db (physical-page5 m c.doffset f5 (omega (arith, ld))) in
    let (copied, par4, par5) =
      copy_bytes-IsCopied n m (move_byte m c) f4 f5 (omega (arith, sb)) (omega (arith, db))
        (omega (arith, ls)) (omega (arith, ld)) (ground (arith, apart)) in
    let s : ℕ = base4 m + c.soffset in
    let d : ℕ = base5 m + c.doffset in
    let s1 : base4 m + (c.soffset + 1) ≡ suc s = omega arith in
    let d1 : base5 m + (c.doffset + 1) ≡ suc d = omega arith in
    let rest : IsCopied n (suc s) (suc d) (update c.bytes d (c.bytes s))
        (copy_bytes n m (move_byte m c)).bytes =
      rw (← s1, ← d1, ← from, ← to) copied in
    rw (copy_bytes-suc n m c (omega (arith, ls)) (omega (arith, ld)))
      (IsCopied-suc n s d c.bytes _ apart rest, par4, par5)

-- The pointers to the registers are moved upwards only.
copy_bytes-le :
    (n : ℕ) (m : MmuState) (c : Copy)
    → (c.par4 ≤ (copy_bytes n m c).par4) × (c.par5 ≤ (copy_bytes n m c).par5)
unfolding copy_bytes
copy_bytes-le zero m c = (omega arith, omega arith)
copy_bytes-le (suc n) m c =
    ground (arith, copy_bytes-le n m (move_byte m (next_dpage (next_spage c))))

-- Where the bytes go beyond the page of the source, its pointer has left the eight registers.
pub copy_bytes-spage :
    (n : ℕ) (m : MmuState) (c : Copy)
    → c.soffset ≤ 8192
    → 8192 < c.soffset + n
    → 7 < (copy_bytes n m c).par4
unfolding copy_bytes
copy_bytes-spage zero m c le lt = absurd (omega (arith, le, lt))
copy_bytes-spage (suc n) m c le lt =
    let c1 : Copy = move_byte m (next_dpage (next_spage c)) in
    ground (arith, copy_bytes-le n m c1, copy_bytes-spage n m c1)
