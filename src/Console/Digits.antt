-- ===== src/Console/Digits.antt =====
-- The conversions of numbers to digits.
use muxx.Prelude.{
  ℕ, ◌+◌, ◌-◌, ◌*◌, ◌^◌, ◌≡◌, ◌<◌, refl, List, [], ◌∷◌, length, arith, ltb, if◌then◌else◌,
}
use muxx.Console.{digits, itoo, itool}

-- The number that digits stand for, read from the left, after `n`.
abbrev pub read_digits : (base n : ℕ) → List ℕ → ℕ
read_digits base n [] = n
read_digits base n (c ∷ cs) = read_digits base (n * base + (c - b'0')) cs

-- The six characters that `itoo` writes, read as octal digits, give the word back.
pub itoo-value : (w : ℕ) → w < 2 ^ 16 → (read_digits 8 0 (itoo w) ≡ w) × (length (itoo w) ≡ 6)
unfolding itoo digits
itoo-value w lt = (omega (arith, lt), refl)

-- The eleven characters that `itool` writes, read as octal digits, give the two words back as one
-- number, with 2^32 added if its highest bit is set.
pub itool-value :
    (high low : ℕ)
    → high < 2 ^ 16
    → low < 2 ^ 16
    → (read_digits 8 0 (itool high low)
        ≡ high * 2 ^ 16 + low + (if ltb high (2 ^ 15) then 0 else 2 ^ 32))
      × (length (itool high low) ≡ 11)
unfolding itool digits
itool-value high low lh ll = (ground (arith, lh, ll), refl)
