-- ===== src/Queue/Count.antt =====
-- A queue holds at most as many tasks as the table.
use muxx.Prelude.{
  ℕ, zero, suc, ◌≡◌, ◌<◌, ◌≤◌, refl, List, [], ◌∷◌, ◌==◌, arith, length, if◌then◌else◌, inl, inr,
  Bool-cases,
}
use muxx.Queue.Chain.{◌∈◌, ◌∉◌, has, IsDistinct}

-- The list without the first `a`.
abbrev remove : ℕ → List ℕ → List ℕ
remove a [] = []
remove a (x ∷ xs) = if a == x then xs else x ∷ remove a xs

mem-remove : (a y : ℕ) (xs : List ℕ) → y ∉ xs → y ∉ remove a xs
mem-remove a y [] out = refl
mem-remove a y (x ∷ xs) out = ground (arith, mem-remove a y xs)

remove-not-mem : (a : ℕ) (xs : List ℕ) → IsDistinct xs → a ∉ remove a xs
remove-not-mem a [] d = refl
remove-not-mem a (x ∷ xs) d = ground (arith, remove-not-mem a xs)

remove-IsDistinct : (a : ℕ) (xs : List ℕ) → IsDistinct xs → IsDistinct (remove a xs)
remove-IsDistinct a [] d = tt
remove-IsDistinct a (x ∷ xs) d = ground (arith, remove-IsDistinct a xs, mem-remove a x xs)

length-remove : (a : ℕ) (xs : List ℕ) → a ∈ xs → length xs ≡ suc (length (remove a xs))
length-remove a [] i = ground arith
length-remove a (x ∷ xs) i = ground (arith, length-remove a xs)

abbrev Below : ℕ → List ℕ → Type 0
Below n xs = (y : ℕ) → y ∈ xs → y < n

Below-remove : (n : ℕ) (xs : List ℕ) → IsDistinct xs → Below (suc n) xs → Below n (remove n xs)
Below-remove n xs d below y i = elim (Bool-cases (has y xs)) [
  | inl mem ↦ ground (arith, below y mem, remove-not-mem n xs d)
  | inr out ↦ ground (arith, mem-remove n y xs out)
]

-- Different numbers below `n`: there are at most `n` of them.
pub length-le : (n : ℕ) (xs : List ℕ) → IsDistinct xs → ((y : ℕ) → y ∈ xs → y < n) → length xs ≤ n
length-le zero [] d below = omega arith
length-le zero (x ∷ xs) d below = absurd (omega (arith, below x (ground arith)))
length-le (suc n) xs d below = elim (Bool-cases (has n xs)) [
  | inl mem ↦ omega (
    arith,
    length-remove n xs mem,
    length-le n (remove n xs) (remove-IsDistinct n xs d) (Below-remove n xs d below),
  )
  | inr out ↦
      let smaller : (y : ℕ) → y ∈ xs → y < n = λ y i. ground (arith, below y i, out, i) in
      omega (arith, length-le n xs d smaller)
]
