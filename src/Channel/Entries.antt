-- ===== src/Channel/Entries.antt =====
-- How many entries of the I/O table are free, and which is the first one.
use muxx.Prelude.{
  ℕ, zero, suc, ◌≡◌, ◌<◌, ◌≤◌, refl, none, some, update, arith, Option-cases, inl, inr,
}
use muxx.Types.{Iote}
use muxx.Channel.{first_free_iote}

-- The number of entries without a driver.
abbrev pub free_entries : (left i : ℕ) → (ℕ → Iote) → ℕ
free_entries zero i t = 0
free_entries (suc left) i t =
    let rest = free_entries left (suc i) t in elim (t i).driver [ none ↦ suc rest | some d ↦ rest ]

pub first_free_iote-none :
    (left i : ℕ) (t : ℕ → Iote) → free_entries left i t ≡ 0 → first_free_iote left i t ≡ none
unfolding first_free_iote
first_free_iote-none zero i t e = refl
first_free_iote-none (suc left) i t e = elim (Option-cases (t i).driver) [
  | inl free ↦ absurd (ground (arith, e, free))
  | inr (d, used) ↦
      let rest = first_free_iote-none left (suc i) t (ground (arith, e, used)) in
      ground (arith, used, rest)
]

free_entries-below :
    (left i : ℕ) (t : ℕ → Iote) (io : ℕ) (e : Iote)
    → io < i
    → free_entries left i (update t io e) ≡ free_entries left i t
free_entries-below zero i t io e lt = refl
free_entries-below (suc left) i t io e lt =
    let rest = free_entries-below left (suc i) t io e (omega (arith, lt)) in
    elim (Option-cases (t i).driver) [
      | inl free ↦ ground (arith, lt, rest, free)
      | inr (d', used) ↦ ground (arith, lt, rest, used)
    ]

-- The first free entry is found, and with a driver there is one free entry less.
pub first_free_iote-found :
    (left i n : ℕ) (t : ℕ → Iote)
    → free_entries left i t ≡ suc n
    → (io : ℕ) × (first_free_iote left i t ≡ some io)
      × (i ≤ io)
      × ((e : Iote) (d : ℕ) → e.driver ≡ some d → free_entries left i (update t io e) ≡ n)
unfolding first_free_iote
first_free_iote-found zero i n t e = absurd (ground (arith, e))
first_free_iote-found (suc left) i n t e = elim (Option-cases (t i).driver) [
  | inl free ↦ (
    i,
    ground (arith, free),
    omega arith,
    λ x d on. ground (arith, e, free, on, free_entries-below left (suc i) t i x (omega arith)),
  )
  | inr (d', used) ↦
      let (io, found, le, count) =
        first_free_iote-found left (suc i) n t (ground (arith, e, used)) in
      (
        io,
        ground (arith, used, found),
        omega (arith, le),
        λ x d on. ground (arith, used, count x d on, le),
      )
]
