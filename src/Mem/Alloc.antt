-- ===== src/Mem/Alloc.antt =====
-- What a successful `muxx_mem_getblock` has found.
use muxx.Prelude.{
  ℕ, zero, suc, ◌+◌, ◌≤◌, ◌<◌, ◌≡◌, ◌≢◌, refl, none, some, arith, ◌==◌, false, ltb, ◌&&◌, inl, inr,
  Bool-cases, Option-cases,
}
use muxx.Types.{Mmcb, Mmcbt}
use muxx.Mem.{
  unallocated, find_free_from, find_free_mmcb, scan, carve, block, panic2, take_from, mem_getblock,
}

pub find_free_from-unused :
    (k i : ℕ) (m : ℕ → Mmcb)
    → find_free_from k i m ≢ 0
    → ((m (find_free_from k i m)).owner_pid ≡ unallocated) × (find_free_from k i m < i + k)
unfolding find_free_from
find_free_from-unused zero i m h = absurd (h refl)
find_free_from-unused (suc k) i m h =
    elim (Bool-cases ((m i).owner_pid == unallocated && ltb 0 i)) [
      | inl hit ↦ rw hit (ground arith)
      | inr miss ↦
          let (used, bound) = find_free_from-unused k (suc i) m (rw miss at h) in
          rw miss (used, omega arith)
    ]

-- `findFreeMMCB` returns 0 when no MMCB behind the first is unused.
find_free_from-none :
    (k i : ℕ) (m : ℕ → Mmcb)
    → ((j : ℕ) → 0 < j → i ≤ j → j < i + k → (m j).owner_pid ≢ unallocated)
    → find_free_from k i m ≡ 0
unfolding find_free_from
find_free_from-none zero i m full = refl
find_free_from-none (suc k) i m full = ground (
  arith,
  full i,
  find_free_from-none k (suc i) m (λ j o p q. full j o (omega arith) (omega arith)),
)

pub scan-fits :
    (fuel : ℕ) (m : ℕ → Mmcb) (n cur d : ℕ)
    → scan fuel m n cur ≡ some (some d)
    → ((m d).owner_pid ≡ 0) × (n ≤ (m d).block_size)
unfolding scan
scan-fits zero m n cur d e = ground arith
scan-fits (suc fuel) m n cur d e = elim (Option-cases (m cur).next_block) [
  | inl end ↦ ground arith
  | inr (next, more) ↦ ground (arith, scan-fits fuel m n next d)
]

-- The call has cut the chunk of a free MMCB `c` for an unused MMCB `s`.
pub record IsCut (pid n flags page : ℕ) (m : Mmcbt) (s : ℕ) (m' : Mmcbt) : Type 0 where
  pub c : ℕ
  pub free : (m.mmcbt c).owner_pid ≡ 0
  pub fits : n ≤ (m.mmcbt c).block_size
  pub unused : (m.mmcbt s).owner_pid ≡ unallocated
  pub bound : s < m.num_entries
  pub ne_zero : s ≢ 0
  pub cut : m' ≡ record m { mmcbt = carve c s pid n flags page m.mmcbt }

take_from-IsCut :
    (c pid n flags page s : ℕ) (m m' : Mmcbt)
    → (m.mmcbt c).owner_pid ≡ 0
    → n ≤ (m.mmcbt c).block_size
    → take_from c pid n flags page m ≡ block s m'
    → IsCut pid n flags page m s m'
unfolding take_from find_free_mmcb
take_from-IsCut c pid n flags page s m m' free fits e =
    let found = find_free_from-unused m.num_entries 0 m.mmcbt in
    record {
      c = c;
      free = free;
      fits = fits;
      unused = ground (arith, found);
      bound = ground (arith, found);
      ne_zero = ground arith;
      cut = ground arith;
    }

pub mem_getblock-IsCut :
    (fuel pid n flags page s : ℕ) (m m' : Mmcbt)
    → mem_getblock fuel pid n flags page m ≡ block s m'
    → IsCut pid n flags page m s m'
unfolding mem_getblock
mem_getblock-IsCut fuel pid n flags page s m m' e = elim (Bool-cases (ltb 128 n)) [
  | inl big ↦ ground arith
  | inr small ↦ elim (Option-cases (scan fuel m.mmcbt n 0)) [
    | inl none_left ↦ ground arith
    | inr (none, nothing) ↦ ground arith
    | inr (some c, found) ↦
        let (free, fits) = scan-fits fuel m.mmcbt n 0 c found in
        take_from-IsCut c pid n flags page s m m' free fits (ground arith)
  ]
]

-- Where an MMCB behind the first is unused, `findFreeMMCB` finds one.
find_free_from-found :
    (k i j : ℕ) (m : ℕ → Mmcb)
    → i ≤ j
    → j < i + k
    → 0 < j
    → (m j).owner_pid ≡ unallocated
    → find_free_from k i m ≢ 0
unfolding find_free_from
find_free_from-found zero i j m le lt pos unused e = omega (arith, le, lt)
find_free_from-found (suc k) i j m le lt pos unused e = elim (Bool-cases (i == j)) [
  | inl here ↦ ground arith
  | inr later ↦
      ground
        (arith, find_free_from-found k (suc i) j m (ground arith) (omega (arith, lt)) pos unused)
]

pub take_from-unused :
    (c pid n flags page i : ℕ) (m : Mmcbt)
    → 0 < i
    → i < m.num_entries
    → (m.mmcbt i).owner_pid ≡ unallocated
    → (s : ℕ) × (m' : Mmcbt) × (take_from c pid n flags page m ≡ block s m')
unfolding take_from find_free_mmcb
take_from-unused c pid n flags page i m pos lt unused =
    let found =
      find_free_from-found m.num_entries 0 i m.mmcbt (omega arith) (omega (arith, lt)) pos unused in
    let new : (find_free_from m.num_entries 0 m.mmcbt == 0) ≡ false = ground (arith, found) in
    let s = find_free_from m.num_entries 0 m.mmcbt in
    (s, record m { mmcbt = carve c s pid n flags page m.mmcbt }, rw new refl)

pub take_from-full :
    (c pid n flags page : ℕ) (m : Mmcbt)
    → ((i : ℕ) → 0 < i → i < m.num_entries → (m.mmcbt i).owner_pid ≢ unallocated)
    → take_from c pid n flags page m ≡ panic2
unfolding take_from find_free_mmcb
take_from-full c pid n flags page m full =
    rw (find_free_from-none m.num_entries 0 m.mmcbt (λ j p q r. full j p (omega (arith, r)))) refl
