-- ===== src/Mem/Layout.antt =====
-- The list of MMCBs as it is while the kernel runs: the four of the kernel, the free one, and
-- behind it either the I/O page or, once a chunk has been given, an MMCB that links to itself.
use muxx.Prelude.{
  ℕ, zero, suc, ◌-◌, ◌≤◌, ◌<◌, ◌≡◌, ◌≢◌, refl, none, some, arith, leb, ltb, if◌then◌else◌,
}
use muxx.Types.{Mmcb, Mmcbt}
use muxx.Mem.{unallocated, scan, Grant, null, hung, take_from, mem_getblock, mem_init}

abbrev pub free_mmcb : ℕ
free_mmcb = 4

-- The list from the first MMCB to the free one, the only one without an owner.
pub record IsListed (m : ℕ → Mmcb) : Type 0 where
  pub next0 : (m 0).next_block ≡ some 1
  pub next1 : (m 1).next_block ≡ some 2
  pub next2 : (m 2).next_block ≡ some 3
  pub next3 : (m 3).next_block ≡ some free_mmcb
  pub free : (m free_mmcb).owner_pid ≡ 0
  pub owned : (i : ℕ) → i ≢ free_mmcb → (m i).owner_pid ≢ 0
  pub in_use : (i : ℕ) → i < free_mmcb → (m i).owner_pid ≢ unallocated

-- As `muxx_mem_init` leaves it: the I/O page ends the list.
pub record IsFresh (m : ℕ → Mmcb) : Type 0 where
  pub listed : IsListed m
  pub open listed use *
  pub next4 : (m free_mmcb).next_block ≡ some 5
  pub end : (m 5).next_block ≡ none

-- After a chunk has been given: `last` is its own successor.
pub record IsGrown (m : ℕ → Mmcb) : Type 0 where
  pub listed : IsListed m
  pub open listed use *
  pub last : ℕ
  pub ne_free : last ≢ free_mmcb
  pub next4 : (m free_mmcb).next_block ≡ some last
  pub loop : (m last).next_block ≡ some last

pub mem_init-IsFresh : IsFresh mem_init.mmcbt
unfolding mem_init
mem_init-IsFresh = record {
  listed = record {
    next0 = refl;
    next1 = refl;
    next2 = refl;
    next3 = refl;
    free = refl;
    owned = λ i ne. ground arith;
    in_use = λ i lt. ground arith;
  };
  next4 = refl;
  end = refl;
}

-- A self-linked MMCB with an owner is walked for ever.
scan-loop :
    (fuel : ℕ) (m : ℕ → Mmcb) (n last : ℕ)
    → (m last).owner_pid ≢ 0
    → (m last).next_block ≡ some last
    → scan fuel m n last ≡ none
unfolding scan
scan-loop zero m n last o e = refl
scan-loop (suc fuel) m n last o e = ground (arith, scan-loop fuel m n last o e)

-- The walk comes to the free MMCB in five rounds.
scan-listed :
    (k : ℕ) (m : ℕ → Mmcb) (n : ℕ)
    → IsListed m
    → scan (suc (suc (suc (suc k)))) m n 0 ≡ scan k m n free_mmcb
unfolding scan
scan-listed k m n l =
    ground (arith, l.next0, l.next1, l.next2, l.next3, l.owned 0, l.owned 1, l.owned 2, l.owned 3)

scan-free :
    (k : ℕ) (m : ℕ → Mmcb) (n : ℕ)
    → IsListed m
    → n ≤ (m free_mmcb).block_size
    → scan (suc k) m n free_mmcb ≡ some (some free_mmcb)
unfolding scan
scan-free k m n l fits = ground (arith, l.free)

scan-fresh :
    (k : ℕ) (m : ℕ → Mmcb) (n : ℕ)
    → IsFresh m
    → (m free_mmcb).block_size < n
    → scan (suc (suc k)) m n free_mmcb ≡ some none
unfolding scan
scan-fresh k m n f big = ground (arith, f.next4, f.end, f.owned 5)

scan-grown :
    (k : ℕ) (m : ℕ → Mmcb) (n : ℕ)
    → IsGrown m
    → (m free_mmcb).block_size < n
    → scan k m n free_mmcb ≡ none
unfolding scan
scan-grown zero m n g big = refl
scan-grown (suc k) m n g big =
    ground (arith, g.next4, scan-loop k m n g.last (g.owned g.last g.ne_free) g.loop)

module _ (pid n flags page : ℕ) (m : Mmcbt) where
  -- The answer of `muxx_mem_getblock` where `otherwise` stands for a chunk that does not fit.
  abbrev pub answer : Grant → Grant
  answer otherwise =
      if ltb 128 n
      then null
      else if leb n (m.mmcbt free_mmcb).block_size
      then take_from free_mmcb pid n flags page m
      else otherwise

  -- On the table of `muxx_mem_init` the call gives the first blocks of the free chunk, or NULL.
  pub mem_getblock-fresh :
      (fuel : ℕ) → 6 ≤ fuel → IsFresh m.mmcbt → mem_getblock fuel pid n flags page m ≡ answer null
  unfolding mem_getblock
  mem_getblock-fresh fuel enough f =
      let k : ℕ = fuel - 6 in
      let e : fuel ≡ suc (suc (suc (suc (suc (suc k))))) = omega arith in
      rw e (
        ground (
          arith,
          scan-listed (suc (suc k)) m.mmcbt n f.listed,
          scan-free (suc k) m.mmcbt n f.listed,
          scan-fresh k m.mmcbt n f,
        ))

  -- Once a chunk has been given, the call gives the first blocks of the free chunk or, where
  -- they are too few, never returns.
  pub mem_getblock-grown :
      (fuel : ℕ) → 5 ≤ fuel → IsGrown m.mmcbt → mem_getblock fuel pid n flags page m ≡ answer hung
  unfolding mem_getblock
  mem_getblock-grown fuel enough g =
      let k : ℕ = fuel - 5 in
      let e : fuel ≡ suc (suc (suc (suc (suc k)))) = omega arith in
      rw e (
        ground (
          arith,
          scan-listed (suc k) m.mmcbt n g.listed,
          scan-free k m.mmcbt n g.listed,
          scan-grown (suc k) m.mmcbt n g,
        ))

  -- Whatever ends the list, a request that fits the free chunk is cut off it.
  pub mem_getblock-listed :
      (fuel : ℕ)
      → 5 ≤ fuel
      → n ≤ 128
      → IsListed m.mmcbt
      → n ≤ (m.mmcbt free_mmcb).block_size
      → mem_getblock fuel pid n flags page m ≡ take_from free_mmcb pid n flags page m
  unfolding mem_getblock
  mem_getblock-listed fuel enough small l fits =
      let k : ℕ = fuel - 5 in
      let e : fuel ≡ suc (suc (suc (suc (suc k)))) = omega arith in
      rw e (ground (arith, scan-listed (suc k) m.mmcbt n l, scan-free k m.mmcbt n l fits))
