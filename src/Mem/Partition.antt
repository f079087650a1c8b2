-- ===== src/Mem/Partition.antt =====
-- The chunks of the MMCBs divide physical memory. MMCB 5 is left out: it describes the I/O page,
-- which the free chunk covers too (see Mem.Boot).
use muxx.Prelude.{
  ℕ, ◌+◌, ◌-◌, ◌≤◌, ◌<◌, ◌≡◌, ◌≢◌, refl, some, arith, ltb, inl, inr, Bool-cases, ltb→lt, sym, ◌∙◌,
  ap, ◌⊎◌,
}
use muxx.Types.{Mmcb, Mmcbt}
use muxx.Mem.{unallocated, carve, block, mem_getblock}
use muxx.Mem.Carve.{carve-cur, carve-new, carve-other}
use muxx.Mem.Alloc.{mem_getblock-IsCut}

-- 4096 blocks of 64 bytes: 256 KB.
abbrev pub mem_blocks : ℕ
mem_blocks = 4096

abbrev pub io_mmcb : ℕ
io_mmcb = 5

-- MMCB `i` is in use and stands for memory other than the I/O page.
abbrev pub IsLive : (ℕ → Mmcb) → ℕ → Type 0
IsLive m i = ((m i).owner_pid ≢ unallocated) × (i ≢ io_mmcb)

-- Block `b` belongs to the chunk of MMCB `i`.
abbrev pub Covers : (ℕ → Mmcb) → ℕ → ℕ → Type 0
Covers m i b = ((m i).block_addr ≤ b) × (b < (m i).block_addr + (m i).block_size)

pub record IsPartition (m : Mmcbt) : Type 0 where
  pub entries : m.num_entries ≡ 128
  pub io : (m.mmcbt io_mmcb).owner_pid ≢ unallocated
  pub bounded :
      (i : ℕ) → IsLive m.mmcbt i → (m.mmcbt i).block_addr + (m.mmcbt i).block_size ≤ mem_blocks
  pub covered :
      (b : ℕ) → b < mem_blocks → (i : ℕ) × (i < 128) × IsLive m.mmcbt i × Covers m.mmcbt i b
  pub unique :
      (i j b : ℕ)
      → IsLive m.mmcbt i
      → IsLive m.mmcbt j
      → Covers m.mmcbt i b
      → Covers m.mmcbt j b
      → i ≡ j

module _ (c s pid n flags page : ℕ) (m : Mmcbt) (p : IsPartition m)
    (free : (m.mmcbt c).owner_pid ≡ 0) (fits : n ≤ (m.mmcbt c).block_size)
    (unused : (m.mmcbt s).owner_pid ≡ unallocated) (bound : s < m.num_entries)
    (used : pid ≢ unallocated) (not_io : c ≢ io_mmcb) where
  abbrev after : ℕ → Mmcb
  after = carve c s pid n flags page m.mmcbt

  apart : c ≢ s
  apart = λ e. omega (arith, ap (λ (x : ℕ). (m.mmcbt x).owner_pid) e)

  c-IsLive : IsLive m.mmcbt c
  c-IsLive = (omega arith, not_io)

  at_cur :
      let e = after c in
      (e.block_addr ≡ (m.mmcbt c).block_addr + n)
      × (e.block_size ≡ (m.mmcbt c).block_size - n)
      × (e.owner_pid ≡ (m.mmcbt c).owner_pid)
      × (e.next_block ≡ some s)
  at_cur = carve-cur c s pid n flags page m.mmcbt apart (omega (arith, p.bounded c c-IsLive))

  at_new :
      let e = after s in
      (e.block_addr ≡ (m.mmcbt c).block_addr)
      × (e.block_size ≡ n)
      × (e.owner_pid ≡ pid)
      × (e.owner_par ≡ page)
      × (e.next_block ≡ some s)
      × (e.flags ≡ flags)
  at_new = carve-new c s pid n flags page m.mmcbt apart

  at_other :
      (i : ℕ)
      → i ≢ c
      → i ≢ s
      → let e = after i in
        (e.block_addr ≡ (m.mmcbt i).block_addr)
        × (e.block_size ≡ (m.mmcbt i).block_size)
        × (e.owner_pid ≡ (m.mmcbt i).owner_pid)
        × (e.next_block ≡ (m.mmcbt i).next_block)
  at_other i = carve-other c s pid n flags page m.mmcbt apart i

  s-ne-io : s ≢ io_mmcb
  s-ne-io = λ e. p.io (rw e at unused)

  -- The MMCB is the rest of the cut chunk, the new chunk, or one that is left alone.
  split_index : (i : ℕ) → (i ≡ c) ⊎ ((i ≡ s) ⊎ ((i ≢ c) × (i ≢ s)))
  split_index i = ground arith

  after_bounded :
      (i : ℕ) → IsLive after i → (after i).block_addr + (after i).block_size ≤ mem_blocks
  after_bounded i live = elim (split_index i) [
    | inl e ↦ rw e (omega (arith, at_cur, p.bounded c c-IsLive))
    | inr (inl e) ↦ rw e (omega (arith, at_new, p.bounded c c-IsLive))
    | inr (inr (q, r)) ↦
        let same = at_other i q r in
        omega (arith, same, p.bounded i (λ u. live.0 (same.2 ∙ u), live.1))
  ]

  -- Where block `b` lay before the cut.
  abbrev Origin : ℕ → ℕ → ℕ → Type 0
  Origin i b o =
      ((i ≡ c) × (o ≡ c) × ((m.mmcbt c).block_addr + n ≤ b))
      ⊎ (((i ≡ s) × (o ≡ c) × (b < (m.mmcbt c).block_addr + n)) ⊎ ((i ≡ o) × (o ≢ c)))

  origin :
      (i b : ℕ)
      → IsLive after i
      → Covers after i b
      → (o : ℕ) × IsLive m.mmcbt o × Covers m.mmcbt o b × Origin i b o
  origin i b live cov = elim (split_index i) [
    | inl e ↦
        let cov' : Covers after c b = rw e at cov in
        (c, c-IsLive, omega (arith, at_cur), inl (e, refl, omega (arith, at_cur)))
    | inr (inl e) ↦
        let cov' : Covers after s b = rw e at cov in
        (c, c-IsLive, omega (arith, at_new), inr (inl (e, refl, omega (arith, at_new))))
    | inr (inr (q, r)) ↦
        let same = at_other i q r in
        (i, (λ u. live.0 (same.2 ∙ u), live.1), omega (arith, same), inr (inr (refl, q)))
  ]

  after_covered : (b : ℕ) → b < mem_blocks → (i : ℕ) × (i < 128) × IsLive after i × Covers after i b
  after_covered b lt =
      let (o, in_table, live, cov) = p.covered b lt in
      elim (split_index o) [
        | inl e ↦
            let cov' : Covers m.mmcbt c b = rw e at cov in
            let in' : c < 128 = rw e at in_table in
            elim (Bool-cases (ltb b ((m.mmcbt c).block_addr + n))) [
              | inl low ↦ (
                s,
                omega (arith, p.entries),
                (omega (arith, at_new), s-ne-io),
                omega (arith, at_new, ltb→lt _ _ low),
              )
              | inr high ↦ (c, in', (omega (arith, at_cur), not_io), ground (arith, at_cur))
            ]
        | inr (inl e) ↦ absurd (live.0 (rw e unused))
        | inr (inr (q, r)) ↦
            let same = at_other o q r in
            (o, in_table, (λ u. live.0 (sym same.2 ∙ u), live.1), omega (arith, same))
      ]

  after_unique :
      (i j b : ℕ) → IsLive after i → IsLive after j → Covers after i b → Covers after j b → i ≡ j
  after_unique i j b li lj ci cj =
      let (oi, live_i, cov_i, from_i) = origin i b li ci in
      let (oj, live_j, cov_j, from_j) = origin j b lj cj in
      let one : oi ≡ oj = p.unique oi oj b live_i live_j cov_i cov_j in ground arith

  after-IsPartition : IsPartition (record m { mmcbt = after })
  after-IsPartition = record {
    entries = p.entries;
    io = λ u. p.io (sym (at_other io_mmcb (λ e. not_io (sym e)) (λ e. s-ne-io (sym e))).2 ∙ u);
    bounded = after_bounded;
    covered = after_covered;
    unique = after_unique;
  }

-- If the chunks divide physical memory and the chunk that the walk finds is not the I/O page,
-- they divide it after `muxx_mem_getblock` as well.
pub mem_getblock-IsPartition :
    (fuel pid n flags page s : ℕ) (m m' : Mmcbt)
    → IsPartition m
    → (m.mmcbt io_mmcb).owner_pid ≢ 0
    → pid ≢ unallocated
    → mem_getblock fuel pid n flags page m ≡ block s m'
    → IsPartition m'
mem_getblock-IsPartition fuel pid n flags page s m m' p io used e =
    let h = mem_getblock-IsCut fuel pid n flags page s m m' e in
    let not_io : h.c ≢ io_mmcb = λ q. io (rw q at h.free) in
    rw h.cut
      (after-IsPartition h.c s pid n flags page m p h.free h.fits h.unused h.bound used not_io)
