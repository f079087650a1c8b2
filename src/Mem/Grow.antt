-- ===== src/Mem/Grow.antt =====
-- A granted chunk keeps the list of MMCBs in the form of Mem.Layout.
use muxx.Prelude.{ℕ, ◌+◌, ◌≤◌, ◌<◌, ◌≡◌, ◌≢◌, arith, ◌==◌, inl, inr, Bool-cases, sym, ◌∙◌, ap}
use muxx.Types.{Mmcb, Mmcbt}
use muxx.Mem.{unallocated, carve, Grant, null, hung, panic2, block, mem_getblock}
use muxx.Mem.Carve.{carve-cur, carve-new, carve-other}
use muxx.Mem.Alloc.{mem_getblock-IsCut, take_from-unused, take_from-full}
use muxx.Mem.Layout.{free_mmcb, IsListed, IsGrown, mem_getblock-grown}

-- What the caller gets: the MMCB `s` of a chunk of `n` blocks that began where the free chunk did.
pub record IsGranted (pid n flags page : ℕ) (m : Mmcbt) (s : ℕ) (m' : Mmcbt) : Type 0 where
  pub addr : (m'.mmcbt s).block_addr ≡ (m.mmcbt free_mmcb).block_addr
  pub size : (m'.mmcbt s).block_size ≡ n
  pub owner : (m'.mmcbt s).owner_pid ≡ pid
  pub par : (m'.mmcbt s).owner_par ≡ page
  pub flag_word : (m'.mmcbt s).flags ≡ flags
  pub rest_addr : (m'.mmcbt free_mmcb).block_addr ≡ (m.mmcbt free_mmcb).block_addr + n
  pub rest_size : (m'.mmcbt free_mmcb).block_size + n ≡ (m.mmcbt free_mmcb).block_size

module _ (pid n flags page s : ℕ) (m : ℕ → Mmcb) (l : IsListed m) (pid_ne : pid ≢ 0)
    (unused : (m s).owner_pid ≡ unallocated) (s_ne : s ≢ 0) where
  abbrev after : ℕ → Mmcb
  after = carve free_mmcb s pid n flags page m

  s-ne : (i : ℕ) → i < free_mmcb → i ≢ s
  s-ne i lt e = l.in_use i lt (rw e unused)

  apart : free_mmcb ≢ s
  apart e = omega (arith, ap (λ (x : ℕ). (m x).owner_pid) e, l.free)

  same :
      (i : ℕ)
      → i < free_mmcb
      → ((after i).next_block ≡ (m i).next_block) × ((after i).owner_pid ≡ (m i).owner_pid)
  same i lt =
      let k = carve-other free_mmcb s pid n flags page m apart i (omega arith) (s-ne i lt) in
      (k.3, k.2)

  after_owned : (i : ℕ) → i ≢ free_mmcb → (after i).owner_pid ≢ 0
  after_owned i ne = elim (Bool-cases (i == s)) [
    | inl hit ↦ ground (arith, carve-new free_mmcb s pid n flags page m apart)
    | inr miss ↦ ground (arith, carve-other free_mmcb s pid n flags page m apart i ne, l.owned i ne)
  ]

  after-IsListed : (m free_mmcb).block_addr + n < 65536 → IsListed after
  after-IsListed small = record {
    next0 = (same 0 (omega arith)).0 ∙ l.next0;
    next1 = (same 1 (omega arith)).0 ∙ l.next1;
    next2 = (same 2 (omega arith)).0 ∙ l.next2;
    next3 = (same 3 (omega arith)).0 ∙ l.next3;
    free = (carve-cur free_mmcb s pid n flags page m apart small).2 ∙ l.free;
    owned = after_owned;
    in_use = λ i lt u. l.in_use i lt (sym (same i lt).1 ∙ u);
  }

  after-IsGrown : (m free_mmcb).block_addr + n < 65536 → IsGrown after
  after-IsGrown small = record {
    listed = after-IsListed small;
    last = s;
    ne_free = λ e. apart (sym e);
    next4 = (carve-cur free_mmcb s pid n flags page m apart small).3;
    loop = (carve-new free_mmcb s pid n flags page m apart).4;
  }

module _ (fuel pid n flags page s : ℕ) (m m' : Mmcbt) (l : IsListed m.mmcbt) (pid_ne : pid ≢ 0)
    (small : (m.mmcbt free_mmcb).block_addr + (m.mmcbt free_mmcb).block_size < 65536)
    (got : mem_getblock fuel pid n flags page m ≡ block s m') where
  only_free : (c : ℕ) → (m.mmcbt c).owner_pid ≡ 0 → c ≡ free_mmcb
  only_free c o = elim (Bool-cases (c == free_mmcb)) [
    | inl hit ↦ ground arith
    | inr miss ↦ absurd (l.owned c (ground arith) o)
  ]

  -- A chunk is cut off the free one, the only one without an owner, and the list has the form
  -- that it has when a chunk has been given, whatever form it had before.
  pub mem_getblock-IsGrown : IsGrown m'.mmcbt × IsGranted pid n flags page m s m'
  mem_getblock-IsGrown =
      let h = mem_getblock-IsCut fuel pid n flags page s m m' got in
      let c = only_free h.c h.free in
      let fits : n ≤ (m.mmcbt free_mmcb).block_size = rw c at h.fits in
      let cut : m' ≡ record m { mmcbt = carve free_mmcb s pid n flags page m.mmcbt } =
        rw c at h.cut in
      let ne = apart pid n flags page s m.mmcbt l pid_ne h.unused h.ne_zero in
      let new = carve-new free_mmcb s pid n flags page m.mmcbt ne in
      let cur = carve-cur free_mmcb s pid n flags page m.mmcbt ne (omega arith) in
      rw cut (
        after-IsGrown pid n flags page s m.mmcbt l pid_ne h.unused h.ne_zero (omega arith),
        record {
          addr = new.0;
          size = new.1;
          owner = new.2;
          par = new.3;
          flag_word = new.5;
          rest_addr = cur.0;
          rest_size = omega (arith, cur);
        },
      )

-- What the search for a chunk of `n` blocks answers once a chunk has been given.
pub record IsAnswer (pid n flags page : ℕ) (m : Mmcbt) (r : Grant) : Type 0 where
  pub large : 128 < n → r ≡ null
  pub short : n ≤ 128 → (m.mmcbt free_mmcb).block_size < n → r ≡ hung
  pub fitting :
      n ≤ 128
      → n ≤ (m.mmcbt free_mmcb).block_size
      → (i : ℕ) → 0 < i
      → i < m.num_entries
      → (m.mmcbt i).owner_pid ≡ unallocated
      → (s : ℕ) × (m' : Mmcbt) × (r ≡ block s m') × IsGranted pid n flags page m s m'
  pub no_mmcb :
      n ≤ 128
      → n ≤ (m.mmcbt free_mmcb).block_size
      → ((i : ℕ) → 0 < i → i < m.num_entries → (m.mmcbt i).owner_pid ≢ unallocated)
      → r ≡ panic2

-- Once a chunk has been given, `muxx_mem_getblock` answers NULL for more than 128 blocks. It
-- never returns for fewer if the free chunk has less than that. If the free chunk has enough and
-- an MMCB is unused, the chunk that is given starts where the free chunk did, has the size, owner,
-- page and flags asked for, and the free chunk begins behind it and is smaller by its size. If no
-- MMCB is unused, the kernel panics.
pub mem_getblock-IsAnswer :
    (fuel pid n flags page : ℕ) (m : Mmcbt)
    → 5 ≤ fuel
    → pid ≢ 0
    → IsGrown m.mmcbt
    → (m.mmcbt free_mmcb).block_addr + (m.mmcbt free_mmcb).block_size < 65536
    → IsAnswer pid n flags page m (mem_getblock fuel pid n flags page m)
mem_getblock-IsAnswer fuel pid n flags page m enough pid_ne g small =
    let e = mem_getblock-grown pid n flags page m fuel enough g in
    record {
      large = λ big. e ∙ ground arith;
      short = λ le lt. e ∙ ground arith;
      fitting = λ le fits i pos lt unused.
          let (s, m', got) = take_from-unused free_mmcb pid n flags page i m pos lt unused in
          let r = e ∙ (ground arith ∙ got) in
          (s, m', r, (mem_getblock-IsGrown fuel pid n flags page s m m' g.listed pid_ne small r).1);
      no_mmcb =
          λ le fits full. e ∙ (ground arith ∙ take_from-full free_mmcb pid n flags page m full);
    }
