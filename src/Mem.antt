-- ===== src/Mem.antt =====
-- kernel/muxx_memsvc.c: the memory control blocks (MMCBs), which divide physical memory into
-- chunks of 64-byte blocks, and the allocation of a chunk. The MMCBs are linked in a list that
-- starts at the first one; -1 in the `WORD` owner field, 65535, marks an unused MMCB.
pub mod Carve
pub mod Partition
pub mod Boot
pub mod Layout
pub mod Grow
pub mod Sound
pub mod Alloc
use muxx.Prelude.{
  ℕ, zero, suc, ◌+◌, ◌-◌, ◌%◌, ◌^◌, Bool, ◌&&◌, Option, none, some, ◌==◌, leb, ltb, if◌then◌else◌,
  update,
}
use muxx.Config.{mem_nmcbs}
use muxx.Types.{Ptr, Mmcb, Mmcbt}

abbrev pub unallocated : ℕ
unallocated = 65535

-- `findFreeMMCB`: the index of an unused MMCB, or 0; the arguments are the rounds left, `i` and
-- the table. At index 0 `found = i` leaves `found` zero, and the loop goes on.
unfoldable pub find_free_from : ℕ → ℕ → (ℕ → Mmcb) → ℕ
find_free_from zero i m = 0
find_free_from (suc k) i m =
    let rest = find_free_from k (suc i) m in
    if (m i).owner_pid == unallocated && ltb 0 i then i else rest

unfoldable pub find_free_mmcb : Mmcbt → ℕ
unfolding find_free_from
find_free_mmcb m = find_free_from m.num_entries 0 m.mmcbt

-- The `do` loop of `muxx_mem_getblock`, from MMCB `cur` on: the pointer where it ends, or `none`
-- if the fuel runs out.
unfoldable pub scan : ℕ → (ℕ → Mmcb) → (num_blocks cur : ℕ) → Option Ptr
scan zero m n cur = none
scan (suc fuel) m n cur =
    let rest : Option Ptr = elim (m cur).next_block [
      | none ↦ some none
      | some next ↦ scan fuel m n next
    ] in
    if (m cur).owner_pid == 0 && leb n (m cur).block_size then some (some cur) else rest

-- The writes that cut `n` blocks off the chunk `cur` for the MMCB `new`, in the source's order.
-- The caller has `n ≤ cur->blockSize`, so the subtraction does not wrap.
abbrev pub resize : (cur new n : ℕ) → (ℕ → Mmcb) → ℕ → Mmcb
resize cur new n m =
    let m1 = update m cur (record (m cur) { block_size = (m cur).block_size - n }) in
    let m2 = update m1 new (record (m1 new) { block_size = n; block_addr = (m1 cur).block_addr }) in
    update m2 cur (record (m2 cur) { block_addr = ((m2 cur).block_addr + n) % 2 ^ 16 })

abbrev pub own : (cur new pid page : ℕ) → (ℕ → Mmcb) → ℕ → Mmcb
own cur new pid page m =
    update m new (record (m new) { owner_pid = pid; owner_par = page; prev_block = some cur })

abbrev pub link : (cur new flags : ℕ) → (ℕ → Mmcb) → ℕ → Mmcb
link cur new flags m =
    let m1 : ℕ → Mmcb = elim (m cur).next_block [
      | none ↦ m
      | some next ↦ update m next (record (m next) { prev_block = some new })
    ] in
    let m2 = update m1 cur (record (m1 cur) { next_block = some new }) in
    update m2 new (record (m2 new) { next_block = (m2 cur).next_block; flags = flags })

unfoldable pub carve : (cur new pid n flags page : ℕ) → (ℕ → Mmcb) → ℕ → Mmcb
carve cur new pid n flags page m = link cur new flags (own cur new pid page (resize cur new n m))

-- How `muxx_mem_getblock` ends.
pub data Grant : Type 0 where
  -- NULL is returned
  null : Grant
  -- the index of the new MMCB, and the table
  block : ℕ → Mmcbt → Grant
  -- panic("PANIC2"): no MMCB is unused
  panic2 : Grant
  -- the loop did not end within the fuel
  hung : Grant

-- What follows the loop.
unfoldable pub take_from : (cur pid n flags page : ℕ) → Mmcbt → Grant
take_from cur pid n flags page m =
    let new = find_free_mmcb m in
    if new == 0
    then panic2
    else block new (record m { mmcbt = carve cur new pid n flags page m.mmcbt })

unfoldable pub mem_getblock : (fuel pid n flags page : ℕ) → Mmcbt → Grant
mem_getblock fuel pid n flags page m = if ltb 128 n then null else elim (scan fuel m.mmcbt n 0) [
  | none ↦ hung
  | some none ↦ null
  | some (some cur) ↦ take_from cur pid n flags page m
]

-- `muxx_mem_init`: the table after the `memset` and the loop over `ownerPID`, and the six MMCBs
-- that are then written. The flag words hold the bits that are set to 1.
abbrev pub blank : Mmcb
blank = record {
  block_addr = 0;
  block_size = 0;
  owner_pid = unallocated;
  owner_par = 0;
  next_block = none;
  prev_block = none;
  flags = 0;
}

abbrev pub boot_mmcb : (addr size pid page : ℕ) → (prev next : Ptr) → ℕ → Mmcb
boot_mmcb addr size pid page prev next flags = record {
  block_addr = addr;
  block_size = size;
  owner_pid = pid;
  owner_par = page;
  prev_block = prev;
  next_block = next;
  flags = flags;
}

unfoldable pub mem_init : Mmcbt
mem_init =
    let m0 = update (λ i. blank) 0 (boot_mmcb 0 0o200 1 0 none (some 1) 7) in
    let m1 = update m0 1 (boot_mmcb 0o200 0o200 1 1 (some 0) (some 2) 7) in
    let m2 = update m1 2 (boot_mmcb 0o400 0o200 1 2 (some 1) (some 3) 7) in
    let m3 = update m2 3 (boot_mmcb 0o600 0o100 1 6 (some 2) (some 4) 16) in
    let m4 = update m3 4 (boot_mmcb 0o700 0o7100 0 0 (some 3) (some 5) 0) in
    let m5 = update m4 5 (boot_mmcb 0o7600 0o200 1 7 (some 4) none 11) in
    record { num_entries = mem_nmcbs; mmcbt = m5 }

-- `muxx_mem_freeblock` has an empty body.
unfoldable pub mem_freeblock : (first_block blocks : ℕ) → Mmcbt → Mmcbt
mem_freeblock first_block blocks m = m
