-- ===== src/Mem/Boot.antt =====
-- The table that `muxx_mem_init` builds.
use muxx.Prelude.{ℕ, ◌<◌, ◌≡◌, refl, arith, ltb, if◌then◌else◌}
use muxx.Mem.{mem_init}
use muxx.Mem.Partition.{mem_blocks, io_mmcb, IsLive, Covers, IsPartition}

boot_index : ℕ → ℕ
boot_index b =
    if ltb b 128
    then 0
    else if ltb b 256
    then 1
    else if ltb b 384
    then 2
    else if ltb b 448
    then 3
    else 4

boot_covered :
    (b : ℕ)
    → b < mem_blocks
    → (i : ℕ) × (i < 128) × IsLive mem_init.mmcbt i × Covers mem_init.mmcbt i b
unfolding mem_init boot_index
boot_covered b lt = (boot_index b, ground arith, ground arith, ground arith)

boot_unique :
    (i j b : ℕ)
    → IsLive mem_init.mmcbt i
    → IsLive mem_init.mmcbt j
    → Covers mem_init.mmcbt i b
    → Covers mem_init.mmcbt j b
    → i ≡ j
unfolding mem_init
boot_unique i j b li lj ci cj = ground arith

-- The six MMCBs of `muxx_mem_init`, the I/O page left out, divide the 256 KB of physical memory.
pub mem_init-IsPartition : IsPartition mem_init
unfolding mem_init
mem_init-IsPartition = record {
  entries = refl;
  io = ground arith;
  bounded = λ i live. ground arith;
  covered = boot_covered;
  unique = boot_unique;
}

-- The free chunk of `muxx_mem_init` reaches to the end of memory, over the I/O page that MMCB 5
-- describes: every block of that page is in both.
pub mem_init-io_page :
    (b : ℕ)
    → Covers mem_init.mmcbt io_mmcb b
    → Covers mem_init.mmcbt 4 b × ((mem_init.mmcbt 4).owner_pid ≡ 0)
unfolding mem_init
mem_init-io_page b c = ground arith
