-- ===== src/Mem/Sound.antt =====
-- The invariant of the MMCBs: their chunks, the I/O page's apart, divide memory, and their list has
-- the kernel's form.
use muxx.Prelude.{ℕ, ◌+◌, ◌<◌, ◌≡◌, ◌≢◌, arith}
use muxx.Types.{Mmcbt}
use muxx.Mem.{unallocated, mem_init, block, mem_getblock}
use muxx.Mem.Partition.{io_mmcb, IsLive, IsPartition, mem_getblock-IsPartition}
use muxx.Mem.Boot.{mem_init-IsPartition}
use muxx.Mem.Layout.{free_mmcb, IsListed, mem_init-IsFresh}
use muxx.Mem.Grow.{mem_getblock-IsGrown}

pub record IsSound (m : Mmcbt) : Type 0 where
  pub partition : IsPartition m
  pub listed : IsListed m.mmcbt

-- A process identifier that marks neither a free chunk nor an unused MMCB.
abbrev pub IsPid : ℕ → Type 0
IsPid pid = (pid ≢ 0) × (pid ≢ unallocated)

pub mem_init-IsSound : IsSound mem_init
mem_init-IsSound = record { partition = mem_init-IsPartition; listed = mem_init-IsFresh.listed }

pub free-lt :
    (m : Mmcbt)
    → IsSound m
    → (m.mmcbt free_mmcb).block_addr + (m.mmcbt free_mmcb).block_size < 65536
free-lt m h =
    let live : IsLive m.mmcbt free_mmcb = (omega (arith, h.listed.free), omega arith) in
    omega (arith, h.partition.bounded free_mmcb live)

-- A chunk that `muxx_mem_getblock` gives for a task with a number keeps the invariant: every
-- block of physical memory belongs to exactly one of the MMCBs in use other than the I/O page's,
-- and the list of the MMCBs leads over the kernel's to the free one. The free MMCB counts as in
-- use, and overlaps the I/O page.
pub mem_getblock-IsSound :
    (fuel pid n flags page s : ℕ) (m m' : Mmcbt)
    → IsPid pid
    → IsSound m
    → mem_getblock fuel pid n flags page m ≡ block s m'
    → IsSound m'
mem_getblock-IsSound fuel pid n flags page s m m' p h e = record {
  partition =
      mem_getblock-IsPartition fuel pid n flags page s m m' h.partition
        (h.listed.owned io_mmcb (omega arith)) p.1 e;
  listed =
      (mem_getblock-IsGrown fuel pid n flags page s m m' h.listed p.0 (free-lt m h) e).0.listed;
}
