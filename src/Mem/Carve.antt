-- ===== src/Mem/Carve.antt =====
-- What cutting a chunk in two does to the MMCBs.
use muxx.Prelude.{ℕ, ◌+◌, ◌-◌, ◌^◌, ◌<◌, ◌≡◌, ◌≢◌, some, arith}
use muxx.Types.{Mmcb}
use muxx.Mem.{carve}

module _ (c s pid n flags page : ℕ) (m : ℕ → Mmcb) (apart : c ≢ s) where
  -- The chunk that is cut keeps its end and its owner.
  pub carve-cur :
      (m c).block_addr + n < 2 ^ 16
      → let e = carve c s pid n flags page m c in
        (e.block_addr ≡ (m c).block_addr + n)
        × (e.block_size ≡ (m c).block_size - n)
        × (e.owner_pid ≡ (m c).owner_pid)
        × (e.next_block ≡ some s)
  unfolding carve
  carve-cur small = ground arith

  -- The new MMCB has the first `n` blocks. Its forward link is to itself.
  pub carve-new :
      let e = carve c s pid n flags page m s in
      (e.block_addr ≡ (m c).block_addr)
      × (e.block_size ≡ n)
      × (e.owner_pid ≡ pid)
      × (e.owner_par ≡ page)
      × (e.next_block ≡ some s)
      × (e.flags ≡ flags)
  unfolding carve
  carve-new = ground arith

  -- All other MMCBs keep their chunk, their owner and their forward link.
  pub carve-other :
      (i : ℕ)
      → i ≢ c
      → i ≢ s
      → let e = carve c s pid n flags page m i in
        (e.block_addr ≡ (m i).block_addr)
        × (e.block_size ≡ (m i).block_size)
        × (e.owner_pid ≡ (m i).owner_pid)
        × (e.next_block ≡ (m i).next_block)
  unfolding carve
  carve-other i p q = ground arith
