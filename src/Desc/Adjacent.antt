-- ===== src/Desc/Adjacent.antt =====
-- `xdma_get_next_adj` of libxdma.c: how many descriptors the device may fetch behind the next one.
use xdma_fpga.Base.{ℕ, ◌+◌, ◌*◌, ◌/◌, ◌≤◌, ◌<◌, ◌≡◌, ◌⊎◌, arith}
use xdma_fpga.Desc.{desc_size, xdma_get_next_adj}

-- The block of 64 descriptors that an address lies in.
abbrev pub block : ℕ → ℕ
block addr = addr / (64 * desc_size)

-- The next descriptor and its adjacent ones are among those that remain and lie in one block, and the
-- count is the greatest such: it reaches the last that remains or the last of the block.
pub next_adj_greatest :
    (remaining next_lo : ℕ)
    → 0 < remaining
    → let adj = xdma_get_next_adj remaining next_lo in
      (adj + 1 ≤ remaining)
      × (block (next_lo + desc_size * adj) ≡ block next_lo)
      × ((adj + 1 ≡ remaining) ⊎ (block (next_lo + desc_size * (adj + 1)) ≡ block next_lo + 1))
unfolding xdma_get_next_adj
next_adj_greatest remaining next_lo h = ground arith
