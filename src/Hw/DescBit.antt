-- ===== src/Hw/DescBit.antt =====
-- xdma/libxdma.h, `XDMA_DESC_STOPPED`, `XDMA_DESC_COMPLETED` and `XDMA_DESC_EOP`: the low byte of a
-- descriptor's control word.
use xdma_fpga.Base.{ℕ, ◌^◌}

abbrev pub stopped : ℕ
stopped = 2 ^ 0

abbrev pub completed : ℕ
completed = 2 ^ 1

abbrev pub eop : ℕ
eop = 2 ^ 4
