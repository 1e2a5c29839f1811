-- ===== src/Hw/Ctrl.antt =====
-- xdma/libxdma.h, the bits `XDMA_CTRL_*` of the SG DMA control register.
use xdma_fpga.Base.{ℕ, ◌^◌, ◌*◌}

abbrev pub run_stop : ℕ
run_stop = 2 ^ 0

abbrev pub ie_desc_stopped : ℕ
ie_desc_stopped = 2 ^ 1

abbrev pub ie_desc_completed : ℕ
ie_desc_completed = 2 ^ 2

abbrev pub ie_desc_align_mismatch : ℕ
ie_desc_align_mismatch = 2 ^ 3

abbrev pub ie_magic_stopped : ℕ
ie_magic_stopped = 2 ^ 4

abbrev pub ie_idle_stopped : ℕ
ie_idle_stopped = 2 ^ 6

abbrev pub ie_read_error : ℕ
ie_read_error = 0x1f * 2 ^ 9

abbrev pub ie_desc_error : ℕ
ie_desc_error = 0x1f * 2 ^ 19

abbrev pub non_incr_addr : ℕ
non_incr_addr = 2 ^ 25

abbrev pub poll_mode_wb : ℕ
poll_mode_wb = 2 ^ 26
