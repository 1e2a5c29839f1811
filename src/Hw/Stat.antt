-- ===== src/Hw/Stat.antt =====
-- xdma/libxdma.h, the bits `XDMA_STAT_*` of the SG DMA status register and the masks of its errors.
use xdma_fpga.Base.{ℕ, ◌^◌, bit_or}

abbrev pub busy : ℕ
busy = 2 ^ 0

abbrev pub desc_stopped : ℕ
desc_stopped = 2 ^ 1

abbrev pub desc_completed : ℕ
desc_completed = 2 ^ 2

abbrev pub common_err_mask : ℕ
common_err_mask = bit_or (bit_or (2 ^ 3) (2 ^ 4)) (2 ^ 5)

abbrev pub desc_err_mask : ℕ
desc_err_mask = bit_or (bit_or (bit_or (bit_or (2 ^ 19) (2 ^ 20)) (2 ^ 21)) (2 ^ 22)) (2 ^ 23)

abbrev pub h2c_r_err_mask : ℕ
h2c_r_err_mask = bit_or (bit_or (bit_or (bit_or (2 ^ 9) (2 ^ 10)) (2 ^ 11)) (2 ^ 12)) (2 ^ 13)

abbrev pub h2c_w_err_mask : ℕ
h2c_w_err_mask = bit_or (2 ^ 14) (2 ^ 15)

abbrev pub c2h_r_err_mask : ℕ
c2h_r_err_mask = bit_or (2 ^ 9) (2 ^ 10)

abbrev pub h2c_err_mask : ℕ
h2c_err_mask = bit_or (bit_or (bit_or common_err_mask desc_err_mask) h2c_r_err_mask) h2c_w_err_mask

abbrev pub c2h_err_mask : ℕ
c2h_err_mask = bit_or (bit_or common_err_mask desc_err_mask) c2h_r_err_mask
