-- ===== src/Xdev/Offset.antt =====
-- xdma/libxdma.h, where registers stand: from an engine's registers on, in the interrupt block, and the
-- blocks of the configuration BAR.
use xdma_fpga.Base.{ℕ}

-- `struct engine_regs`
abbrev pub identifier : ℕ
identifier = 0x00

abbrev pub control_w1c : ℕ
control_w1c = 0x0c

abbrev pub alignments : ℕ
alignments = 0x4c

abbrev pub poll_mode_wb_lo : ℕ
poll_mode_wb_lo = 0x88

abbrev pub poll_mode_wb_hi : ℕ
poll_mode_wb_hi = 0x8c

abbrev pub interrupt_enable_mask : ℕ
interrupt_enable_mask = 0x90

abbrev pub interrupt_enable_mask_w1s : ℕ
interrupt_enable_mask_w1s = 0x94

abbrev pub interrupt_enable_mask_w1c : ℕ
interrupt_enable_mask_w1c = 0x98

-- `struct interrupt_regs`
abbrev pub user_int_enable_w1s : ℕ
user_int_enable_w1s = 0x08

abbrev pub user_int_enable_w1c : ℕ
user_int_enable_w1c = 0x0c

abbrev pub channel_int_enable_w1s : ℕ
channel_int_enable_w1s = 0x14

abbrev pub channel_int_enable_w1c : ℕ
channel_int_enable_w1c = 0x18

abbrev pub user_int_request : ℕ
user_int_request = 0x40

abbrev pub channel_int_request : ℕ
channel_int_request = 0x44

abbrev pub channel_int_pending : ℕ
channel_int_pending = 0x4c

abbrev pub user_msi_vector : ℕ
user_msi_vector = 0x80

abbrev pub channel_msi_vector : ℕ
channel_msi_vector = 0xa0

-- `struct sgdma_common_regs`
abbrev pub credit_mode_enable_w1s : ℕ
credit_mode_enable_w1s = 0x24

abbrev pub credit_mode_enable_w1c : ℕ
credit_mode_enable_w1c = 0x28

-- `XDMA_OFS_INT_CTRL`, `XDMA_OFS_CONFIG`
abbrev pub int_ctrl : ℕ
int_ctrl = 0x2000

abbrev pub config : ℕ
config = 0x3000

-- The common SG DMA registers, `0x6 * TARGET_SPACING`.
abbrev pub sgdma_common : ℕ
sgdma_common = 0x6000

-- `H2C_CHANNEL_OFFSET`, `CHANNEL_SPACING`, `SGDMA_OFFSET_FROM_CHANNEL`, `BYPASS_MODE_SPACING`
abbrev pub h2c_channel_offset : ℕ
h2c_channel_offset = 0x1000

abbrev pub channel_spacing : ℕ
channel_spacing = 0x100

abbrev pub sgdma_offset_from_channel : ℕ
sgdma_offset_from_channel = 0x4000

abbrev pub bypass_mode_spacing : ℕ
bypass_mode_spacing = 0x100
