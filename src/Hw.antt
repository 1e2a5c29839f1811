-- ===== src/Hw.antt =====
-- xdma/libxdma.h, the bits of the registers and descriptors, and the split of bus addresses.
pub mod Ctrl
pub mod Stat
pub mod DescBit
use xdma_fpga.Base.{ℕ, ◌+◌, ◌*◌, ◌/◌, ◌%◌, ◌^◌, ◌<◌, ◌≡◌, arith}

-- `RX_STATUS_EOP`
abbrev pub rx_status_eop : ℕ
rx_status_eop = 1

abbrev pub xdma_page_size : ℕ
xdma_page_size = 0x1000

abbrev pub xdma_max_adj_block_size : ℕ
xdma_max_adj_block_size = 0x40

abbrev pub desc_magic : ℕ
desc_magic = 0xad4b_0000

abbrev pub wb_count_mask : ℕ
wb_count_mask = 0x00ff_ffff

abbrev pub wb_err_mask : ℕ
wb_err_mask = 2 ^ 31

-- `enum dma_data_direction` of the engine.
pub data Dir : Type 0 where
  to_device from_device : Dir

-- `PCI_DMA_H` as stored in a `u32`, for a 64-bit address.
abbrev pub pci_dma_h : ℕ → ℕ
pci_dma_h addr = addr / 2 ^ 16 / 2 ^ 16 % 2 ^ 32

-- `PCI_DMA_L`: the low 32 bits.
abbrev pub pci_dma_l : ℕ → ℕ
pci_dma_l addr = addr % 2 ^ 32

-- The two halves of a 64-bit address give it back.
pub pci_dma_halves : (addr : ℕ) → addr < 2 ^ 64 → pci_dma_h addr * 2 ^ 32 + pci_dma_l addr ≡ addr
pci_dma_halves addr h = omega arith
