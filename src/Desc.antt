-- ===== src/Desc.antt =====
-- xdma/libxdma.c, the SG DMA descriptors in host memory: `struct xdma_desc`, its fields, the chain of
-- bus addresses and the counts of adjacent descriptors. A descriptor array is a list; an array
-- element is written through its position. All words are below 2 ^ 32 and little-endian conversion
-- is the identity.
pub mod Adjacent
pub mod Fields
use xdma_fpga.Base.{
  ℕ, ◌-◌, ◌*◌, ◌/◌, ◌%◌, ◌^◌, min, bit_and, bit_or, List, [], ◌∷◌, Rv, ok, err, einval, leb, has,
  add64, if◌then◌else◌,
}
use xdma_fpga.Hw.{
  Dir, to_device, from_device, pci_dma_h, pci_dma_l, desc_magic, xdma_page_size,
  xdma_max_adj_block_size,
}

-- `struct xdma_desc`; `next` is the pair `next_hi`, `next_lo`.
pub record XdmaDesc : Type 0 where
  pub control : ℕ
  pub bytes : ℕ
  pub src_addr_lo : ℕ
  pub src_addr_hi : ℕ
  pub dst_addr_lo : ℕ
  pub dst_addr_hi : ℕ
  pub next_lo : ℕ
  pub next_hi : ℕ

-- `sizeof(struct xdma_desc)` and `sizeof(struct xdma_result)`: eight packed 32-bit words each.
abbrev pub desc_size : ℕ
desc_size = 32

-- `xdma_get_next_adj`. The mask of the page offset is a remainder, the shift a division.
unfoldable pub xdma_get_next_adj : ℕ → ℕ → ℕ
xdma_get_next_adj remaining next_lo =
    if leb remaining 1 then 0 else min (xdma_max_adj_block_size - next_index - 1) (remaining - 1)
  where
    next_index : ℕ
    next_index = next_lo % xdma_page_size / 32 % xdma_max_adj_block_size

-- `xdma_desc_set`: the words of both addresses by the direction of the transfer.
unfoldable pub xdma_desc_set : XdmaDesc → ℕ → ℕ → ℕ → Dir → XdmaDesc
xdma_desc_set desc rc_bus_addr ep_addr len to_device = record desc {
  bytes = len % 2 ^ 32;
  src_addr_lo = pci_dma_l rc_bus_addr;
  src_addr_hi = pci_dma_h rc_bus_addr;
  dst_addr_lo = pci_dma_l ep_addr;
  dst_addr_hi = pci_dma_h ep_addr;
}
xdma_desc_set desc rc_bus_addr ep_addr len from_device = record desc {
  bytes = len % 2 ^ 32;
  src_addr_lo = pci_dma_l ep_addr;
  src_addr_hi = pci_dma_h ep_addr;
  dst_addr_lo = pci_dma_l rc_bus_addr;
  dst_addr_hi = pci_dma_h rc_bus_addr;
}

-- `xdma_desc_adjacent`: keep the control byte and bits 12 to 15, set magic and count.
unfoldable pub xdma_desc_adjacent : XdmaDesc → ℕ → XdmaDesc
xdma_desc_adjacent desc next_adjacent = record desc {
  control =
      bit_or (bit_and desc.control 0x0000_f0ff)
        (bit_or 0xad4b_0000 (next_adjacent * 2 ^ 8 % 2 ^ 32));
}

-- `xdma_desc_control_set`: replace the low byte, refusing wider fields.
unfoldable pub xdma_desc_control_set : XdmaDesc → ℕ → Rv × XdmaDesc
xdma_desc_control_set first control_field =
    if has control_field 0xffff_ff00
    then (err einval, first)
    else (ok, record first { control = bit_or (bit_and first.control 0xffff_ff00) control_field })

-- The loop body of `transfer_desc_init`: link to the given bus address and reset.
unfoldable pub desc_reset : XdmaDesc → ℕ → XdmaDesc
desc_reset desc next_bus = record desc {
  next_lo = pci_dma_l next_bus;
  next_hi = pci_dma_h next_bus;
  bytes = 0;
  control = desc_magic;
}

-- `transfer_desc_init` on the `count` descriptors from `desc_bus` on; the last one ends the chain
-- by the address 0.
unfoldable pub transfer_desc_init : List XdmaDesc → ℕ → List XdmaDesc
unfolding desc_reset
transfer_desc_init [] desc_bus = []
transfer_desc_init (d ∷ []) desc_bus = desc_reset d 0 ∷ []
transfer_desc_init (d ∷ e ∷ ds) desc_bus =
    desc_reset d (add64 desc_bus desc_size) ∷ transfer_desc_init (e ∷ ds) (add64 desc_bus desc_size)
