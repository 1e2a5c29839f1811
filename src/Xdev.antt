-- ===== src/Xdev.antt =====
-- xdma/libxdma.h and libxdma.c, the device as a whole: `struct xdma_dev`, the fields of its engines
-- that creation and interrupts use, and the registers of its configuration BAR. The operations stand
-- in the modules below.
--
-- A pointer into a BAR is the BAR's address plus an offset, and NULL is 0; an index that may be -1
-- is an `Option`. The n-th register read of a history answers `read n`, and so do allocations,
-- mappings and interrupt lines. What the driver does to the outside is the list `log`, newest first.
-- `engine_h2c` and `engine_c2h`, the two masks and the two counts are functions of the direction.
pub mod Offset
pub mod Bars
pub mod Create
pub mod Probe
pub mod Isr
pub mod Irq
pub mod Open
pub mod User
use xdma_fpga.Base.{
  ℕ, ◌+◌, ◌*◌, ◌^◌, ◌%◌, Bool, true, false, Option, none, some, List, ◌∷◌, ◌==◌, ◌&&◌,
  if◌then◌else◌, Rv, bit_or, bit_and,
}
use xdma_fpga.Hw.{Dir, to_device, from_device}
use xdma_fpga.Xdev.Offset

-- Whom an interrupt line calls: `xdma_isr` with the device, `xdma_user_irq` with a user interrupt, or
-- `xdma_channel_irq` with an engine.
pub data Owner : Type 0 where
  device : Owner
  user : ℕ → Owner
  channel : Dir → ℕ → Owner

pub data DevEvent : Type 0 where
  -- `write_register`: the address, then the value
  wrote : ℕ → ℕ → DevEvent
  -- `schedule_work` of an engine's work
  scheduled : Dir → ℕ → DevEvent
  -- the registered handler of a user interrupt, and the wake-up of those who wait for its events
  called_handler woke_events : ℕ → DevEvent
  -- `dma_alloc_coherent` of some bytes, `dma_free_coherent` of an address
  allocated freed : ℕ → DevEvent
  -- `pci_iounmap` of an address
  unmapped : ℕ → DevEvent
  -- `request_irq` that succeeds, `free_irq`
  requested released : ℕ → Owner → DevEvent
  -- `xdma_thread_add_work`, `xdma_thread_remove_work`
  added_work removed_work : Dir → ℕ → DevEvent

-- Module parameters, and what the device and the kernel answer.
pub record DevHost : Type 0 where
  pub poll_mode : Bool
  pub enable_st_c2h_credit : Bool
  pub read : ℕ → ℕ → ℕ
  -- the virtual address, NULL where it fails, and the bus address
  pub dma_alloc : ℕ → ℕ × ℕ
  pub resource_len : ℕ → ℕ
  -- `pci_iomap` of a BAR
  pub iomap : ℕ → ℕ → ℕ
  -- `pci_irq_vector`
  pub irq_vector : ℕ → ℕ
  pub request_irq : ℕ → Rv
  -- `pdev->irq`, and the byte `PCI_INTERRUPT_PIN`
  pub irq : ℕ
  pub interrupt_pin : ℕ

-- `struct xdma_engine`, its fields for creation and interrupts. `magic` is `magic == MAGIC_ENGINE`.
pub record SgEngine : Type 0 where
  pub magic : Bool
  pub channel : ℕ
  pub dir : Dir
  pub streaming : Bool
  pub irq_bitmask : ℕ
  pub bypass_offset : ℕ
  pub regs : ℕ
  pub sgdma_regs : ℕ
  pub desc_max : ℕ
  pub addr_align : ℕ
  pub len_granularity : ℕ
  pub addr_bits : ℕ
  pub interrupt_enable_mask_value : ℕ
  pub msix_irq_line : ℕ
  pub desc : ℕ
  pub desc_bus : ℕ
  pub poll_mode_addr_virt : ℕ
  pub poll_mode_bus : ℕ
  pub cyclic_result : ℕ
  pub cyclic_result_bus : ℕ

-- `struct xdma_user_irq`: whether it has a handler, and whether an event is pending.
pub record UserIrq : Type 0 where
  pub handler : Bool
  pub events_irq : Bool

-- `struct xdma_dev`
pub record Xdev : Type 0 where
  -- `XDEV_FLAG_OFFLINE` of `flags`
  pub offline : Bool
  pub bar : ℕ → ℕ
  pub user_bar_idx : Option ℕ
  pub config_bar_idx : Option ℕ
  pub bypass_bar_idx : Option ℕ
  pub user_max : ℕ
  pub channel_max : Dir → ℕ
  pub irq_count : ℕ
  pub irq_line : Option ℕ
  pub msi_enabled : Bool
  pub msix_enabled : Bool
  pub user_irq : ℕ → UserIrq
  pub mask_irq_user : ℕ
  pub engines_num : ℕ
  pub mask_irq : Dir → ℕ
  pub engines : Dir → ℕ → SgEngine
  pub reads : ℕ
  pub allocs : ℕ
  pub requests : ℕ
  pub log : List DevEvent

-- Stores at an index, and at a direction.
abbrev pub put {ℓ} : {A : Type ℓ} → (ℕ → A) → ℕ → A → ℕ → A
put f i a j = if j == i then a else f j

abbrev pub put_dir {ℓ} : {A : Type ℓ} → (Dir → A) → Dir → A → Dir → A
put_dir f to_device a to_device = a
put_dir f to_device a from_device = f from_device
put_dir f from_device a to_device = f to_device
put_dir f from_device a from_device = a

abbrev pub put_engine : Xdev → Dir → ℕ → SgEngine → Xdev
put_engine x d i e = record x { engines = put_dir x.engines d (put (x.engines d) i e) }

abbrev pub note : Xdev → DevEvent → Xdev
note x ev = record x { log = ev ∷ x.log }

-- `xdev->bar[xdev->config_bar_idx]`
abbrev pub config_bar : Xdev → ℕ
config_bar x = elim x.config_bar_idx [ none ↦ 0 | some i ↦ x.bar i ]

-- `write_register`
abbrev pub dev_write : Xdev → ℕ → ℕ → Xdev
dev_write x value addr = note x (wrote addr value)

-- `read_register`: the value, and the device with one read more behind it.
abbrev pub dev_read : DevHost → Xdev → ℕ → ℕ × Xdev
dev_read h x addr = (h.read x.reads addr, record x { reads = x.reads + 1 })

-- `dma_alloc_coherent`
abbrev pub dma_alloc_coherent : DevHost → Xdev → ℕ → (ℕ × ℕ) × Xdev
dma_alloc_coherent h x bytes =
    (h.dma_alloc x.allocs, record x { allocs = x.allocs + 1; log = allocated bytes ∷ x.log })

-- A register of the interrupt block.
abbrev pub int_reg : Xdev → ℕ → ℕ
int_reg x offset = config_bar x + (Offset.int_ctrl + offset)

-- `channel_interrupts_enable`, `channel_interrupts_disable`
abbrev pub channel_interrupts_enable : Xdev → ℕ → Xdev
channel_interrupts_enable x mask = dev_write x mask (int_reg x Offset.channel_int_enable_w1s)

abbrev pub channel_interrupts_disable : Xdev → ℕ → Xdev
channel_interrupts_disable x mask = dev_write x mask (int_reg x Offset.channel_int_enable_w1c)

-- `user_interrupts_enable`, `user_interrupts_disable`
abbrev pub user_interrupts_enable : Xdev → ℕ → Xdev
user_interrupts_enable x mask = dev_write x mask (int_reg x Offset.user_int_enable_w1s)

abbrev pub user_interrupts_disable : Xdev → ℕ → Xdev
user_interrupts_disable x mask = dev_write x mask (int_reg x Offset.user_int_enable_w1c)

-- `build_u32`
abbrev pub build_u32 : ℕ → ℕ → ℕ
build_u32 hi lo = bit_or (bit_and hi 0xffff * 2 ^ 16) (bit_and lo 0xffff)

-- `read_interrupts`: the user requests above, the channel requests below.
abbrev pub read_interrupts : DevHost → Xdev → ℕ × Xdev
read_interrupts h x =
    let (hi, x1) = dev_read h x (int_reg x Offset.user_int_request) in
    let (lo, x2) = dev_read h x1 (int_reg x Offset.channel_int_request) in (build_u32 hi lo, x2)

-- `dir == DMA_FROM_DEVICE`
abbrev pub is_c2h : Dir → Bool
is_c2h from_device = true
is_c2h to_device = false

-- The condition under which an engine runs on credits.
abbrev pub on_credit : DevHost → SgEngine → Bool
on_credit h e = h.enable_st_c2h_credit && e.streaming && is_c2h e.dir
