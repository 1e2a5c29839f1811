-- ===== src/Xdev/Open.antt =====
-- xdma/libxdma.c, the device from its start: `alloc_dev_instance`, `enable_msi_msix`,
-- `disable_msi_msix`, `check_nonzero_interrupt_status` `xdma_device_open`, and `xdma_device_close`.
pub mod Kept
pub mod Ready
use xdma_fpga.Base.{
  ℕ, ◌+◌, ◌-◌, ◌^◌, ltb, ◌==◌, Bool, true, false, ◌&&◌, ◌||◌, not, Option, none, some, List, [], Rv,
  ok, err, is_err, if◌then◌else◌,
}
use xdma_fpga.Hw.{Dir, to_device, from_device}
use xdma_fpga.Xdev.{
  Xdev, DevHost, UserIrq, channel_interrupts_enable, channel_interrupts_disable,
  user_interrupts_disable, read_interrupts,
}
use xdma_fpga.Xdev.Create.{zeroed}
use xdma_fpga.Xdev.Bars.{map_bars, unmap_bars}
use xdma_fpga.Xdev.Probe.{probe_engines, remove_engines}
use xdma_fpga.Xdev.Irq.{irq_setup, irq_teardown}

-- `MAX_USER_IRQ`, `XDMA_CHANNEL_NUM_MAX`
abbrev pub max_user_irq : ℕ
max_user_irq = 16

abbrev pub xdma_channel_num_max : ℕ
xdma_channel_num_max = 4

-- What the PCI core and the list of devices answer: whether a capability is there, and what each call returns.
pub record PciHost : Type 0 where
  pub interrupt_mode : ℕ
  pub msix_capable : Bool
  pub msi_capable : Bool
  pub alloc_irq_vectors : Rv
  pub enable_msi : Rv
  -- `kzalloc` of the device
  pub memory : Bool
  pub list_add : Rv
  pub enable_device : Rv
  pub request_regions : Rv
  pub set_dma_mask : Rv

-- A count that is asked for: 0, or more than there can be, asks for all.
abbrev pub count_of : ℕ → ℕ → ℕ
count_of asked most = if asked == 0 || ltb most asked then most else asked

-- `alloc_dev_instance`, with the counts and the flag that `xdma_device_open` then sets.
unfoldable pub new_device : ℕ → ℕ → ℕ → Xdev
new_device user_max h2c c2h = record {
  offline = true;
  bar = λ i. 0;
  user_bar_idx = none;
  config_bar_idx = none;
  bypass_bar_idx = none;
  user_max = count_of user_max max_user_irq;
  channel_max = λ d. elim d [
    | to_device ↦ count_of h2c xdma_channel_num_max
    | from_device ↦ count_of c2h xdma_channel_num_max
  ];
  irq_count = 0;
  irq_line = none;
  msi_enabled = false;
  msix_enabled = false;
  user_irq = λ i. record { handler = false; events_irq = false };
  mask_irq_user = 0;
  engines_num = 0;
  mask_irq = λ d. 0;
  engines = λ d i. zeroed d;
  reads = 0;
  allocs = 0;
  requests = 0;
  log = [];
}

-- `enable_msi_msix`
unfoldable pub enable_msi_msix : PciHost → Xdev → Rv × Xdev
enable_msi_msix p x =
    if (p.interrupt_mode == 3 || p.interrupt_mode == 0) && p.msix_capable
    then (p.alloc_irq_vectors, record x { msix_enabled = true })
    else if (p.interrupt_mode == 1 || p.interrupt_mode == 0) && p.msi_capable
    then (p.enable_msi, record x { msi_enabled = true })
    else (ok, x)

-- `disable_msi_msix`
unfoldable pub disable_msi_msix : Xdev → Xdev
disable_msi_msix x =
    if x.msix_enabled
    then record x { msix_enabled = false }
    else if x.msi_enabled
    then record x { msi_enabled = false }
    else x

-- All interrupts are disabled, as `xdma_device_open` does behind `check_nonzero_interrupt_status`, which reads
-- six registers.
unfoldable pub quieten : DevHost → Xdev → Xdev
quieten h x =
    let all = 2 ^ 32 - 1 in
    let x1 = channel_interrupts_disable (record x { reads = x.reads + 6 }) all in
    (read_interrupts h (user_interrupts_disable x1 all)).1

-- The end of `xdma_device_open`, behind `irq_setup`: whether it succeeds, and the device.
unfoldable pub open_irq : DevHost → Rv × Xdev → Bool × Xdev
open_irq h (err c, x) = (false, unmap_bars (remove_engines h (disable_msi_msix x)))
open_irq h (ok, x) =
    let x1 = if not h.poll_mode then channel_interrupts_enable x (2 ^ 32 - 1) else x in
    let x2 = (read_interrupts h x1).1 in (true, record x2 { offline = false })

-- From `irq_setup` on.
unfoldable pub open_msi : DevHost → Rv × Xdev → Bool × Xdev
open_msi h (err c, x) = (false, unmap_bars (remove_engines h x))
open_msi h (ok, x) = open_irq h (irq_setup h x)

-- From `set_dma_mask` on.
unfoldable pub open_mapped : DevHost → PciHost → Rv × Xdev → Bool × Xdev
open_mapped h p (err c, x) = (false, x)
open_mapped h p (ok, x) =
    if is_err p.set_dma_mask
    then (false, unmap_bars x)
    else open_msi h (enable_msi_msix p (probe_engines h (quieten h x)))

-- `xdma_device_open`. The device is freed where it fails. (Calls of the PCI core that only set up or undo its
-- own state are left out.)
unfoldable pub xdma_device_open : DevHost → PciHost → ℕ → ℕ → ℕ → Bool × Xdev
xdma_device_open h p user_max h2c c2h =
    let x = new_device user_max h2c c2h in
    if not p.memory || is_err p.list_add || is_err p.enable_device || is_err p.request_regions
    then (false, x)
    else open_mapped h p (map_bars h x)

-- `xdma_device_close`
unfoldable pub xdma_device_close : DevHost → Xdev → Xdev
xdma_device_close h x =
    let all = 2 ^ 32 - 1 in
    let x1 = user_interrupts_disable (channel_interrupts_disable x all) all in
    let x2 = irq_teardown h (read_interrupts h x1).1 in
    unmap_bars (remove_engines h (disable_msi_msix x2))
