-- ===== src/Tests/Devices.antt =====
-- The device's set-up and interrupts at concrete inputs.
use xdma_fpga.Base.{
  ℕ, zero, suc, ◌+◌, ◌*◌, ◌==◌, true, false, none, some, [], ◌∷◌, ◌++◌, ◌≡◌, refl, arith, ok, bit,
  if◌then◌else◌,
}
use xdma_fpga.Hw.{Dir, to_device, from_device}
use xdma_fpga.Xdev.{
  Xdev, DevHost, SgEngine, scheduled, woke_events, wrote, requested, channel, user,
}
use xdma_fpga.Xdev.Create.{
  zeroed, engine_init, new_engine, engine_alloc_resource, alloc_writeback, alloc_results, set_up,
  engine_init_regs, engine_alignments, engine_writeback_setup,
}
use xdma_fpga.Xdev.Bars.{
  map_bars, bar_loop, bar_round, found_bar, map_single_bar, is_config_bar, identify_bars,
}
use xdma_fpga.Xdev.Bars.Roles.{Mapped, map_bars-Mapped}
use xdma_fpga.Xdev.Probe.{
  probe_engines, probe_dir, probe_loop, probe_for_engine, get_engine_id, get_engine_channel_id,
}
use xdma_fpga.Xdev.Probe.Scan.{AllFound}
use xdma_fpga.Xdev.Irq.{
  irq_setup, irq_teardown, setup_users, program_vectors, irq_msix_channel_setup, setup_c2h,
  channel_setup_loop, irq_msix_user_setup, user_setup_loop, request_irq, prog_irq_msix_channel,
  prog_irq_msix_user, prog_loop, pack_vectors,
}
use xdma_fpga.Xdev.Irq.Lines.{requests_in, releases_in, irq_lines}
use xdma_fpga.Xdev.Irq.Balance.{irq_lines_balance}
use xdma_fpga.Xdev.Open.{
  PciHost, xdma_device_open, new_device, open_mapped, quieten, enable_msi_msix, open_msi, open_irq,
}
use xdma_fpga.Xdev.Open.Ready.{Opened, xdma_device_open-Opened}
use xdma_fpga.Xdev.Isr.{
  xdma_isr, isr_by_bits, user_loop, user_irq_service, schedule_dir, channel_loop,
}
use xdma_fpga.Xdev.Isr.Dispatch.{xdma_isr-eq-isr_by_bits}

-- A card with two BARs of 64 KiB, the second of which has the driver's identifiers; one engine in each direction;
-- and the requests of user interrupt 1 and of the engine from the card.
abbrev registers : ℕ → ℕ → ℕ
registers n addr =
    if addr == 0x52000
    then 0x1fc2_0006
    else if addr == 0x53000
    then 0x1fc3_0006
    else if addr == 0x50000
    then 0x1fc0_0006
    else if addr == 0x51000
    then 0x1fc1_8006
    else if addr == 0x52044
    then 2
    else if addr == 0x52040
    then 2
    else 0

abbrev card : DevHost
card = record {
  poll_mode = false;
  enable_st_c2h_credit = false;
  read = registers;
  dma_alloc = λ n. (0x1000 * (n + 1), 0x9000 * (n + 1));
  resource_len = λ i. if i == 0 then 0x10000 else if i == 1 then 0x10000 else 0;
  iomap = λ i len. 0x40000 + 0x10000 * i;
  irq_vector = λ i. 100 + i;
  request_irq = λ n. ok;
  irq = 11;
  interrupt_pin = 1;
}

abbrev fresh : Xdev
fresh = record {
  offline = true;
  bar = λ i. 0;
  user_bar_idx = none;
  config_bar_idx = none;
  bypass_bar_idx = none;
  user_max = 16;
  channel_max = λ d. 4;
  irq_count = 0;
  irq_line = none;
  msi_enabled = false;
  msix_enabled = false;
  user_irq = λ i. record { handler = false; events_irq = false };
  mask_irq_user = 0;
  engines_num = 0;
  mask_irq = λ d. 0;
  engines = λ d i. zeroed d;
  reads = 0;
  allocs = 0;
  requests = 0;
  log = [];
}

map_bars-Mapped_example : Mapped (map_bars card fresh)
map_bars-Mapped_example = map_bars-Mapped card fresh refl refl refl

abbrev mapped : Xdev
mapped = record fresh {
  bar = λ i. if i == 0 then 0x40000 else if i == 1 then 0x50000 else 0;
  config_bar_idx = some 1;
  user_bar_idx = some 0;
}

-- The engines that are found on the card.
abbrev engine_of : Dir → ℕ → SgEngine
engine_of to_device zero = record (zeroed to_device) { magic = true; irq_bitmask = 1 }
engine_of to_device (suc i) = zeroed to_device
engine_of from_device zero = record (zeroed from_device) { magic = true; irq_bitmask = 2 }
engine_of from_device (suc i) = zeroed from_device

abbrev masks : Dir → ℕ
masks to_device = 1
masks from_device = 2

abbrev probed : Xdev
probed = record mapped {
  channel_max = λ d. 1;
  engines_num = 2;
  mask_irq = masks;
  engines = engine_of;
}

probed_h2c : AllFound probed to_device 0 1
unfolding bit
probed_h2c zero lt = record { magic = refl; bitmask = refl; masked = refl }
probed_h2c (suc i) lt = absurd (omega arith)

probed_c2h : AllFound probed from_device 1 1
unfolding bit
probed_c2h zero lt = record { magic = refl; bitmask = refl; masked = refl }
probed_c2h (suc i) lt = absurd (omega arith)

xdma_isr-eq-isr_by_bits_example : xdma_isr card probed ≡ isr_by_bits card 1 probed
xdma_isr-eq-isr_by_bits_example =
    xdma_isr-eq-isr_by_bits card probed 1 (omega arith) (omega arith) (omega arith) probed_h2c
      probed_c2h

-- The second BAR is the configuration BAR, so the first is the user's.
card_bars :
    ((map_bars card fresh).1.config_bar_idx ≡ some 1)
    × ((map_bars card fresh).1.user_bar_idx ≡ some 0)
    × ((map_bars card fresh).1.bypass_bar_idx ≡ none)
unfolding map_bars bar_loop bar_round found_bar map_single_bar is_config_bar identify_bars
card_bars = (refl, refl, refl)

-- One engine of each direction is found, the second with streams.
card_engines :
    ((probe_engines card mapped).channel_max to_device ≡ 1)
    × ((probe_engines card mapped).channel_max from_device ≡ 1)
    × (((probe_engines card mapped).engines from_device 0).irq_bitmask ≡ 2)
    × (((probe_engines card mapped).engines from_device 0).streaming ≡ true)
    × (((probe_engines card mapped).engines from_device 0).desc_max ≡ 0x800)
unfolding probe_engines probe_dir probe_loop probe_for_engine get_engine_id get_engine_channel_id
    engine_init new_engine engine_alloc_resource alloc_writeback alloc_results set_up
    engine_init_regs engine_alignments engine_writeback_setup
card_engines = (refl, refl, refl, refl, refl)

-- Both requests are met: those who wait for user interrupt 1 are woken, and the engine from the card is scheduled.
card_interrupt :
    (xdma_isr card probed).log ≡ scheduled from_device 0 ∷ woke_events 1 ∷ wrote 0x52018 2 ∷ []
unfolding xdma_isr user_loop user_irq_service schedule_dir channel_loop
card_interrupt = refl

-- The same card, with MSI-X enabled and two user interrupts.
abbrev with_msix : Xdev
with_msix = record probed { msix_enabled = true; user_max = 2 }

-- The words that hold the vectors of channels and users.
card_vectors :
    (irq_setup card with_msix).1.log
    ≡ wrote 0x52080 0x302
      ∷ wrote 0x520a0 0x100
      ∷ requested 103 (user 1)
      ∷ requested 102 (user 0)
      ∷ requested 101 (channel from_device 0)
      ∷ requested 100 (channel to_device 0)
      ∷ []
unfolding irq_setup setup_users program_vectors irq_msix_channel_setup setup_c2h channel_setup_loop
    irq_msix_user_setup user_setup_loop request_irq prog_irq_msix_channel prog_irq_msix_user
    prog_loop pack_vectors
card_vectors = refl

set_up_well : irq_setup card with_msix ≡ (ok, (irq_setup card with_msix).1)
unfolding irq_setup setup_users program_vectors irq_msix_channel_setup setup_c2h channel_setup_loop
    irq_msix_user_setup user_setup_loop request_irq prog_irq_msix_channel prog_irq_msix_user
set_up_well = refl

irq_lines_balance_example :
    let y = (irq_setup card with_msix).1 in
    let z = irq_teardown card y in
    (requests_in y.log ≡ irq_lines card with_msix ++ requests_in with_msix.log)
    × (releases_in y.log ≡ releases_in with_msix.log)
    × (requests_in z.log ≡ requests_in y.log)
    × (releases_in z.log ≡ irq_lines card with_msix ++ releases_in y.log)
irq_lines_balance_example =
    irq_lines_balance card with_msix (irq_setup card with_msix).1 (λ k. ground arith) set_up_well

abbrev slot : PciHost
slot = record {
  interrupt_mode = 0;
  msix_capable = true;
  msi_capable = true;
  alloc_irq_vectors = ok;
  enable_msi = ok;
  memory = true;
  list_add = ok;
  enable_device = ok;
  request_regions = ok;
  set_dma_mask = ok;
}

xdma_device_open-Opened_example : Opened card (xdma_device_open card slot 0 0 0)
xdma_device_open-Opened_example = xdma_device_open-Opened card slot 0 0 0

-- All counts are asked for; sixteen user interrupts and the two engines of the card are there.
card_opened :
    ((xdma_device_open card slot 0 0 0).0 ≡ true)
    × ((xdma_device_open card slot 0 0 0).1.user_max ≡ 16)
    × ((xdma_device_open card slot 0 0 0).1.channel_max to_device ≡ 1)
    × ((xdma_device_open card slot 0 0 0).1.requests ≡ 18)
unfolding xdma_device_open new_device open_mapped quieten enable_msi_msix open_msi open_irq map_bars
    bar_loop bar_round found_bar map_single_bar is_config_bar identify_bars probe_engines probe_dir
    probe_loop probe_for_engine get_engine_id get_engine_channel_id engine_init new_engine
    engine_alloc_resource alloc_writeback alloc_results set_up engine_init_regs engine_alignments
    engine_writeback_setup irq_setup setup_users program_vectors irq_msix_channel_setup setup_c2h
    channel_setup_loop irq_msix_user_setup user_setup_loop request_irq prog_irq_msix_channel
    prog_irq_msix_user prog_loop pack_vectors
card_opened = (refl, refl, refl, refl)
