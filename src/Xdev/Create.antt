-- ===== src/Xdev/Create.antt =====
-- xdma/libxdma.c, the life of an engine: `engine_alignments`, `engine_writeback_setup`,
-- `engine_init_regs`, `engine_alloc_resource`, `engine_free_resource`, `engine_init` and
-- `engine_destroy`. The pointers that the functions check for NULL are never NULL here.
use xdma_fpga.Base.{
  ℕ, ◌+◌, ◌-◌, ◌*◌, ◌/◌, ◌%◌, ◌^◌, bit_and, bit_or, Bool, true, false, ◌&&◌, ◌||◌, not, ◌==◌, has,
  Rv, ok, err, enomem, if◌then◌else◌,
}
use xdma_fpga.Hw.{Dir, pci_dma_h, pci_dma_l}
use xdma_fpga.Hw.Ctrl
use xdma_fpga.Desc.{desc_size}
use xdma_fpga.Xdev.{
  Xdev, DevHost, SgEngine, dev_write, dev_read, dma_alloc_coherent, note, put_dir, config_bar,
  on_credit, is_c2h, freed, added_work, removed_work,
}
use xdma_fpga.Xdev.Offset

-- `XDMA_ENG_IRQ_NUM`
abbrev pub xdma_eng_irq_num : ℕ
xdma_eng_irq_num = 1

-- `sizeof(struct xdma_poll_wb)`, `sizeof(struct xdma_result)`
abbrev pub poll_wb_size : ℕ
poll_wb_size = 32

abbrev pub result_size : ℕ
result_size = 32

-- `engine_alignments`
unfoldable pub engine_alignments : DevHost → Xdev → SgEngine → Xdev × SgEngine
engine_alignments h x e =
    let (w, x') = dev_read h x (e.regs + Offset.alignments) in
    let e' =
      if not (w == 0)
      then record e {
        addr_align = bit_and w 0x00ff_0000 / 2 ^ 16;
        len_granularity = bit_and w 0x0000_ff00 / 2 ^ 8;
        addr_bits = bit_and w 0x0000_00ff;
      }
      else record e { addr_align = 1; len_granularity = 1; addr_bits = 64 } in
    (x', e')

-- `engine_writeback_setup`, which cannot fail. (The writeback word that it sets to 0 is not read here.)
unfoldable pub engine_writeback_setup : Xdev → SgEngine → Xdev
engine_writeback_setup x e =
    dev_write (dev_write x (pci_dma_l e.poll_mode_bus) (e.regs + Offset.poll_mode_wb_lo))
      (pci_dma_h e.poll_mode_bus) (e.regs + Offset.poll_mode_wb_hi)

-- The interrupts that `engine_init_regs` enables.
abbrev pub enabled_word : Bool → ℕ
enabled_word poll =
    bit_or
      (bit_or (bit_or Ctrl.ie_desc_align_mismatch Ctrl.ie_magic_stopped)
        (bit_or Ctrl.ie_read_error Ctrl.ie_desc_error))
      (if poll then 0 else bit_or Ctrl.ie_desc_stopped Ctrl.ie_desc_completed)

-- The engine's bit in the registers of the credit mode.
abbrev pub credit_word : SgEngine → ℕ
credit_word e = 2 ^ e.channel * 2 ^ 16

-- `engine_init_regs`
unfoldable pub engine_init_regs : DevHost → Xdev → SgEngine → Xdev × SgEngine
unfolding engine_alignments engine_writeback_setup
engine_init_regs h x e =
    let x1 = dev_write x Ctrl.non_incr_addr (e.regs + Offset.control_w1c) in
    let (x2, e') = engine_alignments h x1 e in
    let x3 = if h.poll_mode then engine_writeback_setup x2 e' else x2 in
    let word = enabled_word h.poll_mode in
    let x4 = dev_write x3 word (e.regs + Offset.interrupt_enable_mask) in
    let x5 =
      if on_credit h e
      then dev_write x4 (credit_word e)
          (config_bar x4 + (Offset.sgdma_common + Offset.credit_mode_enable_w1s))
      else x4 in
    (x5, record e' { interrupt_enable_mask_value = word })

-- `engine_free_resource`
unfoldable pub engine_free_resource : Xdev → SgEngine → Xdev × SgEngine
engine_free_resource x e =
    let x1 = if e.poll_mode_addr_virt == 0 then x else note x (freed e.poll_mode_addr_virt) in
    let x2 = if e.desc == 0 then x1 else note x1 (freed e.desc) in
    let x3 = if e.cyclic_result == 0 then x2 else note x2 (freed e.cyclic_result) in
    (x3, record e { poll_mode_addr_virt = 0; desc = 0; cyclic_result = 0 })

-- An engine with streams from the device has memory for their results.
abbrev pub wants_results : SgEngine → Bool
wants_results e = e.streaming && is_c2h e.dir

-- Its exit `err_out`.
abbrev pub out_of_memory : Xdev → SgEngine → Rv × Xdev × SgEngine
out_of_memory x e = let (x', e') = engine_free_resource x e in (err enomem, x', e')

-- `engine_alloc_resource`, from its last allocation on.
unfoldable pub alloc_results : DevHost → Xdev → SgEngine → Rv × Xdev × SgEngine
unfolding engine_free_resource
alloc_results h x e =
    let (r, x') = dma_alloc_coherent h x (e.desc_max * result_size) in
    let e' = record e { cyclic_result = r.0; cyclic_result_bus = r.1 } in
    if not (wants_results e)
    then (ok, x, e)
    else if e'.cyclic_result == 0
    then out_of_memory x' e'
    else (ok, x', e')

-- From its second allocation on.
unfoldable pub alloc_writeback : DevHost → Xdev → SgEngine → Rv × Xdev × SgEngine
unfolding alloc_results
alloc_writeback h x e =
    let (w, x') = dma_alloc_coherent h x poll_wb_size in
    let e' = record e { poll_mode_addr_virt = w.0; poll_mode_bus = w.1 } in
    if not h.poll_mode
    then alloc_results h x e
    else if e'.poll_mode_addr_virt == 0
    then out_of_memory x' e'
    else alloc_results h x' e'

-- `engine_alloc_resource`
unfoldable pub engine_alloc_resource : DevHost → Xdev → SgEngine → Rv × Xdev × SgEngine
unfolding alloc_writeback
engine_alloc_resource h x e =
    let (d, x') = dma_alloc_coherent h x (e.desc_max * desc_size) in
    let e' = record e { desc = d.0; desc_bus = d.1 } in
    if e'.desc == 0 then out_of_memory x' e' else alloc_writeback h x' e'

-- What `engine_init` sets before it asks for memory, with the identifier that it read.
unfoldable pub new_engine : DevHost → Xdev → SgEngine → ℕ → ℕ → Dir → ℕ → SgEngine
new_engine h x e val offset dir channel =
    let streaming = e.streaming || has val 0x8000 in
    let bits = (2 ^ xdma_eng_irq_num - 1) * 2 ^ (x.engines_num * xdma_eng_irq_num) % 2 ^ 32 in
    record e {
      magic = true;
      channel = channel % 4;
      irq_bitmask = bits;
      bypass_offset = x.engines_num * Offset.bypass_mode_spacing;
      regs = config_bar x + offset;
      sgdma_regs = config_bar x + offset + Offset.sgdma_offset_from_channel;
      streaming = streaming;
      dir = dir;
      desc_max = if h.enable_st_c2h_credit && streaming && is_c2h dir then 0x3ff else 0x800;
    }

-- The device knows the engine's interrupt and counts it.
abbrev pub counted : Xdev → Dir → SgEngine → Xdev
counted x dir e = record x {
  mask_irq = put_dir x.mask_irq dir (bit_or (x.mask_irq dir) e.irq_bitmask);
  engines_num = x.engines_num + 1;
}

-- The end of `engine_init`, after the allocation.
unfoldable pub set_up : DevHost → Dir → ℕ → Rv × Xdev × SgEngine → Rv × Xdev × SgEngine
unfolding engine_init_regs
set_up h dir channel (err c, x, e) = (err c, x, e)
set_up h dir channel (ok, x, e) =
    let (x', e') = engine_init_regs h x e in
    (ok, if h.poll_mode then note x' (added_work dir channel) else x', e')

-- `engine_init`
unfoldable pub engine_init : DevHost → Xdev → SgEngine → ℕ → Dir → ℕ → Rv × Xdev × SgEngine
unfolding new_engine engine_alloc_resource set_up
engine_init h x e offset dir channel =
    let (val, x1) = dev_read h x (config_bar x + offset + Offset.identifier) in
    let e' = new_engine h x e val offset dir channel in
    set_up h dir channel (engine_alloc_resource h (counted x1 dir e') e')

-- `memset(engine, 0, sizeof(struct xdma_engine))`. A direction of 0 is no direction of an engine, and the model
-- keeps the direction.
abbrev pub zeroed : Dir → SgEngine
zeroed dir = record {
  magic = false;
  channel = 0;
  dir = dir;
  streaming = false;
  irq_bitmask = 0;
  bypass_offset = 0;
  regs = 0;
  sgdma_regs = 0;
  desc_max = 0;
  addr_align = 0;
  len_granularity = 0;
  addr_bits = 0;
  interrupt_enable_mask_value = 0;
  msix_irq_line = 0;
  desc = 0;
  desc_bus = 0;
  poll_mode_addr_virt = 0;
  poll_mode_bus = 0;
  cyclic_result = 0;
  cyclic_result_bus = 0;
}

-- `engine_destroy` of the engine of a direction and an index.
unfoldable pub engine_destroy : DevHost → Xdev → SgEngine → Dir → ℕ → Xdev × SgEngine
unfolding engine_free_resource
engine_destroy h x e dir i =
    let x1 = dev_write x 0 (e.regs + Offset.interrupt_enable_mask) in
    let x2 =
      if on_credit h e
      then dev_write x1 (credit_word e)
          (config_bar x1 + (Offset.sgdma_common + Offset.credit_mode_enable_w1c))
      else x1 in
    let x3 = if h.poll_mode then note x2 (removed_work dir i) else x2 in
    let (x4, e') = engine_free_resource x3 e in
    (record x4 { engines_num = x4.engines_num - 1 }, zeroed dir)
