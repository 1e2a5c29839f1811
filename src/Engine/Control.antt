-- ===== src/Engine/Control.antt =====
-- xdma/libxdma.c, starting and stopping an engine: `engine_status_read`, `xdma_engine_stop`,
-- `engine_start_mode_config`, `engine_start`, `engine_service_shutdown`.
use xdma_fpga.Base.{
  ℕ, ◌+◌, bit_and, bit_or, Bool, true, false, ◌&&◌, ◌==◌, Option, none, some, [], ◌∷◌, Rv, ok, err,
  einval, is_err, if◌then◌else◌,
}
use xdma_fpga.Hw.{Dir, to_device, from_device, pci_dma_h, pci_dma_l}
use xdma_fpga.Hw.Ctrl
use xdma_fpga.Desc.{xdma_get_next_adj}
use xdma_fpga.Engine.{
  Engine, Host, Event, Transfer, write_register, read_register, emit, woke_shutdown, identifier,
  status, status_rc, control, credits, first_desc_lo, first_desc_hi, first_desc_adjacent,
  interrupt_enable_mask,
}

-- `dir == DMA_FROM_DEVICE`
abbrev pub is_from_device : Dir → Bool
is_from_device from_device = true
is_from_device to_device = false

module _ (h : Host) where
  -- `engine_reg_dump`: it fails on a wrong identifier, and otherwise reads seven registers more.
  unfoldable pub engine_reg_dump : Engine → Rv × Engine
  engine_reg_dump e =
      let (w, e') = read_register h e identifier in
      if bit_and w 0xfff0_0000 == 0x1fc0_0000
      then (ok, record e' { reads = e'.reads + 7 })
      else (err einval, e')

  -- `engine_status_read`
  unfoldable pub engine_status_read : Engine → Bool → Bool → Rv × Engine
  unfolding engine_reg_dump
  engine_status_read e clear dump =
      let (rv, e') = if dump then engine_reg_dump e else (ok, e) in
      let (w, e'') = read_register h e' (if clear then status_rc else status) in
      if is_err rv then (rv, e') else (ok, record e'' { status = w })

  -- The word that `xdma_engine_stop` writes to the control register.
  abbrev pub stop_word : ℕ
  stop_word =
      bit_or
        (bit_or (bit_or Ctrl.ie_desc_align_mismatch Ctrl.ie_magic_stopped)
          (bit_or Ctrl.ie_read_error Ctrl.ie_desc_error))
        (if h.poll_mode
          then Ctrl.poll_mode_wb
          else bit_or Ctrl.ie_desc_stopped Ctrl.ie_desc_completed)

  abbrev pub uses_credit : Engine → Bool
  uses_credit e = h.enable_st_c2h_credit && e.streaming && is_from_device e.dir

  -- `xdma_engine_stop`
  unfoldable pub xdma_engine_stop : Engine → Engine
  xdma_engine_stop e =
      let e' = if uses_credit e then write_register e 0 credits else e in
      record e' { log = Event.wrote control stop_word ∷ e'.log; running = false }

  -- The word that `engine_start_mode_config` writes to the control register.
  abbrev pub start_word : Bool → ℕ
  start_word non_incr =
      bit_or
        (bit_or
          (bit_or (bit_or Ctrl.run_stop (bit_or Ctrl.ie_read_error Ctrl.ie_desc_error))
            (bit_or Ctrl.ie_desc_align_mismatch Ctrl.ie_magic_stopped))
          (if h.poll_mode
            then Ctrl.poll_mode_wb
            else bit_or Ctrl.ie_desc_stopped Ctrl.ie_desc_completed))
        (if non_incr then Ctrl.non_incr_addr else 0)

  abbrev pub perf_word : ℕ
  perf_word =
      bit_or
        (bit_or (bit_or Ctrl.ie_desc_stopped Ctrl.ie_desc_completed)
          (bit_or Ctrl.ie_desc_align_mismatch Ctrl.ie_magic_stopped))
        (bit_or (bit_or Ctrl.ie_idle_stopped Ctrl.ie_read_error) Ctrl.ie_desc_error)

  -- `engine_start_mode_config`; the last read only flushes the writes.
  unfoldable pub engine_start_mode_config : Engine → Engine
  engine_start_mode_config e =
      let e' = if e.perf.running then write_register e perf_word interrupt_enable_mask else e in
      let e'' = write_register e' (start_word e.non_incr_addr) control in
      (read_register h e'' status).1

  -- The writes of `engine_start` that tell the device where the first descriptor is.
  unfoldable pub program_first_desc : Engine → Transfer → Engine
  program_first_desc e t =
      let e1 = if uses_credit e then write_register e e.desc_used credits else e in
      let e2 =
        write_register (record e1 { desc_dequeued = 0 }) (pci_dma_l t.desc_bus) first_desc_lo in
      let e3 = write_register e2 (pci_dma_h t.desc_bus) first_desc_hi in
      write_register e3 (xdma_get_next_adj t.desc_adjacent (pci_dma_l t.desc_bus))
        first_desc_adjacent

  -- `engine_start`: the transfer that the engine now runs on, or `none` (NULL). The transfer pointer
  -- that `list_entry` gives is never NULL.
  unfoldable pub engine_start : Engine → Option ℕ × Engine
  unfolding program_first_desc engine_start_mode_config engine_status_read
  engine_start e = if e.running then (none, e) else elim e.transfer_list [
    | [] ↦ (none, e)
    | p ∷ _ ↦
        let e1 = record e { shutdown_request = false; shutdown_idle = false } in
        let e2 = engine_start_mode_config (program_first_desc e1 (e.xfers p)) in
        let e3 = (engine_status_read e2 false false).1 in (some p, record e3 { running = true })
  ]

  -- `engine_service_shutdown`
  unfoldable pub engine_service_shutdown : Engine → Engine
  unfolding xdma_engine_stop
  engine_service_shutdown e = emit (xdma_engine_stop e) woke_shutdown
