-- ===== src/Engine/Device.antt =====
-- The device as the driver's register writes show it: the bits of the SG DMA registers that decide
-- whether the engine runs, and from which descriptor. An independent reading of the log of writes.
pub mod Mirror
pub mod Fetch
use xdma_fpga.Base.{ℕ, Bool, true, false, List, [], ◌∷◌, ◌≡◌, has}
use xdma_fpga.Hw.Ctrl
use xdma_fpga.Engine.{
  Engine, Event, Reg, wrote, control, first_desc_lo, first_desc_hi, first_desc_adjacent,
}

-- `run` follows the RUN bit; the address and the count are those of the first descriptor.
pub record Device : Type 0 where
  pub run : Bool
  pub lo : ℕ
  pub hi : ℕ
  pub adjacent : ℕ

abbrev pub on_write : Device → Reg → ℕ → Device
on_write d control v = record d { run = has v Ctrl.run_stop }
on_write d first_desc_lo v = record d { lo = v }
on_write d first_desc_hi v = record d { hi = v }
on_write d first_desc_adjacent v = record d { adjacent = v }
on_write d r v = d

abbrev pub on_event : Device → Event → Device
on_event d (wrote r v) = on_write d r v
on_event d ev = d

-- The device after all events of a log (newest first).
abbrev pub replay : Device → List Event → Device
replay d [] = d
replay d (ev ∷ older) = on_event (replay d older) ev

-- The driver's `running` flag and the RUN bit of the device agree.
abbrev pub Mirrors : Device → Engine → Type 0
Mirrors d e = (replay d e.log).run ≡ e.running
