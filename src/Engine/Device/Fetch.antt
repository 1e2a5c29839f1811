-- ===== src/Engine/Device/Fetch.antt =====
-- What `engine_start` of libxdma.c makes the device do: run from the head transfer's descriptors.
use xdma_fpga.Base.{ℕ, ◌+◌, ◌*◌, ◌^◌, ◌<◌, true, false, List, ◌∷◌, some, ◌≡◌, arith}
use xdma_fpga.Hw.{pci_dma_h, pci_dma_l, pci_dma_halves}
use xdma_fpga.Desc.{xdma_get_next_adj}
use xdma_fpga.Engine.{Engine, Host}
use xdma_fpga.Engine.Control.{engine_start}
use xdma_fpga.Engine.Device.{Device, replay}
use xdma_fpga.Engine.Device.Mirror.{start_word_runs}

-- The device runs from the descriptor at `bus`, with `adj` adjacent descriptors behind it.
pub record RunsAt (d : Device) (bus adj : ℕ) : Type 0 where
  pub run : d.run ≡ true
  pub address : d.hi * 2 ^ 32 + d.lo ≡ bus
  pub adjacent : d.adjacent ≡ adj

start_halves :
    (h : Host) (d : Device) (e : Engine) (p : ℕ) (ps : List ℕ)
    → e.running ≡ false
    → e.transfer_list ≡ p ∷ ps
    → let t = e.xfers p in
      let (started, e') = engine_start h e in
      let d' = replay d e'.log in
      (started ≡ some p)
      × (d'.run ≡ true)
      × (d'.hi ≡ pci_dma_h t.desc_bus)
      × (d'.lo ≡ pci_dma_l t.desc_bus)
      × (d'.adjacent ≡ xdma_get_next_adj t.desc_adjacent (pci_dma_l t.desc_bus))
unfolding engine_start
start_halves h d e p ps r q = ground (arith, start_word_runs h e.non_incr_addr)

-- An idle engine with a queued transfer starts: the call returns the head, and whatever the device's
-- registers held before, the device then runs from the bus address of the head's first descriptor.
pub start-RunsAt :
    (h : Host) (d : Device) (e : Engine) (p : ℕ) (ps : List ℕ)
    → e.running ≡ false
    → e.transfer_list ≡ p ∷ ps
    → (e.xfers p).desc_bus < 2 ^ 64
    → let t = e.xfers p in
      let (started, e') = engine_start h e in
      (started ≡ some p)
      × RunsAt
          (replay d e'.log)
          t.desc_bus
          (xdma_get_next_adj t.desc_adjacent (pci_dma_l t.desc_bus))
start-RunsAt h d e p ps r q b =
    let k = start_halves h d e p ps r q in
    (
      k.0,
      record {
        run = k.1;
        address = rw (k.2, k.3) (pci_dma_halves (e.xfers p).desc_bus b);
        adjacent = k.4;
      },
    )
