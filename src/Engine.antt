-- ===== src/Engine.antt =====
-- xdma/libxdma.h and libxdma.c, the DMA engine: its state, the registers that it reads and writes,
-- and the transfers that it works on. The operations stand in the modules below.
--
-- What the code reads from the device (registers, result descriptors) is a function in `Host`; the
-- n-th register read of a history is `read n`. What it does to the outside (register writes, wake-ups,
-- completion callbacks) is the list `log`, newest first. Pointers to transfers are numbers, and
-- `xfers` is the memory behind them, which the submitting threads read too. Flags and `|=` bits are
-- Booleans. Each function runs under the engine's lock, so it is one step on this state.
pub mod Control
pub mod Device
pub mod Service
pub mod Poll
pub mod Queued
pub mod History
pub mod Wakes
pub mod Complete
pub mod Submit
use xdma_fpga.Base.{ℕ, ◌+◌, Bool, List, ◌∷◌, ◌==◌, if◌then◌else◌}
use xdma_fpga.Hw.{Dir}

-- The registers of `struct engine_regs` and `struct engine_sgdma_regs` that are used.
pub data Reg : Type 0 where
  identifier control status status_rc completed_desc_count interrupt_enable_mask : Reg
  first_desc_lo first_desc_hi first_desc_adjacent credits : Reg

pub data Event : Type 0 where
  -- `write_register`
  wrote : Reg → ℕ → Event
  -- the poll-mode writeback word is set to 0
  cleared_wb : Event
  -- `xlx_wake_up` of a transfer's, the shutdown and the performance wait queue
  woke : ℕ → Event
  woke_shutdown woke_perf : Event
  -- the callback `cb->io_done`, with error 0
  io_done : ℕ → Event

-- Module parameters and the device's answers.
pub record Host : Type 0 where
  pub poll_mode : Bool
  pub enable_st_c2h_credit : Bool
  pub read : ℕ → Reg → ℕ
  -- the status word of a transfer's i-th result descriptor
  pub result_status : ℕ → ℕ → ℕ

-- `enum transfer_state`
pub data TransferState : Type 0 where
  new submitted completed failed aborted : TransferState

-- `struct xdma_transfer`. `eop_rcved` is a bit of `flags`; `has_cb` is `cb != NULL`.
pub record Transfer : Type 0 where
  pub desc_bus : ℕ
  pub desc_adjacent : ℕ
  pub desc_num : ℕ
  pub desc_cmpl : ℕ
  pub state : TransferState
  pub eop_rcved : Bool
  pub cyclic : Bool
  pub last_in_request : Bool
  pub has_cb : Bool

-- `struct xdma_performance_ioctl`, the fields that the service routine writes.
pub record Perf : Type 0 where
  pub running : Bool
  pub iterations : ℕ
  pub stopped : Bool

-- `struct xdma_engine`. `perf.running` is `xdma_perf != NULL`.
pub record Engine : Type 0 where
  pub running : Bool
  pub shutdown_request : Bool
  pub shutdown_idle : Bool
  pub status : ℕ
  pub dir : Dir
  pub streaming : Bool
  pub eop_flush : Bool
  pub non_incr_addr : Bool
  pub perf : Perf
  pub desc_dequeued : ℕ
  pub desc_used : ℕ
  pub transfer_list : List ℕ
  pub xfers : ℕ → Transfer
  pub reads : ℕ
  pub log : List Event

-- A store into the memory of transfers.
abbrev pub update : (ℕ → Transfer) → ℕ → Transfer → ℕ → Transfer
update m p t q = if q == p then t else m q

abbrev pub emit : Engine → Event → Engine
emit e ev = record e { log = ev ∷ e.log }

-- `write_register`
abbrev pub write_register : Engine → ℕ → Reg → Engine
write_register e value reg = emit e (Event.wrote reg value)

-- `read_register`: the value, and the engine with one read more behind it.
abbrev pub read_register : Host → Engine → Reg → ℕ × Engine
read_register h e reg = (h.read e.reads reg, record e { reads = e.reads + 1 })
