-- ===== src/Engine/Poll.antt =====
-- xdma/libxdma.c, poll mode: `engine_service_wb_monitor` and `engine_service_poll`.
--
-- One round of the loop sees a value of the writeback word and the answer of `time_after`. The rounds
-- are a function of their index; the loop has fuel, and `none` means that it ran out.
pub mod Monitor
use xdma_fpga.Base.{
  ℕ, zero, suc, ◌+◌, bit_and, bit_or, Bool, ◌||◌, ◌==◌, Option, none, some, Rv, ok, if◌then◌else◌,
  ltb, leb, has,
}
use xdma_fpga.Hw.{wb_count_mask, wb_err_mask}
use xdma_fpga.Engine.{Engine, Host, cleared_wb, emit}
use xdma_fpga.Engine.Service.{engine_service}

pub record Round : Type 0 where
  pub desc_wb : ℕ
  pub timed_out : Bool

-- The value with which a round on timeout leaves the loop.
unfoldable pub on_timeout : ℕ → ℕ → ℕ
on_timeout desc_wb expected_wb =
    if ltb expected_wb (bit_and desc_wb wb_count_mask)
    then bit_or expected_wb wb_err_mask
    else desc_wb

-- The loop of `engine_service_wb_monitor` from round `i` on.
unfoldable pub wb_monitor_loop : ℕ → (ℕ → Round) → ℕ → ℕ → Engine → Option (ℕ × Engine)
unfolding on_timeout
wb_monitor_loop zero rounds expected_wb i e = none
wb_monitor_loop (suc fuel) rounds expected_wb i e =
    let desc_wb = (rounds i).desc_wb in
    let e' = if desc_wb == 0 then e else emit e cleared_wb in
    let again = wb_monitor_loop fuel rounds expected_wb (i + 1) e' in
    if has desc_wb wb_err_mask || leb expected_wb desc_wb
    then some (desc_wb, e')
    else if (rounds i).timed_out
    then some (on_timeout desc_wb expected_wb, e')
    else again

-- `engine_service_wb_monitor`; cyclic transfers expect 0 and skip the loop.
unfoldable pub engine_service_wb_monitor : ℕ → (ℕ → Round) → Engine → ℕ → Option (ℕ × Engine)
unfolding wb_monitor_loop
engine_service_wb_monitor fuel rounds e expected_wb =
    let looped = wb_monitor_loop fuel rounds expected_wb 0 e in
    if expected_wb == 0 then some (0, e) else looped

-- `engine_service_poll` behind the monitor: service the engine if a count was written back.
unfoldable pub serve_writeback : Host → Option (ℕ × Engine) → Option (Rv × Engine)
serve_writeback h none = none
serve_writeback h (some (desc_wb, e)) =
    if desc_wb == 0 then some (ok, e) else some (engine_service h e desc_wb)

-- `engine_service_poll`. The magic number of an engine is never wrong here.
unfoldable pub engine_service_poll : Host → ℕ → (ℕ → Round) → Engine → ℕ → Option (Rv × Engine)
engine_service_poll h fuel rounds e expected =
    serve_writeback h (engine_service_wb_monitor fuel rounds e expected)
