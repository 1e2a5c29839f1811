-- ===== src/Engine/History/Work.antt =====
-- When an engine of libxdma.c runs: after a service routine that found completed descriptors exactly
-- while transfers are queued, and never on an empty queue.
use xdma_fpga.Base.{ℕ, bit_and, sub32, true, false, not, ◌≡◌, arith, is_empty, Rv}
use xdma_fpga.Hw.{wb_count_mask, wb_err_mask}
use xdma_fpga.Engine.{Engine, Host}
use xdma_fpga.Engine.Service.{
  perf_of_queue, engine_service_transfer_list, engine_service_final_transfer, engine_service_resume,
  service_prologue, service_transfers, engine_service,
}
use xdma_fpga.Engine.Device.Mirror.{status_read_keeps}

abbrev pub HasWork : Engine → Type 0
HasWork e = e.running ≡ true → is_empty e.transfer_list ≡ false

-- `engine_service_resume` runs the engine exactly if a transfer is queued, and its error return is
-- never taken.
pub resume_runs_iff :
    (h : Host) (e : Engine)
    → let (rv, e') = engine_service_resume h e in
      (e'.running ≡ not (is_empty e'.transfer_list)) × (rv ≡ Rv.ok)
unfolding engine_service_resume
resume_runs_iff h e = (ground arith, ground arith)

-- After `engine_service` has serviced the transfers, whatever the device answers, the engine runs
-- exactly if a transfer is queued.
pub transfers_runs_iff :
    (h : Host) (e : Engine) (n : ℕ)
    → let e' = service_transfers h e n in e'.running ≡ not (is_empty e'.transfer_list)
unfolding service_transfers
transfers_runs_iff h e n =
    let e1 = perf_of_queue e n in
    let r = engine_service_transfer_list e1 (sub32 n e1.desc_dequeued) in
    (resume_runs_iff h (engine_service_final_transfer h r.0 r.1)).0

-- The engine only stops before the descriptor count is known.
pub prologue_stops :
    (h : Host) (e : Engine) (n err : ℕ)
    → let e' = (service_prologue h e n err).0 in
      ((e'.running ≡ true) → e.running ≡ true) × (e'.transfer_list ≡ e.transfer_list)
unfolding service_prologue
prologue_stops h e n err = (ground arith, ground arith)

pub engine_service-HasWork :
    (h : Host) (e : Engine) (wb : ℕ) → HasWork e → HasWork (engine_service h e wb).1
unfolding engine_service
engine_service-HasWork h e wb w =
    let c = bit_and wb wb_count_mask in
    let x = bit_and wb wb_err_mask in
    let e' = (service_prologue h e c x).0 in
    let n = (service_prologue h e c x).1 in
    ground
      (arith, status_read_keeps h e true false, prologue_stops h e c x, transfers_runs_iff h e' n)
