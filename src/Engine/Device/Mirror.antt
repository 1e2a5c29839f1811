-- ===== src/Engine/Device/Mirror.antt =====
-- The flag `running` of libxdma.c mirrors the RUN bit that the driver wrote last.
use xdma_fpga.Base.{ℕ, ◌-◌, bit_and, sub32, Bool, true, false, List, [], ◌∷◌, ◌≡◌, arith, has}
use xdma_fpga.Hw.{wb_count_mask, wb_err_mask}
use xdma_fpga.Engine.{Engine, Host}
use xdma_fpga.Engine.Control.{
  start_word, stop_word, engine_start, xdma_engine_stop, engine_service_shutdown,
  engine_status_read,
}
use xdma_fpga.Engine.Service.{
  engine_transfer_completion, complete_head, transfer_list_loop, engine_service_transfer_list,
  engine_err_handle, final_outcome, final_transfer_of, engine_service_final_transfer, perf_of_queue,
  engine_service_resume, service_prologue, service_transfers, engine_service,
}
use xdma_fpga.Engine.Device.{Device, Mirrors}

pub start_word_runs : (h : Host) (b : Bool) → has (start_word h b) 1 ≡ true
start_word_runs h b = ground arith

stop_word_stops : (h : Host) → has (stop_word h) 1 ≡ false
stop_word_stops h = ground arith

pub stop-Mirrors : (h : Host) (d : Device) (e : Engine) → Mirrors d (xdma_engine_stop h e)
unfolding xdma_engine_stop
stop-Mirrors h d e = ground (arith, stop_word_stops h)

pub start-Mirrors :
    (h : Host) (d : Device) (e : Engine) → Mirrors d e → Mirrors d (engine_start h e).1
unfolding engine_start
start-Mirrors h d e m = ground (arith, start_word_runs h e.non_incr_addr)

pub shutdown-Mirrors :
    (h : Host) (d : Device) (e : Engine) → Mirrors d (engine_service_shutdown h e)
unfolding engine_service_shutdown
shutdown-Mirrors h d e = stop-Mirrors h d e

-- Reading the status changes neither the log nor the flag.
pub status_read_keeps :
    (h : Host) (e : Engine) (clear dump : Bool)
    → let e' = (engine_status_read h e clear dump).1 in
      (e'.log ≡ e.log)
      × (e'.running ≡ e.running)
      × (e'.transfer_list ≡ e.transfer_list)
      × (e'.xfers ≡ e.xfers)
unfolding engine_status_read
status_read_keeps h e clear dump = ground arith

completion-Mirrors :
    (d : Device) (e : Engine) (p : ℕ) → Mirrors d e → Mirrors d (engine_transfer_completion e p)
unfolding engine_transfer_completion
completion-Mirrors d e p m = ground arith

complete_head-Mirrors :
    (d : Device) (e : Engine) (p : ℕ) (ps : List ℕ) → Mirrors d e → Mirrors d (complete_head e p ps)
unfolding complete_head
complete_head-Mirrors d e p ps m = ground arith

transfer_list_loop-Mirrors :
    (d : Device) (e : Engine) (ps : List ℕ) (n : ℕ)
    → Mirrors d e
    → Mirrors d (transfer_list_loop e ps n).0
unfolding transfer_list_loop
transfer_list_loop-Mirrors d e [] n m = m
transfer_list_loop-Mirrors d e (p ∷ ps) n m = ground (
  arith,
  complete_head-Mirrors d e p ps m,
  transfer_list_loop-Mirrors d (complete_head e p ps) ps (n - (e.xfers p).desc_num),
)

err_handle-Mirrors :
    (h : Host) (d : Device) (e : Engine) (p : ℕ) → Mirrors d (engine_err_handle h e p)
unfolding engine_err_handle
err_handle-Mirrors h d e p = ground (arith, stop_word_stops h)

final_outcome-Mirrors :
    (h : Host) (d : Device) (e : Engine) (p n : ℕ)
    → Mirrors d e
    → Mirrors d (final_outcome h e p n).1
unfolding final_outcome
final_outcome-Mirrors h d e p n m = ground (arith, err_handle-Mirrors h d e p)

final_transfer_of-Mirrors :
    (h : Host) (d : Device) (e : Engine) (ps : List ℕ) (n : ℕ)
    → Mirrors d e
    → Mirrors d (final_transfer_of h e ps n)
unfolding final_transfer_of
final_transfer_of-Mirrors h d e [] n m = m
final_transfer_of-Mirrors h d e (p ∷ ps) n m = ground (
  arith,
  final_outcome-Mirrors h d e p n m,
  completion-Mirrors d (record (final_outcome h e p n).1 { transfer_list = ps }) p,
)

perf-Mirrors : (d : Device) (e : Engine) (n : ℕ) → Mirrors d e → Mirrors d (perf_of_queue e n)
unfolding perf_of_queue
perf-Mirrors d e n m = ground arith

pub resume-Mirrors :
    (h : Host) (d : Device) (e : Engine) → Mirrors d e → Mirrors d (engine_service_resume h e).1
unfolding engine_service_resume
resume-Mirrors h d e m = ground (arith, start-Mirrors h d e m, shutdown-Mirrors h d e)

pub prologue-Mirrors :
    (h : Host) (d : Device) (e : Engine) (n err : ℕ)
    → Mirrors d e
    → Mirrors d (service_prologue h e n err).0
unfolding service_prologue
prologue-Mirrors h d e n err m = ground (
  arith,
  status_read_keeps h e true false,
  shutdown-Mirrors h d e,
  shutdown-Mirrors h d (engine_status_read h e true false).1,
)

transfer_list-Mirrors :
    (d : Device) (e : Engine) (n : ℕ) → Mirrors d e → Mirrors d (engine_service_transfer_list e n).0
unfolding engine_service_transfer_list
transfer_list-Mirrors d e n m = transfer_list_loop-Mirrors d e e.transfer_list n m

final_transfer-Mirrors :
    (h : Host) (d : Device) (e : Engine) (n : ℕ)
    → Mirrors d e
    → Mirrors d (engine_service_final_transfer h e n)
unfolding engine_service_final_transfer
final_transfer-Mirrors h d e n m = final_transfer_of-Mirrors h d e e.transfer_list n m

pub service_transfers-Mirrors :
    (h : Host) (d : Device) (e : Engine) (n : ℕ) → Mirrors d e → Mirrors d (service_transfers h e n)
unfolding service_transfers
service_transfers-Mirrors h d e n m =
    let e1 = perf_of_queue e n in
    let r = engine_service_transfer_list e1 (sub32 n e1.desc_dequeued) in
    resume-Mirrors h d (engine_service_final_transfer h r.0 r.1) (
      final_transfer-Mirrors h d r.0 r.1
        (transfer_list-Mirrors d e1 (sub32 n e1.desc_dequeued) (perf-Mirrors d e n m)))

pub engine_service-Mirrors :
    (h : Host) (d : Device) (e : Engine) (wb : ℕ)
    → Mirrors d e
    → Mirrors d (engine_service h e wb).1
unfolding engine_service
engine_service-Mirrors h d e wb m =
    let c = bit_and wb wb_count_mask in
    let x = bit_and wb wb_err_mask in
    let e' = (service_prologue h e c x).0 in
    ground (
      arith,
      status_read_keeps h e true false,
      prologue-Mirrors h d e c x m,
      service_transfers-Mirrors h d e' (service_prologue h e c x).1,
    )
