-- ===== src/Engine/Wakes.antt =====
-- Who is woken by `engine_service` of libxdma.c: exactly those whose transfers leave the queue.
use xdma_fpga.Base.{
  ℕ, ◌+◌, ◌-◌, bit_and, sub32, Bool, true, false, List, [], ◌∷◌, ◌==◌, ◌≡◌, arith, if◌then◌else◌,
  ◌∙◌, refl,
}
use xdma_fpga.Hw.{wb_count_mask, wb_err_mask}
use xdma_fpga.Engine.{Engine, Host, Event, woke}
use xdma_fpga.Engine.Control.{engine_start, engine_service_shutdown, engine_status_read}
use xdma_fpga.Engine.Service.{
  engine_transfer_completion, complete_head, transfer_list_loop, engine_service_transfer_list,
  final_outcome, final_transfer_of, engine_service_final_transfer, perf_of_queue,
  engine_service_resume, service_prologue, service_transfers, engine_service,
}
use xdma_fpga.Engine.Queued.Kept.{final_outcome-transfer_list}

-- How often `p` stands on a queue.
abbrev pub occurs : ℕ → List ℕ → ℕ
occurs p [] = 0
occurs p (q ∷ qs) = (if q == p then 1 else 0) + occurs p qs

abbrev pub wakes_of : ℕ → Event → ℕ
wakes_of p (woke q) = if q == p then 1 else 0
wakes_of p ev = 0

-- How often the waiter of `p` was woken.
abbrev pub wakes : ℕ → List Event → ℕ
wakes p [] = 0
wakes p (ev ∷ log) = wakes_of p ev + wakes p log

-- Wake-ups and queue entries of `p` together.
abbrev pub account : Engine → ℕ → ℕ
account e p = wakes p e.log + occurs p e.transfer_list

start_account : (h : Host) (e : Engine) (q : ℕ) → account (engine_start h e).1 q ≡ account e q
unfolding engine_start
start_account h e q = ground arith

shutdown_account :
    (h : Host) (e : Engine) (q : ℕ) → account (engine_service_shutdown h e) q ≡ account e q
unfolding engine_service_shutdown
shutdown_account h e q = ground arith

complete_head-account :
    (e : Engine) (p : ℕ) (ps : List ℕ) (q : ℕ)
    → account (complete_head e p ps) q ≡ wakes q e.log + occurs q (p ∷ ps)
unfolding complete_head
complete_head-account e p ps q = ground arith

pub complete_head-transfer_list :
    (e : Engine) (p : ℕ) (ps : List ℕ) → (complete_head e p ps).transfer_list ≡ ps
unfolding complete_head
complete_head-transfer_list e p ps = ground arith

loop_account :
    (e : Engine) (ps : List ℕ) (n q : ℕ)
    → e.transfer_list ≡ ps
    → account (transfer_list_loop e ps n).0 q ≡ account e q
unfolding transfer_list_loop
loop_account e [] n q l = refl
loop_account e (p ∷ ps) n q l = ground (
  arith,
  loop_account (complete_head e p ps) ps (n - (e.xfers p).desc_num) q
      (complete_head-transfer_list e p ps),
  complete_head-account e p ps q,
)

outcome_wakes :
    (h : Host) (e : Engine) (p n q : ℕ) → wakes q (final_outcome h e p n).1.log ≡ wakes q e.log
unfolding final_outcome
outcome_wakes h e p n q = ground arith

final_account :
    (h : Host) (e : Engine) (ps : List ℕ) (n q : ℕ)
    → e.transfer_list ≡ ps
    → account (final_transfer_of h e ps n) q ≡ account e q
unfolding final_transfer_of engine_transfer_completion
final_account h e [] n q l = refl
final_account h e (p ∷ ps) n q l =
    ground (arith, outcome_wakes h e p n q, final_outcome-transfer_list h e p n)

perf_account : (e : Engine) (n q : ℕ) → account (perf_of_queue e n) q ≡ account e q
unfolding perf_of_queue
perf_account e n q = ground arith

resume_account :
    (h : Host) (e : Engine) (q : ℕ) → account (engine_service_resume h e).1 q ≡ account e q
unfolding engine_service_resume
resume_account h e q = ground (arith, start_account h e q, shutdown_account h e q)

status_read_account :
    (h : Host) (e : Engine) (clear dump : Bool) (q : ℕ)
    → account (engine_status_read h e clear dump).1 q ≡ account e q
unfolding engine_status_read
status_read_account h e clear dump q = ground arith

prologue_account :
    (h : Host) (e : Engine) (n err q : ℕ) → account (service_prologue h e n err).0 q ≡ account e q
unfolding service_prologue
prologue_account h e n err q = ground (
  arith,
  status_read_account h e true false q,
  shutdown_account h e q,
  shutdown_account h (engine_status_read h e true false).1 q,
)

transfers_account :
    (h : Host) (e : Engine) (n q : ℕ) → account (service_transfers h e n) q ≡ account e q
unfolding service_transfers engine_service_transfer_list engine_service_final_transfer
transfers_account h e n q =
    let e1 = perf_of_queue e n in
    let r = transfer_list_loop e1 e1.transfer_list (sub32 n e1.desc_dequeued) in
    resume_account h (final_transfer_of h r.0 r.0.transfer_list r.1) q
    ∙ final_account h r.0 r.0.transfer_list r.1 q refl
    ∙ loop_account e1 e1.transfer_list (sub32 n e1.desc_dequeued) q refl
    ∙ perf_account e n q

-- A service call takes a transfer off the queue exactly as often as it wakes its waiter, whatever the
-- device answers: no waiter is forgotten, and none is woken for a transfer that stays.
pub service_account :
    (h : Host) (e : Engine) (wb q : ℕ) → account (engine_service h e wb).1 q ≡ account e q
unfolding engine_service
service_account h e wb q =
    let c = bit_and wb wb_count_mask in
    let x = bit_and wb wb_err_mask in
    ground (
      arith,
      status_read_account h e true false q,
      prologue_account h e c x q,
      transfers_account h (service_prologue h e c x).0 (service_prologue h e c x).1 q,
    )
