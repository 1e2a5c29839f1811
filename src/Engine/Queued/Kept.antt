-- ===== src/Engine/Queued/Kept.antt =====
-- `engine_service` of libxdma.c keeps the queue a queue of waiting transfers.
use xdma_fpga.Base.{
  ℕ, ◌-◌, bit_and, sub32, true, false, List, [], ◌∷◌, ◌≡◌, arith, subst, sym, refl, inl, inr, ◌∙◌,
  ◌≢◌, ◌==◌, Bool-cases, Rv, not, ◌&&◌, ltb, if_both,
}
use mathlib.Core.Path.{subst₂}
use xdma_fpga.Hw.{wb_count_mask, wb_err_mask}
use xdma_fpga.Engine.{Engine, Host, TransferState}
use xdma_fpga.Engine.Control.{
  engine_start, xdma_engine_stop, engine_service_shutdown, engine_status_read,
}
use xdma_fpga.Engine.Service.{
  engine_transfer_completion, complete_head, transfer_list_loop, engine_service_transfer_list,
  final_outcome, final_transfer_of, engine_service_final_transfer, perf_of_queue,
  engine_service_resume, service_prologue, service_transfers, engine_service,
}
use xdma_fpga.Engine.Device.Mirror.{status_read_keeps}
use xdma_fpga.Engine.Queued.{Queued, IsQueued, tail-IsQueued, AllSubmitted-frame}

-- Starting and stopping touches neither the queue nor the transfers.
pub start_keeps :
    (h : Host) (e : Engine)
    → let e' = (engine_start h e).1 in (e'.transfer_list ≡ e.transfer_list) × (e'.xfers ≡ e.xfers)
unfolding engine_start
start_keeps h e = ground arith

pub stop_keeps :
    (h : Host) (e : Engine)
    → let e' = xdma_engine_stop h e in
      (e'.transfer_list ≡ e.transfer_list) × (e'.xfers ≡ e.xfers) × (e'.running ≡ false)
unfolding xdma_engine_stop
stop_keeps h e = ground arith

pub shutdown_keeps :
    (h : Host) (e : Engine)
    → let e' = engine_service_shutdown h e in
      (e'.transfer_list ≡ e.transfer_list) × (e'.xfers ≡ e.xfers)
unfolding engine_service_shutdown
shutdown_keeps h e = ground arith

complete_head-Queued :
    (e : Engine) (p : ℕ) (ps : List ℕ) → IsQueued e.xfers (p ∷ ps) → Queued (complete_head e p ps)
unfolding complete_head
complete_head-Queued e p ps v =
    ground
      (arith, tail-IsQueued e.xfers p (record (e.xfers p) { state = TransferState.completed }) ps v)

complete_head-transfer_list :
    (e : Engine) (p : ℕ) (ps : List ℕ) → (complete_head e p ps).transfer_list ≡ ps
unfolding complete_head
complete_head-transfer_list e p ps = ground arith

transfer_list_loop-Queued :
    (e : Engine) (ps : List ℕ) (n : ℕ)
    → e.transfer_list ≡ ps
    → IsQueued e.xfers ps
    → Queued (transfer_list_loop e ps n).0
unfolding transfer_list_loop
transfer_list_loop-Queued e [] n q v = subst (IsQueued e.xfers) (sym q) v
transfer_list_loop-Queued e (p ∷ ps) n q v =
    if_both {A = Engine × ℕ} (λ r. Queued r.0)
      (not (e.xfers p).cyclic && ltb (e.xfers p).desc_num n)
      (transfer_list_loop-Queued (complete_head e p ps) ps (n - (e.xfers p).desc_num)
        (complete_head-transfer_list e p ps)
        (subst (IsQueued (complete_head e p ps).xfers) (complete_head-transfer_list e p ps)
          (complete_head-Queued e p ps v)))
      (subst (IsQueued e.xfers) (sym q) v)

-- The outcome of the head is stored with the head, and nowhere else.
pub final_outcome_frame :
    (h : Host) (e : Engine) (p n q : ℕ) → q ≢ p → (final_outcome h e p n).1.xfers q ≡ e.xfers q
unfolding final_outcome
final_outcome_frame h e p n q ne = ground arith

pub final_outcome-transfer_list :
    (h : Host) (e : Engine) (p n : ℕ) → (final_outcome h e p n).1.transfer_list ≡ e.transfer_list
unfolding final_outcome
final_outcome-transfer_list h e p n = ground arith

-- A head that stays has not changed its state.
final_outcome_stays :
    (h : Host) (e : Engine) (p n : ℕ)
    → (final_outcome h e p n).0 ≡ false
    → ((final_outcome h e p n).1.xfers p).state ≡ (e.xfers p).state
unfolding final_outcome
final_outcome_stays h e p n s = ground arith

completion_keeps :
    (e : Engine) (p : ℕ)
    → let e' = engine_transfer_completion e p in
      (e'.transfer_list ≡ e.transfer_list) × (e'.xfers ≡ e.xfers)
unfolding engine_transfer_completion
completion_keeps e p = ground arith

pub Queued-same :
    (e e' : Engine)
    → (e'.transfer_list ≡ e.transfer_list) × (e'.xfers ≡ e.xfers)
    → Queued e
    → Queued e'
Queued-same e e' (l, x) v = subst₂ IsQueued (sym x) (sym l) v

final_transfer_of-Queued :
    (h : Host) (e : Engine) (ps : List ℕ) (n : ℕ)
    → e.transfer_list ≡ ps
    → IsQueued e.xfers ps
    → Queued (final_transfer_of h e ps n)
unfolding final_transfer_of
final_transfer_of-Queued h e [] n q v = subst (IsQueued e.xfers) (sym q) v
final_transfer_of-Queued h e (p ∷ ps) n q v = elim (Bool-cases (final_outcome h e p n).0) [
  | inl gone ↦ rw gone (
      Queued-same (record e' { transfer_list = ps })
        (engine_transfer_completion (record e' { transfer_list = ps }) p)
        (completion_keeps (record e' { transfer_list = ps }) p) left)
  | inr kept ↦ rw kept (
      subst (IsQueued e'.xfers) (sym (final_outcome-transfer_list h e p n ∙ q)) (record {
        distinct = v.distinct;
        waiting = (final_outcome_stays h e p n kept ∙ v.waiting.0, left.waiting);
      }))
]
  where
    e' : Engine
    e' = (final_outcome h e p n).1

    left : IsQueued e'.xfers ps
    left = record {
      distinct = v.distinct.1;
      waiting =
          AllSubmitted-frame e.xfers e'.xfers p ps (final_outcome_frame h e p n) v.distinct.0
            v.waiting.1;
    }

perf-Queued : (e : Engine) (n : ℕ) → Queued e → Queued (perf_of_queue e n)
unfolding perf_of_queue
perf-Queued e n v = Queued-same e (perf_of_queue e n) (ground arith, ground arith) v

resume-Queued : (h : Host) (e : Engine) → Queued e → Queued (engine_service_resume h e).1
unfolding engine_service_resume
resume-Queued h e v =
    Queued-same e (engine_service_resume h e).1
      (
        ground (arith, start_keeps h e, shutdown_keeps h e),
        ground (arith, start_keeps h e, shutdown_keeps h e),
      )
      v

prologue-Queued :
    (h : Host) (e : Engine) (n err : ℕ) → Queued e → Queued (service_prologue h e n err).0
unfolding service_prologue
prologue-Queued h e n err v =
    Queued-same e (service_prologue h e n err).0
      (
        ground (arith, status_read_keeps h e true false, shutdown_keeps h e, after),
        ground (arith, status_read_keeps h e true false, shutdown_keeps h e, after),
      )
      v
  where
    after :
        let e1 = (engine_status_read h e true false).1 in
        let e' = engine_service_shutdown h e1 in
        (e'.transfer_list ≡ e1.transfer_list) × (e'.xfers ≡ e1.xfers)
    after = shutdown_keeps h (engine_status_read h e true false).1

service_transfers-Queued :
    (h : Host) (e : Engine) (n : ℕ) → Queued e → Queued (service_transfers h e n)
unfolding service_transfers engine_service_transfer_list engine_service_final_transfer
service_transfers-Queued h e n v =
    let e1 = perf_of_queue e n in
    let r = transfer_list_loop e1 e1.transfer_list (sub32 n e1.desc_dequeued) in
    resume-Queued h (final_transfer_of h r.0 r.0.transfer_list r.1) (
      final_transfer_of-Queued h r.0 r.0.transfer_list r.1 refl (
        transfer_list_loop-Queued e1 e1.transfer_list (sub32 n e1.desc_dequeued) refl
          (perf-Queued e n v)))

pub engine_service-Queued :
    (h : Host) (e : Engine) (wb : ℕ) → Queued e → Queued (engine_service h e wb).1
unfolding engine_service
engine_service-Queued h e wb v =
    if_both {A = Rv × Engine} (λ r. Queued r.1) (not e.running)
      (Queued-same e (engine_status_read h e true false).1
        ((status_read_keeps h e true false).2, (status_read_keeps h e true false).3) v)
      (if_both {A = Rv × Engine} (λ r. Queued r.1)
        ((service_prologue h e (bit_and wb wb_count_mask) (bit_and wb wb_err_mask)).1 == 0) after
        (service_transfers-Queued h _ _ after))
  where
    after : Queued (service_prologue h e (bit_and wb wb_count_mask) (bit_and wb wb_err_mask)).0
    after = prologue-Queued h e (bit_and wb wb_count_mask) (bit_and wb wb_err_mask) v
