-- ===== src/Engine/Complete/Drain.antt =====
-- A count of all queued descriptors empties the queue: every transfer completes and the engine stops.
use xdma_fpga.Base.{
  ℕ, ◌+◌, ◌<◌, ◌^◌, true, false, List, [], ◌≡◌, arith, All, sub32, not, is_empty, Rv, ◌==◌, ap,
  subst, sym, ◌∙◌,
}
use xdma_fpga.Engine.{Engine, Host, completed, status_rc, completed_desc_count}
use xdma_fpga.Engine.Service.{
  engine_service_transfer_list, engine_service_final_transfer, engine_service_resume, perf_of_queue,
  service_transfers, service_prologue, engine_service, status_error,
}
use xdma_fpga.Engine.Queued.Kept.{start_keeps, shutdown_keeps}
use xdma_fpga.Engine.History.Work.{resume_runs_iff}
use xdma_fpga.Engine.Complete.{descs}
use xdma_fpga.Engine.Complete.Lists.{Ordinary, AllCompleted, drain_lists, error_same}

-- The performance counters apart, nothing changes before the loop.
perf_keeps :
    (e : Engine) (n : ℕ)
    → let e' = perf_of_queue e n in
      (e'.transfer_list ≡ e.transfer_list)
      × (e'.xfers ≡ e.xfers)
      × (e'.status ≡ e.status)
      × (e'.dir ≡ e.dir)
      × (e'.desc_dequeued ≡ e.desc_dequeued)
unfolding perf_of_queue
perf_keeps e n = (ground arith, ground arith, ground arith, ground arith, ground arith)

resume_keeps :
    (h : Host) (e : Engine)
    → let e' = (engine_service_resume h e).1 in
      (e'.transfer_list ≡ e.transfer_list) × (e'.xfers ≡ e.xfers)
unfolding engine_service_resume
resume_keeps h e = (
  ground (arith, start_keeps h e, shutdown_keeps h e),
  ground (arith, start_keeps h e, shutdown_keeps h e),
)

-- All is done: no transfer is queued, each of `ps` is completed, and the engine is stopped.
pub record IsDrained (ps : List ℕ) (e : Engine) : Type 0 where
  pub empty : e.transfer_list ≡ []
  pub done : AllCompleted e ps
  pub idle : e.running ≡ false

transfers_drain :
    (h : Host) (e : Engine) (n : ℕ)
    → Ordinary e.xfers e.transfer_list
    → status_error e ≡ false
    → sub32 n e.desc_dequeued ≡ descs e.xfers e.transfer_list
    → IsDrained e.transfer_list (service_transfers h e n)
unfolding service_transfers
transfers_drain h e n o s c = record {
  empty = k.0 ∙ all.0;
  done =
      subst (λ m. All (λ p. (m p).state ≡ completed) e.transfer_list) (sym k.1)
        (subst (AllCompleted e2) f.0 all.1);
  idle = (resume_runs_iff h e2).0 ∙ ap (λ l. not (is_empty l)) (k.0 ∙ all.0);
}
  where
    e1 : Engine
    e1 = perf_of_queue e n

    r : Engine × ℕ
    r = engine_service_transfer_list e1 (sub32 n e1.desc_dequeued)

    e2 : Engine
    e2 = engine_service_final_transfer h r.0 r.1

    f :
        (e1.transfer_list ≡ e.transfer_list)
        × (e1.xfers ≡ e.xfers)
        × (e1.status ≡ e.status)
        × (e1.dir ≡ e.dir)
        × (e1.desc_dequeued ≡ e.desc_dequeued)
    f = perf_keeps e n

    all : (e2.transfer_list ≡ []) × AllCompleted e2 e1.transfer_list
    all =
        drain_lists h e1 (sub32 n e1.desc_dequeued) (rw (f.0, f.1) o) (error_same e e1 f.2 f.3 ∙ s)
          (rw (f.0, f.1, f.4) c)

    k :
        let e' = (engine_service_resume h e2).1 in
        (e'.transfer_list ≡ e2.transfer_list) × (e'.xfers ≡ e2.xfers)
    k = resume_keeps h e2

-- An interrupt's prologue reads the status, then the count, and changes nothing that decides.
interrupt_prologue :
    (h : Host) (e : Engine)
    → let (e', n) = service_prologue h e 0 0 in
      (n ≡ h.read (e.reads + 1) completed_desc_count)
      × (e'.status ≡ h.read e.reads status_rc)
      × (e'.dir ≡ e.dir)
      × (e'.desc_dequeued ≡ e.desc_dequeued)
      × (e'.transfer_list ≡ e.transfer_list)
      × (e'.xfers ≡ e.xfers)
unfolding service_prologue
interrupt_prologue h e =
    (ground arith, ground arith, ground arith, ground arith, ground arith, ground arith)

-- An interrupt on a running engine, with no error bit in the status that the device reports and a
-- count of just the descriptors that are queued behind those already dequeued, completes every queued
-- transfer, empties the queue, stops the engine and returns 0. (Queued transfers are not cyclic, have a
-- descriptor each, and there is one; the count is a `u32`.)
pub interrupt-IsDrained :
    (h : Host) (e : Engine)
    → e.running ≡ true
    → Ordinary e.xfers e.transfer_list
    → 0 < descs e.xfers e.transfer_list
    → status_error (record e { status = h.read e.reads status_rc }) ≡ false
    → h.read (e.reads + 1) completed_desc_count ≡ e.desc_dequeued + descs e.xfers e.transfer_list
    → h.read (e.reads + 1) completed_desc_count < 2 ^ 32
    → let (rv, e') = engine_service h e 0 in (rv ≡ Rv.ok) × IsDrained e.transfer_list e'
unfolding engine_service
interrupt-IsDrained h e r o pos s c lt =
    let e1 = (service_prologue h e 0 0).0 in
    let n = (service_prologue h e 0 0).1 in
    let k = interrupt_prologue h e in
    let drained =
      transfers_drain h e1 n (rw (k.4, k.5) o)
        (error_same (record e { status = h.read e.reads status_rc }) e1 k.1 k.2 ∙ s)
        (rw (k.4, k.5) (omega (arith, k.0, k.3))) in
    let counted : (n == 0) ≡ false = ground (arith, k.0) in
    (
      ground (arith, k.0),
      simp (r, counted) (subst (λ l. IsDrained l (service_transfers h e1 n)) k.4 drained),
    )
