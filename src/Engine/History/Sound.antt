-- ===== src/Engine/History/Sound.antt =====
-- The invariant of an engine of libxdma.c, kept by every step of every history.
use xdma_fpga.Base.{
  ℕ, zero, suc, ◌+◌, Bool, true, false, not, List, [], ◌∷◌, ◌++◌, Option, some, none, ◌≡◌, ◌≢◌,
  arith, is_empty, Rv, if_both, ◌==◌, All, inl, inr, refl, subst, sym, is_err, Bool-cases, ◌∙◌, has,
  leb, ◌||◌, if◌then◌else◌,
}
use xdma_fpga.Hw.{wb_err_mask}
use xdma_fpga.Engine.{Engine, Host, submitted, cleared_wb, emit, update}
use xdma_fpga.Engine.Control.{engine_start, engine_status_read, xdma_engine_stop}
use xdma_fpga.Engine.Service.{engine_service}
use xdma_fpga.Engine.Poll.{
  Round, engine_service_poll, serve_writeback, engine_service_wb_monitor, wb_monitor_loop,
}
use xdma_fpga.Engine.Submit.{enqueue, transfer_queue, transfer_abort, on_wait_timeout}
use xdma_fpga.Engine.Device.{Device, Mirrors}
use xdma_fpga.Engine.Device.Mirror.{
  status_read_keeps, start-Mirrors, stop-Mirrors, engine_service-Mirrors,
}
use xdma_fpga.Engine.Queued.{
  Queued, IsQueued, snoc-IsQueued, AllSubmitted-frame, update_ne-IsQueued,
}
use xdma_fpga.Engine.Queued.Kept.{Queued-same, start_keeps, stop_keeps, engine_service-Queued}
use xdma_fpga.Engine.History.{Step, prepares, queues, services, polls, times_out, Reach, here, next}
use xdma_fpga.Engine.History.Work.{HasWork, engine_service-HasWork}

pub record IsSound (d : Device) (e : Engine) : Type 0 where
  -- the flag `running` is the RUN bit that the device saw last
  pub mirrors : Mirrors d e
  -- no running engine without a queued transfer
  pub has_work : HasWork e
  -- the queue holds each pointer once, and only submitted transfers
  pub queued : Queued e

service-IsSound :
    (d : Device) (h : Host) (e : Engine) (wb : ℕ)
    → IsSound d e
    → IsSound d (engine_service h e wb).1
service-IsSound d h e wb s = record {
  mirrors = engine_service-Mirrors h d e wb s.mirrors;
  has_work = engine_service-HasWork h e wb s.has_work;
  queued = engine_service-Queued h e wb s.queued;
}

not_empty-snoc : (ps : List ℕ) (p : ℕ) → is_empty (ps ++ (p ∷ [])) ≡ false
not_empty-snoc [] p = refl
not_empty-snoc (q ∷ ps) p = refl

-- The engine with the new transfer at the end of its queue, before it is started.
abbrev linked : Engine → ℕ → Engine
linked e p = record e {
  xfers = update e.xfers p (record (e.xfers p) { state = submitted });
  transfer_list = e.transfer_list ++ (p ∷ []);
}

linked-Queued :
    (e : Engine) (p : ℕ) → All (λ q. q ≢ p) e.transfer_list → Queued e → Queued (linked e p)
linked-Queued e p ne v =
    snoc-IsQueued e.xfers p (record (e.xfers p) { state = submitted }) e.transfer_list ne refl v

enqueue-IsSound :
    (d : Device) (h : Host) (e : Engine) (p : ℕ)
    → All (λ q. q ≢ p) e.transfer_list
    → IsSound d e
    → IsSound d (enqueue h e p)
unfolding enqueue
enqueue-IsSound d h e p ne s =
    if_both (IsSound d) (not e.running)
      (record {
        mirrors = start-Mirrors h d (linked e p) s.mirrors;
        has_work = λ r. rw (start_keeps h (linked e p)).0 (not_empty-snoc e.transfer_list p);
        queued =
            Queued-same (linked e p) (engine_start h (linked e p)).1 (start_keeps h (linked e p))
              (linked-Queued e p ne s.queued);
      })
      (record {
        mirrors = s.mirrors;
        has_work = λ r. not_empty-snoc e.transfer_list p;
        queued = linked-Queued e p ne s.queued;
      })

queue-IsSound :
    (d : Device) (h : Host) (offline : Bool) (e : Engine) (p : ℕ)
    → All (λ q. q ≢ p) e.transfer_list
    → IsSound d e
    → IsSound d (transfer_queue h offline e p).1
unfolding transfer_queue
queue-IsSound d h offline e p ne s =
    if_both {A = Rv × Engine} (λ r. IsSound d r.1) ((e.xfers p).desc_num == 0) s
      (if_both {A = Rv × Engine} (λ r. IsSound d r.1) offline s
        (if_both {A = Rv × Engine} (λ r. IsSound d r.1) e.shutdown_request s
          (enqueue-IsSound d h e p ne s)))

cleared-IsSound :
    (d : Device) (e : Engine) (b : Bool)
    → IsSound d e
    → IsSound d (if b then e else emit e cleared_wb)
cleared-IsSound d e b s =
    if_both (IsSound d) b s
      (record { mirrors = s.mirrors; has_work = s.has_work; queued = s.queued })

-- A call that may run out of fuel leaves a sound engine where it returns.
abbrev Ends : {A : Type 0} → Device → Option (A × Engine) → Type 0
Ends d none = Unit
Ends d (some (a, e)) = IsSound d e

monitor_loop-Ends :
    (d : Device) (fuel : ℕ) (rounds : ℕ → Round) (expected i : ℕ) (e : Engine)
    → IsSound d e
    → Ends d (wb_monitor_loop fuel rounds expected i e)
unfolding wb_monitor_loop
monitor_loop-Ends d zero rounds expected i e s = tt
monitor_loop-Ends d (suc fuel) rounds expected i e s =
    if_both (Ends d) (has wb wb_err_mask || leb expected wb) s' (
      if_both (Ends d) (rounds i).timed_out s' (
        monitor_loop-Ends d fuel rounds expected (i + 1) (if wb == 0 then e else emit e cleared_wb)
          s'))
  where
    wb : ℕ
    wb = (rounds i).desc_wb

    s' : IsSound d (if wb == 0 then e else emit e cleared_wb)
    s' = cleared-IsSound d e (wb == 0) s

monitor-Ends :
    (d : Device) (fuel : ℕ) (rounds : ℕ → Round) (e : Engine) (expected : ℕ)
    → IsSound d e
    → Ends d (engine_service_wb_monitor fuel rounds e expected)
unfolding engine_service_wb_monitor
monitor-Ends d fuel rounds e expected s =
    if_both (Ends d) (expected == 0) s (monitor_loop-Ends d fuel rounds expected 0 e s)

serve-Ends :
    (d : Device) (h : Host) (o : Option (ℕ × Engine)) → Ends d o → Ends d (serve_writeback h o)
unfolding serve_writeback
serve-Ends d h none s = tt
serve-Ends d h (some (wb, e)) s = if_both (Ends d) (wb == 0) s (service-IsSound d h e wb s)

poll-Ends :
    (d : Device) (h : Host) (fuel : ℕ) (rounds : ℕ → Round) (e : Engine) (expected : ℕ)
    → IsSound d e
    → Ends d (engine_service_poll h fuel rounds e expected)
unfolding engine_service_poll
poll-Ends d h fuel rounds e expected s =
    serve-Ends d h (engine_service_wb_monitor fuel rounds e expected)
      (monitor-Ends d fuel rounds e expected s)

status_read-IsSound :
    (d : Device) (h : Host) (e : Engine) (clear dump : Bool)
    → IsSound d e
    → IsSound d (engine_status_read h e clear dump).1
status_read-IsSound d h e clear dump s =
    let k = status_read_keeps h e clear dump in
    record {
      mirrors = rw (k.0, k.1) s.mirrors;
      has_work = rw (k.1, k.2) s.has_work;
      queued = Queued-same e (engine_status_read h e clear dump).1 (k.2, k.3) s.queued;
    }

-- A refused abort changes nothing; otherwise the head is off the queue.
abort_cases :
    (d : Device) (e : Engine) (p : ℕ) (ps : List ℕ)
    → e.transfer_list ≡ p ∷ ps
    → let (rv, e') = transfer_abort e p in
      (is_err rv ≡ true → e' ≡ e)
      × (is_err rv ≡ false → e'.transfer_list ≡ ps)
      × ((q : ℕ) → q ≢ p → e'.xfers q ≡ e.xfers q)
unfolding transfer_abort
abort_cases d e p ps eq = (ground arith, ground (arith, eq), λ q ne. ground arith)

timeout-IsSound :
    (d : Device) (h : Host) (e : Engine) (p : ℕ) (ps : List ℕ)
    → e.transfer_list ≡ p ∷ ps
    → IsSound d e
    → IsSound d (on_wait_timeout h e p)
unfolding on_wait_timeout
timeout-IsSound d h e p ps eq s =
    if_both (IsSound d) (is_err (engine_status_read h e false true).0) s'
      (elim (Bool-cases (is_err (transfer_abort e' p).0)) [
        | inl r ↦ rw (r, k.0 r) s'
        | inr r ↦ rw r (record {
          mirrors = stop-Mirrors h d e'';
          has_work = λ on. cc (stop_keeps h e'').2;
          queued =
              Queued-same e'' (xdma_engine_stop h e'') ((stop_keeps h e'').0, (stop_keeps h e'').1)
                (left r);
        })
      ])
  where
    e' : Engine
    e' = (engine_status_read h e false true).1

    s' : IsSound d e'
    s' = status_read-IsSound d h e false true s

    q' : e'.transfer_list ≡ p ∷ ps
    q' = (status_read_keeps h e false true).2 ∙ eq

    k :
        let (rv, e'') = transfer_abort e' p in
        (is_err rv ≡ true → e'' ≡ e')
        × (is_err rv ≡ false → e''.transfer_list ≡ ps)
        × ((q : ℕ) → q ≢ p → e''.xfers q ≡ e'.xfers q)
    k = abort_cases d e' p ps q'

    e'' : Engine
    e'' = (transfer_abort e' p).1

    v : IsQueued e'.xfers (p ∷ ps)
    v = subst (IsQueued e'.xfers) q' s'.queued

    left : is_err (transfer_abort e' p).0 ≡ false → Queued e''
    left r = subst (IsQueued e''.xfers) (sym (k.1 r)) (record {
      distinct = v.distinct.1;
      waiting = AllSubmitted-frame e'.xfers e''.xfers p ps k.2 v.distinct.0 v.waiting.1;
    })

Step-IsSound : (d : Device) {e e' : Engine} → Step e e' → IsSound d e → IsSound d e'
Step-IsSound d (prepares e p t ne) s = record {
  mirrors = s.mirrors;
  has_work = s.has_work;
  queued = update_ne-IsQueued e.xfers p t e.transfer_list ne s.queued;
}
Step-IsSound d (queues h offline e p ne) s = queue-IsSound d h offline e p ne s
Step-IsSound d (services h e wb) s = service-IsSound d h e wb s
Step-IsSound d (polls h fuel rounds e e' expected rv eq) s =
    subst (Ends d) eq (poll-Ends d h fuel rounds e expected s)
Step-IsSound d (times_out h e p ps eq) s = timeout-IsSound d h e p ps eq s

-- An engine that starts sound is sound after every history.
pub Reach-IsSound : (d : Device) {s e : Engine} → Reach s e → IsSound d s → IsSound d e
Reach-IsSound d here v = v
Reach-IsSound d (next r st) v = Step-IsSound d st (Reach-IsSound d r v)
