-- ===== src/Engine/Service.antt =====
-- xdma/libxdma.c, servicing an engine after an interrupt or a writeback:
-- `engine_transfer_completion`, `engine_service_transfer_list`, `engine_err_handle`,
-- `engine_service_final_transfer`, `engine_service_perf`, `engine_service_resume`, `engine_service`.
use xdma_fpga.Base.{
  ℕ, zero, suc, ◌+◌, ◌-◌, bit_and, Bool, true, false, ◌&&◌, ◌||◌, ◌==◌, not, none, some, List, [],
  ◌∷◌, Rv, ok, err, eperm, einval, if◌then◌else◌, ltb, has, is_empty, add32, sub32,
}
use xdma_fpga.Hw.{to_device, from_device, rx_status_eop, wb_count_mask, wb_err_mask}
use xdma_fpga.Hw.Stat
use xdma_fpga.Engine.{
  Engine, Host, Transfer, TransferState, woke, woke_perf, woke_shutdown, io_done, read_register,
  emit, update, status, completed_desc_count,
}
use xdma_fpga.Engine.Control.{
  engine_status_read, xdma_engine_stop, engine_start, engine_service_shutdown,
}

-- `engine_transfer_completion` of the transfer `p`: wake its waiter, and call back for the last
-- transfer of an asynchronous request.
unfoldable pub engine_transfer_completion : Engine → ℕ → Engine
engine_transfer_completion e p =
    let t = e.xfers p in
    let e' = emit e (woke p) in if t.has_cb && t.last_in_request then emit e' (io_done p) else e'

-- The body of the loop of `engine_service_transfer_list`, on the head `p` of the queue `p ∷ ps`.
unfoldable pub complete_head : Engine → ℕ → List ℕ → Engine
unfolding engine_transfer_completion
complete_head e p ps =
    let t = e.xfers p in
    engine_transfer_completion
      (record e {
        transfer_list = ps;
        desc_dequeued = add32 e.desc_dequeued t.desc_num;
        xfers = update e.xfers p (record t { state = TransferState.completed });
      })
      p

-- The loop of `engine_service_transfer_list`: its `transfer` is the head of the queue, and NULL when
-- the queue is empty. The result is the engine, and what is left of the count.
unfoldable pub transfer_list_loop : Engine → List ℕ → ℕ → Engine × ℕ
unfolding complete_head
transfer_list_loop e [] count = (e, count)
transfer_list_loop e (p ∷ ps) count =
    let t = e.xfers p in
    let rest = transfer_list_loop (complete_head e p ps) ps (count - t.desc_num) in
    if not t.cyclic && ltb t.desc_num count then rest else (e, count)

unfoldable pub engine_service_transfer_list : Engine → ℕ → Engine × ℕ
unfolding transfer_list_loop
engine_service_transfer_list e count = transfer_list_loop e e.transfer_list count

-- The scan of `n` result descriptors from `i` on for an end of packet.
unfoldable pub eop_received : Host → ℕ → ℕ → ℕ → Bool
eop_received h p i zero = false
eop_received h p i (suc n) =
    let rest = eop_received h p (i + 1) n in
    if has (h.result_status p i) rx_status_eop then true else rest

-- The error bits that count for the engine's direction.
abbrev pub status_error : Engine → Bool
status_error e =
    has e.status (elim e.dir [ from_device ↦ Stat.c2h_err_mask | to_device ↦ Stat.h2c_err_mask ])

-- A store into a field of the transfer `p`.
abbrev pub set_xfer : Engine → ℕ → Transfer → Engine
set_xfer e p t = record e { xfers = update e.xfers p t }

-- `engine_service_perf`
unfoldable pub engine_service_perf : Engine → ℕ → Engine
engine_service_perf e desc_completed =
    let counted =
      if has e.status Stat.desc_completed
      then record e {
        perf = record { running = true; iterations = desc_completed; stopped = e.perf.stopped };
      }
      else e in
    let stopped = record counted {
      perf = record { running = true; iterations = counted.perf.iterations; stopped = true };
      log = woke_perf ∷ counted.log;
    } in
    if e.perf.running then if has e.status Stat.desc_stopped then stopped else counted else e

-- The performance counters are only touched while a transfer is queued.
unfoldable pub perf_of_queue : Engine → ℕ → Engine
unfolding engine_service_perf
perf_of_queue e desc_count =
    if is_empty e.transfer_list then e else engine_service_perf e desc_count

module _ (h : Host) where
  -- `engine_err_handle`; a busy engine is read once more, for the message only.
  unfoldable pub engine_err_handle : Engine → ℕ → Engine
  unfolding xdma_engine_stop
  engine_err_handle e p =
      let e' = if has e.status Stat.busy then (read_register h e status).1 else e in
      xdma_engine_stop h (set_xfer e' p (record (e'.xfers p) { state = TransferState.failed }))

  -- What `engine_service_final_transfer` does to the transfer `p` before it takes it off the queue.
  -- `none`: a streaming transfer without end of packet stays where it is.
  unfoldable pub final_outcome : Engine → ℕ → ℕ → Bool × Engine
  unfolding eop_received engine_err_handle engine_service_shutdown
  final_outcome e p count =
      let t = e.xfers p in
      let eop = t.eop_rcved || eop_received h p 0 count in
      let e' = set_xfer e p (record t { desc_cmpl = count; eop_rcved = eop }) in
      let e'' = engine_service_shutdown h e' in
      if status_error e
      then (true, engine_err_handle e p)
      else if ltb count t.desc_num
      then if e.eop_flush
        then if eop
          then (
            true,
            record e'' {
              xfers = update e''.xfers p (record (e''.xfers p) { state = TransferState.completed });
              desc_dequeued = add32 e''.desc_dequeued count;
            },
          )
          else (false, e')
        else (
          true,
          record e {
            xfers = update e.xfers p (record t { state = TransferState.failed; desc_cmpl = count });
            desc_dequeued = add32 e.desc_dequeued t.desc_num;
          },
        )
      else (
        true,
        record e {
          xfers =
              update e.xfers p
                (record t { state = TransferState.completed; desc_cmpl = t.desc_num });
          desc_dequeued = add32 e.desc_dequeued t.desc_num;
        },
      )

  -- `engine_service_final_transfer` on the head of the queue.
  unfoldable pub final_transfer_of : Engine → List ℕ → ℕ → Engine
  unfolding final_outcome engine_transfer_completion
  final_transfer_of e [] count = e
  final_transfer_of e (p ∷ ps) count =
      let (del, e') = final_outcome e p count in
      if del then engine_transfer_completion (record e' { transfer_list = ps }) p else e'

  unfoldable pub engine_service_final_transfer : Engine → ℕ → Engine
  unfolding final_transfer_of
  engine_service_final_transfer e count = final_transfer_of e e.transfer_list count

  -- `engine_service_resume`
  unfoldable pub engine_service_resume : Engine → Rv × Engine
  unfolding engine_start engine_service_shutdown
  engine_service_resume e =
      let (started, e') = engine_start h e in
      let rv : Rv = elim started [ some p ↦ ok | none ↦ err einval ] in
      let idle = record e { shutdown_idle = true; log = woke_shutdown ∷ e.log } in
      if not e.running
      then if not (is_empty e.transfer_list)
        then (rv, e')
        else if e.shutdown_request
        then (ok, idle)
        else (ok, e)
      else if is_empty e.transfer_list
      then (ok, engine_service_shutdown h e)
      else (ok, e)

  -- `engine_service` up to the descriptor count: read the status where the caller did not, stop an
  -- engine that is no longer busy, and read the count where the caller had none.
  unfoldable pub service_prologue : Engine → ℕ → ℕ → Engine × ℕ
  unfolding engine_status_read engine_service_shutdown
  service_prologue e desc_count err_flag =
      let e1 =
        if desc_count == 0 || not (err_flag == 0)
        then (engine_status_read h e true false).1
        else e in
      let e2 =
        if (e1.running && not (has e1.status Stat.busy))
          || (not e1.eop_flush && not (desc_count == 0))
        then engine_service_shutdown h e1
        else e1 in
      let (n, e3) = read_register h e2 completed_desc_count in
      if desc_count == 0 then (e3, n) else (e2, desc_count)

  -- `engine_service` from the descriptor count on. The result of the resume is only logged.
  unfoldable pub service_transfers : Engine → ℕ → Engine
  service_transfers e desc_count =
      let e1 = perf_of_queue e desc_count in
      let (e2, n) = engine_service_transfer_list e1 (sub32 desc_count e1.desc_dequeued) in
      (engine_service_resume (engine_service_final_transfer e2 n)).1

  -- `engine_service`
  unfoldable pub engine_service : Engine → ℕ → Rv × Engine
  engine_service e desc_writeback =
      let err_flag = bit_and desc_writeback wb_err_mask in
      let (e', desc_count) = service_prologue e (bit_and desc_writeback wb_count_mask) err_flag in
      let rv = if err_flag == 0 then ok else err eperm in
      if not e.running
      then (ok, (engine_status_read h e true false).1)
      else if desc_count == 0
      then (rv, e')
      else (rv, service_transfers e' desc_count)
