-- ===== src/Engine/Submit.antt =====
-- xdma/libxdma.c, what a submitting thread does to an engine: `transfer_queue`, `transfer_abort`, and
-- the steps of a wait that timed out.
pub mod Queue
pub mod Timeout
use xdma_fpga.Base.{
  ℕ, Bool, true, false, ◌==◌, not, List, [], ◌∷◌, ◌++◌, Rv, ok, err, einval, ebusy, if◌then◌else◌,
  is_err,
}
use xdma_fpga.Engine.{Engine, Host, TransferState, submitted, aborted, update}
use xdma_fpga.Engine.Control.{engine_start, engine_status_read, xdma_engine_stop}

abbrev is_submitted : TransferState → Bool
is_submitted submitted = true
is_submitted s = false

-- The part of `transfer_queue` behind its guards.
unfoldable pub enqueue : Host → Engine → ℕ → Engine
enqueue h e p =
    let e' = record e {
      xfers = update e.xfers p (record (e.xfers p) { state = submitted });
      transfer_list = e.transfer_list ++ (p ∷ []);
    } in
    if not e.running then (engine_start h e').1 else e'

-- `transfer_queue`; `offline` is the flag of the device. A failed start still returns 0.
unfoldable pub transfer_queue : Host → Bool → Engine → ℕ → Rv × Engine
transfer_queue h offline e p =
    if (e.xfers p).desc_num == 0
    then (err einval, e)
    else if offline
    then (err ebusy, e)
    else if e.shutdown_request
    then (err ebusy, e)
    else (ok, enqueue h e p)

-- The queue behind `transfer_abort`: only the head is taken off.
unfoldable pub drop_head : List ℕ → ℕ → List ℕ
drop_head [] p = []
drop_head (q ∷ qs) p = if q == p then qs else q ∷ qs

-- `transfer_abort`. (On an empty queue `list_entry` yields no transfer, so nothing is taken off.)
unfoldable pub transfer_abort : Engine → ℕ → Rv × Engine
unfolding drop_head
transfer_abort e p =
    let t = e.xfers p in
    if t.desc_num == 0 then (err einval, e) else (
      ok,
      record e {
        transfer_list = drop_head e.transfer_list p;
        xfers =
            update e.xfers p
              (record t { state = if is_submitted t.state then aborted else t.state });
      },
    )

-- The `default` case after a wait in `xdma_xfer_submit` and `xdma_xfer_aperture`: read the status with
-- a dump, take the transfer off the queue and stop the engine. A step that fails skips the rest.
unfoldable pub on_wait_timeout : Host → Engine → ℕ → Engine
on_wait_timeout h e p =
    let (rv, e') = engine_status_read h e false true in
    let (rv', e'') = transfer_abort e' p in
    if is_err rv then e' else if is_err rv' then e'' else xdma_engine_stop h e''
