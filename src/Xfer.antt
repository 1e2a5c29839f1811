-- ===== src/Xfer.antt =====
-- xdma/libxdma.c, `xdma_xfer_submit`: a request is moved by one transfer after another, each built in
-- the engine's ring, queued, and waited for.
--
-- What the code calls but does not contain is in `World`: the kernel's mapping of the scatter list is
-- its result, and a wait is what other threads and interrupts do to the engine meanwhile. The lock
-- `desc_lock` is held for the whole loop, so a wait cannot touch the ring.
pub mod Parts
pub mod Round
pub mod Loop
pub mod Submit
pub mod Served
use xdma_fpga.Base.{
  ℕ, zero, suc, ◌+◌, ◌-◌, Bool, true, false, ◌&&◌, not, ◌==◌, Option, none, some, List, [], leb,
  length, Rv, ok, err, Errno, eio, enomem, ebusy, einval, etimedout, sub32, is_err, is_empty,
  if◌then◌else◌,
}
use xdma_fpga.Hw.{Dir, to_device, from_device}
use xdma_fpga.Desc.{XdmaDesc}
use xdma_fpga.Engine.{Engine, Host, Transfer, TransferState, update}
use xdma_fpga.Engine.Control.{is_from_device}
use xdma_fpga.Engine.Submit.{transfer_queue, on_wait_timeout}
use xdma_fpga.Request.{SwDesc, XdmaRequest, DescRing, Built, transfer_init, xdma_init_request}

-- A `ssize_t` that a transfer returns.
pub data Ssize : Type 0 where
  count : ℕ → Ssize
  error : Errno → Ssize

-- An engine with the fields of its ring that `DescRing` has and `Engine` does not.
pub record Channel : Type 0 where
  pub engine : Engine
  pub desc : List XdmaDesc
  pub desc_bus : ℕ
  pub cyclic_result_bus : ℕ
  pub desc_idx : ℕ
  pub desc_max : ℕ

abbrev pub ring_of : Channel → DescRing
ring_of c = record {
  desc = c.desc;
  desc_bus = c.desc_bus;
  cyclic_result_bus = c.cyclic_result_bus;
  desc_idx = c.desc_idx;
  desc_max = c.desc_max;
  desc_used = c.engine.desc_used;
  dir = c.engine.dir;
  streaming = c.engine.streaming;
  eop_flush = c.engine.eop_flush;
  non_incr_addr = c.engine.non_incr_addr;
}

-- The module's parameters and the device; the flag `XDEV_FLAG_OFFLINE`; what the k-th wait does to the
-- engine; and the lengths in the result descriptors of the k-th transfer.
pub record World : Type 0 where
  pub host : Host
  pub offline : Bool
  pub during : ℕ → Engine → Engine
  pub result_length : ℕ → ℕ → ℕ

-- What `transfer_init` leaves in a transfer, with `last_in_request` as the caller then sets it.
abbrev pub transfer_of : Built → Bool → Transfer
transfer_of b last = record {
  desc_bus = b.bus;
  desc_adjacent = b.num;
  desc_num = b.num;
  desc_cmpl = 0;
  state = TransferState.new;
  eop_rcved = false;
  cyclic = false;
  last_in_request = last;
  has_cb = false;
}

-- The lengths of the first `n` results from the i-th on.
unfoldable pub sum_results : (ℕ → ℕ) → ℕ → ℕ → ℕ
sum_results length_of i zero = 0
sum_results length_of i (suc n) = length_of i + sum_results length_of (i + 1) n

-- A round of the loop as it ends: its error number, the engine, and what is moved and left behind it.
pub record Ended : Type 0 where
  pub rv : Rv
  pub chan : Channel
  pub req : XdmaRequest
  pub nents : ℕ
  pub done : ℕ

-- The engine as the round hands it to `transfer_queue`: the ring is moved on, and the transfer `p` of the
-- request is built.
unfoldable pub built : Channel → ℕ → DescRing → Transfer → Channel
built c p r t = record {
  engine = record c.engine { desc_used = r.desc_used; xfers = update c.engine.xfers p t };
  desc = r.desc;
  desc_bus = c.desc_bus;
  cyclic_result_bus = c.cyclic_result_bus;
  desc_idx = r.desc_idx;
  desc_max = c.desc_max;
}

-- The `switch` on the state of the transfer `p` after the k-th wait, up to the end of the round. `len` is
-- the transfer's length; `nents` and `done` are those before the switch. (`transfer_destroy` also clears the
-- transfer's descriptors in the ring, which `transfer_init` writes anew before their next use; not done here.)
unfoldable pub after_wait : World → ℕ → ℕ → ℕ → Ended → Ended
after_wait w p k len s =
    let e = s.chan.engine in
    let t = e.xfers p in
    let release = λ (f : Engine). record s.chan {
      engine = record f { desc_used = sub32 f.desc_used (f.xfers p).desc_num };
    } in
    let streamed = e.streaming && is_from_device e.dir in
    elim t.state [
      | TransferState.completed ↦ record {
        rv = ok;
        chan = release e;
        req = s.req;
        nents = if streamed && (e.eop_flush && t.eop_rcved) then 0 else s.nents;
        done =
            if streamed
            then s.done + sum_results (w.result_length k) 0 t.desc_cmpl
            else s.done + len;
      }
      | TransferState.failed ↦ record s { rv = err eio; chan = release e }
      | _ ↦ record s { rv = err etimedout; chan = release (on_wait_timeout w.host e p) }
    ]

-- One round: build, queue, wait, and look at the outcome. A refusal by `transfer_queue` leaves the loop
-- at once, past the release of the descriptors.
unfoldable pub xfer_round : World → ℕ → ℕ → Ended → Ended
unfolding after_wait built
xfer_round w p k s =
    let (b, req', r') = transfer_init s.req (ring_of s.chan) in
    let nents' = s.nents - b.num in
    let c = built s.chan p r' (transfer_of b (nents' == 0)) in
    let (rv, queued) = transfer_queue w.host w.offline c.engine p in
    let s' : Ended = record {
      rv = rv;
      chan = record c { engine = queued };
      req = req';
      nents = nents';
      done = s.done;
    } in
    let waited = record s' { chan = record c { engine = w.during k queued } } in
    if is_err rv then s' else after_wait w p k b.len waited

-- The loop `while (nents)`. `none`: out of fuel.
unfoldable pub xfer_loop : World → ℕ → ℕ → ℕ → Ended → Option Ended
xfer_loop w p zero k s = none
xfer_loop w p (suc fuel) k s =
    let s' = xfer_round w p k s in
    let rest = xfer_loop w p fuel (k + 1) s' in
    if s.nents == 0 then some s else if is_err s'.rv then some s' else rest

-- `return done ? done : rv;`
abbrev pub ret : Ended → Ssize
ret s =
    if s.done == 0
    then elim s.rv [ ok ↦ Ssize.count 0 | err e ↦ Ssize.error e ]
    else Ssize.count s.done

-- The arguments of `xdma_xfer_submit`: whether the engine's magic number is right; `mapped` is the scatter
-- list as the kernel mapped it, empty on failure; `alloc` says which arrays there is memory for.
pub record Call : Type 0 where
  pub channel : ℕ
  pub channel_max : ℕ
  pub magic_ok : Bool
  pub write : Bool
  pub ep_addr : ℕ
  pub mapped : List SwDesc
  pub blen_max : ℕ
  pub alloc : ℕ → Bool

-- `engine->dir != dir`
abbrev pub mismatch : Bool → Dir → Bool
mismatch write from_device = write
mismatch write to_device = not write

-- `xdma_xfer_submit` behind `xdma_init_request`.
unfoldable pub submit_request :
    World → ℕ → Channel → Option (Option XdmaRequest) → Option (Ssize × Channel)
submit_request w p c none = none
submit_request w p c (some none) = some (Ssize.error enomem, c)
submit_request w p c (some (some req)) =
    let start : Ended = record {
      rv = ok;
      chan = c;
      req = req;
      nents = length req.sdesc;
      done = 0;
    } in
    elim (xfer_loop w p (length req.sdesc + 1) 0 start) [
      | none ↦ none
      | some s ↦ some (ret s, s.chan)
    ]

-- `xdma_xfer_submit`, with `p` the transfer in the new request, for a handle that `debug_check_dev_hndl` accepts. `none`: a loop did not end.
unfoldable pub xdma_xfer_submit : World → ℕ → Call → Channel → Option (Ssize × Channel)
unfolding submit_request
xdma_xfer_submit w p a c =
    if leb a.channel_max a.channel
    then some (Ssize.error einval, c)
    else if not a.magic_ok
    then some (Ssize.error einval, c)
    else if w.offline
    then some (Ssize.error ebusy, c)
    else if mismatch a.write c.engine.dir
    then some (Ssize.error einval, c)
    else if is_empty a.mapped
    then some (Ssize.error eio, c)
    else submit_request w p c (xdma_init_request a.blen_max a.alloc a.mapped a.ep_addr)
