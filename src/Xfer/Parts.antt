-- ===== src/Xfer/Parts.antt =====
-- The parts of a round of `xdma_xfer_submit`: what its calls leave alone, and how much of the request the
-- transfer that it builds takes up.
use xdma_fpga.Base.{
  ℕ, zero, suc, ◌+◌, ◌^◌, ◌<◌, Bool, List, [], ◌∷◌, ◌≡◌, arith, length, take, drop, ap, add64, ◌*◌,
  length-take, length-drop, drop_add,
}
use xdma_fpga.Desc.{XdmaDesc, transfer_desc_init, desc_size}
use xdma_fpga.Desc.Fields.{length-init}
use xdma_fpga.Engine.{Engine, Host}
use xdma_fpga.Engine.Control.{engine_start, engine_status_read, xdma_engine_stop}
use xdma_fpga.Engine.Submit.{transfer_queue, enqueue, transfer_abort, on_wait_timeout}
use xdma_fpga.Request.{
  SwDesc, XdmaRequest, DescRing, BuildState, build_next, transfer_build, transfer_init, slots,
  program_slots,
}
use xdma_fpga.Request.Program.{sum_len}
use xdma_fpga.Request.Slots.{IsRing, transfer_init-IsRing}
use xdma_fpga.Xfer.{World}

-- What a wait leaves alone: the count of used descriptors, the mode, and the transfer's size.
pub record Calm (w : World) (p : ℕ) : Type 0 where
  pub used : (k : ℕ) (e : Engine) → (w.during k e).desc_used ≡ e.desc_used
  pub mode : (k : ℕ) (e : Engine) → (w.during k e).streaming ≡ e.streaming
  pub size : (k : ℕ) (e : Engine) → ((w.during k e).xfers p).desc_num ≡ (e.xfers p).desc_num

-- The same of two engines.
abbrev pub Alike : ℕ → Engine → Engine → Type 0
Alike p e e' =
    (e'.desc_used ≡ e.desc_used)
    × (e'.streaming ≡ e.streaming)
    × ((e'.xfers p).desc_num ≡ (e.xfers p).desc_num)

enqueue-Alike : (h : Host) (e : Engine) (p : ℕ) → Alike p e (enqueue h e p)
unfolding enqueue engine_start
enqueue-Alike h e p = (ground arith, ground arith, ground arith)

pub queue-Alike : (h : Host) (o : Bool) (e : Engine) (p : ℕ) → Alike p e (transfer_queue h o e p).1
unfolding transfer_queue
queue-Alike h o e p = (
  ground (arith, enqueue-Alike h e p),
  ground (arith, enqueue-Alike h e p),
  ground (arith, enqueue-Alike h e p),
)

pub timeout-Alike : (h : Host) (e : Engine) (p : ℕ) → Alike p e (on_wait_timeout h e p)
unfolding on_wait_timeout engine_status_read transfer_abort xdma_engine_stop
timeout-Alike h e p = (ground arith, ground arith, ground arith)

-- The bytes of the request that no round has taken up.
abbrev pub left : XdmaRequest → ℕ
left req = sum_len (drop req.sw_desc_idx req.sdesc)

-- Where `transfer_init` starts to build.
abbrev slot_start : DescRing → ℕ
slot_start r = add64 r.desc_bus (desc_size * r.desc_idx)

abbrev fresh_build : XdmaRequest → DescRing → BuildState
fresh_build req r = record {
  ep_addr = req.ep_addr;
  res_bus = add64 r.cyclic_result_bus (desc_size * r.desc_idx);
  len = 0;
}

build-len :
    (r : DescRing) (b : BuildState) (ds : List XdmaDesc) (ss : List SwDesc)
    → b.len + sum_len ss < 2 ^ 32
    → (transfer_build r b ds ss).1.len ≡ b.len + sum_len (take (length ds) ss)
unfolding transfer_build sum_len
build-len r b [] ss h = omega arith
build-len r b (d ∷ ds) [] h = omega arith
build-len r b (d ∷ ds) (s ∷ ss) h =
    omega (arith, build-len r (build_next r b s) ds ss (omega arith))

pub sum-split : (n : ℕ) (ss : List SwDesc) → sum_len (take n ss) + sum_len (drop n ss) ≡ sum_len ss
unfolding sum_len
sum-split zero ss = omega arith
sum-split (suc n) [] = omega arith
sum-split (suc n) (s ∷ ss) = omega (arith, sum-split n ss)

-- What a built transfer is long, the request has less left.
pub transfer_init-left :
    (req : XdmaRequest) (r : DescRing)
    → IsRing r
    → req.sw_desc_idx < length req.sdesc
    → left req < 2 ^ 32
    → let (b, req', _) = transfer_init req r in b.len + left req' ≡ left req
unfolding transfer_init program_slots
transfer_init-left req r v k h =
    let n = slots req r in
    let chain = take n (drop r.desc_idx r.desc) in
    let todo = drop req.sw_desc_idx req.sdesc in
    let bounds = transfer_init-IsRing req r v k in
    let size : length (transfer_desc_init chain (slot_start r)) ≡ n = omega (
      arith,
      bounds,
      v.size,
      length-init chain (slot_start r),
      length-take {0} n (drop r.desc_idx r.desc),
      length-drop {0} r.desc_idx r.desc,
    ) in
    rw (drop_add req.sw_desc_idx n req.sdesc) (
      omega (
        arith,
        build-len r (fresh_build req r) (transfer_desc_init chain (slot_start r)) todo
            (omega arith),
        ap (λ m. sum_len (take m todo)) size,
        sum-split n todo,
      ))
