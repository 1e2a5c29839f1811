-- ===== src/Request.antt =====
-- xdma/libxdma.c, a request and the transfers that it is cut into: `xdma_init_request` and
-- `transfer_init` with `transfer_build`.
pub mod Segments
pub mod Slots
pub mod Controls
pub mod Program
use mathlib.Core.Option
use xdma_fpga.Base.{
  ℕ, zero, suc, ◌+◌, ◌-◌, ◌*◌, ◌/◌, ◌%◌, ◌^◌, min, bit_or, Bool, true, false, Option, none, some,
  List, [], ◌∷◌, ◌++◌, ltb, leb, ◌==◌, ◌&&◌, add32, sub32, add64, if◌then◌else◌, take, drop, length,
}
use xdma_fpga.Hw.{Dir, pci_dma_h, pci_dma_l}
use xdma_fpga.Hw.DescBit
use xdma_fpga.Engine.Control.{is_from_device}
use xdma_fpga.Desc.{
  XdmaDesc, desc_size, transfer_desc_init, xdma_desc_set, xdma_desc_control_set, xdma_desc_adjacent,
  xdma_get_next_adj,
}

-- `struct sw_desc`, and an entry of a mapped scatter list (`sg_dma_address`, `sg_dma_len`).
pub record SwDesc : Type 0 where
  pub addr : ℕ
  pub len : ℕ

-- The `while (tlen)` of `xdma_init_request` on one scatter entry: pieces of at most `blen_max` bytes.
-- `none`: out of fuel, as for `desc_blen_max` 0, where the code does not end.
unfoldable pub segment_descs : ℕ → ℕ → ℕ → ℕ → Option (List SwDesc)
segment_descs blen_max zero addr tlen = none
segment_descs blen_max (suc fuel) addr tlen =
    let piece : SwDesc = record { addr = addr; len = blen_max } in
    let last : SwDesc = record { addr = addr; len = tlen } in
    let rest = segment_descs blen_max fuel (add64 addr blen_max) (tlen - blen_max) in
    if tlen == 0
    then some []
    else if ltb blen_max tlen
    then Option.map (◌∷◌ piece) rest
    else some (last ∷ [])

abbrev pub append_found : Option (List SwDesc) → Option (List SwDesc) → Option (List SwDesc)
append_found none o = none
append_found (some ds) none = none
append_found (some ds) (some es) = some (ds ++ es)

-- The second loop of `xdma_init_request`, over the scatter list; the fuel of an entry is its length
-- and one more.
unfoldable pub request_descs : ℕ → List SwDesc → Option (List SwDesc)
request_descs blen_max [] = some []
request_descs blen_max (sg ∷ sgl) =
    append_found (segment_descs blen_max (sg.len + 1) sg.addr sg.len) (request_descs blen_max sgl)

-- The first loop: extra descriptors for long entries. The sum does not wrap around (see `xdma_init_request`).
unfoldable pub extra_descs : ℕ → List SwDesc → ℕ
extra_descs blen_max [] = 0
extra_descs blen_max (sg ∷ sgl) =
    (if ltb blen_max sg.len then add32 sg.len (blen_max - 1) / blen_max else 0)
    + extra_descs blen_max sgl

-- `req->total_len`
unfoldable pub total_len : List SwDesc → ℕ
total_len [] = 0
total_len (sg ∷ sgl) = add32 sg.len (total_len sgl)

-- `struct xdma_request_cb`. `sdesc` holds the `sw_desc_cnt` descriptors that are filled in.
pub record XdmaRequest : Type 0 where
  pub ep_addr : ℕ
  pub total : ℕ
  pub sdesc : List SwDesc
  pub sw_desc_idx : ℕ

-- The end of `xdma_init_request`: more descriptors than were allocated are refused.
abbrev pub finish_request : ℕ → ℕ → ℕ → Option (List SwDesc) → Option (Option XdmaRequest)
finish_request max total ep_addr none = none
finish_request max total ep_addr (some ds) =
    if ltb max (length ds)
    then some none
    else some (some (record { ep_addr = ep_addr; total = total; sdesc = ds; sw_desc_idx = 0 }))

-- `sizeof(struct sw_desc)`
abbrev pub sw_desc_size : ℕ
sw_desc_size = 16

-- The size that `xdma_request_alloc` asks for, an `unsigned int`, with `cb` for `sizeof(struct xdma_request_cb)`.
abbrev pub request_size : ℕ → ℕ → ℕ
request_size cb sdesc_nr = (cb + sdesc_nr * sw_desc_size) % 2 ^ 32

-- `xdma_init_request`. The outer option is the fuel, the inner one NULL: no memory for the descriptors
-- (`alloc`), or more descriptors than were allocated. The counts, which are `int` in the source, do not wrap
-- around here: this is the code as long as the size of the request is below 2 ^ 32 (`request_size`).
unfoldable pub xdma_init_request : ℕ → (ℕ → Bool) → List SwDesc → ℕ → Option (Option XdmaRequest)
xdma_init_request blen_max alloc sgl ep_addr =
    let max = length sgl + extra_descs blen_max sgl in
    if alloc max
    then finish_request max (total_len sgl) ep_addr (request_descs blen_max sgl)
    else some none

-- The fields of `struct xdma_engine` that hold the ring of descriptors.
pub record DescRing : Type 0 where
  pub desc : List XdmaDesc
  pub desc_bus : ℕ
  pub cyclic_result_bus : ℕ
  pub desc_idx : ℕ
  pub desc_max : ℕ
  pub desc_used : ℕ
  pub dir : Dir
  pub streaming : Bool
  pub eop_flush : Bool
  pub non_incr_addr : Bool

-- What `transfer_init` fills in of `struct xdma_transfer`.
pub record Built : Type 0 where
  pub bus : ℕ
  pub index : ℕ
  pub num : ℕ
  pub cmpl_th : ℕ
  pub len : ℕ

-- The loop of `transfer_build` over the descriptors of the transfer and the software descriptors from
-- `sw_desc_idx` on. The result has the descriptors, the card's address and the length behind it.
pub record BuildState : Type 0 where
  pub ep_addr : ℕ
  pub res_bus : ℕ
  pub len : ℕ

-- A streaming engine to the host has the address of the result descriptor as source.
unfoldable pub build_desc : DescRing → BuildState → XdmaDesc → SwDesc → XdmaDesc
build_desc r b d s =
    let d' = xdma_desc_set d s.addr b.ep_addr s.len r.dir in
    if r.streaming && is_from_device r.dir
    then record d' { src_addr_lo = pci_dma_l b.res_bus; src_addr_hi = pci_dma_h b.res_bus }
    else d'

abbrev pub build_next : DescRing → BuildState → SwDesc → BuildState
build_next r b s = record {
  ep_addr = if r.non_incr_addr then b.ep_addr else add64 b.ep_addr s.len;
  res_bus = if r.streaming && is_from_device r.dir then add64 b.res_bus desc_size else b.res_bus;
  len = add32 b.len s.len;
}

unfoldable pub transfer_build :
    DescRing → BuildState → List XdmaDesc → List SwDesc → List XdmaDesc × BuildState
unfolding build_desc
transfer_build r b [] ss = ([], b)
transfer_build r b (d ∷ ds) [] = (d ∷ ds, b)
transfer_build r b (d ∷ ds) (s ∷ ss) =
    let (ds', b') = transfer_build r (build_next r b s) ds ss in (build_desc r b d s ∷ ds', b')

-- The control words of `transfer_init`: STOPPED, EOP and COMPLETED on the last descriptor, and
-- COMPLETED on the others of an engine that flushes by end of packet.
unfoldable pub set_controls : Bool → List XdmaDesc → List XdmaDesc
set_controls eop_flush [] = []
set_controls eop_flush (d ∷ []) =
    (xdma_desc_control_set d (bit_or (bit_or DescBit.stopped DescBit.eop) DescBit.completed)).1 ∷ []
set_controls eop_flush (d ∷ e ∷ ds) =
    (if eop_flush then (xdma_desc_control_set d DescBit.completed).1 else d)
    ∷ set_controls eop_flush (e ∷ ds)

-- The last loop of `transfer_init`: of `n` descriptors from index i on, n - i - 1 remain.
unfoldable pub set_adjacents : List XdmaDesc → List XdmaDesc
set_adjacents [] = []
set_adjacents (d ∷ ds) =
    xdma_desc_adjacent d (xdma_get_next_adj (length ds) d.next_lo) ∷ set_adjacents ds

-- `desc_max` of `transfer_init` after its two limits: the software descriptors left, the ring's size,
-- and the room up to the ring's end.
unfoldable pub slots : XdmaRequest → DescRing → ℕ
slots req r =
    let n = min (length req.sdesc - req.sw_desc_idx) r.desc_max in
    if leb r.desc_max (r.desc_idx + n) then r.desc_max - r.desc_idx else n

-- The descriptors that `transfer_init` writes into its `n` slots of the ring, and the end of the build.
unfoldable pub program_slots : XdmaRequest → DescRing → ℕ → List XdmaDesc × BuildState
program_slots req r n =
    let bus = add64 r.desc_bus (desc_size * r.desc_idx) in
    let fresh : BuildState = record {
      ep_addr = req.ep_addr;
      res_bus = add64 r.cyclic_result_bus (desc_size * r.desc_idx);
      len = 0;
    } in
    let chain = transfer_desc_init (take n (drop r.desc_idx r.desc)) bus in
    let (built, b) = transfer_build r fresh chain (drop req.sw_desc_idx req.sdesc) in
    (set_adjacents (set_controls r.eop_flush built), b)

-- `transfer_init`: the transfer, the request and the ring behind it. The indices do not wrap.
unfoldable pub transfer_init : XdmaRequest → DescRing → Built × XdmaRequest × DescRing
transfer_init req r =
    let n = slots req r in
    let (ready, b) = program_slots req r n in
    (
      record {
        bus = add64 r.desc_bus (desc_size * r.desc_idx);
        index = r.desc_idx;
        num = n;
        cmpl_th = if r.eop_flush then 1 else n;
        len = b.len;
      },
      record req { ep_addr = b.ep_addr; sw_desc_idx = req.sw_desc_idx + n },
      record r {
        desc = take r.desc_idx r.desc ++ (ready ++ drop (r.desc_idx + n) r.desc);
        desc_idx = (r.desc_idx + n) % r.desc_max;
        desc_used = r.desc_used + n;
      },
    )
