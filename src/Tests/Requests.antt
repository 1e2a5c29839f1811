-- ===== src/Tests/Requests.antt =====
-- Descriptors and requests of libxdma.c at concrete inputs.
use xdma_fpga.Base.{
  ℕ, ◌+◌, ◌*◌, ◌%◌, ◌^◌, ◌≤◌, ◌<◌, Bool, true, false, none, some, List, [], ◌∷◌, ◌≡◌, ◌⊎◌, refl,
  arith, drop, length,
}
use xdma_fpga.Hw.{to_device, from_device}
use xdma_fpga.Desc.{XdmaDesc, desc_size, xdma_desc_set, xdma_get_next_adj}
use xdma_fpga.Desc.Adjacent.{block, next_adj_greatest}
use xdma_fpga.Desc.Fields.{Linked, next, host_addr, card_addr, desc_set_fields}
use xdma_fpga.Request.{
  SwDesc, XdmaRequest, DescRing, segment_descs, slots, program_slots, transfer_init,
  xdma_init_request, extra_descs, request_size,
}
use xdma_fpga.Request.Segments.{CoversAll, init_request_in_size}
use xdma_fpga.Request.Controls.{Controlled}
use xdma_fpga.Request.Program.{Moves, sum_len}
use xdma_fpga.Request.Slots.{IsRing, transfer_init-IsRing, transfer_init_chain, transfer_init-Moves}

abbrev pub blank : XdmaDesc
blank = record {
  control = 0;
  bytes = 0;
  src_addr_lo = 0;
  src_addr_hi = 0;
  dst_addr_lo = 0;
  dst_addr_hi = 0;
  next_lo = 0;
  next_hi = 0;
}

-- Four descriptors, of which the next is the second.
abbrev ring : DescRing
ring = record {
  desc = blank ∷ blank ∷ blank ∷ blank ∷ [];
  desc_bus = 0x1_0000_1000;
  cyclic_result_bus = 0;
  desc_idx = 1;
  desc_max = 4;
  desc_used = 0;
  dir = to_device;
  streaming = false;
  eop_flush = false;
  non_incr_addr = false;
}

ring-IsRing : IsRing ring
ring-IsRing = omega arith

abbrev pub piece : ℕ → ℕ → SwDesc
piece a n = record { addr = a; len = n }

-- One of five pieces is done already.
abbrev request : XdmaRequest
request = record {
  ep_addr = 0x8000;
  total = 20;
  sdesc = piece 0x1000 4 ∷ piece 0x2000 4 ∷ piece 0x3000 4 ∷ piece 0x4000 4 ∷ piece 0x5000 4 ∷ [];
  sw_desc_idx = 1;
}

slots_run : slots request ring ≡ 3
unfolding slots
slots_run = refl

pieces_run :
    segment_descs 4 11 0x1000 10 ≡ some (piece 0x1000 4 ∷ piece 0x1004 4 ∷ piece 0x1008 2 ∷ [])
unfolding segment_descs
pieces_run = refl

next_adj_greatest_example :
    let adj = xdma_get_next_adj 9 0x7c0 in
    (adj + 1 ≤ 9)
    × (block (0x7c0 + desc_size * adj) ≡ block 0x7c0)
    × ((adj + 1 ≡ 9) ⊎ (block (0x7c0 + desc_size * (adj + 1)) ≡ block 0x7c0 + 1))
next_adj_greatest_example = next_adj_greatest 9 0x7c0 (omega arith)

desc_set_fields_example :
    let d' = xdma_desc_set blank 0x1_0000_2000 0x8000 64 from_device in
    (host_addr from_device d' ≡ 0x1_0000_2000)
    × (card_addr from_device d' ≡ 0x8000)
    × (d'.bytes ≡ 64)
    × (next d' ≡ 0)
    × (d'.control ≡ 0)
desc_set_fields_example =
    desc_set_fields blank 0x1_0000_2000 0x8000 64 from_device (omega arith) (omega arith)
      (omega arith)

abbrev has_memory : ℕ → Bool
has_memory n = true

abbrev scatter : List SwDesc
scatter = piece 0x1000 10 ∷ piece 0x9000 3 ∷ []

small_scatter : 200 + (length scatter + extra_descs 4 scatter) * 16 < 2 ^ 32
unfolding extra_descs
small_scatter = omega arith

init_request_in_size_example :
    let max = length scatter + extra_descs 4 scatter in
    let r = xdma_init_request 4 has_memory scatter 0x8000 in
    ((true ≡ false) × (r ≡ some none))
    ⊎ ((true ≡ true)
        × (req : XdmaRequest) × (r ≡ some (some req))
        × CoversAll 4 scatter req.sdesc
        × (200 + length req.sdesc * 16 ≤ request_size 200 max)
        × (req.ep_addr ≡ 0x8000)
        × (req.sw_desc_idx ≡ 0))
init_request_in_size_example =
    init_request_in_size 200 4 has_memory scatter 0x8000 (omega arith) (omega arith) small_scatter

transfer_init-IsRing_example :
    let (t, req', r') = transfer_init request ring in
    (0 < t.num)
    × (t.index + t.num ≤ 4)
    × (req'.sw_desc_idx ≡ 1 + t.num)
    × (req'.sw_desc_idx ≤ length req'.sdesc)
    × (r'.desc_used ≡ 0 + t.num)
    × IsRing r'
    × (r'.desc_idx ≡ (ring.desc_idx + t.num) % 4)
transfer_init-IsRing_example = transfer_init-IsRing request ring ring-IsRing (omega arith)

transfer_init_chain_example :
    let ready = (program_slots request ring (slots request ring)).0 in
    Linked ready 0x1_0000_1020 × Controlled false ready × (length ready ≡ slots request ring)
transfer_init_chain_example = transfer_init_chain request ring ring-IsRing (omega arith)

transfer_init-Moves_example :
    Moves to_device 0x8000
      (program_slots request ring (slots request ring)).0
      (drop 1 request.sdesc)
unfolding sum_len
transfer_init-Moves_example =
    transfer_init-Moves request ring refl refl (omega arith) (omega arith) (omega arith)
      (omega arith)
