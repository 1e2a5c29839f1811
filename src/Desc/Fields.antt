-- ===== src/Desc/Fields.antt =====
-- What the words of a descriptor of libxdma.c say: addresses, length and successor.
use xdma_fpga.Base.{ℕ, ◌+◌, ◌*◌, ◌^◌, ◌<◌, List, [], ◌∷◌, ◌≡◌, arith, length, add64, refl, sym, ◌∙◌}
use xdma_fpga.Hw.{Dir, to_device, from_device}
use xdma_fpga.Desc.{XdmaDesc, desc_size, desc_reset, transfer_desc_init, xdma_desc_set}

abbrev pub src : XdmaDesc → ℕ
src d = d.src_addr_hi * 2 ^ 32 + d.src_addr_lo

abbrev pub dst : XdmaDesc → ℕ
dst d = d.dst_addr_hi * 2 ^ 32 + d.dst_addr_lo

abbrev pub next : XdmaDesc → ℕ
next d = d.next_hi * 2 ^ 32 + d.next_lo

-- The host's side of a transfer in a direction, and the card's.
abbrev pub host_addr : Dir → XdmaDesc → ℕ
host_addr to_device d = src d
host_addr from_device d = dst d

abbrev pub card_addr : Dir → XdmaDesc → ℕ
card_addr to_device d = dst d
card_addr from_device d = src d

-- `xdma_desc_set` puts the host's and the card's address on the sides that the direction asks for,
-- both whole, and leaves the link and the control word.
pub desc_set_fields :
    (d : XdmaDesc) (rc ep len : ℕ) (dir : Dir)
    → rc < 2 ^ 64
    → ep < 2 ^ 64
    → len < 2 ^ 32
    → let d' = xdma_desc_set d rc ep len dir in
      (host_addr dir d' ≡ rc)
      × (card_addr dir d' ≡ ep)
      × (d'.bytes ≡ len)
      × (next d' ≡ next d)
      × (d'.control ≡ d.control)
unfolding xdma_desc_set
desc_set_fields d rc ep len to_device hr he hl = omega arith
desc_set_fields d rc ep len from_device hr he hl = omega arith

-- The link to the head of what follows, which stands at `bus`, or 0 at the end.
abbrev pub successor : List XdmaDesc → ℕ → ℕ
successor [] bus = 0
successor (d ∷ ds) bus = bus

-- The descriptors from the bus address `bus` on, each linked to the one behind it and the last to 0.
abbrev pub Linked : List XdmaDesc → ℕ → Type 0
Linked [] bus = Unit
Linked (d ∷ ds) bus = (next d ≡ successor ds (bus + desc_size)) × Linked ds (bus + desc_size)

successor-init :
    (e : XdmaDesc) (ds : List XdmaDesc) (bus to : ℕ)
    → successor (transfer_desc_init (e ∷ ds) bus) to ≡ to
unfolding transfer_desc_init
successor-init e [] bus to = refl
successor-init e (d ∷ ds) bus to = refl

pub length-init : (ds : List XdmaDesc) (bus : ℕ) → length (transfer_desc_init ds bus) ≡ length ds
unfolding transfer_desc_init
length-init [] bus = refl
length-init (d ∷ []) bus = refl
length-init (d ∷ e ∷ ds) bus = omega (arith, length-init (e ∷ ds) (add64 bus desc_size))

reset-next : (d : XdmaDesc) (bus : ℕ) → bus < 2 ^ 64 → next (desc_reset d bus) ≡ bus
unfolding desc_reset
reset-next d bus h = omega arith

-- `transfer_desc_init` makes one chain of the descriptors, in the order of their addresses. (The array
-- ends below 2 ^ 64.)
pub transfer_desc_init-Linked :
    (ds : List XdmaDesc) (bus : ℕ)
    → bus + desc_size * length ds < 2 ^ 64
    → Linked (transfer_desc_init ds bus) bus
unfolding transfer_desc_init
transfer_desc_init-Linked [] bus h = tt
transfer_desc_init-Linked (d ∷ []) bus h = (reset-next d 0 (omega arith), tt)
transfer_desc_init-Linked (d ∷ e ∷ ds) bus h =
    let step : add64 bus desc_size ≡ bus + desc_size = omega arith in
    rw step (
      reset-next d (bus + desc_size) (omega arith)
          ∙ sym (successor-init e ds (bus + desc_size) (bus + desc_size)),
      transfer_desc_init-Linked (e ∷ ds) (bus + desc_size) (omega arith),
    )
