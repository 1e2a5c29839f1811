-- ===== src/Request/Slots.antt =====
-- `transfer_init` of libxdma.c as a whole: the slots that it takes of the ring, and what stands in them.
use xdma_fpga.Base.{
  ℕ, ◌+◌, ◌*◌, ◌^◌, ◌%◌, ◌≤◌, ◌<◌, Bool, false, List, [], ◌∷◌, ◌++◌, ◌≡◌, arith, length, take, drop,
  refl, sym, subst, add64, All, length-take, length-drop, length-append,
}
use xdma_fpga.Desc.{XdmaDesc, desc_size, transfer_desc_init}
use xdma_fpga.Desc.Fields.{Linked, transfer_desc_init-Linked, length-init}
use xdma_fpga.Request.{
  SwDesc, XdmaRequest, DescRing, BuildState, build_next, transfer_build, set_controls,
  set_adjacents, slots, program_slots, transfer_init,
}
use xdma_fpga.Request.Controls.{
  Controlled, Controlled-adjacents, Marked-controls, Magic-build, Magic-init, length-adjacents,
}
use xdma_fpga.Request.Program.{
  Linked-Same, Linked-build, Same-controls, Same-adjacents, Moves, Moves-Same, Moves-build, InRange,
  sum_len,
}

-- The ring holds `desc_max` descriptors, below 2 ^ 64 on the bus, and the index is inside.
pub record IsRing (r : DescRing) : Type 0 where
  pub size : length r.desc ≡ r.desc_max
  pub inside : r.desc_idx < r.desc_max
  pub on_bus : r.desc_bus + desc_size * r.desc_max < 2 ^ 64

slots_bounds :
    (req : XdmaRequest) (r : DescRing)
    → r.desc_idx < r.desc_max
    → req.sw_desc_idx < length req.sdesc
    → let n = slots req r in
      (0 < n) × (r.desc_idx + n ≤ r.desc_max) × (req.sw_desc_idx + n ≤ length req.sdesc)
unfolding slots
slots_bounds req r h k = ground arith

length-build :
    (r : DescRing) (b : BuildState) (ds : List XdmaDesc) (ss : List SwDesc)
    → length (transfer_build r b ds ss).0 ≡ length ds
unfolding transfer_build
length-build r b [] ss = refl
length-build r b (d ∷ ds) [] = refl
length-build r b (d ∷ ds) (s ∷ ss) = omega (arith, length-build r (build_next r b s) ds ss)

length-controls : (eop : Bool) (ds : List XdmaDesc) → length (set_controls eop ds) ≡ length ds
unfolding set_controls
length-controls eop [] = refl
length-controls eop (d ∷ []) = refl
length-controls eop (d ∷ e ∷ ds) = omega (arith, length-controls eop (e ∷ ds))

length-program :
    (req : XdmaRequest) (r : DescRing) (n : ℕ)
    → r.desc_idx + n ≤ length r.desc
    → length (program_slots req r n).0 ≡ n
unfolding program_slots
length-program req r n h = omega (
  arith,
  length-adjacents (set_controls r.eop_flush _),
  length-controls r.eop_flush _,
  length-build r _ _ (drop req.sw_desc_idx req.sdesc),
  length-init (take n (drop r.desc_idx r.desc)) _,
  length-take {0} n (drop r.desc_idx r.desc),
  length-drop {0} r.desc_idx r.desc,
)

-- On a ring with a request that has descriptors left, `transfer_init` takes at least one slot, as many
-- software descriptors, and none beyond the end of the ring or of the request. The count of used
-- descriptors and the request move on by as many, and so does the index, from the ring's end to its
-- start; the ring stays one.
pub transfer_init-IsRing :
    (req : XdmaRequest) (r : DescRing)
    → IsRing r
    → req.sw_desc_idx < length req.sdesc
    → let (t, req', r') = transfer_init req r in
      (0 < t.num)
      × (t.index + t.num ≤ r.desc_max)
      × (req'.sw_desc_idx ≡ req.sw_desc_idx + t.num)
      × (req'.sw_desc_idx ≤ length req'.sdesc)
      × (r'.desc_used ≡ r.desc_used + t.num)
      × IsRing r'
      × (r'.desc_idx ≡ (r.desc_idx + t.num) % r.desc_max)
unfolding transfer_init
transfer_init-IsRing req r v k =
    let n = slots req r in
    let (pos, room, left) = slots_bounds req r v.inside k in
    let fits : r.desc_idx + n ≤ length r.desc = omega (arith, v.size) in
    let ready = (program_slots req r n).0 in
    (
      pos,
      room,
      refl,
      left,
      refl,
      record {
        size = omega (
          arith,
          v.size,
          length-append (take r.desc_idx r.desc) (ready ++ drop (r.desc_idx + n) r.desc),
          length-append ready (drop (r.desc_idx + n) r.desc),
          length-program req r n fits,
          length-take {0} r.desc_idx r.desc,
          length-drop {0} (r.desc_idx + n) r.desc,
        );
        inside = omega (arith, v.inside);
        on_bus = v.on_bus;
      },
      refl,
    )

-- The bus address of the slot that comes next.
abbrev pub slot_bus : DescRing → ℕ
slot_bus r = r.desc_bus + desc_size * r.desc_idx

program-Linked :
    (req : XdmaRequest) (r : DescRing) (n : ℕ)
    → IsRing r
    → r.desc_idx + n ≤ r.desc_max
    → Linked (program_slots req r n).0 (slot_bus r)
unfolding program_slots
program-Linked req r n v room =
    Linked-Same (set_controls r.eop_flush built) (set_adjacents (set_controls r.eop_flush built))
      (slot_bus r) (Same-adjacents (set_controls r.eop_flush built))
      (Linked-Same built (set_controls r.eop_flush built) (slot_bus r)
        (Same-controls r.eop_flush built) linked)
  where
    at : add64 r.desc_bus (desc_size * r.desc_idx) ≡ slot_bus r
    at = omega (arith, v.on_bus, v.inside)

    free : List XdmaDesc
    free = take n (drop r.desc_idx r.desc)

    start : BuildState
    start = record {
      ep_addr = req.ep_addr;
      res_bus = add64 r.cyclic_result_bus (desc_size * r.desc_idx);
      len = 0;
    }

    chain : List XdmaDesc
    chain = transfer_desc_init free (add64 r.desc_bus (desc_size * r.desc_idx))

    built : List XdmaDesc
    built = (transfer_build r start chain (drop req.sw_desc_idx req.sdesc)).0

    short : slot_bus r + desc_size * length free < 2 ^ 64
    short = omega (arith, v.on_bus, length-take {0} n (drop r.desc_idx r.desc))

    linked : Linked built (slot_bus r)
    linked = Linked-build r start chain (drop req.sw_desc_idx req.sdesc) (slot_bus r) (
        subst (λ a. Linked (transfer_desc_init free a) (slot_bus r)) (sym at)
          (transfer_desc_init-Linked free (slot_bus r) short))

program-Controlled :
    (req : XdmaRequest) (r : DescRing) (n : ℕ) → Controlled r.eop_flush (program_slots req r n).0
unfolding program_slots
program-Controlled req r n = Controlled-adjacents r.eop_flush _ (
    Marked-controls r.eop_flush _
      (Magic-build r _ _ (drop req.sw_desc_idx req.sdesc) (Magic-init _ _)))

-- The descriptors that `transfer_init` writes form one chain in the order of the ring, ended by 0. Each
-- control word is the magic with the count of adjacent descriptors and a low byte, which has STOPPED, EOP
-- and COMPLETED on the last, and on the others COMPLETED or nothing. There is one for each slot.
pub transfer_init_chain :
    (req : XdmaRequest) (r : DescRing)
    → IsRing r
    → req.sw_desc_idx < length req.sdesc
    → let ready = (program_slots req r (slots req r)).0 in
      Linked ready (slot_bus r) × Controlled r.eop_flush ready × (length ready ≡ slots req r)
transfer_init_chain req r v k =
    let room = (slots_bounds req r v.inside k).1 in
    (
      program-Linked req r (slots req r) v room,
      program-Controlled req r (slots req r),
      length-program req r (slots req r) (omega (arith, v.size)),
    )

-- On an engine that is not streaming and counts addresses up, the descriptors that `transfer_init`
-- writes move the next pieces of the request, in order: the host's address and the length of each, and
-- on the card one byte after another from the request's address on. (The pieces are in range.)
pub transfer_init-Moves :
    (req : XdmaRequest) (r : DescRing)
    → r.streaming ≡ false
    → r.non_incr_addr ≡ false
    → r.desc_idx < r.desc_max
    → req.sw_desc_idx < length req.sdesc
    → All InRange (drop req.sw_desc_idx req.sdesc)
    → req.ep_addr + sum_len (drop req.sw_desc_idx req.sdesc) < 2 ^ 64
    → Moves r.dir req.ep_addr (program_slots req r (slots req r)).0 (drop req.sw_desc_idx req.sdesc)
unfolding program_slots
transfer_init-Moves req r st inc inside k ok ep =
    Moves-Same r.dir req.ep_addr (set_controls r.eop_flush built)
      (set_adjacents (set_controls r.eop_flush built)) todo
      (Same-adjacents (set_controls r.eop_flush built))
      (Moves-Same r.dir req.ep_addr built (set_controls r.eop_flush built) todo
        (Same-controls r.eop_flush built) (Moves-build r start chain todo st inc enough ok ep))
  where
    todo : List SwDesc
    todo = drop req.sw_desc_idx req.sdesc

    start : BuildState
    start = record {
      ep_addr = req.ep_addr;
      res_bus = add64 r.cyclic_result_bus (desc_size * r.desc_idx);
      len = 0;
    }

    free : List XdmaDesc
    free = take (slots req r) (drop r.desc_idx r.desc)

    chain : List XdmaDesc
    chain = transfer_desc_init free (add64 r.desc_bus (desc_size * r.desc_idx))

    built : List XdmaDesc
    built = (transfer_build r start chain todo).0

    enough : length chain ≤ length todo
    enough = omega (
      arith,
      length-init free (add64 r.desc_bus (desc_size * r.desc_idx)),
      length-take {0} (slots req r) (drop r.desc_idx r.desc),
      length-drop {0} req.sw_desc_idx req.sdesc,
      (slots_bounds req r inside k).2,
    )
