-- ===== src/Request/Program.antt =====
-- What the descriptors that `transfer_init` of libxdma.c hands to the device transfer, and how they
-- are linked.
use xdma_fpga.Base.{
  ℕ, ◌+◌, ◌^◌, ◌≤◌, ◌<◌, Bool, true, false, List, [], ◌∷◌, ◌≡◌, arith, length, refl, sym, subst,
  ◌∙◌, All,
}
use xdma_fpga.Hw.{Dir, to_device, from_device}
use xdma_fpga.Desc.{XdmaDesc, desc_size, xdma_desc_control_set, xdma_desc_adjacent, xdma_desc_set}
use xdma_fpga.Desc.Fields.{next, src, dst, successor, Linked, host_addr, card_addr, desc_set_fields}
use xdma_fpga.Request.Controls.{build-control}
use xdma_fpga.Request.{
  SwDesc, DescRing, BuildState, build_desc, build_next, transfer_build, set_controls, set_adjacents,
}

-- Two arrays with the same links, lengths and addresses.
abbrev pub Same : List XdmaDesc → List XdmaDesc → Type 0
Same [] [] = Unit
Same (d ∷ ds) (e ∷ es) =
    (next e ≡ next d) × (e.bytes ≡ d.bytes) × (src e ≡ src d) × (dst e ≡ dst d) × Same ds es
Same _ _ = ⊥

Same-refl : (ds : List XdmaDesc) → Same ds ds
Same-refl [] = tt
Same-refl (d ∷ ds) = (refl, refl, refl, refl, Same-refl ds)

pub Same-adjacents : (ds : List XdmaDesc) → Same ds (set_adjacents ds)
unfolding set_adjacents xdma_desc_adjacent
Same-adjacents [] = tt
Same-adjacents (d ∷ ds) = (refl, refl, refl, refl, Same-adjacents ds)

pub Same-controls : (eop : Bool) (ds : List XdmaDesc) → Same ds (set_controls eop ds)
unfolding set_controls xdma_desc_control_set
Same-controls eop [] = tt
Same-controls eop (d ∷ []) = (refl, refl, refl, refl, tt)
Same-controls true (d ∷ e ∷ ds) = (refl, refl, refl, refl, Same-controls true (e ∷ ds))
Same-controls false (d ∷ e ∷ ds) = (refl, refl, refl, refl, Same-controls false (e ∷ ds))

pub Linked-Same : (ds es : List XdmaDesc) (bus : ℕ) → Same ds es → Linked ds bus → Linked es bus
Linked-Same [] [] bus s l = tt
Linked-Same [] (e ∷ es) bus s l = absurd s
Linked-Same (d ∷ ds) [] bus s l = absurd s
Linked-Same (d ∷ []) (e ∷ []) bus s l = (s.0 ∙ l.0, tt)
Linked-Same (d ∷ []) (e ∷ e' ∷ es) bus s l = absurd s.4
Linked-Same (d ∷ d' ∷ ds) (e ∷ []) bus s l = absurd s.4
Linked-Same (d ∷ d' ∷ ds) (e ∷ e' ∷ es) bus s l =
    (s.0 ∙ l.0, Linked-Same (d' ∷ ds) (e' ∷ es) (bus + desc_size) s.4 l.1)

successor-build :
    (r : DescRing) (b : BuildState) (d : XdmaDesc) (ds : List XdmaDesc) (ss : List SwDesc) (to : ℕ)
    → successor (transfer_build r b (d ∷ ds) ss).0 to ≡ to
unfolding transfer_build
successor-build r b d ds [] to = refl
successor-build r b d ds (s ∷ ss) to = refl

pub Linked-build :
    (r : DescRing) (b : BuildState) (ds : List XdmaDesc) (ss : List SwDesc) (bus : ℕ)
    → Linked ds bus
    → Linked (transfer_build r b ds ss).0 bus
unfolding transfer_build
Linked-build r b [] ss bus l = tt
Linked-build r b (d ∷ ds) [] bus l = l
Linked-build r b (d ∷ []) (s ∷ ss) bus l = ((build-control r b d s).1 ∙ l.0, tt)
Linked-build r b (d ∷ d' ∷ ds) (s ∷ ss) bus l = (
  (build-control r b d s).1
      ∙ l.0
      ∙ sym (successor-build r (build_next r b s) d' ds ss (bus + desc_size)),
  Linked-build r (build_next r b s) (d' ∷ ds) ss (bus + desc_size) l.1,
)

-- The descriptors move the pieces of the request in order: each its host address and length, and on the
-- card one byte after another from `ep` on.
abbrev pub Moves : Dir → ℕ → List XdmaDesc → List SwDesc → Type 0
Moves dir ep [] ss = Unit
Moves dir ep (d ∷ ds) [] = ⊥
Moves dir ep (d ∷ ds) (s ∷ ss) =
    (host_addr dir d ≡ s.addr)
    × (d.bytes ≡ s.len)
    × (card_addr dir d ≡ ep)
    × Moves dir (ep + s.len) ds ss

pub Moves-Same :
    (dir : Dir) (ep : ℕ) (ds es : List XdmaDesc) (ss : List SwDesc)
    → Same ds es
    → Moves dir ep ds ss
    → Moves dir ep es ss
Moves-Same dir ep [] [] ss s m = tt
Moves-Same dir ep [] (e ∷ es) ss s m = absurd s
Moves-Same dir ep (d ∷ ds) [] ss s m = absurd s
Moves-Same dir ep (d ∷ ds) (e ∷ es) [] s m = absurd m
Moves-Same to_device ep (d ∷ ds) (e ∷ es) (x ∷ ss) s m =
    (s.2 ∙ m.0, s.1 ∙ m.1, s.3 ∙ m.2, Moves-Same to_device (ep + x.len) ds es ss s.4 m.3)
Moves-Same from_device ep (d ∷ ds) (e ∷ es) (x ∷ ss) s m =
    (s.3 ∙ m.0, s.1 ∙ m.1, s.2 ∙ m.2, Moves-Same from_device (ep + x.len) ds es ss s.4 m.3)

unfoldable pub sum_len : List SwDesc → ℕ
sum_len [] = 0
sum_len (s ∷ ss) = s.len + sum_len ss

-- Host addresses fit 64 bits, and lengths 32.
abbrev pub InRange : SwDesc → Type 0
InRange s = (s.addr < 2 ^ 64) × (s.len < 2 ^ 32)

build_plain :
    (r : DescRing) (b : BuildState) (d : XdmaDesc) (s : SwDesc)
    → r.streaming ≡ false
    → build_desc r b d s ≡ xdma_desc_set d s.addr b.ep_addr s.len r.dir
unfolding build_desc
build_plain r b d s st = rw st

pub Moves-build :
    (r : DescRing) (b : BuildState) (ds : List XdmaDesc) (ss : List SwDesc)
    → r.streaming ≡ false
    → r.non_incr_addr ≡ false
    → length ds ≤ length ss
    → All InRange ss
    → b.ep_addr + sum_len ss < 2 ^ 64
    → Moves r.dir b.ep_addr (transfer_build r b ds ss).0 ss
unfolding transfer_build sum_len
Moves-build r b [] ss st inc le ok ep = tt
Moves-build r b (d ∷ ds) [] st inc le ok ep = absurd (omega arith)
Moves-build r b (d ∷ ds) (s ∷ ss) st inc le ok ep =
    let f = desc_set_fields d s.addr b.ep_addr s.len r.dir ok.0.0 (omega arith) ok.0.1 in
    let step : (build_next r b s).ep_addr ≡ b.ep_addr + s.len = ground (arith, inc) in
    rw (build_plain r b d s st) (
      f.0,
      f.2,
      f.1,
      subst (λ ep. Moves r.dir ep (transfer_build r (build_next r b s) ds ss).0 ss) step
          (Moves-build r (build_next r b s) ds ss st inc (omega arith) ok.1
            (rw step (omega arith))),
    )
