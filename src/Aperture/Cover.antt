-- ===== src/Aperture/Cover.antt =====
-- What of the scatter list the first round of `xdma_xfer_aperture` of libxdma.c moves, and where the next
-- round starts.
use xdma_fpga.Base.{
  ℕ, zero, suc, ◌+◌, ◌-◌, ◌^◌, ◌≤◌, ◌<◌, bit_and, bit_and-le, take-length, true, false, List, [],
  ◌∷◌, ◌++◌, ◌≡◌, ◌⊎◌, inl, inr, ◌==◌, arith, length, length-append, take, refl, sym, ap, ◌∙◌,
  sub32, add64, All, Bool-cases, subst,
}
use native.Mathlib.Decide.{ℕ_discrete}
use xdma_fpga.Request.{SwDesc}
use xdma_fpga.Xfer.{Channel}
use xdma_fpga.Aperture.{
  Window, window, Piece, next_piece, cut_entry, walk, ApertureRequest, new_request, round_walk,
}
use xdma_fpga.Aperture.Inside.{
  IsWindow, IsAperture, window-IsWindow, Runs, card_end, cut_entry-Runs,
}

-- The pieces move the entries of a scatter list whole, one after another, and go on on the card.
abbrev pub RunsAll : Window → ℕ → List SwDesc → List Piece → Type 0
RunsAll w ep [] ps = ps ≡ []
RunsAll w ep (sg ∷ sgs) ps =
    (xs : List Piece) × (ys : List Piece) × (ps ≡ xs ++ ys)
    × Runs w sg.addr sg.len ep xs 0
    × RunsAll w (card_end ep xs) sgs ys

-- An entry ends within the 64-bit addresses.
abbrev pub Fits : SwDesc → Type 0
Fits sg = (sg.addr + sg.len < 2 ^ 64) × (sg.len < 2 ^ 32)

walk-RunsAll :
    (w : Window) (room ep : ℕ) (sgs : List SwDesc)
    → IsWindow w
    → All Fits sgs
    → w.base ≤ ep
    → ep < 2 ^ 64
    → let k = walk w room 0 ep sgs in
      ((k.passed ≡ length sgs) × RunsAll w ep sgs k.pieces) ⊎ (length k.pieces ≡ room)
unfolding walk
walk-RunsAll w room ep [] v f b e = inl (refl, refl)
walk-RunsAll w room ep (sg ∷ sgs) v f b e =
    let host : add64 sg.addr 0 ≡ sg.addr = omega (arith, f.0) in
    let whole : sub32 sg.len 0 ≡ sg.len = omega (arith, f.0) in
    let c = cut_entry w room sg.addr sg.len ep in
    let (runs, card, b', e', slots, ends) = cut_entry-Runs w room sg.addr sg.len ep v f.0.0 b e in
    let rest = walk w c.room 0 c.ep sgs in
    elim (ℕ_discrete room 0) [
      | yes z ↦ let full : (room == 0) ≡ true = ground arith in simp full (inr (sym z))
      | no nz ↦
          let free : (room == 0) ≡ false = ground arith in
          elim (ℕ_discrete c.tlen 0) [
            | yes d ↦
                let done : (c.tlen == 0) ≡ true = ground arith in
                simp (host, whole, free, done)
                  (elim (walk-RunsAll w c.room c.ep sgs v f.1 b' e') [
                    | inl (passed, more) ↦ inl (
                      omega (arith, passed),
                      (
                        c.pieces,
                        rest.pieces,
                        refl,
                        subst (λ n. Runs w sg.addr sg.len ep c.pieces n) d runs,
                        subst (λ q. RunsAll w q sgs rest.pieces) card more,
                      ),
                    )
                    | inr used ↦
                        inr (omega (arith, used, slots, length-append c.pieces rest.pieces))
                  ])
            | no nd ↦
                let broke : (c.tlen == 0) ≡ false = ground arith in
                let out : c.room ≡ 0 = elim ends [ inl z ↦ absurd (nd z) | inr o ↦ o ] in
                simp (host, whole, free, broke) (inr (omega (arith, slots, out)))
          ]
    ]

-- The first round of `xdma_xfer_aperture` either passes the whole scatter list, and its descriptors move each
-- entry whole, in order, the card's address going round in the window from `ep_addr` on; or it uses up all
-- descriptors to the ring's end. (Entries fit, and the window is not empty.)
pub first_round-RunsAll :
    (blen_max ep_addr aperture : ℕ) (sgl : List SwDesc) (c : Channel)
    → IsAperture ep_addr aperture blen_max
    → All Fits sgl
    → let w = window ep_addr aperture blen_max in
      let k = round_walk blen_max (new_request sgl ep_addr aperture) c in
      ((k.passed ≡ length sgl) × RunsAll w ep_addr sgl k.pieces)
      ⊎ (length k.pieces ≡ c.desc_max - c.desc_idx)
unfolding round_walk
first_round-RunsAll blen_max ep_addr aperture sgl c v f =
    let w = window ep_addr aperture blen_max in
    let start : add64 ep_addr 0 ≡ ep_addr = omega (arith, v.on_card) in
    let zero : bit_and 0 (aperture - 1) ≡ 0 = omega (arith, bit_and-le 0 (aperture - 1)) in
    let all : length sgl - 0 ≡ length sgl = omega arith in
    simp (zero, start, all, take-length sgl)
      (walk-RunsAll w (c.desc_max - c.desc_idx) ep_addr sgl
        (window-IsWindow ep_addr aperture blen_max v) f (omega arith) (omega (arith, v.on_card)))

cut_first :
    (w : Window) (room addr tlen ep : ℕ)
    → 0 < room
    → 0 < tlen
    → (ps : List Piece) × ((cut_entry w room addr tlen ep).pieces ≡ next_piece w addr tlen ep ∷ ps)
unfolding cut_entry
cut_first w zero addr tlen ep r t = absurd (omega arith)
cut_first w (suc room) addr tlen ep r t =
    let more : (tlen == 0) ≡ false = ground arith in
    let p = next_piece w addr tlen ep in
    ((cut_entry w room (add64 addr p.len) (tlen - p.len) (add64 p.ep p.len)).pieces, rw more refl)

walk_first :
    (w : Window) (room sg_offset ep : ℕ) (sg : SwDesc) (sgs : List SwDesc)
    → 0 < room
    → 0 < sub32 sg.len sg_offset
    → let p = next_piece w (add64 sg.addr sg_offset) (sub32 sg.len sg_offset) ep in
      (ps : List Piece) × ((walk w room sg_offset ep (sg ∷ sgs)).pieces ≡ p ∷ ps)
unfolding walk
walk_first w room sg_offset ep sg sgs r t =
    let c = cut_entry w room (add64 sg.addr sg_offset) (sub32 sg.len sg_offset) ep in
    let free : (room == 0) ≡ false = ground arith in
    let (ps, e) = cut_first w room (add64 sg.addr sg_offset) (sub32 sg.len sg_offset) ep r t in
    elim (Bool-cases (c.tlen == 0)) [
      | inl done ↦ (
        ps ++ (walk w c.room 0 c.ep sgs).pieces,
        simp (free, done) (ap (λ qs. qs ++ (walk w c.room 0 c.ep sgs).pieces) e),
      )
      | inr broke ↦ (ps, simp (free, broke) e)
    ]

take_first :
    (n : ℕ) (sg : SwDesc) (sgs : List SwDesc) → 0 < n → take n (sg ∷ sgs) ≡ sg ∷ take (n - 1) sgs
take_first zero sg sgs h = absurd (omega arith)
take_first (suc n) sg sgs h = let e : suc n - 1 ≡ n = omega arith in rw e refl

-- A later round does not go on in the entry that the last one broke off in. Whatever entries are passed, its
-- first descriptor moves memory of the first entry, from the offset on that was reached in another.
pub round_restarts :
    (blen_max : ℕ) (req : ApertureRequest) (c : Channel) (sg : SwDesc) (sgs : List SwDesc)
    → req.sgl ≡ sg ∷ sgs
    → req.sg_idx < length req.sgl
    → c.desc_idx < c.desc_max
    → req.sg_offset < sg.len
    → sg.len < 2 ^ 32
    → (p : Piece) × (ps : List Piece) × ((round_walk blen_max req c).pieces ≡ p ∷ ps)
      × (p.addr ≡ add64 sg.addr req.sg_offset)
unfolding round_walk next_piece
round_restarts blen_max req c sg sgs q i room off small =
    let n = length req.sgl - req.sg_idx in
    let w = window req.ep_addr req.aperture blen_max in
    let ep = add64 req.ep_addr (bit_and req.offset (req.aperture - 1)) in
    let first : take n req.sgl ≡ sg ∷ take (n - 1) sgs =
      ap (take n) q ∙ take_first n sg sgs (omega arith) in
    let (ps, e) =
      walk_first w (c.desc_max - c.desc_idx) req.sg_offset ep sg (take (n - 1) sgs) (omega arith)
        (omega arith) in
    (
      next_piece w (add64 sg.addr req.sg_offset) (sub32 sg.len req.sg_offset) ep,
      ps,
      ap (λ es. (walk w (c.desc_max - c.desc_idx) req.sg_offset ep es).pieces) first ∙ e,
      refl,
    )
