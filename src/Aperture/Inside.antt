-- ===== src/Aperture/Inside.antt =====
-- The descriptors of `xdma_xfer_aperture` of libxdma.c stay in the window, and cover what they pass of the
-- scatter list.
use xdma_fpga.Base.{
  ℕ, zero, suc, ◌+◌, ◌-◌, ◌^◌, ◌≤◌, ◌<◌, bit_and, bit_and-le, false, List, [], ◌∷◌, ◌≡◌, ◌⊎◌, inl,
  inr, ◌==◌, arith, length, take, refl, sub32, add64, All, All-append, Bool-cases,
}
use native.Mathlib.Decide.{dec_lt, ℕ_discrete}
use xdma_fpga.Request.{SwDesc}
use xdma_fpga.Xfer.{Channel}
use xdma_fpga.Aperture.{
  Window, window, Piece, next_piece, cut_entry, walk, ApertureRequest, round_walk,
}

-- A piece moves a byte at least, no more than one descriptor may, and stays in the window.
pub record InWindow (w : Window) (p : Piece) : Type 0 where
  pub positive : 0 < p.len
  pub short : p.len ≤ w.maxlen
  pub from : w.base ≤ p.ep
  pub to : p.ep + p.len ≤ w.last + 1

-- A window of 1 to 2 ^ 32 - 1 bytes that leaves room at the end of the 64-bit addresses.
pub record IsWindow (w : Window) : Type 0 where
  pub some_len : 0 < w.maxlen
  pub small : w.maxlen < 2 ^ 32
  pub order : w.base ≤ w.last
  pub size : w.last < w.base + 2 ^ 32
  pub on_card : w.last + 2 ^ 33 < 2 ^ 64

next_piece-InWindow :
    (w : Window) (addr tlen ep : ℕ)
    → IsWindow w
    → 0 < tlen
    → w.base ≤ ep
    → InWindow w (next_piece w addr tlen ep) × ((next_piece w addr tlen ep).len ≤ tlen)
unfolding next_piece
next_piece-InWindow w addr tlen ep v t b = (
  record { positive = ground arith; short = ground arith; from = ground arith; to = ground arith },
  ground arith,
)

-- The pieces move the `tlen` bytes of the host from `addr` on one after another, up to the last `rest`. On
-- the card they run from `ep` on, and from the base again behind the window's end.
abbrev pub Runs : Window → ℕ → ℕ → ℕ → List Piece → ℕ → Type 0
Runs w addr tlen ep [] rest = tlen ≡ rest
Runs w addr tlen ep (p ∷ ps) rest =
    (p.addr ≡ addr)
    × (p.len ≤ tlen)
    × ((p.ep ≡ ep) ⊎ ((w.last < ep) × (p.ep ≡ w.base)))
    × InWindow w p
    × Runs w (addr + p.len) (tlen - p.len) (p.ep + p.len) ps rest

-- Where on the card the pieces end.
abbrev pub card_end : ℕ → List Piece → ℕ
card_end ep [] = ep
card_end ep (p ∷ ps) = card_end (p.ep + p.len) ps

next_piece_ep :
    (w : Window) (addr tlen ep : ℕ)
    → let p = next_piece w addr tlen ep in (p.ep ≡ ep) ⊎ ((w.last < ep) × (p.ep ≡ w.base))
unfolding next_piece
next_piece_ep w addr tlen ep = elim (dec_lt w.last ep) [
  | yes h ↦ inr (h, ground arith)
  | no h ↦ inl (ground arith)
]

pub cut_entry-Runs :
    (w : Window) (room addr tlen ep : ℕ)
    → IsWindow w
    → addr + tlen < 2 ^ 64
    → w.base ≤ ep
    → ep < 2 ^ 64
    → let c = cut_entry w room addr tlen ep in
      Runs w addr tlen ep c.pieces c.tlen
      × (c.ep ≡ card_end ep c.pieces)
      × (w.base ≤ c.ep)
      × (c.ep < 2 ^ 64)
      × (length c.pieces + c.room ≡ room)
      × ((c.tlen ≡ 0) ⊎ (c.room ≡ 0))
unfolding cut_entry
cut_entry-Runs w zero addr tlen ep v a b e = (refl, refl, b, e, omega arith, inr refl)
cut_entry-Runs w (suc room) addr tlen ep v a b e = elim (ℕ_discrete tlen 0) [
  | yes z ↦ rw z (refl, refl, b, e, omega arith, inl refl)
  | no nz ↦
      let more : (tlen == 0) ≡ false = ground arith in
      let p = next_piece w addr tlen ep in
      let (inside, fits) = next_piece-InWindow w addr tlen ep v (omega arith) b in
      let host : add64 addr p.len ≡ addr + p.len = omega arith in
      let card : add64 p.ep p.len ≡ p.ep + p.len = omega (arith, inside.to, v.on_card) in
      let ih =
        cut_entry-Runs w room (addr + p.len) (tlen - p.len) (p.ep + p.len) v (omega arith)
          (omega (arith, inside.from)) (omega (arith, inside.to, v.on_card)) in
      simp (more, host, card)
        (
          (refl, fits, next_piece_ep w addr tlen ep, inside, ih.0),
          ih.1,
          ih.2,
          ih.3,
          omega (arith, ih.4),
          ih.5,
        )
]

cut_entry-Inside :
    (w : Window) (room addr tlen ep : ℕ)
    → IsWindow w
    → w.base ≤ ep
    → let c = cut_entry w room addr tlen ep in All (InWindow w) c.pieces × (w.base ≤ c.ep)
unfolding cut_entry
cut_entry-Inside w zero addr tlen ep v b = (tt, b)
cut_entry-Inside w (suc room) addr tlen ep v b = elim (ℕ_discrete tlen 0) [
  | yes z ↦ rw z (tt, b)
  | no nz ↦
      let more : (tlen == 0) ≡ false = ground arith in
      let p = next_piece w addr tlen ep in
      let inside = (next_piece-InWindow w addr tlen ep v (omega arith) b).0 in
      let card : add64 p.ep p.len ≡ p.ep + p.len = omega (arith, inside.to, v.on_card) in
      let ih =
        cut_entry-Inside w room (add64 addr p.len) (tlen - p.len) (p.ep + p.len) v
          (omega (arith, inside.from)) in
      simp (more, card) ((inside, ih.0), ih.1)
]

walk-Inside :
    (w : Window) (room sg_offset ep : ℕ) (sgs : List SwDesc)
    → IsWindow w
    → w.base ≤ ep
    → All (InWindow w) (walk w room sg_offset ep sgs).pieces
unfolding walk
walk-Inside w room sg_offset ep [] v b = tt
walk-Inside w room sg_offset ep (sg ∷ sgs) v b =
    let c = cut_entry w room (add64 sg.addr sg_offset) (sub32 sg.len sg_offset) ep in
    let here = cut_entry-Inside w room (add64 sg.addr sg_offset) (sub32 sg.len sg_offset) ep v b in
    let there = walk-Inside w c.room 0 c.ep sgs v here.1 in
    elim (Bool-cases (room == 0)) [
      | inl full ↦ rw full tt
      | inr free ↦ elim (Bool-cases (c.tlen == 0)) [
        | inl done ↦
            simp (free, done)
              (All-append (InWindow w) c.pieces (walk w c.room 0 c.ep sgs).pieces here.0 there)
        | inr broke ↦ simp (free, broke) here.0
      ]
    ]

-- The arguments of a call that make a window: 1 to 2 ^ 32 - 1 bytes, away from the end of the addresses.
pub record IsAperture (ep_addr aperture blen_max : ℕ) : Type 0 where
  pub some_len : 0 < aperture
  pub small : aperture < 2 ^ 32
  pub pieces : 0 < blen_max
  pub on_card : ep_addr + 2 ^ 34 < 2 ^ 64

pub window-IsWindow :
    (ep_addr aperture blen_max : ℕ)
    → IsAperture ep_addr aperture blen_max
    → IsWindow (window ep_addr aperture blen_max)
window-IsWindow ep_addr aperture blen_max v = record {
  some_len = ground arith;
  small = ground arith;
  order = omega arith;
  size = omega arith;
  on_card = omega arith;
}

-- In every round of `xdma_xfer_aperture`, whatever its progress, each descriptor moves at least one byte and no
-- more than the window or one descriptor holds, and its bytes on the card lie in the window of `aperture`
-- bytes from `ep_addr` on. (The window is not empty, and lies away from the end of the addresses.)
pub aperture-Inside :
    (blen_max : ℕ) (req : ApertureRequest) (c : Channel)
    → IsAperture req.ep_addr req.aperture blen_max
    → req.offset < 2 ^ 32
    → All (InWindow (window req.ep_addr req.aperture blen_max)) (round_walk blen_max req c).pieces
unfolding round_walk
aperture-Inside blen_max req c v o =
    walk-Inside (window req.ep_addr req.aperture blen_max) (c.desc_max - c.desc_idx) req.sg_offset
      (add64 req.ep_addr (bit_and req.offset (req.aperture - 1)))
      (take (length req.sgl - req.sg_idx) req.sgl)
      (window-IsWindow req.ep_addr req.aperture blen_max v)
      (omega (arith, v.on_card, bit_and-le req.offset (req.aperture - 1)))
