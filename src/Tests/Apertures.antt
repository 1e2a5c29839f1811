-- ===== src/Tests/Apertures.antt =====
-- `xdma_xfer_aperture` of libxdma.c at concrete inputs.
use xdma_fpga.Base.{◌-◌, List, [], ◌∷◌, ◌≡◌, ◌⊎◌, refl, arith, add64, All, length}
use xdma_fpga.Aperture.{window, Piece, ApertureRequest, new_request, round_walk}
use xdma_fpga.Aperture.Inside.{InWindow, IsAperture, aperture-Inside}
use xdma_fpga.Aperture.Cover.{RunsAll, first_round-RunsAll, round_restarts}
use xdma_fpga.Tests.Requests.{piece}
use xdma_fpga.Tests.Xfers.{channel}

-- A window of 4 bytes, and a request that broke off in the second entry.
abbrev broken_off : ApertureRequest
broken_off = record (new_request (piece 0x1000 5 ∷ piece 0x2000 9 ∷ []) 0x8000 4) {
  offset = 7;
  sg_idx = 1;
  sg_offset = 2;
}

small : IsAperture 0x8000 4 64
small = omega arith

aperture-Inside_example :
    All (InWindow (window 0x8000 4 64)) (round_walk 64 broken_off channel).pieces
aperture-Inside_example = aperture-Inside 64 broken_off channel small (omega arith)

first_round-RunsAll_example :
    let sgl = piece 0x1000 5 ∷ piece 0x2000 9 ∷ [] in
    let k = round_walk 64 (new_request sgl 0x8000 4) channel in
    ((k.passed ≡ 2) × RunsAll (window 0x8000 4 64) 0x8000 sgl k.pieces) ⊎ (length k.pieces ≡ 2 - 1)
first_round-RunsAll_example =
    first_round-RunsAll 64 0x8000 4 (piece 0x1000 5 ∷ piece 0x2000 9 ∷ []) channel small
      (omega arith)

round_restarts_example :
    (p : Piece) × (ps : List Piece) × ((round_walk 64 broken_off channel).pieces ≡ p ∷ ps)
    × (p.addr ≡ add64 0x1000 2)
round_restarts_example =
    round_restarts 64 broken_off channel (piece 0x1000 5) (piece 0x2000 9 ∷ []) refl (omega arith)
      (omega arith) (omega arith) (omega arith)
