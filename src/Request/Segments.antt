-- ===== src/Request/Segments.antt =====
-- `xdma_init_request` of libxdma.c covers the scatter list with descriptors of bounded length, and
-- has allocated enough of them.
use xdma_fpga.Base.{
  ℕ, zero, suc, ◌+◌, ◌-◌, ◌*◌, ◌/◌, ◌^◌, ◌≤◌, ◌<◌, Option, none, some, List, [], ◌∷◌, ◌++◌, ◌≡◌,
  arith, length, length-append, refl, add64, add32, ltb, ◌==◌, Bool, true, false, All, Bool-cases,
  ◌⊎◌, inl, inr, if◌then◌else◌,
}
use native.Mathlib.Decide.{dec_lt, ℕ_discrete}
use native.Mathlib.Nat.{le-div_iff_mul-le}
use xdma_fpga.Request.{
  SwDesc, segment_descs, request_descs, extra_descs, total_len, XdmaRequest, xdma_init_request,
  sw_desc_size, request_size,
}

-- The descriptors cover the `len` bytes from `addr` on, in order and without gap or overlap, each with
-- at least one byte and at most `blen_max`.
abbrev pub Tiles : ℕ → ℕ → ℕ → List SwDesc → Type 0
Tiles blen_max addr len [] = len ≡ 0
Tiles blen_max addr len (d ∷ ds) =
    (d.addr ≡ addr)
    × (0 < d.len)
    × (d.len ≤ blen_max)
    × (d.len ≤ len)
    × Tiles blen_max (addr + d.len) (len - d.len) ds

-- A cover with no more descriptors than a division with the remainder rounded up.
pub record Covers (blen_max addr len : ℕ) (r : Option (List SwDesc)) : Type 0 where
  pub descs : List SwDesc
  pub result : r ≡ some descs
  pub tiles : Tiles blen_max addr len descs
  pub few : length descs * blen_max < len + blen_max

segment-Covers :
    (blen_max fuel addr tlen : ℕ)
    → 0 < blen_max
    → addr + tlen ≤ 2 ^ 64
    → tlen < fuel
    → Covers blen_max addr tlen (segment_descs blen_max fuel addr tlen)
unfolding segment_descs
segment-Covers blen_max zero addr tlen b a f = absurd (omega arith)
segment-Covers blen_max (suc fuel) addr tlen b a f = elim (ℕ_discrete tlen 0) [
  | yes z ↦ rw z (record { descs = []; result = refl; tiles = refl; few = omega arith })
  | no nz ↦
      let more : (tlen == 0) ≡ false = ground arith in
      elim (dec_lt blen_max tlen) [
        | yes long ↦
            let is_long : ltb blen_max tlen ≡ true = ground arith in
            let step : add64 addr blen_max ≡ addr + blen_max = omega arith in
            let rest =
              segment-Covers blen_max fuel (addr + blen_max) (tlen - blen_max) b (omega arith)
                (omega arith) in
            simp (more, is_long, step)
              (record {
                descs = record { addr = addr; len = blen_max } ∷ rest.descs;
                result = rw rest.result;
                tiles = (refl, b, omega arith, omega arith, rest.tiles);
                few = omega (arith, rest.few);
              })
        | no short ↦
            let is_short : ltb blen_max tlen ≡ false = ground arith in
            simp (more, is_short)
              (record {
                descs = record { addr = addr; len = tlen } ∷ [];
                result = refl;
                tiles = (refl, omega arith, omega arith, omega arith, omega arith);
                few = omega arith;
              })
      ]
]

-- Descriptors that cover the entries of a scatter list one after another.
abbrev pub CoversAll : ℕ → List SwDesc → List SwDesc → Type 0
CoversAll blen_max [] ds = ds ≡ []
CoversAll blen_max (sg ∷ sgl) ds =
    (xs : List SwDesc) × (ys : List SwDesc) × (ds ≡ xs ++ ys)
    × Tiles blen_max sg.addr sg.len xs
    × CoversAll blen_max sgl ys

-- An entry ends within the 64-bit addresses, and its length leaves room for rounding up in a `u32`.
abbrev pub Fits : ℕ → SwDesc → Type 0
Fits blen_max sg = (sg.addr + sg.len ≤ 2 ^ 64) × (sg.len + blen_max ≤ 2 ^ 32)

-- What the first loop of `xdma_init_request` reserves for one entry is enough for its pieces.
entry_room :
    (blen_max len n : ℕ)
    → 0 < blen_max
    → len + blen_max ≤ 2 ^ 32
    → n * blen_max < len + blen_max
    → n ≤ 1 + (if ltb blen_max len then add32 len (blen_max - 1) / blen_max else 0)
entry_room blen_max len n b fit few = elim (dec_lt blen_max len) [
  | yes long ↦
      let is_long : ltb blen_max len ≡ true = ground arith in
      let sum : add32 len (blen_max - 1) ≡ len + (blen_max - 1) = omega arith in
      rw (is_long, sum)
        (omega (
          arith,
          (le-div_iff_mul-le {k = blen_max} {x = n} {y = len + (blen_max - 1)} b).1 (omega arith),
        ))
  | no short ↦
      let is_short : ltb blen_max len ≡ false = ground arith in
      rw is_short (one_at_most n (omega arith))
]
  where
    one_at_most : (k : ℕ) → k * blen_max < blen_max + blen_max → k ≤ 1 + 0
    one_at_most zero h = omega arith
    one_at_most (suc zero) h = omega arith
    one_at_most (suc (suc m)) h = absurd (omega arith)

record Whole (blen_max : ℕ) (sgl : List SwDesc) (r : Option (List SwDesc)) : Type 0 where
  descs : List SwDesc
  result : r ≡ some descs
  covers : CoversAll blen_max sgl descs
  room : length descs ≤ length sgl + extra_descs blen_max sgl

request-Whole :
    (blen_max : ℕ) (sgl : List SwDesc)
    → 0 < blen_max
    → All (Fits blen_max) sgl
    → Whole blen_max sgl (request_descs blen_max sgl)
unfolding request_descs extra_descs
request-Whole blen_max [] b f = record {
  descs = [];
  result = refl;
  covers = refl;
  room = omega arith;
}
request-Whole blen_max (sg ∷ sgl) b f =
    let first = segment-Covers blen_max (sg.len + 1) sg.addr sg.len b f.0.0 (omega arith) in
    let rest = request-Whole blen_max sgl b f.1 in
    record {
      descs = first.descs ++ rest.descs;
      result = rw (first.result, rest.result);
      covers = (first.descs, rest.descs, refl, first.tiles, rest.covers);
      room = omega (
        arith,
        length-append first.descs rest.descs,
        entry_room blen_max sg.len (length first.descs) b f.0.1 first.few,
        rest.room,
      );
    }

-- For a positive `desc_blen_max` and entries that fit, `xdma_init_request` ends. It yields NULL only if
-- no memory is to be had for the descriptors that it counted, and otherwise a request whose descriptors
-- cover the scatter list entry by entry; their number is within what was allocated.
pub init_request_covers :
    (blen_max : ℕ) (alloc : ℕ → Bool) (sgl : List SwDesc) (ep_addr : ℕ)
    → 0 < blen_max
    → All (Fits blen_max) sgl
    → let max = length sgl + extra_descs blen_max sgl in
      let r = xdma_init_request blen_max alloc sgl ep_addr in
      ((alloc max ≡ false) × (r ≡ some none))
      ⊎ ((alloc max ≡ true)
          × (req : XdmaRequest) × (r ≡ some (some req))
          × CoversAll blen_max sgl req.sdesc
          × (length req.sdesc ≤ max)
          × (req.ep_addr ≡ ep_addr)
          × (req.sw_desc_idx ≡ 0))
unfolding xdma_init_request
init_request_covers blen_max alloc sgl ep_addr b f =
    let w = request-Whole blen_max sgl b f in
    let enough : ltb (length sgl + extra_descs blen_max sgl) (length w.descs) ≡ false =
      ground (arith, w.room) in
    elim (Bool-cases (alloc (length sgl + extra_descs blen_max sgl))) [
      | inr none_left ↦ inl (none_left, rw none_left)
      | inl got ↦ inr (
        got,
        record { ep_addr = ep_addr; total = total_len sgl; sdesc = w.descs; sw_desc_idx = 0 },
        rw (got, w.result, enough),
        w.covers,
        w.room,
        refl,
        refl,
      )
    ]

-- For a positive `desc_blen_max`, entries that fit, and counts whose size in bytes is below 2 ^ 32,
-- `xdma_init_request` ends. It yields NULL only if no memory is to be had for the descriptors that it counted,
-- and otherwise a request whose descriptors cover the scatter list entry by entry, all of them within the bytes that
-- `xdma_request_alloc` asks for.
pub init_request_in_size :
    (cb blen_max : ℕ) (alloc : ℕ → Bool) (sgl : List SwDesc) (ep_addr : ℕ)
    → 0 < blen_max
    → All (Fits blen_max) sgl
    → cb + (length sgl + extra_descs blen_max sgl) * sw_desc_size < 2 ^ 32
    → let max = length sgl + extra_descs blen_max sgl in
      let r = xdma_init_request blen_max alloc sgl ep_addr in
      ((alloc max ≡ false) × (r ≡ some none))
      ⊎ ((alloc max ≡ true)
          × (req : XdmaRequest) × (r ≡ some (some req))
          × CoversAll blen_max sgl req.sdesc
          × (cb + length req.sdesc * sw_desc_size ≤ request_size cb max)
          × (req.ep_addr ≡ ep_addr)
          × (req.sw_desc_idx ≡ 0))
init_request_in_size cb blen_max alloc sgl ep_addr b f small =
    elim (init_request_covers blen_max alloc sgl ep_addr b f) [
      | inl none_left ↦ inl none_left
      | inr (got, req, r, covers, room, ep, z) ↦
          let whole : cb + length req.sdesc * sw_desc_size
              ≤ request_size cb (length sgl + extra_descs blen_max sgl) =
            omega (arith, room, small) in
          inr (got, req, r, covers, whole, ep, z)
    ]
