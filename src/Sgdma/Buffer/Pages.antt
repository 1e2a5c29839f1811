-- ===== src/Sgdma/Buffer/Pages.antt =====
-- The scatter list that `char_sgdma_map_user_buf_to_sgl` of cdev_sgdma.c makes of a user's buffer.
use xdma_fpga.Base.{
  ℕ, zero, suc, ◌+◌, ◌-◌, ◌/◌, ◌%◌, ◌^◌, ◌≤◌, ◌<◌, min, true, false, List, ◌≡◌, ◌==◌, arith, refl,
  length, All, einval, Bool-cases, inl, inr,
}
use native.Mathlib.Decide.{dec_lt}
use xdma_fpga.Sgdma.Dbuf.{page_size}
use xdma_fpga.Request.{SwDesc}
use xdma_fpga.Request.Segments.{Tiles}
use xdma_fpga.Sgdma.Buffer.{
  pages_nr, page_entries, Kernel, pinned, mapped, failed, all_of, char_sgdma_map_user_buf_to_sgl,
}

-- The bytes of an entry are in one page.
abbrev pub InPage : SwDesc → Type 0
InPage sg = sg.addr % page_size + sg.len ≤ page_size

entries-Tiles :
    (n buf len : ℕ)
    → 0 < len
    → len < 2 ^ 32
    → n ≡ (buf % page_size + len + page_size - 1) / page_size
    → let (sgs, rest) = page_entries n buf len in
      Tiles page_size buf len sgs × All InPage sgs × (length sgs ≡ n) × (rest ≡ 0)
unfolding page_entries
entries-Tiles zero buf len pos small e = absurd (omega arith)
entries-Tiles (suc n) buf len pos small e = elim (dec_lt (page_size - buf % page_size) len) [
  | yes more ↦
      let here : min (page_size - buf % page_size) (len % 2 ^ 32) ≡ page_size - buf % page_size =
        omega arith in
      let ih =
        entries-Tiles n (buf + (page_size - buf % page_size)) (len - (page_size - buf % page_size))
          (omega arith) (omega arith) (omega arith) in
      simp here (
        (refl, omega arith, omega arith, omega arith, ih.0),
        (omega arith, ih.1),
        omega (arith, ih.2),
        ih.3,
      )
  | no end ↦
      let here : min (page_size - buf % page_size) (len % 2 ^ 32) ≡ len = omega arith in
      let last : n ≡ 0 = omega arith in
      simp (here, last)
        ((refl, pos, omega arith, omega arith, omega arith), (omega arith, tt), refl, omega arith)
]

pages_nr_lem :
    (buf len : ℕ)
    → buf + len + page_size < 2 ^ 64
    → len < 2 ^ 32
    → pages_nr buf len ≡ (buf % page_size + len + page_size - 1) / page_size
unfolding pages_nr
pages_nr_lem buf len top small = omega arith

-- For 1 to 2 ^ 32 - 1 bytes below the end of the addresses, and with all pages pinned that the code asks for,
-- `char_sgdma_map_user_buf_to_sgl` maps the buffer: its entries have the buffer's bytes in order, without gap
-- or overlap, each in one page and with one byte at least. The length is never left over.
pub map-Tiles :
    (k : Kernel) (buf len : ℕ)
    → 0 < len
    → len < 2 ^ 32
    → buf + len + page_size < 2 ^ 64
    → k.table ≡ true
    → k.pages ≡ true
    → k.pin (pages_nr buf len) ≡ pinned (pages_nr buf len)
    → k.duplicates ≡ false
    → (sgs : List SwDesc) × (char_sgdma_map_user_buf_to_sgl k buf len ≡ mapped sgs)
      × Tiles page_size buf len sgs
      × All InPage sgs
      × (length sgs ≡ pages_nr buf len)
unfolding char_sgdma_map_user_buf_to_sgl
map-Tiles k buf len pos small top t g pins d =
    let n = pages_nr buf len in
    let is = pages_nr_lem buf len top small in
    let some_pages : (n == 0) ≡ false = ground (arith, is) in
    let all_pages : (n == n) ≡ true = ground arith in
    let (tiles, inside, many, nothing) = entries-Tiles n buf len pos small is in
    let fits : all_of (page_entries n buf len) ≡ mapped (page_entries n buf len).0 =
      rw nothing refl in
    (
      (page_entries n buf len).0,
      simp (some_pages, t, g, pins, all_pages, d) fits,
      tiles,
      inside,
      many,
    )

entries_stay : (n buf len : ℕ) → len % 2 ^ 32 ≡ 0 → (page_entries n buf len).1 ≡ len
unfolding page_entries
entries_stay zero buf len z = refl
entries_stay (suc n) buf len z =
    let nothing : min (page_size - buf % page_size) (len % 2 ^ 32) ≡ 0 = omega arith in
    let same : len - 0 ≡ len = omega arith in simp (nothing, same) (entries_stay n (buf + 0) len z)

-- A positive multiple of 2 ^ 32 bytes is refused with -EINVAL, also where the kernel has pinned all pages that
-- the code asked for.
pub map_refuses_4g :
    (k : Kernel) (buf len : ℕ)
    → 0 < len
    → len % 2 ^ 32 ≡ 0
    → k.table ≡ true
    → k.pages ≡ true
    → ((n : ℕ) → k.pin n ≡ pinned n)
    → k.duplicates ≡ false
    → char_sgdma_map_user_buf_to_sgl k buf len ≡ failed einval
unfolding char_sgdma_map_user_buf_to_sgl
map_refuses_4g k buf len pos z t g pins d =
    let n = pages_nr buf len in
    let stays = entries_stay n buf len z in
    let over : all_of (page_entries n buf len) ≡ failed einval =
      let nz : (len == 0) ≡ false = ground arith in rw stays (rw nz refl) in
    elim (Bool-cases (n == 0)) [
      | inl none_at_all ↦ rw none_at_all refl
      | inr some_pages ↦
          let all_pages : (n == n) ≡ true = ground arith in
          simp (some_pages, t, g, pins n, all_pages, d) over
    ]
