-- ===== src/Tools/Chunks.antt =====
-- The pieces of `read_to_buffer` and `write_from_buffer` of tools/dma_utils.c, and what the functions return.
use xdma_fpga.Base.{
  ◌∙◌, ℕ, zero, suc, ◌+◌, ◌-◌, ◌*◌, ◌≤◌, ◌<◌, ◌==◌, true, false, not, some, List, [], ◌∷◌, ◌≡◌, ◌⊎◌,
  ◌&&◌, inl, inr, arith, ltb, refl, ap, Bool-cases, eio, subst, if◌then◌else◌,
}
use native.Mathlib.Decide.{dec_lt, ℕ_discrete}
use xdma_fpga.Request.{SwDesc}
use xdma_fpga.Request.Segments.{Tiles}
use xdma_fpga.Xfer.{Ssize}
use xdma_fpga.Tools.{
  rw_max_size, Reply, got, broken, Sys, Outcome, sought, chunk_loop, read_to_buffer,
  write_from_buffer,
}

-- Every seek arrives, and every call moves all the bytes that it asks for.
pub record IsWilling (s : Sys) : Type 0 where
  pub seeks : (k : ℕ) → s.seek k ≡ true
  pub full : (k n : ℕ) → s.io k n ≡ got n

-- A call moves no more than it asks for.
abbrev pub Honest : Sys → Type 0
Honest s = (k n m : ℕ) → s.io k n ≡ got m → m ≤ n

-- The bytes of the next call, and its test.
abbrev bytes_of : ℕ → ℕ
bytes_of todo = if ltb rw_max_size todo then rw_max_size else todo

sought_lem : (offset pos : ℕ) → (offset ≡ 0 → pos ≡ 0) → sought offset pos ≡ offset
sought_lem offset pos h = elim (ℕ_discrete offset 0) [
  | yes z ↦ rw (h z, z) refl
  | no nz ↦ let miss : (offset == 0) ≡ false = ground arith in rw miss refl
]

Reply-cases : (r : Reply) → (r ≡ broken) ⊎ ((m : ℕ) × (r ≡ got m))
Reply-cases broken = inl refl
Reply-cases (got m) = inr (m, refl)

chunks-Tiles :
    (s : Sys) (fuel k size count offset pos : ℕ)
    → IsWilling s
    → count ≤ size
    → size - count + rw_max_size ≤ fuel * rw_max_size
    → (offset ≡ 0 → pos ≡ 0)
    → (cs : List SwDesc) × (chunk_loop s fuel k size count offset pos ≡ some (Ssize.count size, cs))
      × Tiles rw_max_size offset (size - count) cs
unfolding chunk_loop
chunks-Tiles s zero k size count offset pos v le enough start = absurd (omega arith)
chunks-Tiles s (suc fuel) k size count offset pos v le enough start = elim (dec_lt count size) [
  | no all ↦
      let end : count ≡ size = omega arith in
      let over : ltb count size ≡ false = ground arith in
      ([], simp over (ap (λ n. some (Ssize.count n, [])) end), omega arith)
  | yes more ↦
      let go : ltb count size ≡ true = ground arith in
      let n = bytes_of (size - count) in
      let small : n ≤ rw_max_size = ground arith in
      let part : n ≤ size - count = ground arith in
      let room : size - (count + n) + rw_max_size ≤ fuel * rw_max_size = ground arith in
      let found : (not (offset == 0) && not (s.seek k)) ≡ false = ground (arith, v.seeks k) in
      let same : (n == n) ≡ true = ground arith in
      let some_bytes : 0 < n = ground arith in
      let there : sought offset pos ≡ offset = sought_lem offset pos start in
      let (cs, e, t) =
        chunks-Tiles s fuel (k + 1) size (count + n) (offset + n) (sought offset pos + n) v
          (omega arith) room (λ z. absurd (omega arith)) in
      let rest : size - (count + n) ≡ size - count - n = omega arith in
      (
        record { addr = sought offset pos; len = n } ∷ cs,
        simp (go, found, v.full k n, same, e) refl,
        (there, some_bytes, small, part, rw (← rest) t),
      )
]

-- Where every seek arrives and every call moves all that it asks for, `read_to_buffer` returns `size`, and its
-- calls cover the file from `base` on, in order, without gap or overlap, each for one byte at least and
-- `RW_MAX_SIZE` bytes at most. (For the base 0 the file is at its start, since the function does not seek then.
-- There is fuel for a round more than the size has pieces.)
pub read-Tiles :
    (s : Sys) (fuel size base pos : ℕ)
    → IsWilling s
    → size + rw_max_size ≤ fuel * rw_max_size
    → (base ≡ 0 → pos ≡ 0)
    → (cs : List SwDesc) × (read_to_buffer s fuel size base pos ≡ some (Ssize.count size, cs))
      × Tiles rw_max_size base size cs
unfolding read_to_buffer
read-Tiles s fuel size base pos v enough start =
    let (cs, e, t) = chunks-Tiles s fuel 0 size 0 base pos v (omega arith) (omega arith) start in
    let all : size - 0 ≡ size = omega arith in
    (cs, e, subst (λ n. Tiles rw_max_size base n cs) all t)

-- How the calls from the k-th on, with `n` bytes moved before them, come to what is returned. With no call left,
-- all is moved, and that is the answer; or the seek to a place other than 0 missed, and it is an error. Each call
-- is within the size, and its seek arrived, but for the place 0; it is the last one where it broke, which is an
-- error, or where it was short, and then what it moved is counted; else it was full.
abbrev pub Explains : Sys → ℕ → ℕ → ℕ → ℕ → Ssize → List SwDesc → Type 0
Explains s base k size n r [] =
    ((n ≡ size) × (r ≡ Ssize.count size))
    ⊎ ((n < size) × (0 < base + n) × (s.seek k ≡ false) × (r ≡ Ssize.error eio))
Explains s base k size n r (c ∷ cs) =
    (0 < c.len)
    × (c.len ≤ rw_max_size)
    × (n + c.len ≤ size)
    × ((base + n ≡ 0) ⊎ ((s.seek k ≡ true) × (c.addr ≡ base + n)))
    × (((s.io k c.len ≡ broken) × (r ≡ Ssize.error eio) × (cs ≡ []))
        ⊎ ((m : ℕ) × (s.io k c.len ≡ got m) × (m < c.len) × (r ≡ Ssize.count (n + m)) × (cs ≡ []))
        ⊎ ((s.io k c.len ≡ got c.len) × Explains s base (k + 1) size (n + c.len) r cs))

place_of :
    (s : Sys) (base k n pos : ℕ)
    → (not (base + n == 0) && not (s.seek k)) ≡ false
    → (base + n ≡ 0) ⊎ ((s.seek k ≡ true) × (sought (base + n) pos ≡ base + n))
place_of s base k n pos h = elim (ℕ_discrete (base + n) 0) [
  | yes z ↦ inl z
  | no nz ↦ inr (ground arith, sought_lem (base + n) pos (λ z. absurd (nz z)))
]

chunks-Explains :
    (s : Sys) (fuel k size base n pos : ℕ)
    → Honest s
    → n ≤ size
    → size - n + rw_max_size ≤ fuel * rw_max_size
    → (o : Outcome) × (chunk_loop s fuel k size n (base + n) pos ≡ some o)
      × Explains s base k size n o.0 o.1
unfolding chunk_loop
chunks-Explains s zero k size base n pos v le enough = absurd (omega arith)
chunks-Explains s (suc fuel) k size base n pos v le enough = elim (dec_lt n size) [
  | no all ↦
      let end : n ≡ size = omega arith in
      let over : ltb n size ≡ false = ground arith in
      ((Ssize.count size, []), simp over (ap (λ i. some (Ssize.count i, [])) end), inl (end, refl))
  | yes more ↦
      let go : ltb n size ≡ true = ground arith in
      let b = bytes_of (size - n) in
      let small : b ≤ rw_max_size = ground arith in
      let part : n + b ≤ size = ground arith in
      let some_bytes : 0 < b = ground arith in
      let room : size - (n + b) + rw_max_size ≤ fuel * rw_max_size = ground arith in
      let at = sought (base + n) pos in
      elim (Bool-cases (not (base + n == 0) && not (s.seek k))) [
        | inl lost ↦
            ((Ssize.error eio, []), simp (go, lost), inr (more, ground arith, ground arith, refl))
        | inr found ↦
            let place = place_of s base k n pos found in
            elim (Reply-cases (s.io k b)) [
              | inl bad ↦ (
                (Ssize.error eio, record { addr = at; len = b } ∷ []),
                simp (go, found, bad),
                (some_bytes, small, part, place, inl (bad, refl, refl)),
              )
              | inr (m, reply) ↦ elim (ℕ_discrete m b) [
                | yes full ↦
                    let same : (m == b) ≡ true = ground arith in
                    let assoc : base + (n + b) ≡ base + n + b = omega arith in
                    let (o, e, r) =
                      chunks-Explains s fuel (k + 1) size base (n + b) (at + b) v part room in
                    (
                      (o.0, record { addr = at; len = b } ∷ o.1),
                      simp (go, found, reply, same, (rw assoc at e)),
                      (some_bytes, small, part, place, inr (inr (reply ∙ ap got full, r))),
                    )
                | no short ↦
                    let less : (m == b) ≡ false = ground arith in
                    let under : m < b = omega (arith, v k b m reply) in
                    (
                      (Ssize.count (n + m), record { addr = at; len = b } ∷ []),
                      simp (go, found, reply, less),
                      (some_bytes, small, part, place, inr (inl (m, reply, under, refl, refl))),
                    )
              ]
            ]
      ]
]

-- Whatever the system answers, `write_from_buffer` ends (with fuel as before), and its calls explain what it returns.
-- It returns the size only if all calls were full and they moved it all; an error only if the seek after the calls
-- made missed, or the last call broke; and else what was moved up to a short call, which was the last. (No call
-- moves more than it is asked to.)
pub write-Explains :
    (s : Sys) (fuel size base pos : ℕ)
    → Honest s
    → size + rw_max_size ≤ fuel * rw_max_size
    → (o : Outcome) × (write_from_buffer s fuel size base pos ≡ some o)
      × Explains s base 0 size 0 o.0 o.1
unfolding write_from_buffer
write-Explains s fuel size base pos v enough =
    let zero_more : base + 0 ≡ base = omega arith in
    let (o, e, x) = chunks-Explains s fuel 0 size base 0 pos v (omega arith) (omega arith) in
    (o, subst (λ b. chunk_loop s fuel 0 size 0 b pos ≡ some o) zero_more e, x)
