-- ===== src/Request/Controls.antt =====
-- The control words of the descriptors that `transfer_init` of libxdma.c hands to the device.
use xdma_fpga.Base.{
  ℕ, zero, suc, ◌+◌, ◌*◌, ◌%◌, ◌^◌, ◌<◌, bit_and, bit_or, Bool, true, false, ◌&&◌, List, [], ◌∷◌,
  ◌≡◌, arith, ◌==◌, ==_iff, length, refl, sym, ◌∙◌, ap, ◌⊎◌, add64, if◌then◌else◌, All, inl, inr,
}
use xdma_fpga.Hw.{desc_magic}
use xdma_fpga.Desc.{
  XdmaDesc, desc_size, transfer_desc_init, xdma_desc_control_set, xdma_desc_adjacent,
  xdma_get_next_adj, xdma_desc_set,
}
use xdma_fpga.Desc.Fields.{next}
use xdma_fpga.Request.{
  SwDesc, DescRing, BuildState, build_desc, build_next, transfer_build, set_controls, set_adjacents,
}

-- The word that `xdma_desc_adjacent` makes of the magic with a low byte, and `adj`.
abbrev adjacent_word : ℕ → ℕ → ℕ
adjacent_word low adj =
    bit_or (bit_and (desc_magic + low) 0x0000_f0ff) (bit_or 0xad4b_0000 (adj * 2 ^ 8 % 2 ^ 32))

adjacent_ok : ℕ → ℕ → Bool
adjacent_ok low adj = adjacent_word low adj == desc_magic + adj * 256 + low

-- The words of all counts under `bound` are as they should be, by evaluation.
words_ok : ℕ → ℕ → Bool
words_ok low zero = true
words_ok low (suc bound) = adjacent_ok low bound && words_ok low bound

words_ok-at :
    (low bound adj : ℕ) → adj < bound → words_ok low bound ≡ true → adjacent_ok low adj ≡ true
unfolding words_ok
words_ok-at low (suc bound) adj under all = ground (arith, words_ok-at low bound adj)
words_ok-at low zero adj under all = absurd (omega arith)

table_plain : words_ok 0 64 ≡ true
unfolding words_ok adjacent_ok
table_plain = refl

table_completed : words_ok 2 64 ≡ true
unfolding words_ok adjacent_ok
table_completed = refl

table_last : words_ok 0x13 64 ≡ true
unfolding words_ok adjacent_ok
table_last = refl

next_adj-lt : (remaining next_lo : ℕ) → xdma_get_next_adj remaining next_lo < 64
unfolding xdma_get_next_adj
next_adj-lt remaining next_lo = ground arith

-- The low byte of a control word: STOPPED, EOP and COMPLETED on the last descriptor, COMPLETED on the
-- others where the engine flushes by end of packet, and nothing on the others elsewhere.
abbrev pub low_byte : Bool → List XdmaDesc → ℕ
low_byte eop_flush [] = 0x13
low_byte eop_flush (d ∷ ds) = if eop_flush then 2 else 0

-- Every control word is the magic, the count of adjacent descriptors, and the low byte.
abbrev pub Controlled : Bool → List XdmaDesc → Type 0
Controlled eop_flush [] = Unit
Controlled eop_flush (d ∷ ds) =
    (d.control ≡ desc_magic + xdma_get_next_adj (length ds) d.next_lo * 256 + low_byte eop_flush ds)
    × Controlled eop_flush ds

-- The same before the counts are set.
abbrev pub Marked : Bool → List XdmaDesc → Type 0
Marked eop_flush [] = Unit
Marked eop_flush (d ∷ ds) = (d.control ≡ desc_magic + low_byte eop_flush ds) × Marked eop_flush ds

abbrev pub Magic : List XdmaDesc → Type 0
Magic = All (λ d. d.control ≡ desc_magic)

pub Magic-init : (ds : List XdmaDesc) (bus : ℕ) → Magic (transfer_desc_init ds bus)
unfolding transfer_desc_init
Magic-init [] bus = tt
Magic-init (d ∷ []) bus = (refl, tt)
Magic-init (d ∷ e ∷ ds) bus = (refl, Magic-init (e ∷ ds) (add64 bus desc_size))

pub build-control :
    (r : DescRing) (b : BuildState) (d : XdmaDesc) (s : SwDesc)
    → ((build_desc r b d s).control ≡ d.control) × (next (build_desc r b d s) ≡ next d)
unfolding build_desc xdma_desc_set
build-control r b d s = (ground arith, ground arith)

pub Magic-build :
    (r : DescRing) (b : BuildState) (ds : List XdmaDesc) (ss : List SwDesc)
    → Magic ds
    → Magic (transfer_build r b ds ss).0
unfolding transfer_build
Magic-build r b [] ss m = tt
Magic-build r b (d ∷ ds) [] m = m
Magic-build r b (d ∷ ds) (s ∷ ss) m =
    ((build-control r b d s).0 ∙ m.0, Magic-build r (build_next r b s) ds ss m.1)

low_byte-controls :
    (eop : Bool) (e : XdmaDesc) (ds : List XdmaDesc)
    → low_byte eop (set_controls eop (e ∷ ds)) ≡ (if eop then 2 else 0)
unfolding set_controls
low_byte-controls eop e [] = refl
low_byte-controls eop e (d ∷ ds) = refl

other_control :
    (eop : Bool) (d : XdmaDesc)
    → d.control ≡ desc_magic
    → (if eop then (xdma_desc_control_set d 2).1 else d).control
      ≡ desc_magic + (if eop then 2 else 0)
unfolding xdma_desc_control_set
other_control true d m = ap (λ c. bit_or (bit_and c 0xffff_ff00) 2) m
other_control false d m = m

pub Marked-controls :
    (eop : Bool) (ds : List XdmaDesc) → Magic ds → Marked eop (set_controls eop ds)
unfolding set_controls xdma_desc_control_set
Marked-controls eop [] m = tt
Marked-controls eop (d ∷ []) m = (ap (λ c. bit_or (bit_and c 0xffff_ff00) 0x13) m.0, tt)
Marked-controls eop (d ∷ e ∷ ds) m = (
  other_control eop d m.0 ∙ ap (λ l. desc_magic + l) (sym (low_byte-controls eop e ds)),
  Marked-controls eop (e ∷ ds) m.1,
)

low_byte_cases :
    (eop : Bool) (ds : List XdmaDesc)
    → (low_byte eop ds ≡ 0x13) ⊎ (low_byte eop ds ≡ 2) ⊎ (low_byte eop ds ≡ 0)
low_byte_cases eop [] = inl refl
low_byte_cases true (d ∷ ds) = inr (inl refl)
low_byte_cases false (d ∷ ds) = inr (inr refl)

word_at :
    (low adj : ℕ)
    → (low ≡ 0x13) ⊎ (low ≡ 2) ⊎ (low ≡ 0)
    → adj < 64
    → adjacent_word low adj ≡ desc_magic + adj * 256 + low
unfolding adjacent_ok
word_at low adj (inl e) h = rw e ((==_iff _ _).0 (words_ok-at 0x13 64 adj h table_last))
word_at low adj (inr (inl e)) h = rw e ((==_iff _ _).0 (words_ok-at 2 64 adj h table_completed))
word_at low adj (inr (inr e)) h = rw e ((==_iff _ _).0 (words_ok-at 0 64 adj h table_plain))

pub length-adjacents : (ds : List XdmaDesc) → length (set_adjacents ds) ≡ length ds
unfolding set_adjacents
length-adjacents [] = refl
length-adjacents (d ∷ ds) = ap suc (length-adjacents ds)

low_byte-adjacents :
    (eop : Bool) (ds : List XdmaDesc) → low_byte eop (set_adjacents ds) ≡ low_byte eop ds
unfolding set_adjacents
low_byte-adjacents eop [] = refl
low_byte-adjacents eop (d ∷ ds) = refl

adjacent-control :
    (d : XdmaDesc) (low adj : ℕ)
    → d.control ≡ desc_magic + low
    → (xdma_desc_adjacent d adj).control ≡ adjacent_word low adj
unfolding xdma_desc_adjacent
adjacent-control d low adj e = rw e

pub Controlled-adjacents :
    (eop : Bool) (ds : List XdmaDesc) → Marked eop ds → Controlled eop (set_adjacents ds)
unfolding set_adjacents xdma_desc_adjacent
Controlled-adjacents eop [] m = tt
Controlled-adjacents eop (d ∷ ds) m =
    let adj = xdma_get_next_adj (length ds) d.next_lo in
    let low = low_byte eop ds in
    (
      rw (length-adjacents ds, low_byte-adjacents eop ds)
          (adjacent-control d low adj m.0
            ∙ word_at low adj (low_byte_cases eop ds) (next_adj-lt (length ds) d.next_lo)),
      Controlled-adjacents eop ds m.1,
    )
