-- ===== src/Xdev/Open/Kept.antt =====
-- What the set-up of BARs leaves of engines and counts, and what that of interrupt lines leaves.
use xdma_fpga.Base.{
  ℕ, zero, suc, ◌+◌, ◌*◌, Bool, true, false, ◌==◌, ◌≡◌, inl, inr, refl, ap, ◌∙◌, arith, Rv, ok, err,
  is_err, ltb, if◌then◌else◌, if_both, some, Option-cases, not, ◌||◌, [],
}
use native.Mathlib.Decide.{ℕ_discrete}
use xdma_fpga.Hw.{Dir, to_device, from_device}
use xdma_fpga.Xdev.{
  Xdev, DevHost, SgEngine, Owner, device, channel, user, put, put_engine, dev_write, int_reg, note,
  released, unmapped,
}
use xdma_fpga.Xdev.Bars.{
  BarScan, map_single_bar, is_config_bar, identify_bars, found_bar, bar_round, bar_loop, map_bars,
  unmap_loop, unmap_bars, xdma_bar_num, no_config,
}
use xdma_fpga.Xdev.Irq.{
  request_irq, prog_loop, vector_word, prog_irq_msix_channel, prog_irq_msix_user,
  channel_setup_loop, setup_c2h, irq_msix_channel_setup, free_users, user_setup_loop,
  irq_msix_user_setup, program_vectors, setup_users, irq_msi_setup, legacy_vectors,
  irq_legacy_setup, irq_setup,
}

-- The counts of a device, and its engines.
pub record Counts (x y : Xdev) : Type 0 where
  pub engines_num : y.engines_num ≡ x.engines_num
  pub channel_max : y.channel_max ≡ x.channel_max
  pub user_max : y.user_max ≡ x.user_max

pub Counts-trans : {x y z : Xdev} → Counts x y → Counts y z → Counts x z
Counts-trans p q = record {
  engines_num = q.engines_num ∙ p.engines_num;
  channel_max = q.channel_max ∙ p.channel_max;
  user_max = q.user_max ∙ p.user_max;
}

single-Counts : (h : DevHost) (i : ℕ) (x : Xdev) → Counts x (map_single_bar h i x).1
unfolding map_single_bar
single-Counts h i x = ground arith

found-Counts : (h : DevHost) (i len : ℕ) (s : BarScan) → Counts s.xdev (found_bar h i len s).xdev
unfolding found_bar is_config_bar
found-Counts h i len s = ground arith

identify-Counts : (ids : _) (pos : ℕ) (x : Xdev) → Counts x (identify_bars ids pos x)
unfolding identify_bars
identify-Counts ids pos x = ground arith

Counts-refl : (x : Xdev) → Counts x x
Counts-refl x = record { engines_num = refl; channel_max = refl; user_max = refl }

round-Counts : (h : DevHost) (i : ℕ) (s : BarScan) → Counts s.xdev (bar_round h i s).1.xdev
unfolding bar_round
round-Counts h i s =
    let o = map_single_bar h i s.xdev in
    let c = single-Counts h i s.xdev in
    let s' = record s { xdev = o.1 } in
    elim (Option-cases o.0) [
      | inl bad ↦ rw (bad, bar_round) c
      | inr (len, good) ↦
          rw (good, bar_round)
            (if_both (λ (t : BarScan). Counts s.xdev t.xdev) (len == 0) c
              (Counts-trans c (found-Counts h i len s')))
    ]

loop-Counts : (h : DevHost) (n i : ℕ) (s : BarScan) → Counts s.xdev (bar_loop h n i s).1.xdev
unfolding bar_loop
loop-Counts h zero i s = Counts-refl s.xdev
loop-Counts h (suc n) i s =
    let r = round-Counts h i s in
    if_both (λ (o : Bool × BarScan). Counts s.xdev o.1.xdev) (bar_round h i s).0
      (Counts-trans r (loop-Counts h n (i + 1) (bar_round h i s).1)) r

unmap_loop-Counts : (n i : ℕ) (x : Xdev) → Counts x (unmap_loop n i x)
unfolding unmap_loop
unmap_loop-Counts zero i x = Counts-refl x
unmap_loop-Counts (suc n) i x =
    let y = note (record x { bar = put x.bar i 0 }) (unmapped (x.bar i)) in
    let step =
      if_both (Counts x) (not (x.bar i == 0))
        (record { engines_num = refl; channel_max = refl; user_max = refl }) (Counts-refl x) in
    Counts-trans step (unmap_loop-Counts n (i + 1) (if not (x.bar i == 0) then y else x))

pub map_bars-Counts : (h : DevHost) (x : Xdev) → Counts x (map_bars h x).1
unfolding map_bars unmap_bars
map_bars-Counts h x =
    let start : BarScan = record { bar_id_list = []; config_bar_pos = 0; xdev = x } in
    let o = bar_loop h xdma_bar_num 0 start in
    let c = loop-Counts h xdma_bar_num 0 start in
    if_both (λ (r : Rv × Xdev). Counts x r.1) (not o.0 || no_config o.1.xdev)
      (Counts-trans c (unmap_loop-Counts xdma_bar_num 0 o.1.xdev))
      (Counts-trans c (identify-Counts o.1.bar_id_list o.1.config_bar_pos o.1.xdev))

-- The interrupt bits of the engines, with the masks and counts that go with them.
pub record Marks (x y : Xdev) : Type 0 where
  pub magic : (d : Dir) (i : ℕ) → (y.engines d i).magic ≡ (x.engines d i).magic
  pub irq_bitmask : (d : Dir) (i : ℕ) → (y.engines d i).irq_bitmask ≡ (x.engines d i).irq_bitmask
  pub mask_irq : y.mask_irq ≡ x.mask_irq
  pub channel_max : y.channel_max ≡ x.channel_max
  pub user_max : y.user_max ≡ x.user_max

pub Marks-trans : {x y z : Xdev} → Marks x y → Marks y z → Marks x z
Marks-trans p q = record {
  magic = λ d i. q.magic d i ∙ p.magic d i;
  irq_bitmask = λ d i. q.irq_bitmask d i ∙ p.irq_bitmask d i;
  mask_irq = q.mask_irq ∙ p.mask_irq;
  channel_max = q.channel_max ∙ p.channel_max;
  user_max = q.user_max ∙ p.user_max;
}

-- A device with the same engines, masks and counts.
pub Marks-same :
    {x y : Xdev}
    → y.engines ≡ x.engines
    → y.mask_irq ≡ x.mask_irq
    → y.channel_max ≡ x.channel_max
    → y.user_max ≡ x.user_max
    → Marks x y
Marks-same e m c u = record {
  magic = λ d i. ap (λ (g : Dir → ℕ → SgEngine). (g d i).magic) e;
  irq_bitmask = λ d i. ap (λ (g : Dir → ℕ → SgEngine). (g d i).irq_bitmask) e;
  mask_irq = m;
  channel_max = c;
  user_max = u;
}

Marks-refl : (x : Xdev) → Marks x x
Marks-refl x = Marks-same refl refl refl refl

request-Marks : (h : DevHost) (v : ℕ) (o : Owner) (x : Xdev) → Marks x (request_irq h v o x).1
unfolding request_irq
request-Marks h v o x =
    let y = record x { requests = x.requests + 1 } in
    if_both (Marks x) (is_err (h.request_irq x.requests)) (Marks-same refl refl refl refl)
      (Marks-same refl refl refl refl)

-- A field that a store at an index, and at a direction, does not change.
put_field :
    {A : Type 0} (f : SgEngine → A) (g : ℕ → SgEngine) (i : ℕ) (e : SgEngine)
    → f e ≡ f (g i)
    → (j : ℕ) → f (put g i e j) ≡ f (g j)
put_field f g i e same j = elim (ℕ_discrete j i) [
  | yes at ↦ let hit : (j == i) ≡ true = ground arith in rw hit (rw at same)
  | no off ↦ let miss : (j == i) ≡ false = ground arith in rw miss refl
]

engine_field :
    {A : Type 0} (f : SgEngine → A) (x : Xdev) (d : Dir) (i : ℕ) (e : SgEngine)
    → f e ≡ f (x.engines d i)
    → (c : Dir) (j : ℕ) → f ((put_engine x d i e).engines c j) ≡ f (x.engines c j)
engine_field f x to_device i e same to_device j = put_field f (x.engines to_device) i e same j
engine_field f x to_device i e same from_device j = refl
engine_field f x from_device i e same to_device j = refl
engine_field f x from_device i e same from_device j = put_field f (x.engines from_device) i e same j

-- The line that is noted in an engine is none of its marks.
line-Marks :
    (x : Xdev) (d : Dir) (i line : ℕ)
    → Marks x (put_engine x d i (record (x.engines d i) { msix_irq_line = line }))
line-Marks x d i line =
    let e = record (x.engines d i) { msix_irq_line = line } in
    record {
      magic = λ c j. engine_field (λ (w : SgEngine). w.magic) x d i e refl c j;
      irq_bitmask = λ c j. engine_field (λ (w : SgEngine). w.irq_bitmask) x d i e refl c j;
      mask_irq = refl;
      channel_max = refl;
      user_max = refl;
    }

channel_loop-Marks :
    (h : DevHost) (d : Dir) (base n i : ℕ) (x : Xdev)
    → Marks x (channel_setup_loop h d base n i x).1
unfolding channel_setup_loop
channel_loop-Marks h d base zero i x = Marks-refl x
channel_loop-Marks h d base (suc n) i x =
    let v = h.irq_vector (base + i) in
    let o = request_irq h v (channel d i) x in
    let r = request-Marks h v (channel d i) x in
    let y = put_engine o.1 d i (record (o.1.engines d i) { msix_irq_line = v }) in
    if_both (λ (q : Rv × Xdev). Marks x q.1) (is_err o.0) r
      (Marks-trans r (Marks-trans (line-Marks o.1 d i v) (channel_loop-Marks h d base n (i + 1) y)))

free-Marks : (h : DevHost) (base i : ℕ) (x : Xdev) → Marks x (free_users h base i x)
unfolding free_users
free-Marks h base zero x = Marks-refl x
free-Marks h base (suc i) x =
    let y = note x (released (h.irq_vector (base + i)) (user i)) in
    Marks-trans (Marks-same {x = x} {y = y} refl refl refl refl) (free-Marks h base i y)

user_loop-Marks : (h : DevHost) (base n i : ℕ) (x : Xdev) → Marks x (user_setup_loop h base n i x).1
unfolding user_setup_loop
user_loop-Marks h base zero i x = Marks-refl x
user_loop-Marks h base (suc n) i x =
    let v = h.irq_vector (base + i) in
    let o = request_irq h v (user i) x in
    let r = request-Marks h v (user i) x in
    if_both (λ (q : Rv × Xdev). Marks x q.1) (is_err o.0) (Marks-trans r (free-Marks h base i o.1))
      (Marks-trans r (user_loop-Marks h base n (i + 1) o.1))

prog-Marks :
    (fuel : ℕ) (clear : Bool) (base j i most : ℕ) (x : Xdev)
    → Marks x (prog_loop fuel clear base j i most x)
unfolding prog_loop
prog-Marks zero clear base j i most x = Marks-refl x
prog-Marks (suc fuel) clear base j i most x =
    let (val, next) = vector_word clear i most in
    let y = dev_write x val (int_reg x (base + 4 * j)) in
    if_both (Marks x) (ltb i most)
      (Marks-trans (Marks-same {x = x} {y = y} refl refl refl refl)
        (prog-Marks fuel clear base (j + 1) next most y))
      (Marks-refl x)

program-Marks : (o : Rv × Xdev) → Marks o.1 (program_vectors o).1
unfolding program_vectors prog_irq_msix_channel prog_irq_msix_user
program-Marks (err c, x) = Marks-refl x
program-Marks (ok, x) =
    Marks-trans (prog-Marks _ false _ _ _ _ x)
      (prog-Marks _ false _ _ _ _ (prog_irq_msix_channel false x))

setup_c2h-Marks : (h : DevHost) (base : ℕ) (o : Rv × Xdev) → Marks o.1 (setup_c2h h base o).1
unfolding setup_c2h
setup_c2h-Marks h base (err c, x) = Marks-refl x
setup_c2h-Marks h base (ok, x) =
    channel_loop-Marks h from_device base (x.channel_max from_device) 0 x

users-Marks : (h : DevHost) (o : Rv × Xdev) → Marks o.1 (setup_users h o).1
unfolding setup_users irq_msix_user_setup
users-Marks h (err c, x) = Marks-refl x
users-Marks h (ok, x) =
    Marks-trans (user_loop-Marks h _ x.user_max 0 x) (program-Marks (irq_msix_user_setup h x))

channels-Marks : (h : DevHost) (x : Xdev) → Marks x (irq_msix_channel_setup h x).1
unfolding irq_msix_channel_setup
channels-Marks h x =
    let n = x.channel_max to_device in
    let o = channel_setup_loop h to_device 0 n 0 x in
    if_both (λ (q : Rv × Xdev). Marks x q.1) (not x.msix_enabled) (Marks-refl x)
      (Marks-trans (channel_loop-Marks h to_device 0 n 0 x) (setup_c2h-Marks h n o))

-- The single line of the device.
line_of-Marks :
    (h : DevHost) (x y : Xdev)
    → Marks x y
    → Marks x (request_irq h h.irq device (record y { irq_line = some h.irq })).1
line_of-Marks h x y k =
    let z = record y { irq_line = some h.irq } in
    Marks-trans k (
      Marks-trans (Marks-same {x = y} {y = z} refl refl refl refl) (request-Marks h h.irq device z))

msi-Marks : (h : DevHost) (x : Xdev) → Marks x (irq_msi_setup h x).1
unfolding irq_msi_setup
msi-Marks h x = line_of-Marks h x x (Marks-refl x)

legacy-Marks : (h : DevHost) (x : Xdev) → Marks x (irq_legacy_setup h x).1
unfolding irq_legacy_setup legacy_vectors
legacy-Marks h x =
    if_both (λ (q : Rv × Xdev). Marks x q.1) (h.interrupt_pin == 0) (Marks-refl x)
      (line_of-Marks h x _
        (if_both (Marks x) (ltb 1 h.interrupt_pin) (Marks-same refl refl refl refl) (Marks-refl x)))

-- `irq_setup` changes no interrupt bit, whether it succeeds or not.
pub irq_setup-Marks : (h : DevHost) (x : Xdev) → Marks x (irq_setup h x).1
unfolding irq_setup
irq_setup-Marks h x =
    if_both (λ (q : Rv × Xdev). Marks x q.1) x.msix_enabled
      (Marks-trans (channels-Marks h x) (users-Marks h (irq_msix_channel_setup h x)))
      (if_both (λ (q : Rv × Xdev). Marks x q.1) x.msi_enabled (msi-Marks h x) (legacy-Marks h x))
