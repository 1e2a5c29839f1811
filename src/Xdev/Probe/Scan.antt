-- ===== src/Xdev/Probe/Scan.antt =====
-- The loops of `probe_engines` over the channels of both directions.
use xdma_fpga.Base.{
  ℕ, zero, suc, ◌+◌, ◌≤◌, ◌<◌, ◌≡◌, inl, inr, refl, ap, ◌∙◌, sym, subst, arith, is_err, bit,
  Bool-cases,
}
use native.Mathlib.Decide.{dec_lt}
use xdma_fpga.Hw.{Dir, to_device, from_device}
use xdma_fpga.Xdev.{Xdev, DevHost, SgEngine, put_dir}
use xdma_fpga.Xdev.Probe.{probe_for_engine, probe_loop, probe_dir, probe_engines}
use xdma_fpga.Xdev.Probe.Found.{
  IsFound, IsSetUp, Probed, other, probe-Looked, put_dir_hit, put_dir_miss,
}

-- The channels of a direction from 0 to its count are found, their interrupt bits in a row from `place` on.
abbrev pub AllFound : Xdev → Dir → ℕ → ℕ → Type 0
AllFound x d place n = (i : ℕ) → i < n → IsFound x d place i

-- The channels of a direction from 0 to its count are set up.
abbrev pub AllSetUp : DevHost → Xdev → Dir → ℕ → Type 0
AllSetUp h x d n = (i : ℕ) → i < n → IsSetUp h (x.engines d i)

-- What a loop that ends at a channel has done.
record Scanned (h : DevHost) (x : Xdev) (d : Dir) (place most : ℕ) (o : ℕ × Xdev) : Type 0 where
  found : AllFound o.1 d place o.0
  set_up : AllSetUp h o.1 d o.0
  within : o.0 ≤ most
  other_engines : o.1.engines (other d) ≡ x.engines (other d)
  other_mask : o.1.mask_irq (other d) ≡ x.mask_irq (other d)
  channel_max : o.1.channel_max ≡ x.channel_max
  user_max : o.1.user_max ≡ x.user_max
  at_least : place + o.0 ≤ o.1.engines_num
  at_most : o.1.engines_num ≤ place + o.0 + 1

-- An engine that was found stays found while the next is probed.
Probed-IsFound :
    (x y : Xdev) (d : Dir) (place i j : ℕ)
    → Probed x y d i
    → j < i
    → IsFound x d place j
    → IsFound y d place j
Probed-IsFound x y d place i j p lt f = record {
  magic = ap (λ (e : SgEngine). e.magic) (p.before j lt) ∙ f.magic;
  bitmask = ap (λ (e : SgEngine). e.irq_bitmask) (p.before j lt) ∙ f.bitmask;
  masked = p.masks (place + j) f.masked;
}

Scanned-step :
    (h : DevHost) (x y : Xdev) (d : Dir) (place most i : ℕ) (o : ℕ × Xdev)
    → Probed x y d i
    → Scanned h y d place most o
    → Scanned h x d place most o
Scanned-step h x y d place most i o p s = record {
  found = s.found;
  set_up = s.set_up;
  within = s.within;
  other_engines = s.other_engines ∙ p.other_engines;
  other_mask = s.other_mask ∙ p.other_mask;
  channel_max = s.channel_max ∙ p.channel_max;
  user_max = s.user_max ∙ p.user_max;
  at_least = s.at_least;
  at_most = s.at_most;
}

-- All that were found, and the one that was found last.
AllFound-suc :
    (x : Xdev) (d : Dir) (place i : ℕ)
    → AllFound x d place i
    → IsFound x d place i
    → AllFound x d place (i + 1)
AllFound-suc x d place i all last j lt = elim (dec_lt j i) [
  | yes l ↦ all j l
  | no n ↦ let e : i ≡ j = omega arith in subst (IsFound x d place) e last
]

AllSetUp-suc :
    (h : DevHost) (x : Xdev) (d : Dir) (i : ℕ)
    → AllSetUp h x d i
    → IsSetUp h (x.engines d i)
    → AllSetUp h x d (i + 1)
AllSetUp-suc h x d i all last j lt = elim (dec_lt j i) [
  | yes l ↦ all j l
  | no n ↦ let e : i ≡ j = omega arith in subst (λ k. IsSetUp h (x.engines d k)) e last
]

loop-Scanned :
    (h : DevHost) (d : Dir) (n i : ℕ) (x : Xdev) (place : ℕ)
    → x.engines_num + n ≤ 32
    → place + i ≡ x.engines_num
    → AllFound x d place i
    → AllSetUp h x d i
    → Scanned h x d place (i + n) (probe_loop h d n i x)
unfolding probe_loop
loop-Scanned h d zero i x place few at all ready = record {
  found = all;
  set_up = ready;
  within = omega arith;
  other_engines = refl;
  other_mask = refl;
  channel_max = refl;
  user_max = refl;
  at_least = omega arith;
  at_most = omega arith;
}
loop-Scanned h d (suc n) i x place few at all ready =
    let y = (probe_for_engine h d i x).1 in
    let (p, good) = probe-Looked h d i x place (omega arith) at in
    let kept : AllFound y d place i = λ j lt. Probed-IsFound x y d place i j p lt (all j lt) in
    let held : AllSetUp h y d i = λ j lt. subst (IsSetUp h) (sym (p.before j lt)) (ready j lt) in
    elim (Bool-cases (is_err (probe_for_engine h d i x).0)) [
      | inl bad ↦ rw bad (record {
        found = kept;
        set_up = held;
        within = omega arith;
        other_engines = p.other_engines;
        other_mask = p.other_mask;
        channel_max = p.channel_max;
        user_max = p.user_max;
        at_least = omega (arith, p.at_least);
        at_most = omega (arith, p.at_most);
      })
      | inr fine ↦
          let (f, num, up) = good fine in
          let most : i + 1 + n ≡ i + suc n = omega arith in
          let s =
            loop-Scanned h d n (i + 1) y place (omega arith) (omega arith)
              (AllFound-suc y d place i kept f) (AllSetUp-suc h y d i held up) in
          rw fine (
            Scanned-step h x y d place (i + suc n) i (probe_loop h d n (i + 1) y) p
              (subst (λ m. Scanned h y d place m (probe_loop h d n (i + 1) y)) most s))
    ]

-- What a direction's loop and assignment have done, where probing starts at an engine count.
record DirDone (h : DevHost) (x : Xdev) (d : Dir) (y : Xdev) : Type 0 where
  found : AllFound y d x.engines_num (y.channel_max d)
  set_up : AllSetUp h y d (y.channel_max d)
  within : y.channel_max d ≤ x.channel_max d
  other_engines : y.engines (other d) ≡ x.engines (other d)
  other_mask : y.mask_irq (other d) ≡ x.mask_irq (other d)
  other_max : y.channel_max (other d) ≡ x.channel_max (other d)
  user_max : y.user_max ≡ x.user_max
  at_least : x.engines_num + y.channel_max d ≤ y.engines_num
  at_most : y.engines_num ≤ x.engines_num + y.channel_max d + 1

dir-Done :
    (h : DevHost) (d : Dir) (x : Xdev)
    → x.engines_num + x.channel_max d ≤ 32
    → DirDone h x d (probe_dir h d x)
unfolding probe_dir
dir-Done h d x few =
    let o = probe_loop h d (x.channel_max d) 0 x in
    let s =
      loop-Scanned h d (x.channel_max d) 0 x x.engines_num few (omega arith)
        (λ j lt. absurd (omega arith)) (λ j lt. absurd (omega arith)) in
    let count : put_dir o.1.channel_max d o.0 d ≡ o.0 = put_dir_hit o.1.channel_max d o.0 in
    record {
      found = λ i lt.
          let f = s.found i (rw count at lt) in
          record { magic = f.magic; bitmask = f.bitmask; masked = f.masked };
      set_up = λ i lt. s.set_up i (rw count at lt);
      within = rw count (omega (arith, s.within));
      other_engines = s.other_engines;
      other_mask = s.other_mask;
      other_max =
          put_dir_miss o.1.channel_max d o.0 ∙ ap (λ (m : Dir → ℕ). m (other d)) s.channel_max;
      user_max = s.user_max;
      at_least = rw count s.at_least;
      at_most = rw count s.at_most;
    }

-- Engines and mask of a direction are all that this depends on.
pub AllFound-same :
    (x y : Xdev) (d : Dir) (place n : ℕ)
    → y.engines d ≡ x.engines d
    → y.mask_irq d ≡ x.mask_irq d
    → AllFound x d place n
    → AllFound y d place n
AllFound-same x y d place n e m all i lt =
    let f = all i lt in
    record {
      magic = ap (λ (g : ℕ → SgEngine). (g i).magic) e ∙ f.magic;
      bitmask = ap (λ (g : ℕ → SgEngine). (g i).irq_bitmask) e ∙ f.bitmask;
      masked = ap (bit (place + i)) m ∙ f.masked;
    }

pub probe_engines-AllFound :
    (h : DevHost) (x : Xdev)
    → x.engines_num ≡ 0
    → x.channel_max to_device + x.channel_max from_device < 32
    → let y = probe_engines h x in
      (y.channel_max to_device ≤ x.channel_max to_device)
      × (y.channel_max from_device ≤ x.channel_max from_device)
      × AllFound y to_device 0 (y.channel_max to_device)
      × (place : ℕ) × (y.channel_max to_device ≤ place)
      × (place ≤ y.channel_max to_device + 1)
      × AllFound y from_device place (y.channel_max from_device)
      × AllSetUp h y to_device (y.channel_max to_device)
      × AllSetUp h y from_device (y.channel_max from_device)
unfolding probe_engines
probe_engines-AllFound h x none few =
    let y = probe_dir h to_device x in
    let a = dir-Done h to_device x (omega arith) in
    let b = dir-Done h from_device y (omega (arith, a.at_most, a.within, a.other_max)) in
    let z = probe_dir h from_device y in
    let base = subst (λ p. AllFound y to_device p (y.channel_max to_device)) none a.found in
    let kept =
      AllFound-same y z to_device 0 (y.channel_max to_device) b.other_engines b.other_mask base in
    (
      rw b.other_max a.within,
      omega (arith, b.within, a.other_max),
      rw b.other_max kept,
      y.engines_num,
      rw b.other_max (omega (arith, a.at_least)),
      rw b.other_max (omega (arith, a.at_most)),
      b.found,
      rw b.other_max (λ i lt.
          subst (λ (g : ℕ → SgEngine). IsSetUp h (g i)) (sym b.other_engines) (a.set_up i lt)),
      b.set_up,
    )

-- Probing leaves the number of user interrupts.
pub probe_engines-user_max :
    (h : DevHost) (x : Xdev)
    → x.engines_num ≡ 0
    → x.channel_max to_device + x.channel_max from_device < 32
    → (probe_engines h x).user_max ≡ x.user_max
unfolding probe_engines
probe_engines-user_max h x none few =
    let y = probe_dir h to_device x in
    let a = dir-Done h to_device x (omega arith) in
    let b = dir-Done h from_device y (omega (arith, a.at_most, a.within, a.other_max)) in
    b.user_max ∙ a.user_max
