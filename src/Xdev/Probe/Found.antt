-- ===== src/Xdev/Probe/Found.antt =====
-- The engines that `probe_engines` finds: each has an interrupt bit of its own, which the masks of the
-- device hold.
use xdma_fpga.Base.{
  ℕ, ◌+◌, ◌*◌, ◌^◌, ◌%◌, ◌≤◌, ◌<◌, ◌==◌, ◌||◌, true, false, ◌≡◌, refl, ap, sym, subst, ◌∙◌, arith,
  Rv, ok, err, is_err, bit, bit-bit_or, bit-pow, if_both,
}
use native.Mathlib.Nat.{pow-le-pow_right, mod-eq_of_lt}
use xdma_fpga.Hw.{Dir, to_device, from_device}
use xdma_fpga.Xdev.{Xdev, DevHost, SgEngine, put_dir, config_bar}
use mathlib.Core.Bool.{false≢true}
use xdma_fpga.Xdev.Offset
use xdma_fpga.Xdev.Create.{
  engine_init, engine_alloc_resource, engine_free_resource, engine_init_regs, engine_alignments,
  engine_writeback_setup, counted, set_up, new_engine, alloc_results, alloc_writeback,
  wants_results, enabled_word,
}
use xdma_fpga.Xdev.Probe.{
  probe_for_engine, get_engine_id, get_engine_channel_id, stored, engine_offset,
}

-- The engine of a direction and an index is set up, and its interrupt is the bit at `place`.
pub record IsFound (x : Xdev) (d : Dir) (place i : ℕ) : Type 0 where
  pub magic : (x.engines d i).magic ≡ true
  pub bitmask : (x.engines d i).irq_bitmask ≡ 2 ^ (place + i)
  pub masked : bit (place + i) (x.mask_irq d) ≡ true

-- The engine has the memory that it needs: descriptors, in poll mode a place for the writeback, and for streams
-- from the device a place for the results.
pub record HasMemory (h : DevHost) (e : SgEngine) : Type 0 where
  pub descs : (e.desc == 0) ≡ false
  pub writeback : h.poll_mode ≡ true → (e.poll_mode_addr_virt == 0) ≡ false
  pub results : wants_results e ≡ true → (e.cyclic_result == 0) ≡ false

-- `engine_init` came to its end for the engine: it has its memory, and its interrupts are enabled.
pub record IsSetUp (h : DevHost) (e : SgEngine) : Type 0 where
  pub memory : HasMemory h e
  pub enabled : e.interrupt_enable_mask_value ≡ enabled_word h.poll_mode

alloc-HasMemory :
    (h : DevHost) (x : Xdev) (e : SgEngine)
    → let o = engine_alloc_resource h x e in is_err o.0 ≡ false → HasMemory h o.2
unfolding engine_alloc_resource alloc_writeback alloc_results
alloc-HasMemory h x e = ground arith

regs-IsSetUp :
    (h : DevHost) (x : Xdev) (e : SgEngine) → HasMemory h e → IsSetUp h (engine_init_regs h x e).1
unfolding engine_init_regs engine_alignments
regs-IsSetUp h x e m = ground arith

set_up-IsSetUp :
    (h : DevHost) (d : Dir) (i : ℕ) (o : Rv × Xdev × SgEngine)
    → (is_err o.0 ≡ false → HasMemory h o.2)
    → let o' = set_up h d i o in is_err o'.0 ≡ false → IsSetUp h o'.2
unfolding set_up
set_up-IsSetUp h d i (err c, x, e) m good = absurd (cc)
set_up-IsSetUp h d i (ok, x, e) m good = regs-IsSetUp h x e (m refl)

-- The device as `engine_init` leaves it to the allocation.
abbrev begun : DevHost → Xdev → SgEngine → ℕ → ℕ → Dir → ℕ → Xdev
begun h x e val offset d i =
    counted (record x { reads = x.reads + 1 }) d (new_engine h x e val offset d i)

init-IsSetUp :
    (h : DevHost) (x : Xdev) (e : SgEngine) (offset : ℕ) (d : Dir) (i : ℕ)
    → let o = engine_init h x e offset d i in is_err o.0 ≡ false → IsSetUp h o.2
unfolding engine_init
init-IsSetUp h x e offset d i =
    let val = h.read x.reads (config_bar x + offset + Offset.identifier) in
    let b = begun h x e val offset d i in
    let f = new_engine h x e val offset d i in
    set_up-IsSetUp h d i (engine_alloc_resource h b f) (alloc-HasMemory h b f)

-- What creation changes of an engine's interrupt, and of the device.
record Keeps (x y : Xdev) (e e' : SgEngine) : Type 0 where
  engines : y.engines ≡ x.engines
  mask_irq : y.mask_irq ≡ x.mask_irq
  engines_num : y.engines_num ≡ x.engines_num
  channel_max : y.channel_max ≡ x.channel_max
  user_max : y.user_max ≡ x.user_max
  magic : e'.magic ≡ e.magic
  irq_bitmask : e'.irq_bitmask ≡ e.irq_bitmask

Keeps-trans : {x y z : Xdev} {e f g : SgEngine} → Keeps x y e f → Keeps y z f g → Keeps x z e g
Keeps-trans p q = record {
  engines = q.engines ∙ p.engines;
  mask_irq = q.mask_irq ∙ p.mask_irq;
  engines_num = q.engines_num ∙ p.engines_num;
  channel_max = q.channel_max ∙ p.channel_max;
  user_max = q.user_max ∙ p.user_max;
  magic = q.magic ∙ p.magic;
  irq_bitmask = q.irq_bitmask ∙ p.irq_bitmask;
}

-- Each field of a pair of branches.
abbrev KeepsOf : Xdev → SgEngine → Rv × Xdev × SgEngine → Type 0
KeepsOf x e o = Keeps x o.1 e o.2

free-Keeps :
    (x : Xdev) (e : SgEngine) → Keeps x (engine_free_resource x e).0 e (engine_free_resource x e).1
unfolding engine_free_resource
free-Keeps x e = ground arith

results-Keeps : (h : DevHost) (x : Xdev) (e : SgEngine) → KeepsOf x e (alloc_results h x e)
unfolding alloc_results engine_free_resource
results-Keeps h x e = ground arith

writeback-Keeps : (h : DevHost) (x : Xdev) (e : SgEngine) → KeepsOf x e (alloc_writeback h x e)
unfolding alloc_writeback alloc_results engine_free_resource
writeback-Keeps h x e = ground arith

alloc-Keeps : (h : DevHost) (x : Xdev) (e : SgEngine) → KeepsOf x e (engine_alloc_resource h x e)
unfolding engine_alloc_resource alloc_writeback alloc_results engine_free_resource
alloc-Keeps h x e = ground arith

regs-Keeps :
    (h : DevHost) (x : Xdev) (e : SgEngine)
    → Keeps x (engine_init_regs h x e).0 e (engine_init_regs h x e).1
unfolding engine_init_regs engine_alignments engine_writeback_setup
regs-Keeps h x e = ground arith

set_up-Keeps :
    (h : DevHost) (d : Dir) (i : ℕ) (x : Xdev) (e : SgEngine) (o : Rv × Xdev × SgEngine)
    → KeepsOf x e o
    → KeepsOf x e (set_up h d i o)
unfolding set_up
set_up-Keeps h d i x e (err c, y, f) k = k
set_up-Keeps h d i x e (ok, y, f) k =
    let r = regs-Keeps h y f in let done = Keeps-trans k r in ground (arith, done)

init-Keeps :
    (h : DevHost) (x : Xdev) (e : SgEngine) (offset : ℕ) (d : Dir) (i : ℕ)
    → (val : ℕ) × KeepsOf
        (begun h x e val offset d i)
        (new_engine h x e val offset d i)
        (engine_init h x e offset d i)
unfolding engine_init
init-Keeps h x e offset d i =
    let val = h.read x.reads (config_bar x + offset + Offset.identifier) in
    let b = begun h x e val offset d i in
    let f = new_engine h x e val offset d i in
    (val, set_up-Keeps h d i b f (engine_alloc_resource h b f) (alloc-Keeps h b f))

abbrev pub other : Dir → Dir
other to_device = from_device
other from_device = to_device

pub put_dir_hit {ℓ} : {A : Type ℓ} (f : Dir → A) (d : Dir) (a : A) → put_dir f d a d ≡ a
put_dir_hit f to_device a = refl
put_dir_hit f from_device a = refl

pub put_dir_miss {ℓ} :
    {A : Type ℓ} (f : Dir → A) (d : Dir) (a : A) → put_dir f d a (other d) ≡ f (other d)
put_dir_miss f to_device a = refl
put_dir_miss f from_device a = refl

-- What probing for the engine of a direction and an index leaves of the device.
pub record Probed (x y : Xdev) (d : Dir) (i : ℕ) : Type 0 where
  pub before : (j : ℕ) → j < i → y.engines d j ≡ x.engines d j
  pub masks : (k : ℕ) → bit k (x.mask_irq d) ≡ true → bit k (y.mask_irq d) ≡ true
  pub other_engines : y.engines (other d) ≡ x.engines (other d)
  pub other_mask : y.mask_irq (other d) ≡ x.mask_irq (other d)
  pub channel_max : y.channel_max ≡ x.channel_max
  pub user_max : y.user_max ≡ x.user_max
  pub at_least : x.engines_num ≤ y.engines_num
  pub at_most : y.engines_num ≤ x.engines_num + 1

irq_bit : (n : ℕ) → n < 32 → 1 * 2 ^ (n * 1) % 2 ^ 32 ≡ 2 ^ n
irq_bit n h =
    let small : 2 ^ n ≤ 2 ^ 31 =
      pow-le-pow_right {n = 2} (omega arith) {i = n} {j = 31} (omega arith) in
    let one : n * 1 ≡ n = omega arith in
    rw one (let id : 1 * 2 ^ n ≡ 2 ^ n = omega arith in rw id (mod-eq_of_lt (omega arith)))

new_irq_bit :
    (h : DevHost) (x : Xdev) (e : SgEngine) (val offset : ℕ) (d : Dir) (i : ℕ)
    → x.engines_num < 32
    → (new_engine h x e val offset d i).irq_bitmask ≡ 2 ^ x.engines_num
unfolding new_engine
new_irq_bit h x e val offset d i lt = irq_bit x.engines_num lt

new_magic :
    (h : DevHost) (x : Xdev) (e : SgEngine) (val offset : ℕ) (d : Dir) (i : ℕ)
    → (new_engine h x e val offset d i).magic ≡ true
unfolding new_engine
new_magic h x e val offset d i = refl

module _ (h : DevHost) (x : Xdev) (e : SgEngine) (offset : ℕ) (d : Dir) (i : ℕ)
    (few : x.engines_num < 32) where
  -- The engine after `engine_init`, and its device.
  abbrev init_out : Rv × Xdev × SgEngine
  init_out = engine_init h x e offset d i

  init_mask :
      (k : ℕ)
      → bit k ((stored d i init_out).1.mask_irq d) ≡ (bit k (x.mask_irq d) || (k == x.engines_num))
  init_mask k =
      let (val, keep) = init-Keeps h x e offset d i in
      ap (λ (m : Dir → ℕ). bit k (m d)) keep.mask_irq
      ∙ ap (bit k) (put_dir_hit x.mask_irq d _)
      ∙ bit-bit_or k (x.mask_irq d) _
      ∙ rw (new_irq_bit h x e val offset d i few, bit-pow k x.engines_num) refl

  init-Probed : Probed x (stored d i init_out).1 d i
  init-Probed =
      let (val, keep) = init-Keeps h x e offset d i in
      let num : (stored d i init_out).1.engines_num ≡ x.engines_num + 1 = keep.engines_num in
      record {
        before = λ j lt.
            let miss : (j == i) ≡ false = ground arith in
            ap (λ (f : ℕ → SgEngine). f j) (put_dir_hit init_out.1.engines d _)
            ∙ rw miss (ap (λ (g : Dir → ℕ → SgEngine). g d j) keep.engines);
        masks = λ k set. init_mask k ∙ rw set refl;
        other_engines =
            put_dir_miss init_out.1.engines d _
            ∙ ap (λ (g : Dir → ℕ → SgEngine). g (other d)) keep.engines;
        other_mask = ap (λ (m : Dir → ℕ). m (other d)) keep.mask_irq ∙ put_dir_miss x.mask_irq d _;
        channel_max = keep.channel_max;
        user_max = keep.user_max;
        at_least = omega arith;
        at_most = omega arith;
      }

  init_hit : (stored d i init_out).1.engines d i ≡ init_out.2
  init_hit =
      let same : (i == i) ≡ true = ground arith in
      ap (λ (f : ℕ → SgEngine). f i) (put_dir_hit init_out.1.engines d _) ∙ rw same refl

  init-IsFound : (place : ℕ) → place + i ≡ x.engines_num → IsFound (stored d i init_out).1 d place i
  init-IsFound place at =
      let (val, keep) = init-Keeps h x e offset d i in
      let hit = init_hit in
      record {
        magic = rw hit (keep.magic ∙ new_magic h x e val offset d i);
        bitmask = rw hit (keep.irq_bitmask ∙ new_irq_bit h x e val offset d i few ∙ rw at refl);
        masked = init_mask (place + i) ∙ rw at (ground arith);
      }

  init_num : (stored d i init_out).1.engines_num ≡ x.engines_num + 1
  init_num = (init-Keeps h x e offset d i).1.engines_num

-- Reading a register changes nothing of this.
reads-Probed :
    {x y : Xdev} {d : Dir} {i : ℕ} (n : ℕ) → Probed (record x { reads = n }) y d i → Probed x y d i
reads-Probed n p = record {
  before = p.before;
  masks = p.masks;
  other_engines = p.other_engines;
  other_mask = p.other_mask;
  channel_max = p.channel_max;
  user_max = p.user_max;
  at_least = p.at_least;
  at_most = p.at_most;
}

skip-Probed : (x : Xdev) (n : ℕ) (d : Dir) (i : ℕ) → Probed x (record x { reads = n }) d i
skip-Probed x n d i = record {
  before = λ j lt. refl;
  masks = λ k set. set;
  other_engines = refl;
  other_mask = refl;
  channel_max = refl;
  user_max = refl;
  at_least = omega arith;
  at_most = omega arith;
}

-- What `probe_for_engine` returns: an error, or the engine that was looked for.
abbrev pub Looked : DevHost → Xdev → Dir → ℕ → ℕ → Rv × Xdev → Type 0
Looked h x d place i o =
    Probed x o.1 d i
    × (is_err o.0 ≡ false
        → IsFound o.1 d place i
          × (o.1.engines_num ≡ x.engines_num + 1)
          × IsSetUp h (o.1.engines d i))

pub probe-Looked :
    (h : DevHost) (d : Dir) (i : ℕ) (x : Xdev) (place : ℕ)
    → x.engines_num < 32
    → place + i ≡ x.engines_num
    → Looked h x d place i (probe_for_engine h d i x)
unfolding probe_for_engine get_engine_id get_engine_channel_id
probe-Looked h d i x place few at =
    let n = x.reads + 1 + 1 in
    let y = record x { reads = n } in
    let offset = engine_offset d i in
    if_both (Looked h x d place i) _ (skip-Probed x n d i, λ e. absurd (false≢true (sym e)))
      (
        reads-Probed n (init-Probed h y (x.engines d i) offset d i few),
        λ e. (
          init-IsFound h y (x.engines d i) offset d i few place at,
          init_num h y (x.engines d i) offset d i few,
          subst (IsSetUp h) (sym (init_hit h y (x.engines d i) offset d i few))
              (init-IsSetUp h y (x.engines d i) offset d i e),
        ),
      )
