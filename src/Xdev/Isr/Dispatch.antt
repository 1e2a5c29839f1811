-- ===== src/Xdev/Isr/Dispatch.antt =====
-- The interrupt handler of a device whose engines are found serves exactly what is requested.
use xdma_fpga.Base.{
  ℕ, zero, suc, ◌+◌, ◌*◌, ◌^◌, ◌%◌, ◌≤◌, ◌<◌, ◌==◌, ◌&&◌, Bool, true, false, ◌≡◌, inl, inr, refl,
  ap, sym, ◌∙◌, subst, arith, bit, bit-zero, bit-bit_and, bit-pow, bit-not32, has-pow, pow-has,
  bit_and, not32, has, if◌then◌else◌, Bool-cases, ==_iff, if_both,
}
use native.Mathlib.Nat.{pow-le-pow_right, mod-eq_of_lt, two-pow-succ}
use xdma_fpga.Hw.{Dir, to_device, from_device}
use xdma_fpga.Xdev.{
  Xdev, DevHost, DevEvent, SgEngine, note, scheduled, dev_read, int_reg, channel_interrupts_disable,
}
use xdma_fpga.Xdev.Offset
use xdma_fpga.Xdev.Probe.Scan.{AllFound, AllFound-same}
use xdma_fpga.Xdev.Isr.{
  each, user_loop, user_irq_service, channel_loop, schedule_dir, xdma_isr, isr_by_bits,
}

-- Where no test passes, no step is made.
pub each-none :
    (n i : ℕ) (test : ℕ → Bool) (act : ℕ → Xdev → Xdev) (x : Xdev)
    → ((k : ℕ) → i ≤ k → k < i + n → test k ≡ false)
    → each n i test act x ≡ x
unfolding each
each-none zero i test act x h = refl
each-none (suc n) i test act x h =
    rw (h i (omega arith) (omega arith))
      (each-none n (i + 1) test act x (λ k le lt. h k (omega arith) (omega arith)))

pow-lt-word : (k : ℕ) → k < 32 → 2 ^ k < 2 ^ 32
pow-lt-word k h =
    let small : 2 ^ k ≤ 2 ^ 31 =
      pow-le-pow_right {n = 2} (omega arith) {i = k} {j = 31} (omega arith) in
    omega arith

-- A bit above the one that is cleared is kept.
cleared_above : (w j k : ℕ) → j < k → k < 32 → bit k (bit_and w (not32 (2 ^ j))) ≡ bit k w
cleared_above w j k lt few =
    let off : (k == j) ≡ false = ground arith in
    bit-bit_and k w (not32 (2 ^ j))
    ∙ rw (bit-not32 k (2 ^ j) few (pow-lt-word j (omega arith)), bit-pow k j, off) (ground arith)

-- The requests that are left agree with all requests from an index on, up to the end of the row.
abbrev pub Left : ℕ → (ℕ → Bool) → ℕ → ℕ → ℕ → Type 0
Left w test place i top = (k : ℕ) → i ≤ k → k < top → bit (place + k) w ≡ test k

pub Left-step :
    (w : ℕ) (test : ℕ → Bool) (place i top : ℕ) (hit : Bool)
    → place + top ≤ 32
    → Left w test place i top
    → Left (if hit then bit_and w (not32 (2 ^ (place + i))) else w) test place (i + 1) top
Left-step w test place i top true few h k le lt =
    cleared_above w (place + i) (place + k) (omega arith) (omega arith) ∙ h k (omega arith) lt
Left-step w test place i top false few h k le lt = h k (omega arith) lt

pub Left-zero :
    (w : ℕ) (test : ℕ → Bool) (place i top : ℕ)
    → (w == 0) ≡ true
    → Left w test place i top
    → (k : ℕ) → i ≤ k
    → k < top
    → test k ≡ false
Left-zero w test place i top z h k le lt =
    let e : w ≡ 0 = (==_iff w 0).0 z in
    sym (h k le lt) ∙ ap (bit (place + k)) e ∙ bit-zero (place + k)

pub Left-next :
    (w : ℕ) (test : ℕ → Bool) (place i n : ℕ)
    → Left w test place i (i + suc n)
    → Left w test place i (i + 1 + n)
Left-next w test place i n h k le lt = h k le (omega arith)

next_mask : (p k : ℕ) → p + k < 31 → 2 ^ (p + k) * 2 % 2 ^ 32 ≡ 2 ^ (p + (k + 1))
next_mask p k h =
    let up : p + (k + 1) ≡ suc (p + k) = omega arith in
    let e : 2 ^ (p + k) * 2 ≡ 2 ^ suc (p + k) = omega (arith, two-pow-succ (p + k)) in
    rw (up, e) (mod-eq_of_lt (pow-lt-word (suc (p + k)) (omega arith)))

user_loop-each :
    (n user w : ℕ) (test : ℕ → Bool) (x : Xdev)
    → user + n < 32
    → Left w test 0 user (user + n)
    → user_loop n user (2 ^ (0 + user)) w x ≡ each n user test user_irq_service x
unfolding user_loop each
user_loop-each zero user w test x few h = refl
user_loop-each (suc n) user w test x few h = elim (Bool-cases (w == 0)) [
  | inl z ↦ rw z (
      sym (
        each-none (suc n) user test user_irq_service x
          (Left-zero w test 0 user (user + suc n) z h)))
  | inr more ↦
      let hit = has w (2 ^ (0 + user)) in
      let same : hit ≡ test user = has-pow (0 + user) w ∙ h user (omega arith) (omega arith) in
      let next : 2 ^ (0 + user) * 2 % 2 ^ 32 ≡ 2 ^ (0 + (user + 1)) =
        next_mask 0 user (omega arith) in
      let left =
        Left-step w test 0 user (user + 1 + n) hit (omega arith) (Left-next w test 0 user n h) in
      rw (more, next, ← same)
        (user_loop-each n (user + 1) (if hit then bit_and w (not32 (2 ^ (0 + user))) else w) test
          (if hit then user_irq_service user x else x) (omega arith) left)
]

-- An event alone changes no engine.
noted-AllFound :
    (b : Bool) (x : Xdev) (ev : DevEvent) (d : Dir) (place n : ℕ)
    → AllFound x d place n
    → AllFound (if b then note x ev else x) d place n
noted-AllFound true x ev d place n all = AllFound-same x (note x ev) d place n refl refl all
noted-AllFound false x ev d place n all = all

channel_loop-each :
    (d : Dir) (place n i w : ℕ) (test : ℕ → Bool) (x : Xdev)
    → place + (i + n) ≤ 32
    → AllFound x d place (i + n)
    → Left w test place i (i + n)
    → channel_loop d n i w x ≡ each n i test (λ k y. note y (scheduled d k)) x
unfolding channel_loop each
channel_loop-each d place zero i w test x few all h = refl
channel_loop-each d place (suc n) i w test x few all h = elim (Bool-cases (w == 0)) [
  | inl z ↦ rw z (
      sym (
        each-none (suc n) i test (λ k y. note y (scheduled d k)) x
          (Left-zero w test place i (i + suc n) z h)))
  | inr more ↦
      let f = all i (omega arith) in
      let mark = f.bitmask in
      let hit = has (2 ^ (place + i)) w in
      let same : hit ≡ test i = pow-has (place + i) w ∙ h i (omega arith) (omega arith) in
      let left =
        Left-step w test place i (i + 1 + n) hit (omega arith) (Left-next w test place i n h) in
      let one : (hit && true) ≡ hit = ground arith in
      let rest : AllFound x d place (i + 1 + n) = λ k lt. all k (omega arith) in
      rw (more, mark, f.magic, one, ← same)
        (channel_loop-each d place n (i + 1)
          (if hit then bit_and w (not32 (2 ^ (place + i))) else w) test
          (if hit then note x (scheduled d i) else x) (omega arith)
          (noted-AllFound hit x (scheduled d i) d place (i + 1 + n) rest) left)
]

-- The channels of a direction whose engines are all found.
schedule-each :
    (d : Dir) (place ch_irq : ℕ) (test : ℕ → Bool) (x : Xdev)
    → place + x.channel_max d ≤ 32
    → AllFound x d place (x.channel_max d)
    → ((k : ℕ) → bit (place + k) ch_irq ≡ test k)
    → schedule_dir d ch_irq x ≡ each (x.channel_max d) 0 test (λ i y. note y (scheduled d i)) x
unfolding schedule_dir
schedule-each d place ch_irq test x few all agree =
    channel_loop-each d place (x.channel_max d) 0 (bit_and ch_irq (x.mask_irq d)) test x
      (omega arith) (λ i lt. all i (omega arith))
      λ k le lt.
        bit-bit_and (place + k) ch_irq (x.mask_irq d)
        ∙ rw ((all k (omega arith)).masked) (ground (arith, agree k))

-- What the handler's steps leave alone.
record Same (x y : Xdev) : Type 0 where
  engines : y.engines ≡ x.engines
  mask_irq : y.mask_irq ≡ x.mask_irq
  channel_max : y.channel_max ≡ x.channel_max

Same-trans : {x y z : Xdev} → Same x y → Same y z → Same x z
Same-trans p q = record {
  engines = q.engines ∙ p.engines;
  mask_irq = q.mask_irq ∙ p.mask_irq;
  channel_max = q.channel_max ∙ p.channel_max;
}

service-Same : (i : ℕ) (x : Xdev) → Same x (user_irq_service i x)
unfolding user_irq_service
service-Same i x = ground arith

each-Same :
    (n i : ℕ) (test : ℕ → Bool) (act : ℕ → Xdev → Xdev) (x : Xdev)
    → ((k : ℕ) (y : Xdev) → Same y (act k y))
    → Same x (each n i test act x)
unfolding each
each-Same zero i test act x h = record { engines = refl; mask_irq = refl; channel_max = refl }
each-Same (suc n) i test act x h =
    Same-trans
      (if_both (Same x) (test i) (h i x)
        (record { engines = refl; mask_irq = refl; channel_max = refl }))
      (each-Same n (i + 1) test act (if test i then act i x else x) h)

Same-AllFound :
    {x y : Xdev}
    → Same x y
    → (d : Dir) (place : ℕ) → AllFound x d place (x.channel_max d)
    → AllFound y d place (y.channel_max d)
Same-AllFound {x} {y} s d place all =
    let e = ap (λ (m : Dir → ℕ). m d) s.channel_max in
    subst (λ n. AllFound y d place n) (sym e)
      (AllFound-same x y d place (x.channel_max d) (ap (λ (g : Dir → ℕ → SgEngine). g d) s.engines)
        (ap (λ (m : Dir → ℕ). m d) s.mask_irq) all)

-- The device as the handler has it when both words of requests are read.
abbrev after_reads : DevHost → Xdev → ℕ × ℕ × Xdev
after_reads h x =
    let (ch_irq, x1) = dev_read h x (int_reg x Offset.channel_int_request) in
    let x2 = if ch_irq == 0 then x1 else channel_interrupts_disable x1 ch_irq in
    let (user_irq, x3) = dev_read h x2 (int_reg x2 Offset.user_int_request) in
    (ch_irq, user_irq, x3)

reads-Same : (h : DevHost) (x : Xdev) → Same x (after_reads h x).2
reads-Same h x = ground arith

reads_users : (h : DevHost) (x : Xdev) → (after_reads h x).2.user_max ≡ x.user_max
reads_users h x = ground arith

zero_up : (w k : ℕ) → bit (0 + k) w ≡ bit k w
zero_up w k = ap (λ n. bit n w) (omega arith)

note-Same : (d : Dir) (i : ℕ) (x : Xdev) → Same x (note x (scheduled d i))
note-Same d i x = record { engines = refl; mask_irq = refl; channel_max = refl }

-- On a device whose engines are all found (as `probe_engines` leaves it, `place` being where the bits of C2H
-- begin), with 31 user interrupts at most and channel bits within the word, `xdma_isr` is the plain handler: it
-- switches off the channels' requests that it reads, serves each user interrupt whose bit is set, and schedules
-- the work of exactly the engines whose bit is set, each once and in order.
pub xdma_isr-eq-isr_by_bits :
    (h : DevHost) (x : Xdev) (place : ℕ)
    → x.user_max < 32
    → x.channel_max to_device ≤ 32
    → place + x.channel_max from_device ≤ 32
    → AllFound x to_device 0 (x.channel_max to_device)
    → AllFound x from_device place (x.channel_max from_device)
    → xdma_isr h x ≡ isr_by_bits h place x
unfolding xdma_isr isr_by_bits
xdma_isr-eq-isr_by_bits h x place users h2c c2h all_h2c all_c2h =
    let (ch_irq, user_irq, x3) = after_reads h x in
    let finish = λ (y : Xdev). record y { irq_count = y.irq_count + 1 } in
    let by_user = λ (i : ℕ). bit i user_irq in
    let by_channel = λ (i : ℕ). bit i ch_irq in
    let few : x3.user_max < 32 = omega (arith, reads_users h x) in
    let e4 =
      user_loop-each x3.user_max 0 user_irq by_user x3 (omega arith)
        (λ k le lt. zero_up user_irq k) in
    let x4 = each x3.user_max 0 by_user user_irq_service x3 in
    let s4 =
      Same-trans (reads-Same h x)
        (each-Same x3.user_max 0 by_user user_irq_service x3 service-Same) in
    let m4 = ap (λ (m : Dir → ℕ). m to_device) s4.channel_max in
    let act = λ (i : ℕ) (y : Xdev). note y (scheduled to_device i) in
    let e5 =
      schedule-each to_device 0 ch_irq by_channel x4 (omega arith)
        (Same-AllFound s4 to_device 0 all_h2c) (zero_up ch_irq) in
    let x5 = each (x4.channel_max to_device) 0 by_channel act x4 in
    let s5 =
      Same-trans s4
        (each-Same (x4.channel_max to_device) 0 by_channel act x4 (note-Same to_device)) in
    let m5 = ap (λ (m : Dir → ℕ). m from_device) s5.channel_max in
    let e6 =
      schedule-each from_device place ch_irq (λ i. bit (place + i) ch_irq) x5 (omega arith)
        (Same-AllFound s5 from_device place all_c2h) (λ k. refl) in
    ap (λ y. finish (schedule_dir from_device ch_irq (schedule_dir to_device ch_irq y))) e4
    ∙ ap (λ y. finish (schedule_dir from_device ch_irq y)) e5
    ∙ ap finish e6
