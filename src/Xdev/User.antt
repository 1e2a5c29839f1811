-- ===== src/Xdev/User.antt =====
-- xdma/libxdma.c, the handlers of user interrupts: `xdma_user_isr_register`, `xdma_user_isr_enable` and
-- `xdma_user_isr_disable`, on a device that is in the driver's list.
use xdma_fpga.Base.{
  ℕ, zero, suc, ◌+◌, ◌^◌, ◌<◌, ◌==◌, Bool, ◌≡◌, inl, inr, refl, sym, ◌∙◌, ap, arith, bit, bit_and,
  bit_or, not32, has, pow-has, if◌then◌else◌, Bool-cases,
}
use xdma_fpga.Xdev.{
  Xdev, DevHost, put, user_interrupts_enable, user_interrupts_disable, read_interrupts,
}
use xdma_fpga.Xdev.Isr.{each}
use xdma_fpga.Xdev.Isr.Dispatch.{Left, Left-step, Left-zero, Left-next, each-none}

-- The handler of a user interrupt is set, or taken away (`handler` is whether it is not NULL).
abbrev set_handler : Bool → ℕ → Xdev → Xdev
set_handler handler i x = record x {
  user_irq = put x.user_irq i (record (x.user_irq i) { handler = handler });
}

-- The loop of `xdma_user_isr_register`, with the rounds that are left.
unfoldable pub register_loop : Bool → ℕ → ℕ → ℕ → Xdev → Xdev
register_loop handler zero i mask x = x
register_loop handler (suc n) i mask x =
    let hit = has (2 ^ i) mask in
    let left = if hit then bit_and mask (not32 (2 ^ i)) else mask in
    let rest = register_loop handler n (i + 1) left (if hit then set_handler handler i x else x) in
    if mask == 0 then x else rest

-- `xdma_user_isr_register`
unfoldable pub xdma_user_isr_register : ℕ → Bool → Xdev → Xdev
xdma_user_isr_register mask handler x = register_loop handler x.user_max 0 mask x

-- `xdma_user_isr_enable`
unfoldable pub xdma_user_isr_enable : DevHost → ℕ → Xdev → Xdev
xdma_user_isr_enable h mask x =
    let x' = record x { mask_irq_user = bit_or x.mask_irq_user mask } in
    (read_interrupts h (user_interrupts_enable x' mask)).1

-- `xdma_user_isr_disable`
unfoldable pub xdma_user_isr_disable : DevHost → ℕ → Xdev → Xdev
xdma_user_isr_disable h mask x =
    let x' = record x { mask_irq_user = bit_and x.mask_irq_user (not32 mask) } in
    (read_interrupts h (user_interrupts_disable x' mask)).1

register_loop-each :
    (handler : Bool) (n i w : ℕ) (test : ℕ → Bool) (x : Xdev)
    → i + n < 32
    → Left w test 0 i (i + n)
    → register_loop handler n i w x ≡ each n i test (set_handler handler) x
unfolding register_loop each
register_loop-each handler zero i w test x few h = refl
register_loop-each handler (suc n) i w test x few h = elim (Bool-cases (w == 0)) [
  | inl z ↦ rw z (
      sym (each-none (suc n) i test (set_handler handler) x (Left-zero w test 0 i (i + suc n) z h)))
  | inr more ↦
      let hit = has (2 ^ i) w in
      let up : 0 + i ≡ i = omega arith in
      let same : hit ≡ test i =
        pow-has i w ∙ ap (λ k. bit k w) (sym up) ∙ h i (omega arith) (omega arith) in
      let step = Left-step w test 0 i (i + 1 + n) hit (omega arith) (Left-next w test 0 i n h) in
      let left : Left (if hit then bit_and w (not32 (2 ^ i)) else w) test 0 (i + 1) (i + 1 + n) =
        rw up at step in
      rw (more, ← same)
        (register_loop-each handler n (i + 1) (if hit then bit_and w (not32 (2 ^ i)) else w) test
          (if hit then set_handler handler i x else x) (omega arith) left)
]

-- With 31 user interrupts at most, the handlers that are set are those of the interrupts in the mask.
register-each :
    (mask : ℕ) (handler : Bool) (x : Xdev)
    → x.user_max < 32
    → xdma_user_isr_register mask handler x
      ≡ each x.user_max 0 (λ i. bit i mask) (set_handler handler) x
unfolding xdma_user_isr_register
register-each mask handler x few =
    register_loop-each handler x.user_max 0 mask (λ i. bit i mask) x (omega arith)
      (λ k le lt. ap (λ n. bit n mask) (omega arith))
