-- ===== src/Xdev/Isr.antt =====
-- xdma/libxdma.c, the interrupt handlers: `user_irq_service`, `xdma_isr`, `xdma_user_irq` and
-- `xdma_channel_irq`, and what `engine_service_work` does to the device once its engine is served.
pub mod Dispatch
use xdma_fpga.Base.{
  ℕ, zero, suc, ◌+◌, ◌-◌, ◌*◌, ◌%◌, ◌^◌, bit, bit_and, not32, has, Bool, true, false, ◌&&◌, not,
  ◌==◌, ◌∷◌, Rv, is_err, if◌then◌else◌,
}
use xdma_fpga.Hw.{Dir, to_device, from_device}
use xdma_fpga.Engine.{Engine, Host}
use xdma_fpga.Engine.Service.{engine_service}
use xdma_fpga.Xdev.{
  Xdev, DevHost, SgEngine, DevEvent, UserIrq, put, note, dev_read, dev_write, int_reg,
  called_handler, woke_events, scheduled, channel_interrupts_disable, channel_interrupts_enable,
}
use xdma_fpga.Xdev.Offset

-- `user_irq_service` of a user interrupt.
unfoldable pub user_irq_service : ℕ → Xdev → Xdev
user_irq_service i x =
    if (x.user_irq i).handler
    then note x (called_handler i)
    else if not (x.user_irq i).events_irq
    then record x {
      user_irq = put x.user_irq i (record (x.user_irq i) { events_irq = true });
      log = woke_events i ∷ x.log;
    }
    else x

-- The loop over user interrupts, with the rounds that are left, the `mask` of its next and the requests that it
-- has not served.
unfoldable pub user_loop : ℕ → ℕ → ℕ → ℕ → Xdev → Xdev
user_loop zero user mask user_irq x = x
user_loop (suc n) user mask user_irq x =
    let hit = has user_irq mask in
    let left = if hit then bit_and user_irq (not32 mask) else user_irq in
    let x' = if hit then user_irq_service user x else x in
    let rest = user_loop n (user + 1) (mask * 2 % 2 ^ 32) left x' in
    if user_irq == 0 then x else rest

-- The loop over the channels of a direction, with the rounds that are left.
unfoldable pub channel_loop : Dir → ℕ → ℕ → ℕ → Xdev → Xdev
channel_loop d zero channel mask x = x
channel_loop d (suc n) channel mask x =
    let e = x.engines d channel in
    let hit = has e.irq_bitmask mask && e.magic in
    let left = if hit then bit_and mask (not32 e.irq_bitmask) else mask in
    let x' = if hit then note x (scheduled d channel) else x in
    let rest = channel_loop d n (channel + 1) left x' in if mask == 0 then x else rest

-- The channels of a direction, for the requests of all channels.
unfoldable pub schedule_dir : Dir → ℕ → Xdev → Xdev
unfolding channel_loop
schedule_dir d ch_irq x = channel_loop d (x.channel_max d) 0 (bit_and ch_irq (x.mask_irq d)) x

-- `xdma_isr`
unfoldable pub xdma_isr : DevHost → Xdev → Xdev
xdma_isr h x =
    let (ch_irq, x1) = dev_read h x (int_reg x Offset.channel_int_request) in
    let x2 = if ch_irq == 0 then x1 else channel_interrupts_disable x1 ch_irq in
    let (user_irq, x3) = dev_read h x2 (int_reg x2 Offset.user_int_request) in
    let x4 = user_loop x3.user_max 0 1 user_irq x3 in
    let x5 = schedule_dir from_device ch_irq (schedule_dir to_device ch_irq x4) in
    record x5 { irq_count = x5.irq_count + 1 }

-- `xdma_user_irq`
unfoldable pub xdma_user_irq : ℕ → Xdev → Xdev
unfolding user_irq_service
xdma_user_irq i x = user_irq_service i x

-- `xdma_channel_irq` of an engine. The read only flushes the write.
unfoldable pub xdma_channel_irq : DevHost → Dir → ℕ → Xdev → Xdev
xdma_channel_irq h d i x =
    let e = x.engines d i in
    let x1 =
      dev_write x e.interrupt_enable_mask_value (e.regs + Offset.interrupt_enable_mask_w1c) in
    let x2 = note (dev_read h x1 (int_reg x1 Offset.channel_int_pending)).1 (scheduled d i) in
    record x2 { irq_count = x2.irq_count + 1 }

-- The interrupts of an engine are enabled again.
unfoldable pub reenable : Dir → ℕ → Xdev → Xdev
reenable d i x =
    let e = x.engines d i in
    if x.msix_enabled
    then dev_write x e.interrupt_enable_mask_value (e.regs + Offset.interrupt_enable_mask_w1s)
    else channel_interrupts_enable x e.irq_bitmask

-- `engine_service_work` of the engine of a direction and an index, whose queue and flags are `m`.
unfoldable pub engine_service_work : Host → Dir → ℕ → Xdev → Engine → Xdev × Engine
unfolding reenable
engine_service_work h d i x m =
    let (rv, m') = engine_service h m 0 in
    if not (x.engines d i).magic
    then (x, m)
    else if is_err rv
    then (x, m')
    else (reenable d i x, m')

-- A step for each of a row of indices that passes a test, in order.
unfoldable pub each : ℕ → ℕ → (ℕ → Bool) → (ℕ → Xdev → Xdev) → Xdev → Xdev
each zero i test act x = x
each (suc n) i test act x = each n (i + 1) test act (if test i then act i x else x)

-- What the handler is for, in terms of bits: the channels' requests are read and switched off; each user
-- interrupt is served whose bit is set, and each engine of either direction whose bit is set (from `place` on for
-- C2H) has its work scheduled.
unfoldable pub isr_by_bits : DevHost → ℕ → Xdev → Xdev
isr_by_bits h place x =
    let (ch_irq, x1) = dev_read h x (int_reg x Offset.channel_int_request) in
    let x2 = if ch_irq == 0 then x1 else channel_interrupts_disable x1 ch_irq in
    let (user_irq, x3) = dev_read h x2 (int_reg x2 Offset.user_int_request) in
    let x4 = each x3.user_max 0 (λ i. bit i user_irq) user_irq_service x3 in
    let x5 =
      each (x4.channel_max to_device) 0 (λ i. bit i ch_irq) (λ i y. note y (scheduled to_device i))
        x4 in
    let x6 =
      each (x5.channel_max from_device) 0 (λ i. bit (place + i) ch_irq)
        (λ i y. note y (scheduled from_device i)) x5 in
    record x6 { irq_count = x6.irq_count + 1 }
