-- ===== src/Xdev/Open/Ready.antt =====
-- A device that `xdma_device_open` opens is ready for its interrupts; one that it fails to open has no BAR mapped.
use xdma_fpga.Base.{
  ℕ, ◌+◌, ◌≤◌, ◌<◌, Bool, true, false, not, ◌||◌, ◌≡◌, ◌⊎◌, inl, inr, refl, ap, ◌∙◌, arith, Rv, ok,
  err, is_err, if_both, bit,
}
use xdma_fpga.Hw.{Dir, to_device, from_device}
use xdma_fpga.Xdev.{Xdev, DevHost}
use xdma_fpga.Xdev.Bars.{map_bars, unmap_bars, xdma_bar_num}
use xdma_fpga.Xdev.Bars.Roles.{Mapped, map_bars-Mapped, unmap_all}
use xdma_fpga.Xdev.Probe.{probe_engines}
use xdma_fpga.Xdev.Probe.Scan.{AllFound, probe_engines-AllFound, probe_engines-user_max}
use xdma_fpga.Xdev.Irq.{irq_setup}
use xdma_fpga.Xdev.Isr.{xdma_isr, isr_by_bits}
use xdma_fpga.Xdev.Isr.Dispatch.{xdma_isr-eq-isr_by_bits}
use xdma_fpga.Xdev.Open.{
  PciHost, count_of, new_device, enable_msi_msix, quieten, open_irq, open_msi, open_mapped,
  xdma_device_open, xdma_device_close, max_user_irq, xdma_channel_num_max,
}
use xdma_fpga.Xdev.Open.Kept.{Counts, map_bars-Counts, Marks, Marks-same, irq_setup-Marks}

-- No BAR is mapped.
abbrev pub NoBars : Xdev → Type 0
NoBars x = (j : ℕ) → j < xdma_bar_num → x.bar j ≡ 0

-- All engines of the device are found, and its interrupts are within their words.
record IsReady (x : Xdev) : Type 0 where
  place : ℕ
  users : x.user_max < 32
  h2c : x.channel_max to_device ≤ 32
  c2h : place + x.channel_max from_device ≤ 32
  low : x.channel_max to_device ≤ place
  high : place ≤ x.channel_max to_device + 1
  all_h2c : AllFound x to_device 0 (x.channel_max to_device)
  all_c2h : AllFound x from_device place (x.channel_max from_device)

-- What `xdma_device_open` promises.
abbrev pub Opened : DevHost → Bool × Xdev → Type 0
Opened h o =
    ((o.0 ≡ false) × NoBars o.1)
    ⊎ ((o.0 ≡ true)
        × (o.1.offline ≡ false)
        × (place : ℕ) × (o.1.channel_max to_device ≤ place)
        × (place ≤ o.1.channel_max to_device + 1)
        × AllFound o.1 to_device 0 (o.1.channel_max to_device)
        × AllFound o.1 from_device place (o.1.channel_max from_device)
        × (xdma_isr h o.1 ≡ isr_by_bits h place o.1))

unmap-NoBars : (x : Xdev) → NoBars (unmap_bars x)
unfolding unmap_bars
unmap-NoBars x j lt = unmap_all 6 0 x (λ k l. absurd (omega arith)) j lt

Marks-AllFound :
    {x y : Xdev} (d : Dir) (place : ℕ)
    → Marks x y
    → AllFound x d place (x.channel_max d)
    → AllFound y d place (y.channel_max d)
Marks-AllFound d place k all i lt =
    let f = all i (omega (arith, ap (λ (m : Dir → ℕ). m d) k.channel_max)) in
    record {
      magic = k.magic d i ∙ f.magic;
      bitmask = k.irq_bitmask d i ∙ f.bitmask;
      masked = ap (λ (m : Dir → ℕ). bit (place + i) (m d)) k.mask_irq ∙ f.masked;
    }

Marks-IsReady : {x y : Xdev} → Marks x y → IsReady x → IsReady y
Marks-IsReady k r = record {
  place = r.place;
  users = omega (arith, r.users, k.user_max);
  h2c = omega (arith, r.h2c, ap (λ (m : Dir → ℕ). m to_device) k.channel_max);
  c2h = omega (arith, r.c2h, ap (λ (m : Dir → ℕ). m from_device) k.channel_max);
  low = omega (arith, r.low, ap (λ (m : Dir → ℕ). m to_device) k.channel_max);
  high = omega (arith, r.high, ap (λ (m : Dir → ℕ). m to_device) k.channel_max);
  all_h2c = Marks-AllFound to_device 0 k r.all_h2c;
  all_c2h = Marks-AllFound from_device r.place k r.all_c2h;
}

irq-Opened : (h : DevHost) (o : Rv × Xdev) → IsReady o.1 → Opened h (open_irq h o)
unfolding open_irq
irq-Opened h (err c, x) r = inl (refl, unmap-NoBars _)
irq-Opened h (ok, x) r =
    let y = (open_irq h (ok, x)).1 in
    let k : Marks x y =
      Marks-same {x = x} {y = y} (ground arith) (ground arith) (ground arith) (ground arith) in
    let s = Marks-IsReady k r in
    inr (
      refl,
      refl,
      s.place,
      s.low,
      s.high,
      s.all_h2c,
      s.all_c2h,
      xdma_isr-eq-isr_by_bits h y s.place s.users s.h2c s.c2h s.all_h2c s.all_c2h,
    )

msi-Opened : (h : DevHost) (o : Rv × Xdev) → IsReady o.1 → Opened h (open_msi h o)
unfolding open_msi
msi-Opened h (err c, x) r = inl (refl, unmap-NoBars _)
msi-Opened h (ok, x) r = irq-Opened h (irq_setup h x) (Marks-IsReady (irq_setup-Marks h x) r)

msix-Marks : (p : PciHost) (x : Xdev) → Marks x (enable_msi_msix p x).1
unfolding enable_msi_msix
msix-Marks p x = Marks-same (ground arith) (ground arith) (ground arith) (ground arith)

quieten-Counts : (h : DevHost) (x : Xdev) → Counts x (quieten h x)
unfolding quieten
quieten-Counts h x = record { engines_num = refl; channel_max = refl; user_max = refl }

-- A device with no engine yet, and counts that the hardware can have.
record IsNew (x : Xdev) : Type 0 where
  engines_num : x.engines_num ≡ 0
  users : x.user_max ≤ 16
  h2c : x.channel_max to_device ≤ 4
  c2h : x.channel_max from_device ≤ 4

Counts-IsNew : {x y : Xdev} → Counts x y → IsNew x → IsNew y
Counts-IsNew c n = record {
  engines_num = c.engines_num ∙ n.engines_num;
  users = omega (arith, n.users, c.user_max);
  h2c = omega (arith, n.h2c, ap (λ (m : Dir → ℕ). m to_device) c.channel_max);
  c2h = omega (arith, n.c2h, ap (λ (m : Dir → ℕ). m from_device) c.channel_max);
}

probe-IsReady : (h : DevHost) (x : Xdev) → IsNew x → IsReady (probe_engines h x)
probe-IsReady h x n =
    let few : x.channel_max to_device + x.channel_max from_device < 32 =
      omega (arith, n.h2c, n.c2h) in
    let (to, from, all_h2c, place, lo, hi, all_c2h, _, _) =
      probe_engines-AllFound h x n.engines_num few in
    record {
      place = place;
      users = omega (arith, n.users, probe_engines-user_max h x n.engines_num few);
      h2c = omega (arith, n.h2c);
      c2h = omega (arith, n.h2c, n.c2h);
      low = lo;
      high = hi;
      all_h2c = all_h2c;
      all_c2h = all_c2h;
    }

mapped-Opened :
    (h : DevHost) (p : PciHost) (o : Rv × Xdev)
    → Mapped o
    → IsNew o.1
    → Opened h (open_mapped h p o)
unfolding open_mapped
mapped-Opened h p (err c, x) m n = inl (refl, m)
mapped-Opened h p (ok, x) m n =
    let y = probe_engines h (quieten h x) in
    if_both (Opened h) (is_err p.set_dma_mask) (inl (refl, unmap-NoBars x)) (
      msi-Opened h (enable_msi_msix p y) (
        Marks-IsReady (msix-Marks p y)
          (probe-IsReady h (quieten h x) (Counts-IsNew (quieten-Counts h x) n))))

count_of-le : (asked most : ℕ) → count_of asked most ≤ most
count_of-le asked most = ground arith

new_device-IsNew : (users h2c c2h : ℕ) → IsNew (new_device users h2c c2h)
unfolding new_device
new_device-IsNew users h2c c2h = record {
  engines_num = refl;
  users = count_of-le users max_user_irq;
  h2c = count_of-le h2c xdma_channel_num_max;
  c2h = count_of-le c2h xdma_channel_num_max;
}

new_device-NoBars : (users h2c c2h : ℕ) → NoBars (new_device users h2c c2h)
unfolding new_device
new_device-NoBars users h2c c2h j lt = refl

map_bars-new_device :
    (h : DevHost) (users h2c c2h : ℕ) → Mapped (map_bars h (new_device users h2c c2h))
unfolding new_device
map_bars-new_device h users h2c c2h = map_bars-Mapped h (new_device users h2c c2h) refl refl refl

-- Whatever counts are asked for, and whatever the device, the kernel and the PCI core answer, `xdma_device_open`
-- either fails, and leaves no BAR of the device mapped; or it succeeds, and the device is not offline. Then the
-- bits of the H2C engines are 0 and up, those of the C2H engines follow them, with a gap of one bit at most, and all
-- are in the masks; and `xdma_isr` does just what the plain handler does with the C2H bits at that place: it serves
-- exactly the user interrupts and engines whose bits are requested.
pub xdma_device_open-Opened :
    (h : DevHost) (p : PciHost) (users h2c c2h : ℕ) → Opened h (xdma_device_open h p users h2c c2h)
unfolding xdma_device_open
xdma_device_open-Opened h p users h2c c2h =
    let x = new_device users h2c c2h in
    if_both (Opened h)
      (not p.memory || is_err p.list_add || is_err p.enable_device || is_err p.request_regions)
      (inl (refl, new_device-NoBars users h2c c2h))
      (mapped-Opened h p (map_bars h x) (map_bars-new_device h users h2c c2h)
        (Counts-IsNew (map_bars-Counts h x) (new_device-IsNew users h2c c2h)))

-- A device that is closed has no BAR mapped.
close-NoBars : (h : DevHost) (x : Xdev) → NoBars (xdma_device_close h x)
unfolding xdma_device_close
close-NoBars h x = unmap-NoBars _
