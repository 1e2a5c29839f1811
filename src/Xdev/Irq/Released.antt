-- ===== src/Xdev/Irq/Released.antt =====
-- The lines that `irq_teardown` releases under MSI-X.
use xdma_fpga.Base.{
  ℕ, zero, suc, ◌+◌, ◌==◌, true, false, not, List, ◌∷◌, ◌++◌, ◌≡◌, refl, ap, sym, ◌∙◌, subst, arith,
  if_true, if_false,
}
use xdma_fpga.Hw.{Dir, to_device, from_device}
use xdma_fpga.Xdev.{Xdev, DevHost, SgEngine, Owner, channel, user, note, released}
use xdma_fpga.Xdev.Irq.{
  channels, channel_teardown_loop, user_teardown_loop, irq_msix_channel_teardown,
  irq_msix_user_teardown, irq_teardown, prog_irq_msix_channel, prog_irq_msix_user,
}
use xdma_fpga.Xdev.Irq.Lines.{
  Line, requests_in, releases_in, row, channel_line, user_line, SameSize, SameSize-trans,
  SameSize-refl, prog_channel-Quiet, prog_user-Quiet,
}
use xdma_fpga.Xdev.Irq.Requested.{Known}
use xdma_fpga.Xdev.Irq.SetUp.{msix_lines, IsSetUp, size-max, same-Known, user_count, regroup}

-- What a loop of the tear-down has done at its end.
record Down (f : ℕ → Line) (n : ℕ) (before : List Line) (x y : Xdev) : Type 0 where
  requests : requests_in y.log ≡ requests_in x.log
  releases : releases_in y.log ≡ row f n ++ before
  engines : y.engines ≡ x.engines
  size : SameSize x y

-- One release more.
free-Down :
    (f : ℕ → Line) (v n : ℕ) (o : Owner) (before : List Line) (x y : Xdev)
    → Down f n before (note x (released v o)) y
    → Down f n before x y
free-Down f v n o before x y d = record {
  requests = d.requests;
  releases = d.releases;
  engines = d.engines;
  size = record {
    channel_max = d.size.channel_max;
    user_max = d.size.user_max;
    msix_enabled = d.size.msix_enabled;
  };
}

stay-Down :
    (f : ℕ → Line) (i : ℕ) (before : List Line) (x : Xdev)
    → releases_in x.log ≡ row f i ++ before
    → Down f (i + 0) before x x
stay-Down f i before x r =
    let stay : i ≡ i + 0 = omega arith in
    rw (← stay) (record { requests = refl; releases = r; engines = refl; size = SameSize-refl x })

user_loop-Down :
    (h : DevHost) (base n i : ℕ) (before : List Line) (x : Xdev)
    → releases_in x.log ≡ row (user_line h base) i ++ before
    → Down (user_line h base) (i + n) before x (user_teardown_loop h base n i x)
unfolding user_teardown_loop
user_loop-Down h base zero i before x r = stay-Down (user_line h base) i before x r
user_loop-Down h base (suc n) i before x r =
    let v = h.irq_vector (base + i) in
    let y = note x (released v (user i)) in
    let up : i + 1 ≡ suc i = omega arith in
    let on : i + 1 + n ≡ i + suc n = omega arith in
    let r' : releases_in y.log ≡ row (user_line h base) (i + 1) ++ before =
      rw up (ap (◌∷◌ (v, user i)) r) in
    rw (← on) (
      free-Down (user_line h base) v (i + 1 + n) (user i) before x
        (user_teardown_loop h base n (i + 1) y) (user_loop-Down h base n (i + 1) before y r'))

channel_loop-Down :
    (h : DevHost) (d : Dir) (base n i : ℕ) (before : List Line) (x : Xdev)
    → ((k : ℕ) → (h.irq_vector k == 0) ≡ false)
    → Known h d base (i + n) x
    → releases_in x.log ≡ row (channel_line h d base) i ++ before
    → Down (channel_line h d base) (i + n) before x (channel_teardown_loop d n i x)
unfolding channel_teardown_loop
channel_loop-Down h d base zero i before x some_line known r =
    stay-Down (channel_line h d base) i before x r
channel_loop-Down h d base (suc n) i before x some_line known r =
    let v = h.irq_vector (base + i) in
    let line : (x.engines d i).msix_irq_line ≡ v = known i (omega arith) in
    let y = note x (released v (channel d i)) in
    let up : i + 1 ≡ suc i = omega arith in
    let on : i + 1 + n ≡ i + suc n = omega arith in
    let r' : releases_in y.log ≡ row (channel_line h d base) (i + 1) ++ before =
      rw up (ap (◌∷◌ (v, channel d i)) r) in
    rw (line, some_line (base + i), ← on)
      (free-Down (channel_line h d base) v (i + 1 + n) (channel d i) before x
        (channel_teardown_loop d n (i + 1) y)
        (channel_loop-Down h d base n (i + 1) before y some_line (λ k lt. known k (omega arith))
          r'))

-- A device that is taken down as far as its channels.
record ChannelsFreed (h : DevHost) (x y z : Xdev) : Type 0 where
  requests : requests_in z.log ≡ requests_in y.log
  releases :
      releases_in z.log
      ≡ row (channel_line h from_device (x.channel_max to_device)) (x.channel_max from_device)
        ++ (row (channel_line h to_device 0) (x.channel_max to_device) ++ releases_in y.log)
  size : SameSize x z

-- A loop of the tear-down over all channels of a direction, from its start.
dir-Down :
    (h : DevHost) (d : Dir) (base n : ℕ) (x : Xdev)
    → ((k : ℕ) → (h.irq_vector k == 0) ≡ false)
    → x.channel_max d ≡ n
    → Known h d base n x
    → Down
        (channel_line h d base)
        n
        (releases_in x.log)
        x
        (channel_teardown_loop d (x.channel_max d) 0 x)
dir-Down h d base n x some_line max known =
    let all : 0 + x.channel_max d ≡ n = omega arith in
    let z = channel_teardown_loop d (x.channel_max d) 0 x in
    subst (λ m. Down (channel_line h d base) m (releases_in x.log) x z) all
      (channel_loop-Down h d base (x.channel_max d) 0 (releases_in x.log) x some_line
        (λ k lt. known k (omega arith)) refl)

module _ (h : DevHost) (x y : Xdev) (some_line : (k : ℕ) → (h.irq_vector k == 0) ≡ false)
    (m : x.msix_enabled ≡ true) (u : IsSetUp h x y) where
  channels_freed : ChannelsFreed h x y (irq_msix_channel_teardown y)
  unfolding irq_msix_channel_teardown
  channels_freed =
      let q = prog_channel-Quiet true y in
      let x1 = prog_irq_msix_channel true y in
      let s1 = SameSize-trans u.size q.size in
      let k1 =
        same-Known h to_device 0 (x.channel_max to_device) y x1
          (ap (λ (g : Dir → ℕ → SgEngine). g to_device) q.engines) u.h2c in
      let a =
        dir-Down h to_device 0 (x.channel_max to_device) x1 some_line (size-max to_device s1) k1 in
      let x2 = channel_teardown_loop to_device (x1.channel_max to_device) 0 x1 in
      let s2 = SameSize-trans s1 a.size in
      let k2 =
        same-Known h from_device (x.channel_max to_device) (x.channel_max from_device) y x2
          (ap (λ (g : Dir → ℕ → SgEngine). g from_device) (a.engines ∙ q.engines)) u.c2h in
      let b =
        dir-Down h from_device (x.channel_max to_device) (x.channel_max from_device) x2 some_line
          (size-max from_device s2) k2 in
      let x3 = channel_teardown_loop from_device (x2.channel_max from_device) 0 x2 in
      let on : not y.msix_enabled ≡ false = ap not (u.size.msix_enabled ∙ m) in
      subst (ChannelsFreed h x y) (sym (if_false (not y.msix_enabled) y x3 on)) (record {
        requests = b.requests ∙ a.requests ∙ q.requests;
        releases =
            b.releases
            ∙ ap
                (λ l.
                  row (channel_line h from_device (x.channel_max to_device))
                    (x.channel_max from_device)
                  ++ l)
                (a.releases
                  ∙ ap (λ l. row (channel_line h to_device 0) (x.channel_max to_device) ++ l)
                      q.releases);
        size = SameSize-trans s2 b.size;
      })

  -- All lines are released.
  pub all_freed :
      let z = irq_teardown h y in
      (requests_in z.log ≡ requests_in y.log)
      × (releases_in z.log ≡ msix_lines h x ++ releases_in y.log)
  unfolding irq_teardown irq_msix_user_teardown
  all_freed =
      let w = irq_msix_channel_teardown y in
      let c = channels_freed in
      let q = prog_user-Quiet true w in
      let x1 = prog_irq_msix_user true w in
      let s = SameSize-trans c.size q.size in
      let d = user_loop-Down h (channels w) x1.user_max 0 (releases_in x1.log) x1 refl in
      let x2 = user_teardown_loop h (channels w) x1.user_max 0 x1 in
      let on : y.msix_enabled ≡ true = u.size.msix_enabled ∙ m in
      let still : not w.msix_enabled ≡ false = ap not (c.size.msix_enabled ∙ m) in
      let p : irq_teardown h y ≡ irq_msix_user_teardown h w = if_true y.msix_enabled _ _ on in
      let r : irq_msix_user_teardown h w ≡ x2 = if_false (not w.msix_enabled) w x2 still in
      subst
        (λ (z : Xdev).
          (requests_in z.log ≡ requests_in y.log)
          × (releases_in z.log ≡ msix_lines h x ++ releases_in y.log))
        (sym (p ∙ r))
        (
          d.requests ∙ q.requests ∙ c.requests,
          d.releases
              ∙ rw (user_count h x w x1 c.size s) (
                  ap (λ l. row (user_line h (channels x)) x.user_max ++ l) (q.releases ∙ c.releases)
                  ∙ regroup h x (releases_in y.log)),
        )
