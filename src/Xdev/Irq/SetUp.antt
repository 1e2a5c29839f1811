-- ===== src/Xdev/Irq/SetUp.antt =====
-- A device after a successful `irq_setup` under MSI-X.
use xdma_fpga.Base.{
  ℕ, ◌+◌, true, false, not, List, ◌++◌, ◌≡◌, refl, ap, sym, ◌∙◌, subst, arith, Rv, ok, err, if_true,
  if_false,
}
use mathlib.Core.List.{append_assoc}
use xdma_fpga.Hw.{Dir, to_device, from_device}
use xdma_fpga.Xdev.{Xdev, DevHost, SgEngine}
use xdma_fpga.Xdev.Irq.{
  channels, channel_setup_loop, setup_c2h, irq_msix_channel_setup, irq_msix_user_setup,
  program_vectors, setup_users, irq_setup, prog_irq_msix_channel,
}
use xdma_fpga.Xdev.Irq.Lines.{
  Line, requests_in, releases_in, row, channel_line, user_line, SameSize, SameSize-trans, Quiet,
  Quiet-trans, prog_channel-Quiet, prog_user-Quiet,
}
use xdma_fpga.Xdev.Irq.Requested.{Known, ChannelsUp, UsersUp, channel_loop-Up, user_loop-Up, failed}

-- The lines of a device under MSI-X are those of its users, of C2H and of H2C.
abbrev pub msix_lines : DevHost → Xdev → List Line
msix_lines h x =
    row (user_line h (channels x)) x.user_max
    ++ (row (channel_line h from_device (x.channel_max to_device)) (x.channel_max from_device)
        ++ row (channel_line h to_device 0) (x.channel_max to_device))

-- A device whose lines are all requested, and known to its engines.
pub record IsSetUp (h : DevHost) (x y : Xdev) : Type 0 where
  pub requests : requests_in y.log ≡ msix_lines h x ++ requests_in x.log
  pub releases : releases_in y.log ≡ releases_in x.log
  pub h2c : Known h to_device 0 (x.channel_max to_device) y
  pub c2h : Known h from_device (x.channel_max to_device) (x.channel_max from_device) y
  pub size : SameSize x y

pub size-max : {x y : Xdev} (d : Dir) → SameSize x y → y.channel_max d ≡ x.channel_max d
size-max d s = ap (λ (m : Dir → ℕ). m d) s.channel_max

-- Vectors stay known where the engines stay.
pub same-Known :
    (h : DevHost) (d : Dir) (base n : ℕ) (x y : Xdev)
    → y.engines d ≡ x.engines d
    → Known h d base n x
    → Known h d base n y
same-Known h d base n x y e known k lt =
    ap (λ (g : ℕ → SgEngine). (g k).msix_irq_line) e ∙ known k lt

pub user_count :
    (h : DevHost) (x y z : Xdev)
    → SameSize x y
    → SameSize x z
    → row (user_line h (channels y)) (0 + z.user_max) ≡ row (user_line h (channels x)) x.user_max
user_count h x y z s t =
    let n : 0 + z.user_max ≡ x.user_max = omega (arith, t.user_max) in
    let c : channels y ≡ channels x = omega (arith, size-max to_device s, size-max from_device s) in
    rw (n, c) refl

pub regroup :
    (h : DevHost) (x : Xdev) (before : List Line)
    → row (user_line h (channels x)) x.user_max
        ++ (row (channel_line h from_device (x.channel_max to_device)) (x.channel_max from_device)
            ++ (row (channel_line h to_device 0) (x.channel_max to_device) ++ before))
      ≡ msix_lines h x ++ before
regroup h x before = simp append_assoc

-- Success of a step behind another is success of both.
c2h_ok :
    (h : DevHost) (base : ℕ) (o : Rv × Xdev)
    → (setup_c2h h base o).0 ≡ ok
    → (o.0 ≡ ok)
      × (setup_c2h h base o
          ≡ channel_setup_loop h from_device base (o.1.channel_max from_device) 0 o.1)
unfolding setup_c2h
c2h_ok h base (err c, x) e = failed _ refl e
c2h_ok h base (ok, x) e = (refl, refl)

users_ok :
    (h : DevHost) (o : Rv × Xdev)
    → (setup_users h o).0 ≡ ok
    → (o.0 ≡ ok) × (setup_users h o ≡ program_vectors (irq_msix_user_setup h o.1))
unfolding setup_users
users_ok h (err c, x) e = failed _ refl e
users_ok h (ok, x) e = (refl, refl)

program_ok :
    (o : Rv × Xdev) → (program_vectors o).0 ≡ ok → (o.0 ≡ ok) × Quiet o.1 (program_vectors o).1
unfolding program_vectors
program_ok (err c, x) e = failed _ refl e
program_ok (ok, x) e = (
  refl,
  Quiet-trans (prog_channel-Quiet false x) (prog_user-Quiet false (prog_irq_msix_channel false x)),
)

-- A device whose channels have their lines.
record ChannelsSet (h : DevHost) (x y : Xdev) : Type 0 where
  requests :
      requests_in y.log
      ≡ row (channel_line h from_device (x.channel_max to_device)) (x.channel_max from_device)
        ++ (row (channel_line h to_device 0) (x.channel_max to_device) ++ requests_in x.log)
  releases : releases_in y.log ≡ releases_in x.log
  h2c : Known h to_device 0 (x.channel_max to_device) y
  c2h : Known h from_device (x.channel_max to_device) (x.channel_max from_device) y
  size : SameSize x y

h2c-Up :
    (h : DevHost) (x : Xdev)
    → (channel_setup_loop h to_device 0 (x.channel_max to_device) 0 x).0 ≡ ok
    → ChannelsUp h to_device 0
        (x.channel_max to_device)
        (requests_in x.log)
        x
        (channel_setup_loop h to_device 0 (x.channel_max to_device) 0 x).1
h2c-Up h x e =
    let n = x.channel_max to_device in
    let all : 0 + n ≡ n = omega arith in
    subst
      (λ m.
        ChannelsUp h to_device 0 m (requests_in x.log) x (channel_setup_loop h to_device 0 n 0 x).1)
      all
      (channel_loop-Up h to_device 0 n 0 (requests_in x.log) x refl (λ k lt. absurd (omega arith))
        e)

c2h-Up :
    (h : DevHost) (base : ℕ) (x : Xdev)
    → (channel_setup_loop h from_device base (x.channel_max from_device) 0 x).0 ≡ ok
    → ChannelsUp h from_device base
        (x.channel_max from_device)
        (requests_in x.log)
        x
        (channel_setup_loop h from_device base (x.channel_max from_device) 0 x).1
c2h-Up h base x e =
    let n = x.channel_max from_device in
    let all : 0 + n ≡ n = omega arith in
    subst
      (λ m.
        ChannelsUp h from_device base m (requests_in x.log) x
          (channel_setup_loop h from_device base n 0 x).1)
      all
      (channel_loop-Up h from_device base n 0 (requests_in x.log) x refl
        (λ k lt. absurd (omega arith)) e)

-- Both loops of the set-up, one behind the other.
loops-ChannelsSet :
    (h : DevHost) (x y z : Xdev)
    → ChannelsUp h to_device 0 (x.channel_max to_device) (requests_in x.log) x y
    → ChannelsUp h from_device
        (x.channel_max to_device)
        (x.channel_max from_device)
        (requests_in y.log)
        y
        z
    → ChannelsSet h x z
loops-ChannelsSet h x y z a b = record {
  requests =
      b.requests
      ∙ ap
          (λ l.
            row (channel_line h from_device (x.channel_max to_device)) (x.channel_max from_device)
            ++ l)
          a.requests;
  releases = b.releases ∙ a.releases;
  h2c = same-Known h to_device 0 (x.channel_max to_device) y z b.other_engines a.known;
  c2h = b.known;
  size = SameSize-trans a.size b.size;
}

on_msix :
    (h : DevHost) (x : Xdev)
    → x.msix_enabled ≡ true
    → irq_msix_channel_setup h x
      ≡ setup_c2h h
          (x.channel_max to_device)
          (channel_setup_loop h to_device 0 (x.channel_max to_device) 0 x)
unfolding irq_msix_channel_setup
on_msix h x m = if_false (not x.msix_enabled) _ _ (ground arith)

channels-Set :
    (h : DevHost) (x : Xdev)
    → x.msix_enabled ≡ true
    → (irq_msix_channel_setup h x).0 ≡ ok
    → ChannelsSet h x (irq_msix_channel_setup h x).1
channels-Set h x m e =
    let n = x.channel_max to_device in
    let o = channel_setup_loop h to_device 0 n 0 x in
    let p = on_msix h x m in
    let e' = subst (λ (q : Rv × Xdev). q.0 ≡ ok) p e in
    let (first, s) = c2h_ok h n o e' in
    let a = h2c-Up h x first in
    let b = c2h-Up h n o.1 (subst (λ (q : Rv × Xdev). q.0 ≡ ok) s e') in
    let z = (channel_setup_loop h from_device n (o.1.channel_max from_device) 0 o.1).1 in
    subst (λ (q : Rv × Xdev). ChannelsSet h x q.1) (sym (p ∙ s))
      (loops-ChannelsSet h x o.1 z a (
        subst (λ k. ChannelsUp h from_device n k (requests_in o.1.log) o.1 z)
          (size-max from_device a.size) b))

-- The lines of the user interrupts on top of those of the channels.
writes-IsSetUp : (h : DevHost) (x y z : Xdev) → Quiet y z → IsSetUp h x y → IsSetUp h x z
writes-IsSetUp h x y z q u = record {
  requests = q.requests ∙ u.requests;
  releases = q.releases ∙ u.releases;
  h2c =
      same-Known h to_device 0 (x.channel_max to_device) y z
        (ap (λ (g : Dir → ℕ → SgEngine). g to_device) q.engines) u.h2c;
  c2h =
      same-Known h from_device (x.channel_max to_device) (x.channel_max from_device) y z
        (ap (λ (g : Dir → ℕ → SgEngine). g from_device) q.engines) u.c2h;
  size = SameSize-trans u.size q.size;
}

users_up :
    (h : DevHost) (y : Xdev)
    → (irq_msix_user_setup h y).0 ≡ ok
    → UsersUp h (channels y) (0 + y.user_max) (requests_in y.log) y (irq_msix_user_setup h y).1
unfolding irq_msix_user_setup
users_up h y e = user_loop-Up h (channels y) y.user_max 0 (requests_in y.log) y refl e

users-IsSetUp :
    (h : DevHost) (x y z : Xdev)
    → ChannelsSet h x y
    → UsersUp h (channels y) (0 + y.user_max) (requests_in y.log) y z
    → IsSetUp h x z
users-IsSetUp h x y z c u = record {
  requests =
      u.requests
      ∙ rw (user_count h x y y c.size c.size) (
          ap (λ l. row (user_line h (channels x)) x.user_max ++ l) c.requests
          ∙ regroup h x (requests_in x.log));
  releases = u.releases ∙ c.releases;
  h2c =
      same-Known h to_device 0 (x.channel_max to_device) y z
        (ap (λ (g : Dir → ℕ → SgEngine). g to_device) u.engines) c.h2c;
  c2h =
      same-Known h from_device (x.channel_max to_device) (x.channel_max from_device) y z
        (ap (λ (g : Dir → ℕ → SgEngine). g from_device) u.engines) c.c2h;
  size = SameSize-trans c.size u.size;
}

pub setup-IsSetUp :
    (h : DevHost) (x : Xdev)
    → x.msix_enabled ≡ true
    → (irq_setup h x).0 ≡ ok
    → IsSetUp h x (irq_setup h x).1
unfolding irq_setup
setup-IsSetUp h x m e =
    let o = irq_msix_channel_setup h x in
    let p : irq_setup h x ≡ setup_users h o = if_true x.msix_enabled _ _ m in
    let e1 = subst (λ (q : Rv × Xdev). q.0 ≡ ok) p e in
    let (first, s) = users_ok h o e1 in
    let w = irq_msix_user_setup h o.1 in
    let (second, quiet) = program_ok w (subst (λ (q : Rv × Xdev). q.0 ≡ ok) s e1) in
    let c = channels-Set h x m first in
    let u = users-IsSetUp h x o.1 w.1 c (users_up h o.1 second) in
    subst (λ (q : Rv × Xdev). IsSetUp h x q.1) (sym (p ∙ s))
      (writes-IsSetUp h x w.1 (program_vectors w).1 quiet u)
