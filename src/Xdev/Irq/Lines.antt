-- ===== src/Xdev/Irq/Lines.antt =====
-- The interrupt lines that set-up requests and tear-down releases, read off the log.

use xdma_fpga.Base.{
  ℕ, zero, suc, ◌+◌, Bool, List, [], ◌∷◌, ◌++◌, ◌≡◌, refl, ◌∙◌, if◌then◌else◌, ltb, if_both, ◌*◌,
}
use xdma_fpga.Hw.{Dir, to_device, from_device}
use xdma_fpga.Xdev.{
  Xdev, DevHost, DevEvent, Owner, device, user, channel, requested, released, dev_write, int_reg,
}
use xdma_fpga.Xdev.Irq.{prog_loop, vector_word, channels, prog_irq_msix_channel, prog_irq_msix_user}

-- A line and whom it calls.
abbrev pub Line : Type 0
Line = ℕ × Owner

-- The requests that succeeded, and the releases, of a log.
abbrev pub requests_in : List DevEvent → List Line
requests_in [] = []
requests_in (requested v o ∷ l) = (v, o) ∷ requests_in l
requests_in (ev ∷ l) = requests_in l

abbrev pub releases_in : List DevEvent → List Line
releases_in [] = []
releases_in (released v o ∷ l) = (v, o) ∷ releases_in l
releases_in (ev ∷ l) = releases_in l

-- The first lines of a row, the last first.
abbrev pub row : (ℕ → Line) → ℕ → List Line
row f zero = []
row f (suc i) = f i ∷ row f i

-- The lines of the channels of a direction, and of the user interrupts, from a vector on.
abbrev pub channel_line : DevHost → Dir → ℕ → ℕ → Line
channel_line h d base i = (h.irq_vector (base + i), channel d i)

abbrev pub user_line : DevHost → ℕ → ℕ → Line
user_line h base i = (h.irq_vector (base + i), user i)

-- All lines of the device, the last requested first: under MSI-X one for each user interrupt and each channel, else
-- a single one.
abbrev pub irq_lines : DevHost → Xdev → List Line
irq_lines h x =
    if x.msix_enabled
    then row (user_line h (channels x)) x.user_max
      ++ (row (channel_line h from_device (x.channel_max to_device)) (x.channel_max from_device)
          ++ row (channel_line h to_device 0) (x.channel_max to_device))
    else (h.irq, device) ∷ []

-- What no operation on lines changes.
pub record SameSize (x y : Xdev) : Type 0 where
  pub channel_max : y.channel_max ≡ x.channel_max
  pub user_max : y.user_max ≡ x.user_max
  pub msix_enabled : y.msix_enabled ≡ x.msix_enabled

-- Neither a request nor a release, nor a change of an engine.
pub record Quiet (x y : Xdev) : Type 0 where
  pub requests : requests_in y.log ≡ requests_in x.log
  pub releases : releases_in y.log ≡ releases_in x.log
  pub engines : y.engines ≡ x.engines
  pub size : SameSize x y

pub SameSize-trans : {x y z : Xdev} → SameSize x y → SameSize y z → SameSize x z
SameSize-trans p q = record {
  channel_max = q.channel_max ∙ p.channel_max;
  user_max = q.user_max ∙ p.user_max;
  msix_enabled = q.msix_enabled ∙ p.msix_enabled;
}

pub SameSize-refl : (x : Xdev) → SameSize x x
SameSize-refl x = record { channel_max = refl; user_max = refl; msix_enabled = refl }

pub Quiet-refl : (x : Xdev) → Quiet x x
Quiet-refl x = record { requests = refl; releases = refl; engines = refl; size = SameSize-refl x }

pub Quiet-trans : {x y z : Xdev} → Quiet x y → Quiet y z → Quiet x z
Quiet-trans p q = record {
  requests = q.requests ∙ p.requests;
  releases = q.releases ∙ p.releases;
  engines = q.engines ∙ p.engines;
  size = SameSize-trans p.size q.size;
}

write-Quiet : (x : Xdev) (value addr : ℕ) → Quiet x (dev_write x value addr)
write-Quiet x value addr = record {
  requests = refl;
  releases = refl;
  engines = refl;
  size = record { channel_max = refl; user_max = refl; msix_enabled = refl };
}

prog_loop-Quiet :
    (fuel : ℕ) (clear : Bool) (base j i most : ℕ) (x : Xdev)
    → Quiet x (prog_loop fuel clear base j i most x)
unfolding prog_loop
prog_loop-Quiet zero clear base j i most x = Quiet-refl x
prog_loop-Quiet (suc fuel) clear base j i most x =
    let (val, next) = vector_word clear i most in
    let y = dev_write x val (int_reg x (base + 4 * j)) in
    if_both (Quiet x) (ltb i most)
      (Quiet-trans (write-Quiet x val (int_reg x (base + 4 * j)))
        (prog_loop-Quiet fuel clear base (j + 1) next most y))
      (Quiet-refl x)

pub prog_channel-Quiet : (clear : Bool) (x : Xdev) → Quiet x (prog_irq_msix_channel clear x)
unfolding prog_irq_msix_channel
prog_channel-Quiet clear x = prog_loop-Quiet _ clear _ _ _ _ x

pub prog_user-Quiet : (clear : Bool) (x : Xdev) → Quiet x (prog_irq_msix_user clear x)
unfolding prog_irq_msix_user
prog_user-Quiet clear x = prog_loop-Quiet _ clear _ _ _ _ x
