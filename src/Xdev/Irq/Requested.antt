-- ===== src/Xdev/Irq/Requested.antt =====
-- The lines that the loops of the set-up request, where all requests succeed.
use xdma_fpga.Base.{
  ℕ, zero, suc, ◌+◌, ◌<◌, ◌==◌, true, false, List, ◌∷◌, ◌++◌, ◌≡◌, inl, inr, refl, ap, sym, ◌∙◌,
  arith, Rv, ok, is_err, Bool-cases,
}
use native.Mathlib.Decide.{dec_lt}
use xdma_fpga.Hw.{Dir}
use xdma_fpga.Xdev.{Xdev, DevHost, SgEngine, channel, user, put_engine}
use xdma_fpga.Xdev.Probe.Found.{other, put_dir_hit, put_dir_miss}
use xdma_fpga.Xdev.Irq.{request_irq, channel_setup_loop, user_setup_loop}
use xdma_fpga.Xdev.Irq.Lines.{
  Line, requests_in, releases_in, row, channel_line, user_line, SameSize, SameSize-trans,
  SameSize-refl,
}

-- An error is no success.
pub failed : {A : Type 0} (r : Rv) → is_err r ≡ true → r ≡ ok → A
failed r e f = let t : true ≡ false = sym e ∙ ap is_err f in absurd (cc)

-- The engines of a direction know the vectors of their lines, up to the i-th.
abbrev pub Known : DevHost → Dir → ℕ → ℕ → Xdev → Type 0
Known h d base i x = (k : ℕ) → k < i → (x.engines d k).msix_irq_line ≡ h.irq_vector (base + k)

-- What the loop over a direction's channels has done at its end.
pub record ChannelsUp (h : DevHost) (d : Dir) (base n : ℕ) (before : List Line) (x y : Xdev)
    : Type 0 where
  pub requests : requests_in y.log ≡ row (channel_line h d base) n ++ before
  pub releases : releases_in y.log ≡ releases_in x.log
  pub known : Known h d base n y
  pub other_engines : y.engines (other d) ≡ x.engines (other d)
  pub size : SameSize x y

-- The round that ends well.
module _ (h : DevHost) (d : Dir) (base i : ℕ) (x : Xdev) where
  abbrev vector : ℕ
  vector = h.irq_vector (base + i)

  abbrev taken : Xdev
  taken = (request_irq h vector (channel d i) x).1

  abbrev next : Xdev
  next = put_engine taken d i (record (taken.engines d i) { msix_irq_line = vector })

  next-requests :
      is_err (h.request_irq x.requests) ≡ false
      → requests_in next.log ≡ channel_line h d base i ∷ requests_in x.log
  unfolding request_irq
  next-requests e = rw e refl

  next-releases : releases_in next.log ≡ releases_in x.log
  unfolding request_irq
  next-releases = elim (Bool-cases (is_err (h.request_irq x.requests))) [
    | inl e ↦ rw e refl
    | inr e ↦ rw e refl
  ]

  taken-engines : taken.engines ≡ x.engines
  unfolding request_irq
  taken-engines = ground arith

  next-size : SameSize x next
  unfolding request_irq
  next-size = ground arith

  next-Known : Known h d base i x → Known h d base (i + 1) next
  next-Known known k lt =
      ap (λ (f : ℕ → SgEngine). (f k).msix_irq_line) (put_dir_hit taken.engines d _)
      ∙ elim (dec_lt k i) [
        | yes l ↦
            let miss : (k == i) ≡ false = ground arith in
            rw miss
              (ap (λ (g : Dir → ℕ → SgEngine). (g d k).msix_irq_line) taken-engines ∙ known k l)
        | no n ↦
            let same : k ≡ i = omega arith in
            let hit : (k == i) ≡ true = ground arith in rw hit (rw same refl)
      ]

  next-other : next.engines (other d) ≡ x.engines (other d)
  next-other =
      put_dir_miss taken.engines d _ ∙ ap (λ (g : Dir → ℕ → SgEngine). g (other d)) taken-engines

granted :
    (h : DevHost) (d : Dir) (base i : ℕ) (x : Xdev)
    → is_err (request_irq h (h.irq_vector (base + i)) (channel d i) x).0 ≡ false
    → is_err (h.request_irq x.requests) ≡ false
unfolding request_irq
granted h d base i x e = e

pub channel_loop-Up :
    (h : DevHost) (d : Dir) (base n i : ℕ) (before : List Line) (x : Xdev)
    → requests_in x.log ≡ row (channel_line h d base) i ++ before
    → Known h d base i x
    → (channel_setup_loop h d base n i x).0 ≡ ok
    → ChannelsUp h d base (i + n) before x (channel_setup_loop h d base n i x).1
unfolding channel_setup_loop
channel_loop-Up h d base zero i before x r known e =
    let stay : i ≡ i + 0 = omega arith in
    rw (← stay) (record {
      requests = r;
      releases = refl;
      known = known;
      other_engines = refl;
      size = SameSize-refl x;
    })
channel_loop-Up h d base (suc n) i before x r known e =
    elim (Bool-cases (is_err (request_irq h (h.irq_vector (base + i)) (channel d i) x).0)) [
      | inl bad ↦ failed _ bad (rw bad at e)
      | inr good ↦
          let y = next h d base i x in
          let up : i + 1 ≡ suc i = omega arith in
          let on : i + 1 + n ≡ i + suc n = omega arith in
          let r' : requests_in y.log ≡ row (channel_line h d base) (i + 1) ++ before = rw up (
            next-requests h d base i x (granted h d base i x good)
            ∙ ap (◌∷◌ (channel_line h d base i)) r) in
          let u =
            channel_loop-Up h d base n (i + 1) before y r' (next-Known h d base i x known)
              (rw good at e) in
          rw (good, ← on)
            (record {
              requests = u.requests;
              releases = u.releases ∙ next-releases h d base i x;
              known = u.known;
              other_engines = u.other_engines ∙ next-other h d base i x;
              size = SameSize-trans (next-size h d base i x) u.size;
            })
    ]

-- What the loop over the user interrupts has done at its end.
pub record UsersUp (h : DevHost) (base n : ℕ) (before : List Line) (x y : Xdev) : Type 0 where
  pub requests : requests_in y.log ≡ row (user_line h base) n ++ before
  pub releases : releases_in y.log ≡ releases_in x.log
  pub engines : y.engines ≡ x.engines
  pub size : SameSize x y

user-request :
    (h : DevHost) (vector i : ℕ) (x : Xdev)
    → let o = request_irq h vector (user i) x in
      is_err o.0 ≡ false
      → (requests_in o.1.log ≡ (vector, user i) ∷ requests_in x.log)
        × (releases_in o.1.log ≡ releases_in x.log)
        × (o.1.engines ≡ x.engines)
        × SameSize x o.1
unfolding request_irq
user-request h vector i x e = (rw e refl, rw e refl, ground arith, ground arith)

pub user_loop-Up :
    (h : DevHost) (base n i : ℕ) (before : List Line) (x : Xdev)
    → requests_in x.log ≡ row (user_line h base) i ++ before
    → (user_setup_loop h base n i x).0 ≡ ok
    → UsersUp h base (i + n) before x (user_setup_loop h base n i x).1
unfolding user_setup_loop
user_loop-Up h base zero i before x r e =
    let stay : i ≡ i + 0 = omega arith in
    rw (← stay) (record { requests = r; releases = refl; engines = refl; size = SameSize-refl x })
user_loop-Up h base (suc n) i before x r e =
    let o = request_irq h (h.irq_vector (base + i)) (user i) x in
    elim (Bool-cases (is_err o.0)) [
      | inl bad ↦ failed _ bad (rw bad at e)
      | inr good ↦
          let up : i + 1 ≡ suc i = omega arith in
          let on : i + 1 + n ≡ i + suc n = omega arith in
          let (requests, releases, engines, size) =
            user-request h (h.irq_vector (base + i)) i x good in
          let r' : requests_in o.1.log ≡ row (user_line h base) (i + 1) ++ before =
            rw up (requests ∙ ap (◌∷◌ (user_line h base i)) r) in
          let u = user_loop-Up h base n (i + 1) before o.1 r' (rw good at e) in
          rw (good, ← on)
            (record {
              requests = u.requests;
              releases = u.releases ∙ releases;
              engines = u.engines ∙ engines;
              size = SameSize-trans size u.size;
            })
    ]
