-- ===== src/Xdev/Irq/Balance.antt =====
-- The lines that are released are those that were requested.
use xdma_fpga.Base.{
  ℕ, ◌==◌, false, some, [], ◌∷◌, ◌++◌, ◌≡◌, inl, inr, refl, ap, sym, ◌∙◌, subst, Rv, ok, is_err,
  Bool-cases, ltb, if_true, if_false, if_both, ◌-◌,
}
use xdma_fpga.Xdev.{Xdev, DevHost, device}
use xdma_fpga.Xdev.Irq.{
  request_irq, irq_msi_setup, irq_legacy_setup, legacy_vectors, irq_setup, irq_teardown,
}
use xdma_fpga.Xdev.Irq.Lines.{requests_in, releases_in, irq_lines, Quiet, Quiet-refl}
use xdma_fpga.Xdev.Irq.Requested.{failed}
use xdma_fpga.Xdev.Irq.SetUp.{msix_lines, IsSetUp, setup-IsSetUp}
use xdma_fpga.Xdev.Irq.Released.{all_freed}

-- One line for the whole device, under MSI and legacy interrupts.
abbrev OneLine : DevHost → Xdev → Rv × Xdev → Type 0
OneLine h x o =
    o.0 ≡ ok
    → (requests_in o.1.log ≡ (h.irq, device) ∷ requests_in x.log)
      × (releases_in o.1.log ≡ releases_in x.log)
      × (o.1.irq_line ≡ some h.irq)
      × (o.1.msix_enabled ≡ false)

request-OneLine :
    (h : DevHost) (x y : Xdev)
    → x.msix_enabled ≡ false
    → Quiet x y
    → OneLine h x (request_irq h h.irq device (record y { irq_line = some h.irq }))
unfolding request_irq
request-OneLine h x y m q e = elim (Bool-cases (is_err (h.request_irq y.requests))) [
  | inl bad ↦ failed _ bad e
  | inr good ↦ (
    rw good (ap (◌∷◌ (h.irq, device)) q.requests),
    rw good q.releases,
    rw good refl,
    rw good (q.size.msix_enabled ∙ m),
  )
]

legacy-Quiet : (val : ℕ) (x : Xdev) → Quiet x (legacy_vectors val x)
unfolding legacy_vectors
legacy-Quiet val x = record {
  requests = refl;
  releases = refl;
  engines = refl;
  size = record { channel_max = refl; user_max = refl; msix_enabled = refl };
}

single_line : (h : DevHost) (x : Xdev) → x.msix_enabled ≡ false → OneLine h x (irq_setup h x)
unfolding irq_setup irq_msi_setup irq_legacy_setup
single_line h x m = subst (OneLine h x) (sym (if_false x.msix_enabled _ _ m)) (
    if_both (OneLine h x) x.msi_enabled (request-OneLine h x x m (Quiet-refl x)) (
      if_both (OneLine h x) (h.interrupt_pin == 0) (λ e. failed _ refl e)
        (request-OneLine h x _ m (
          if_both (Quiet x) (ltb 1 h.interrupt_pin) (legacy-Quiet (h.interrupt_pin - 1) x)
            (Quiet-refl x)))))

freed_line :
    (h : DevHost) (y : Xdev)
    → y.msix_enabled ≡ false
    → y.irq_line ≡ some h.irq
    → let z = irq_teardown h y in
      (requests_in z.log ≡ requests_in y.log)
      × (releases_in z.log ≡ (h.irq, device) ∷ releases_in y.log)
unfolding irq_teardown
freed_line h y m line =
    subst
      (λ (z : Xdev).
        (requests_in z.log ≡ requests_in y.log)
        × (releases_in z.log ≡ (h.irq, device) ∷ releases_in y.log))
      (sym (if_false y.msix_enabled _ _ m)) (rw line (refl, refl))

-- Where no vector of the device is line 0, a successful `irq_setup` requests just the lines of the device (under
-- MSI-X, one for each user interrupt and each channel; else one) and releases none; and a later
-- `irq_teardown` releases just these lines, and requests none.
pub irq_lines_balance :
    (h : DevHost) (x y : Xdev)
    → ((k : ℕ) → (h.irq_vector k == 0) ≡ false)
    → irq_setup h x ≡ (ok, y)
    → let z = irq_teardown h y in
      (requests_in y.log ≡ irq_lines h x ++ requests_in x.log)
      × (releases_in y.log ≡ releases_in x.log)
      × (requests_in z.log ≡ requests_in y.log)
      × (releases_in z.log ≡ irq_lines h x ++ releases_in y.log)
irq_lines_balance h x y some_line e =
    let success : (irq_setup h x).0 ≡ ok = ap (λ (o : Rv × Xdev). o.0) e in
    let at : (irq_setup h x).1 ≡ y = ap (λ (o : Rv × Xdev). o.1) e in
    elim (Bool-cases x.msix_enabled) [
      | inl m ↦
          let u = subst (IsSetUp h x) at (setup-IsSetUp h x m success) in
          let (a, b) = all_freed h x y some_line m u in
          let l : irq_lines h x ≡ msix_lines h x = if_true x.msix_enabled _ _ m in
          (
            u.requests ∙ ap (λ k. k ++ requests_in x.log) (sym l),
            u.releases,
            a,
            b ∙ ap (λ k. k ++ releases_in y.log) (sym l),
          )
      | inr m ↦
          let (a, b, line, off) = single_line h x m success in
          let l : irq_lines h x ≡ (h.irq, device) ∷ [] = if_false x.msix_enabled _ _ m in
          let t =
            freed_line h y (ap (λ (z : Xdev). z.msix_enabled) (sym at) ∙ off)
              (ap (λ (z : Xdev). z.irq_line) (sym at) ∙ line) in
          (
            ap (λ (z : Xdev). requests_in z.log) (sym at)
                ∙ a
                ∙ ap (λ k. k ++ requests_in x.log) (sym l),
            ap (λ (z : Xdev). releases_in z.log) (sym at) ∙ b,
            t.0,
            t.1 ∙ ap (λ k. k ++ releases_in y.log) (sym l),
          )
    ]
