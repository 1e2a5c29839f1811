-- ===== src/Xdev/Bars/Roles.antt =====
-- What `map_bars` makes of the BARs: which are mapped, and what each is for.
use xdma_fpga.Base.{
  ℕ, zero, suc, ◌+◌, ◌-◌, ◌≤◌, ◌<◌, ◌==◌, ◌||◌, true, false, not, ◌≡◌, inl, inr, refl, sym, ◌∙◌,
  arith, Option, none, some, [], length, get_elem?, Rv, ok, err, if◌then◌else◌, Option-cases,
  if_both, if_cases,
}
use native.Mathlib.Decide.{dec_lt}
use xdma_fpga.Xdev.{Xdev, DevHost, put, note, unmapped}
use xdma_fpga.Xdev.Bars.{
  BarScan, identify_bars, bar_loop, map_bars, unmap_loop, unmap_bars, no_config, xdma_bar_num,
}
use xdma_fpga.Xdev.Bars.Scanned.{Fits, loop-Fits, get_elem?-lt, put_miss, put_hit}

-- After `unmap_loop` no BAR of its range is mapped.
pub unmap_all :
    (n i : ℕ) (x : Xdev)
    → ((j : ℕ) → j < i → x.bar j ≡ 0)
    → (j : ℕ) → j < i + n
    → (unmap_loop n i x).bar j ≡ 0
unfolding unmap_loop
unmap_all zero i x z j lt = z j (omega arith)
unmap_all (suc n) i x z j lt =
    let y = note (record x { bar = put x.bar i 0 }) (unmapped (x.bar i)) in
    unmap_all n (i + 1) (if not (x.bar i == 0) then y else x)
      (if_cases (λ (w : Xdev). (k : ℕ) → k < i + 1 → w.bar k ≡ 0) (not (x.bar i == 0))
        (λ e k l. elim (dec_lt k i) [
          | yes under ↦ put_miss x.bar i 0 k under ∙ z k under
          | no at ↦ let same : k ≡ i = omega arith in rw same (put_hit x.bar i 0)
        ])
        (λ e k l. elim (dec_lt k i) [
          | yes under ↦ z k under
          | no at ↦ let same : k ≡ i = omega arith in rw same (ground arith)
        ]))
      j (omega arith)

-- What `map_bars` promises. Where it fails, no BAR is left mapped. Else the configuration BAR is
-- mapped, the user BAR, if there is one, is mapped and before it, and the bypass BAR, if there is one, is mapped and
-- not before it.
abbrev pub Mapped : Rv × Xdev → Type 0
Mapped (err c, x) = (j : ℕ) → j < xdma_bar_num → x.bar j ≡ 0
Mapped (ok, x) =
    (c : ℕ) × (x.config_bar_idx ≡ some c)
    × (c < xdma_bar_num)
    × ((x.bar c == 0) ≡ false)
    × ((u : ℕ) → x.user_bar_idx ≡ some u → (u < c) × ((x.bar u == 0) ≡ false))
    × ((b : ℕ)
        → x.bypass_bar_idx ≡ some b
        → (c ≤ b) × (b < xdma_bar_num) × ((x.bar b == 0) ≡ false))

-- What is promised of a success, of a device as a whole.
record Settled (x : Xdev) : Type 0 where
  settled : Mapped (ok, x)

first-le : (p : ℕ) → (p == 0) ≡ true → p ≤ 1
first-le p h = ground arith

second-lt : (p : ℕ) → (p == 1) ≡ true → 0 < p
second-lt p h = ground arith

second_or_third : (p : ℕ) → (p == 1 || p == 2) ≡ true → 0 < p
second_or_third p h = ground arith

known : (x : Xdev) → x.config_bar_idx ≡ none → no_config x ≡ true
known x e = rw e refl

module _ (s : BarScan) (c : ℕ) (f : Fits 6 s) (e : s.xdev.config_bar_idx ≡ some c) where
  -- The user BAR stands in the list before the configuration BAR, the bypass BAR not before it.
  roles :
      (u b : Option ℕ)
      → ((i : ℕ) → u ≡ some i → (get_elem? s.bar_id_list 0 ≡ some i) × (0 < s.config_bar_pos))
      → ((i : ℕ)
          → b ≡ some i
          → (k : ℕ) × (get_elem? s.bar_id_list k ≡ some i) × (s.config_bar_pos ≤ k))
      → Settled (record s.xdev { user_bar_idx = u; bypass_bar_idx = b })
  roles u b hu hb =
      let (lt, m) = f.mapped s.config_bar_pos c (f.config c e) in
      record {
        settled = (
          c,
          e,
          lt,
          m,
          λ i q. let (g, l) = hu i q in (f.below c 0 i e g l, (f.mapped 0 i g).1),
          λ i q.
              let (k, g, l) = hb i q in
              (f.above c k i e g l, (f.mapped k i g).0, (f.mapped k i g).1),
        );
      }

  -- Where a role is not given, its index is as it was.
  absent : (i : ℕ) {A : Type 0} → s.xdev.user_bar_idx ≡ some i → A
  absent i q = let t : none ≡ some i = sym f.no_user ∙ q in absurd (cc)

  absent_bypass : (i : ℕ) {A : Type 0} → s.xdev.bypass_bar_idx ≡ some i → A
  absent_bypass i q = let t : none ≡ some i = sym f.no_bypass ∙ q in absurd (cc)

  -- The last place of the list, at or behind the configuration BAR.
  last_place : s.config_bar_pos ≤ length s.bar_id_list - 1
  last_place = omega (arith, get_elem?-lt s.bar_id_list s.config_bar_pos (f.config c e))

  identified : Settled (identify_bars s.bar_id_list s.config_bar_pos s.xdev)
  unfolding identify_bars
  identified =
      let P = λ (y : Xdev). Settled y in
      let x = s.xdev in
      let same =
        roles x.user_bar_idx x.bypass_bar_idx (λ i q. absent i q) (λ i q. absent_bypass i q) in
      if_both P _
        (if_cases P _
          (λ at.
            roles x.user_bar_idx (get_elem? s.bar_id_list 1) (λ i q. absent i q)
              (λ i q. (1, q, first-le s.config_bar_pos at)))
          (λ off.
            if_cases P _
              (λ at.
                roles (get_elem? s.bar_id_list 0) x.bypass_bar_idx
                  (λ i q. (q, second-lt s.config_bar_pos at)) (λ i q. absent_bypass i q))
              (λ other. same)))
        (if_both P _
          (if_cases P _
            (λ at.
              roles (get_elem? s.bar_id_list 0) (get_elem? s.bar_id_list (length s.bar_id_list - 1))
                (λ i q. (q, second_or_third s.config_bar_pos at))
                (λ i q. (length s.bar_id_list - 1, q, last_place)))
            (λ off. same))
          same)

-- On a device that knows none of its BARs, `map_bars` returns an error and leaves no BAR mapped; or it succeeds,
-- the configuration BAR is one of the six and mapped, the user BAR, if one is identified, is mapped and comes before
-- it, and the bypass BAR, if one is identified, is one of the six, mapped, and does not come before it.
pub map_bars-Mapped :
    (h : DevHost) (x : Xdev)
    → x.config_bar_idx ≡ none
    → x.user_bar_idx ≡ none
    → x.bypass_bar_idx ≡ none
    → Mapped (map_bars h x)
unfolding map_bars unmap_bars
map_bars-Mapped h x c u b =
    let start : BarScan = record { bar_id_list = []; config_bar_pos = 0; xdev = x } in
    let o = bar_loop h xdma_bar_num 0 start in
    let empty : Fits 0 start = record {
      mapped = λ k j e. absurd (cc);
      config = λ i e. let t : none ≡ some i = sym c ∙ e in absurd (cc);
      below = λ i k j e. let t : none ≡ some i = sym c ∙ e in absurd (cc);
      above = λ i k j e. let t : none ≡ some i = sym c ∙ e in absurd (cc);
      no_user = u;
      no_bypass = b;
    } in
    if_cases Mapped (not o.0 || no_config o.1.xdev)
      (λ bad j lt. unmap_all 6 0 o.1.xdev (λ k l. absurd (omega arith)) j lt)
      (λ good.
        let fine : o.0 ≡ true = ground arith in
        let f = loop-Fits h 6 0 start empty fine in
        elim (Option-cases o.1.xdev.config_bar_idx) [
          | inl missing ↦ let t = known o.1.xdev missing in absurd (ground arith)
          | inr (i, e) ↦ (identified o.1 i f e).settled
        ])
