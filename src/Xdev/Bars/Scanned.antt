-- ===== src/Xdev/Bars/Scanned.antt =====
-- The loop of `map_bars`: the BARs on its list are mapped, and in order around the configuration BAR.
use xdma_fpga.Base.{
  ℕ, zero, suc, ◌+◌, ◌≤◌, ◌<◌, ◌==◌, true, false, ◌≡◌, ◌⊎◌, inl, inr, refl, ap, sym, ◌∙◌, arith,
  ltb, Option, none, some, List, [], ◌∷◌, ◌++◌, length, get_elem?, if◌then◌else◌, Bool-cases,
  Option-cases, if_both, if_cases,
}
use xdma_fpga.Xdev.{Xdev, DevHost, put}
use xdma_fpga.Xdev.Bars.{
  BarScan, map_single_bar, is_config_bar, found_bar, bar_round, bar_loop, int_max,
}

pub get_elem?-lt : (xs : List ℕ) (k : ℕ) {j : ℕ} → get_elem? xs k ≡ some j → k < length xs
get_elem?-lt [] k e = absurd (cc)
get_elem?-lt (x ∷ xs) zero e = omega arith
get_elem?-lt (x ∷ xs) (suc k) e = omega (arith, get_elem?-lt xs k e)

get_elem?-last : (xs : List ℕ) (i : ℕ) → get_elem? (xs ++ i ∷ []) (length xs) ≡ some i
get_elem?-last [] i = refl
get_elem?-last (x ∷ xs) i = get_elem?-last xs i

get_elem?-kept :
    (xs : List ℕ) (i k : ℕ) {j : ℕ} → get_elem? xs k ≡ some j → get_elem? (xs ++ i ∷ []) k ≡ some j
get_elem?-kept [] i k e = absurd (cc)
get_elem?-kept (x ∷ xs) i zero e = e
get_elem?-kept (x ∷ xs) i (suc k) e = get_elem?-kept xs i k e

get_elem?-snoc :
    (xs : List ℕ) (i k : ℕ) {j : ℕ}
    → get_elem? (xs ++ i ∷ []) k ≡ some j
    → (get_elem? xs k ≡ some j) ⊎ ((k ≡ length xs) × (j ≡ i))
get_elem?-snoc [] i zero e = inr (refl, ground arith)
get_elem?-snoc [] i (suc k) e = absurd (cc)
get_elem?-snoc (x ∷ xs) i zero e = inl e
get_elem?-snoc (x ∷ xs) i (suc k) e = elim (get_elem?-snoc xs i k e) [
  | inl old ↦ inl old
  | inr (at, new) ↦ inr (ap suc at, new)
]

-- The BARs of a list are mapped, below a bound, and in order around the configuration BAR at `pos`.
pub record InOrder (x : Xdev) (ids : List ℕ) (pos bound : ℕ) : Type 0 where
  pub mapped : (k j : ℕ) → get_elem? ids k ≡ some j → (j < bound) × ((x.bar j == 0) ≡ false)
  pub config : (c : ℕ) → x.config_bar_idx ≡ some c → get_elem? ids pos ≡ some c
  pub below : (c k j : ℕ) → x.config_bar_idx ≡ some c → get_elem? ids k ≡ some j → k < pos → j < c
  pub above : (c k j : ℕ) → x.config_bar_idx ≡ some c → get_elem? ids k ≡ some j → pos ≤ k → c ≤ j
  pub no_user : x.user_bar_idx ≡ none
  pub no_bypass : x.bypass_bar_idx ≡ none

abbrev pub Fits : ℕ → BarScan → Type 0
Fits bound s = InOrder s.xdev s.bar_id_list s.config_bar_pos bound

weaker : (x : Xdev) (ids : List ℕ) (pos i : ℕ) → InOrder x ids pos i → InOrder x ids pos (i + 1)
weaker x ids pos i f = record {
  mapped = λ k j e. let (lt, m) = f.mapped k j e in (omega arith, m);
  config = f.config;
  below = f.below;
  above = f.above;
  no_user = f.no_user;
  no_bypass = f.no_bypass;
}

-- Mapping a BAR leaves those below it, and the three indices.
record Kept (i : ℕ) (x y : Xdev) : Type 0 where
  bars : (j : ℕ) → j < i → y.bar j ≡ x.bar j
  config_idx : y.config_bar_idx ≡ x.config_bar_idx
  user_idx : y.user_bar_idx ≡ x.user_bar_idx
  bypass_idx : y.bypass_bar_idx ≡ x.bypass_bar_idx

Kept-InOrder :
    (x y : Xdev) (ids : List ℕ) (pos i : ℕ) → Kept i x y → InOrder x ids pos i → InOrder y ids pos i
Kept-InOrder x y ids pos i p f = record {
  mapped = λ k j e. let (lt, m) = f.mapped k j e in (lt, ap (λ a. a == 0) (p.bars j lt) ∙ m);
  config = λ c e. f.config c (sym p.config_idx ∙ e);
  below = λ c k j e. f.below c k j (sym p.config_idx ∙ e);
  above = λ c k j e. f.above c k j (sym p.config_idx ∙ e);
  no_user = p.user_idx ∙ f.no_user;
  no_bypass = p.bypass_idx ∙ f.no_bypass;
}

-- A BAR of some length is mapped, unless an error is returned.
abbrev Single : ℕ → Xdev → Option ℕ × Xdev → Type 0
Single i x o =
    Kept i x o.1 × ((len : ℕ) → o.0 ≡ some len → (len == 0) ≡ false → (o.1.bar i == 0) ≡ false)

pub put_miss : (f : ℕ → ℕ) (i a j : ℕ) → j < i → put f i a j ≡ f j
put_miss f i a j lt = let miss : (j == i) ≡ false = ground arith in rw miss refl

pub put_hit : (f : ℕ → ℕ) (i a : ℕ) → put f i a i ≡ a
put_hit f i a = let hit : (i == i) ≡ true = ground arith in rw hit refl

put-Kept : (x : Xdev) (i a : ℕ) → Kept i x (record x { bar = put x.bar i a })
put-Kept x i a = record {
  bars = λ j lt. put_miss x.bar i a j lt;
  config_idx = refl;
  user_idx = refl;
  bypass_idx = refl;
}

Kept-trans : {i : ℕ} {x y z : Xdev} → Kept i x y → Kept i y z → Kept i x z
Kept-trans p q = record {
  bars = λ j lt. q.bars j lt ∙ p.bars j lt;
  config_idx = q.config_idx ∙ p.config_idx;
  user_idx = q.user_idx ∙ p.user_idx;
  bypass_idx = q.bypass_idx ∙ p.bypass_idx;
}

map_single_bar-Single : (h : DevHost) (i : ℕ) (x : Xdev) → Single i x (map_single_bar h i x)
unfolding map_single_bar
map_single_bar-Single h i x =
    let map_len = if ltb int_max (h.resource_len i) then int_max else h.resource_len i in
    let x1 = record x { bar = put x.bar i 0 } in
    let k1 = put-Kept x i 0 in
    let k2 = Kept-trans k1 (put-Kept x1 i (h.iomap i map_len)) in
    if_both (Single i x) _ (k1, λ len e n. absurd (cc))
      (if_cases (Single i x) _ (λ null. (k2, λ len e n. absurd (cc)))
        (λ good. (k2, λ len e n. good)))

-- A round adds its BAR to the list.
add-InOrder :
    (x : Xdev) (ids : List ℕ) (pos i : ℕ)
    → InOrder x ids pos i
    → (x.bar i == 0) ≡ false
    → InOrder x (ids ++ i ∷ []) pos (i + 1)
add-InOrder x ids pos i f m = record {
  mapped = λ k j e. elim (get_elem?-snoc ids i k e) [
    | inl old ↦ let (lt, g) = f.mapped k j old in (omega arith, g)
    | inr (at, new) ↦ (omega arith, ap (λ a. x.bar a == 0) new ∙ m)
  ];
  config = λ c e. get_elem?-kept ids i pos (f.config c e);
  below = λ c k j e g lt. elim (get_elem?-snoc ids i k g) [
    | inl old ↦ f.below c k j e old lt
    | inr (at, new) ↦ absurd (omega (arith, get_elem?-lt ids pos (f.config c e)))
  ];
  above = λ c k j e g le. elim (get_elem?-snoc ids i k g) [
    | inl old ↦ f.above c k j e old le
    | inr (at, new) ↦ omega (arith, (f.mapped pos c (f.config c e)).0)
  ];
  no_user = f.no_user;
  no_bypass = f.no_bypass;
}

-- The round that finds the configuration BAR.
config-InOrder :
    (x : Xdev) (ids : List ℕ) (pos i : ℕ)
    → InOrder x ids pos i
    → (x.bar i == 0) ≡ false
    → InOrder (record x { config_bar_idx = some i }) (ids ++ i ∷ []) (length ids) (i + 1)
config-InOrder x ids pos i f m = record {
  mapped = λ k j e. elim (get_elem?-snoc ids i k e) [
    | inl old ↦ let (lt, g) = f.mapped k j old in (omega arith, g)
    | inr (at, new) ↦ (omega arith, ap (λ a. x.bar a == 0) new ∙ m)
  ];
  config = λ c e. get_elem?-last ids i ∙ e;
  below = λ c k j e g lt. elim (get_elem?-snoc ids i k g) [
    | inl old ↦ let same : i ≡ c = ground arith in omega (arith, (f.mapped k j old).0)
    | inr (at, new) ↦ absurd (omega arith)
  ];
  above = λ c k j e g le. elim (get_elem?-snoc ids i k g) [
    | inl old ↦ absurd (omega (arith, get_elem?-lt ids k old))
    | inr (at, new) ↦ let same : i ≡ c = ground arith in omega arith
  ];
  no_user = f.no_user;
  no_bypass = f.no_bypass;
}

reads-InOrder :
    (x : Xdev) (n : ℕ) (ids : List ℕ) (pos i : ℕ)
    → InOrder x ids pos i
    → InOrder (record x { reads = n }) ids pos i
reads-InOrder x n ids pos i =
    Kept-InOrder x (record x { reads = n }) ids pos i
      (record { bars = λ j lt. refl; config_idx = refl; user_idx = refl; bypass_idx = refl })

found-Fits :
    (h : DevHost) (i len : ℕ) (s : BarScan)
    → Fits i s
    → (s.xdev.bar i == 0) ≡ false
    → Fits (i + 1) (found_bar h i len s)
unfolding found_bar is_config_bar
found-Fits h i len s f m =
    let n = s.xdev.reads + 1 + 1 in
    let r = reads-InOrder s.xdev n s.bar_id_list s.config_bar_pos i f in
    let y = record s.xdev { reads = n } in
    if_both (Fits (i + 1)) _
      (if_both (Fits (i + 1)) _ (config-InOrder y s.bar_id_list s.config_bar_pos i r m)
        (add-InOrder y s.bar_id_list s.config_bar_pos i r m))
      (add-InOrder s.xdev s.bar_id_list s.config_bar_pos i f m)

round-Fits :
    (h : DevHost) (i : ℕ) (s : BarScan)
    → Fits i s
    → (bar_round h i s).0 ≡ true
    → Fits (i + 1) (bar_round h i s).1
unfolding bar_round
round-Fits h i s f e =
    let o = map_single_bar h i s.xdev in
    let (kept, m) = map_single_bar-Single h i s.xdev in
    let here = Kept-InOrder s.xdev o.1 s.bar_id_list s.config_bar_pos i kept f in
    let s' = record s { xdev = o.1 } in
    elim (Option-cases o.0) [
      | inl bad ↦ let t = rw (bad, bar_round) at e in absurd (cc)
      | inr (len, good) ↦
          rw (good, bar_round)
            (if_cases (Fits (i + 1)) (len == 0)
              (λ z. weaker o.1 s.bar_id_list s.config_bar_pos i here)
              (λ more. found-Fits h i len s' here (m len good more)))
    ]

pub loop-Fits :
    (h : DevHost) (n i : ℕ) (s : BarScan)
    → Fits i s
    → (bar_loop h n i s).0 ≡ true
    → Fits (i + n) (bar_loop h n i s).1
unfolding bar_loop
loop-Fits h zero i s f e = let stay : i ≡ i + 0 = omega arith in rw (← stay) f
loop-Fits h (suc n) i s f e = elim (Bool-cases (bar_round h i s).0) [
  | inl go ↦
      let next : i + 1 + n ≡ i + suc n = omega arith in
      rw (go, ← next)
        (loop-Fits h n (i + 1) (bar_round h i s).1 (round-Fits h i s f go) (rw go at e))
  | inr stop ↦ let t = rw stop at e in absurd (cc)
]
