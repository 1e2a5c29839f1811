-- ===== src/Thread/Choice.antt =====
-- Which thread `xdma_thread_add_work` of xdma_thread.c chooses.
use xdma_fpga.Base.{
  ℕ, zero, suc, ◌+◌, ◌≤◌, ◌<◌, true, false, List, [], ◌∷◌, ◌≡◌, ◌≢◌, ◌⊎◌, inl, inr, arith, ◌==◌,
  ltb, length, if◌then◌else◌, Bool-cases, ◌∙◌, refl,
}
use native.Mathlib.Decide.{ℕ_discrete}
use xdma_fpga.Thread.{Kthread, choose_from, choose}

-- The work of the thread at an index; 0 behind the end.
abbrev pub load : List Kthread → ℕ → ℕ
load [] i = 0
load (t ∷ ts) zero = t.work_cnt
load (t ∷ ts) (suc i) = load ts i

-- Some thread has nothing to do.
abbrev pub HasIdle : List Kthread → Type 0
HasIdle [] = ⊥
HasIdle (t ∷ ts) = (t.work_cnt ≡ 0) ⊎ HasIdle ts

-- The result of the loop: the index that it was given, or that of a thread of the list with less work
-- than the first, and idle if one is.
pub record Chosen (v : ℕ) (ts : List Kthread) (i idx r : ℕ) : Type 0 where
  pub place :
      (r ≡ idx) ⊎ ((k : ℕ) × (r ≡ i + k) × (k < length ts) × ((load ts k ≡ 0) ⊎ (load ts k < v)))
  pub idle : HasIdle ts → (k : ℕ) × (r ≡ i + k) × (k < length ts) × (load ts k ≡ 0)

cons-Chosen :
    (v : ℕ) (t : Kthread) (ts : List Kthread) (i idx r : ℕ)
    → t.work_cnt ≢ 0
    → Chosen v ts (i + 1) (if ltb t.work_cnt v then i else idx) r
    → Chosen v (t ∷ ts) i idx r
cons-Chosen v t ts i idx r nz rest = record {
  place = elim rest.place [
    | inl e ↦ elim (Bool-cases (ltb t.work_cnt v)) [
      | inl less ↦ inr (0, e ∙ at_i less, omega arith, inr (ground (arith, less)))
      | inr more ↦ inl (e ∙ rw more)
    ]
    | inr (k, e, l, p) ↦ inr (suc k, omega arith, omega arith, p)
  ];
  idle = λ h. elim h [
    | inl z ↦ absurd (nz z)
    | inr h' ↦ let (k, e, l, z) = rest.idle h' in (suc k, omega arith, omega arith, z)
  ];
}
  where
    at_i : ltb t.work_cnt v ≡ true → (if ltb t.work_cnt v then i else idx) ≡ i + 0
    at_i less = rw less (omega arith)

choose_from-Chosen :
    (v : ℕ) (ts : List Kthread) (i idx : ℕ) → Chosen v ts i idx (choose_from v ts i idx)
unfolding choose_from
choose_from-Chosen v [] i idx = record { place = inl refl; idle = λ h. absurd h }
choose_from-Chosen v (t ∷ ts) i idx = elim (ℕ_discrete t.work_cnt 0) [
  | yes z ↦ simp z (record {
    place = inr (0, omega arith, omega arith, inl z);
    idle = λ h. (0, omega arith, omega arith, z);
  })
  | no nz ↦
      let busy : (t.work_cnt == 0) ≡ false = ground arith in
      let rest = choose_from-Chosen v ts (i + 1) (if ltb t.work_cnt v then i else idx) in
      simp busy (cons-Chosen v t ts i idx _ nz rest)
]

-- What `xdma_thread_add_work` chooses among `ts`: a thread that is there, with no more work than the
-- first, and one that is idle if any is.
pub record GoodChoice (ts : List Kthread) (r : ℕ) : Type 0 where
  pub there : r < length ts
  pub no_worse : load ts r ≤ load ts 0
  pub idle_first : HasIdle ts → load ts r ≡ 0

choice_of :
    (t : Kthread) (ts : List Kthread) (r : ℕ) → Chosen t.work_cnt ts 1 0 r → GoodChoice (t ∷ ts) r
choice_of t ts r c = elim c.place [
  | inl first ↦ rw first (record {
    there = omega arith;
    no_worse = omega arith;
    idle_first =
        λ h. elim h [ inl z ↦ z | inr h' ↦ let (k, e, l, z) = c.idle h' in absurd (omega arith) ];
  })
  | inr (k, e, l, p) ↦
      let at : r ≡ suc k = omega arith in
      rw at (record {
        there = omega arith;
        no_worse = elim p [ inl z ↦ omega arith | inr lt ↦ omega arith ];
        idle_first = λ h. elim h [
          | inl z ↦ elim p [ inl z' ↦ z' | inr lt ↦ absurd (omega arith) ]
          | inr h' ↦
              let (k', e', l', z') = c.idle h' in let same : k' ≡ k = omega arith in rw same at z'
        ];
      })
]

-- With a thread at all, the choice is a thread that is there, has no more work than the first, and is
-- idle if any thread is.
pub choose-GoodChoice : (t : Kthread) (ts : List Kthread) → GoodChoice (t ∷ ts) (choose (t ∷ ts))
unfolding choose
choose-GoodChoice t ts = choice_of t ts _ (choose_from-Chosen t.work_cnt ts 1 0)

-- The choice is not the thread with the least work. Of three busy threads of which the first has the
-- most work and the second the least, it is the third.
not_least :
    (a b c : Kthread)
    → 0 < b.work_cnt
    → b.work_cnt < c.work_cnt
    → c.work_cnt < a.work_cnt
    → let ts = a ∷ b ∷ c ∷ [] in (choose ts ≡ 2) × (load ts 1 < load ts (choose ts))
unfolding choose
not_least a b c pb bc ca = (ground arith, ground arith)
