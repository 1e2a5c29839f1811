-- ===== src/Engine/Poll/Monitor.antt =====
-- What `engine_service_wb_monitor` of libxdma.c waits for.
use xdma_fpga.Base.{
  ℕ, zero, suc, ◌+◌, ◌-◌, ◌≤◌, ◌<◌, true, false, Option, some, ◌≡◌, ◌⊎◌, inl, inr, arith, has, leb,
  ◌||◌, ◌==◌, Bool-cases, if◌then◌else◌, bit_and-le, refl, subst, ap,
}
use native.Mathlib.Decide.{dec_lt, ℕ_discrete}
use xdma_fpga.Hw.{wb_count_mask, wb_err_mask}
use xdma_fpga.Engine.{Engine, cleared_wb, emit}
use xdma_fpga.Engine.Poll.{Round, on_timeout, wb_monitor_loop, engine_service_wb_monitor}

-- Why the loop ended in round `k` with the value that it read there: an error bit, as many descriptors
-- as expected, or the timeout with fewer.
abbrev pub Stopped : (ℕ → Round) → ℕ → ℕ → Type 0
Stopped rounds expected k =
    (has (rounds k).desc_wb wb_err_mask ≡ true)
    ⊎ (expected ≤ (rounds k).desc_wb)
    ⊎ (((rounds k).timed_out ≡ true) × ((rounds k).desc_wb < expected))

-- No round before `k` had a reason to end.
abbrev pub Waits : (ℕ → Round) → ℕ → ℕ → Type 0
Waits rounds expected k =
    (has (rounds k).desc_wb wb_err_mask ≡ false)
    × ((rounds k).desc_wb < expected)
    × ((rounds k).timed_out ≡ false)

pub record Ended (rounds : ℕ → Round) (expected i : ℕ) (r : Option (ℕ × Engine)) : Type 0 where
  pub round : ℕ
  pub engine : Engine
  pub from : i ≤ round
  pub result : r ≡ some ((rounds round).desc_wb, engine)
  pub why : Stopped rounds expected round
  pub before : (j : ℕ) → i ≤ j → j < round → Waits rounds expected j

-- A timeout only leaves the loop below the expected count, so it never reports the error that
-- `on_timeout` would put in.
on_timeout-id : (wb expected : ℕ) → wb < expected → on_timeout wb expected ≡ wb
unfolding on_timeout
on_timeout-id wb expected h = ground (arith, bit_and-le wb wb_count_mask)

not-lt_self : (i j : ℕ) → i ≤ j → j < i → ⊥
not-lt_self i j a b = omega arith

-- Waiting in round `i` and in the rounds from the next on is waiting in all of them.
Waits-cons :
    (rounds : ℕ → Round) (expected i k : ℕ)
    → Waits rounds expected i
    → ((j : ℕ) → i + 1 ≤ j → j < k → Waits rounds expected j)
    → (j : ℕ) → i ≤ j
    → j < k
    → Waits rounds expected j
Waits-cons rounds expected i k w ws j lo hi = elim (ℕ_discrete i j) [
  | yes e ↦ subst (Waits rounds expected) e w
  | no ne ↦ ws j (omega arith) hi
]

-- A round that does not time out is not the one that does.
timed_later :
    (rounds : ℕ → Round) (i m : ℕ)
    → (rounds (i + m)).timed_out ≡ true
    → (rounds i).timed_out ≡ false
    → 0 < m
timed_later rounds i m t on = elim (dec_lt 0 m) [
  | yes p ↦ p
  | no z ↦ let e : i + m ≡ i = omega arith in cc (t, on, ap (λ k. (rounds k).timed_out) e)
]

loop-Ended :
    (fuel m : ℕ) (rounds : ℕ → Round) (expected i : ℕ) (e : Engine)
    → (rounds (i + m)).timed_out ≡ true
    → m < fuel
    → Ended rounds expected i (wb_monitor_loop fuel rounds expected i e)
unfolding wb_monitor_loop
loop-Ended zero m rounds expected i e t h = absurd (omega arith)
loop-Ended (suc fuel) m rounds expected i e t h =
    let wb = (rounds i).desc_wb in
    let e' = if wb == 0 then e else emit e cleared_wb in
    elim (Bool-cases (has wb wb_err_mask || leb expected wb)) [
      | inl stop ↦ rw stop (record {
        round = i;
        engine = e';
        from = omega arith;
        result = refl;
        why = ground (arith, stop);
        before = λ j lo hi. absurd (not-lt_self i j lo hi);
      })
      | inr go ↦ elim (Bool-cases (rounds i).timed_out) [
        | inl out ↦
            simp (go, out)
              (record {
                round = i;
                engine = e';
                from = omega arith;
                result = rw (on_timeout-id wb expected (ground (arith, go)));
                why = inr (inr (out, ground (arith, go)));
                before = λ j lo hi. absurd (not-lt_self i j lo hi);
              })
        | inr on ↦
            let m_pos : 0 < m = timed_later rounds i m t on in
            let shift : i + 1 + (m - 1) ≡ i + m = omega arith in
            let rest =
              loop-Ended fuel (m - 1) rounds expected (i + 1) e' (rw shift t) (omega arith) in
            simp (go, on)
              (record {
                round = rest.round;
                engine = rest.engine;
                from = omega (arith, rest.from);
                result = rest.result;
                why = rest.why;
                before =
                    Waits-cons rounds expected i rest.round
                      (ground (arith, go), ground (arith, go), on) rest.before;
              })
      ]
    ]

-- If some round times out, the monitor returns (with fuel for the rounds up to it). A monitor that
-- expects nothing returns 0 at once. Any other returns the value read in its last round, which has the
-- error bit, or counts as many descriptors as expected, or timed out short of them; and no earlier
-- round had a reason to end.
pub monitor-Ended :
    (fuel m : ℕ) (rounds : ℕ → Round) (e : Engine) (expected : ℕ)
    → (rounds m).timed_out ≡ true
    → m < fuel
    → let r = engine_service_wb_monitor fuel rounds e expected in
      ((expected ≡ 0) × (r ≡ some (0, e))) ⊎ Ended rounds expected 0 r
unfolding engine_service_wb_monitor
monitor-Ended fuel m rounds e expected t h = elim (ℕ_discrete expected 0) [
  | yes z ↦ inl (z, rw z)
  | no nz ↦
      let pos : (expected == 0) ≡ false = ground arith in
      let here : 0 + m ≡ m = omega arith in
      inr (rw pos (loop-Ended fuel m rounds expected 0 e (rw here t) h))
]
