-- ===== src/Xfer/Loop.antt =====
-- The loop of `xdma_xfer_submit` ends, and what it returns follows from what its waits bring.
use xdma_fpga.Base.{
  ℕ, zero, suc, ◌+◌, ◌^◌, ◌≤◌, ◌<◌, ◌==◌, true, false, List, [], ◌∷◌, ◌≡◌, ◌⊎◌, inl, inr, arith,
  length, take, drop, refl, ap, ◌∙◌, Rv, ok, err, is_err, Errno, some, if_both, sym, ◌≢◌, eio,
  etimedout, if◌then◌else◌,
}
use native.Mathlib.Decide.{ℕ_discrete}
use xdma_fpga.Engine.{TransferState, completed, failed}
use xdma_fpga.Request.{SwDesc, transfer_init}
use xdma_fpga.Request.Program.{sum_len}
use xdma_fpga.Xfer.{
  World, Ended, Ssize, count, error, ring_of, built, after_wait, xfer_round, xfer_loop, ret,
}
use xdma_fpga.Xfer.Parts.{Calm, left, sum-split}
use xdma_fpga.Xfer.Round.{IsGoing, round_cases, xfer_round_lem, round_with, queued}

after_wait_frame :
    (w : World) (p k len : ℕ) (s : Ended)
    → let s' = after_wait w p k len s in
      (s'.req.sdesc ≡ s.req.sdesc) × (s'.chan.desc_max ≡ s.chan.desc_max)
unfolding after_wait
after_wait_frame w p k len s = (ground arith, ground arith)

-- A round keeps the pieces of the request and the size of the ring.
pub round_frame :
    (w : World) (p k : ℕ) (s : Ended)
    → let s' = xfer_round w p k s in
      (s'.req.sdesc ≡ s.req.sdesc) × (s'.chan.desc_max ≡ s.chan.desc_max)
unfolding transfer_init built
round_frame w p k s =
    let q = queued w p s in
    let s0 = round_with p s q.0 (w.during k q.1) in
    rw (xfer_round_lem w p k s) (
      if_both (λ (s' : Ended). (s'.req.sdesc ≡ s.req.sdesc) × (s'.chan.desc_max ≡ s.chan.desc_max))
        (is_err q.0) (refl, refl)
        (after_wait_frame w p k (transfer_init s.req (ring_of s.chan)).0.len s0))

-- The transfer of the k-th round is queued, and is found completed behind the wait.
abbrev pub Completes : World → ℕ → ℕ → Ended → Type 0
Completes w p k s =
    let q = queued w p s in (q.0 ≡ ok) × (((w.during k q.1).xfers p).state ≡ completed)

-- The transfer of the k-th round is refused by `transfer_queue`, or is found failed behind the wait, or neither
-- completed nor failed; and the error of the round.
pub data Breaks (w : World) (p k : ℕ) (s : Ended) (e : Errno) : Type 0 where
  refused : (queued w p s).0 ≡ err e → Breaks w p k s e
  broken :
      (queued w p s).0 ≡ ok
      → ((w.during k (queued w p s).1).xfers p).state ≡ failed
      → e ≡ eio
      → Breaks w p k s e
  late :
      (queued w p s).0 ≡ ok
      → ((w.during k (queued w p s).1).xfers p).state ≢ completed
      → ((w.during k (queued w p s).1).xfers p).state ≢ failed
      → e ≡ etimedout
      → Breaks w p k s e

after_wait_rv :
    (w : World) (p k len : ℕ) (s : Ended)
    → let t = (s.chan.engine.xfers p).state in
      let rv = (after_wait w p k len s).rv in
      ((t ≡ completed) × (rv ≡ ok))
      ⊎ ((t ≡ failed) × (rv ≡ err eio))
      ⊎ ((t ≢ completed) × (t ≢ failed) × (rv ≡ err etimedout))
unfolding after_wait
after_wait_rv w p k len s = by (s.chan.engine.xfers p).state refl
  where
    by :
        (t : TransferState)
        → (s.chan.engine.xfers p).state ≡ t
        → let rv = (after_wait w p k len s).rv in
          (((s.chan.engine.xfers p).state ≡ completed) × (rv ≡ ok))
          ⊎ (((s.chan.engine.xfers p).state ≡ failed) × (rv ≡ err eio))
          ⊎ (((s.chan.engine.xfers p).state ≢ completed)
              × ((s.chan.engine.xfers p).state ≢ failed)
              × (rv ≡ err etimedout))
    by t e = ground arith

rv_cases : (rv : Rv) → (rv ≡ ok) ⊎ ((e : Errno) × (rv ≡ err e))
rv_cases ok = inl refl
rv_cases (err e) = inr (e, refl)

-- A round completes its transfer, or breaks.
round_outcome :
    (w : World) (p k : ℕ) (s : Ended)
    → let rv = (xfer_round w p k s).rv in
      (Completes w p k s × (rv ≡ ok)) ⊎ ((e : Errno) × Breaks w p k s e × (rv ≡ err e))
round_outcome w p k s =
    let q = queued w p s in
    let s0 = round_with p s q.0 (w.during k q.1) in
    elim (rv_cases q.0) [
      | inr (e, bad) ↦ inr (e, refused bad, rw (xfer_round_lem w p k s, bad) refl)
      | inl good ↦
          let round : xfer_round w p k s
              ≡ after_wait w p k (transfer_init s.req (ring_of s.chan)).0.len s0 =
            rw (xfer_round_lem w p k s, good) refl in
          elim (after_wait_rv w p k (transfer_init s.req (ring_of s.chan)).0.len s0) [
            | inl (c, r) ↦ inl ((good, c), ap (λ (x : Ended). x.rv) round ∙ r)
            | inr (inl (f, r)) ↦ inr (eio, broken good f refl, ap (λ (x : Ended). x.rv) round ∙ r)
            | inr (inr (n, m, r)) ↦
                inr (etimedout, late good n m refl, ap (λ (x : Ended). x.rv) round ∙ r)
          ]
    ]

-- What a call returns that stops behind the first `i` pieces with an error.
abbrev pub stopped_at : List SwDesc → ℕ → Errno → Ssize
stopped_at pieces i e =
    if sum_len (take i pieces) == 0 then error e else count (sum_len (take i pieces))

-- The rounds from the k-th on, and what the call returns behind them: the bytes of all pieces, where every transfer
-- completes; or where one breaks, those of the pieces before it, or its error if there are none.
pub data Rounds (w : World) (p : ℕ) (pieces : List SwDesc) (r : Ssize) : ℕ → Ended → Type 0 where
  all : {k : ℕ} {s : Ended} → s.nents ≡ 0 → r ≡ count (sum_len pieces) → Rounds w p pieces r k s
  next :
      {k : ℕ} {s : Ended}
      → 0 < s.nents
      → Completes w p k s
      → Rounds w p pieces r (k + 1) (xfer_round w p k s)
      → Rounds w p pieces r k s
  stop :
      {k : ℕ} {s : Ended} (e : Errno)
      → Breaks w p k s e
      → s.req.sw_desc_idx < length pieces
      → r ≡ stopped_at pieces s.req.sw_desc_idx e
      → Rounds w p pieces r k s

pub sum-drop_all : (n : ℕ) (ds : List SwDesc) → length ds ≤ n → sum_len (drop n ds) ≡ 0
unfolding sum_len
sum-drop_all zero [] h = refl
sum-drop_all zero (d ∷ ds) h = absurd (omega arith)
sum-drop_all (suc n) [] h = refl
sum-drop_all (suc n) (d ∷ ds) h = sum-drop_all n ds (omega arith)

pub ret_ok : (s : Ended) → s.rv ≡ ok → ret s ≡ count s.done
ret_ok s h = ground arith

ret_bad :
    (s : Ended) (pieces : List SwDesc) (i : ℕ) (e : Errno)
    → s.rv ≡ err e
    → s.done ≡ sum_len (take i pieces)
    → ret s ≡ stopped_at pieces i e
ret_bad s pieces i e r d = rw (r, d) refl

-- What is moved before a round are the pieces before it.
moved_before :
    (total used : ℕ) (s : Ended) (pieces : List SwDesc)
    → IsGoing total used s
    → s.req.sdesc ≡ pieces
    → total ≡ sum_len pieces
    → s.done ≡ sum_len (take s.req.sw_desc_idx pieces)
moved_before total used s pieces g eq t = omega (
  arith,
  g.sum,
  sum-split s.req.sw_desc_idx s.req.sdesc,
  ap sum_len eq,
  ap (λ ds. sum_len (take s.req.sw_desc_idx ds)) eq,
)

all_moved : (total used : ℕ) (s : Ended) → IsGoing total used s → s.nents ≡ 0 → s.done ≡ total
all_moved total used s g z =
    let gone : left s.req ≡ 0 =
      sum-drop_all s.req.sw_desc_idx s.req.sdesc (omega (arith, g.place)) in
    omega (arith, g.sum, gone)

pub loop_rounds :
    (w : World) (p fuel k total used : ℕ) (pieces : List SwDesc) (s : Ended)
    → Calm w p
    → IsGoing total used s
    → s.rv ≡ ok
    → s.req.sdesc ≡ pieces
    → total ≡ sum_len pieces
    → s.nents < fuel
    → total < 2 ^ 32
    → used + s.chan.desc_max < 2 ^ 32
    → (s' : Ended) × (xfer_loop w p fuel k s ≡ some s') × Rounds w p pieces (ret s') k s
unfolding xfer_loop
loop_rounds w p zero k total used pieces s c g r eq t f small few = absurd (omega arith)
loop_rounds w p (suc fuel) k total used pieces s c g r eq t f small few =
    elim (ℕ_discrete s.nents 0) [
      | yes z ↦ (s, rw z, all z (ret_ok s r ∙ ap count (all_moved total used s g z ∙ t)))
      | no nz ↦
          let more : (s.nents == 0) ≡ false = ground arith in
          let s1 = xfer_round w p k s in
          let frame = round_frame w p k s in
          elim (round_cases w p k total used s c g (omega arith) small few) [
            | inl (r', g', less) ↦ elim (round_outcome w p k s) [
              | inl (done, _) ↦
                  let go : is_err s1.rv ≡ false = ap is_err r' in
                  let (s', e, rest) =
                    loop_rounds w p fuel (k + 1) total used pieces s1 c g' r' (frame.0 ∙ eq) t
                      (omega arith) small (omega (arith, frame.1)) in
                  (s', rw (more, go) e, next (omega arith) done rest)
              | inr (e, _, bad) ↦ let u : ok ≡ err e = sym r' ∙ bad in absurd (cc)
            ]
            | inr stops ↦ elim (round_outcome w p k s) [
              | inl (_, fine) ↦ let u : true ≡ false = sym stops.bad ∙ ap is_err fine in absurd (cc)
              | inr (e, why, bad) ↦
                  let moved = moved_before total used s pieces g eq t in
                  (
                    s1,
                    rw (more, stops.bad),
                    stop e why (rw (← eq) (omega (arith, g.place)))
                        (ret_bad s1 pieces s.req.sw_desc_idx e bad (stops.same ∙ moved)),
                  )
            ]
          ]
    ]
