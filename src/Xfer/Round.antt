-- ===== src/Xfer/Round.antt =====
-- One round of the loop of `xdma_xfer_submit`: it moves on by the transfer that it built, or ends the
-- loop with an error.
use xdma_fpga.Base.{
  ℕ, ◌+◌, ◌-◌, ◌^◌, ◌<◌, ◌==◌, true, false, ◌≡◌, ◌≢◌, ◌⊎◌, inl, inr, arith, length, refl, ap, ◌∙◌,
  Rv, ok, is_err, if◌then◌else◌, Bool-cases, sub32,
}
use xdma_fpga.Engine.{Engine, TransferState, completed}
use xdma_fpga.Engine.Submit.{transfer_queue, on_wait_timeout}
use xdma_fpga.Request.{transfer_init, slots}
use xdma_fpga.Request.Slots.{IsRing, transfer_init-IsRing}
use xdma_fpga.Xfer.{World, Ended, Channel, ring_of, transfer_of, built, after_wait, xfer_round}
use xdma_fpga.Xfer.Parts.{queue-Alike, timeout-Alike, left, transfer_init-left, Calm}

-- The release of the descriptors of the transfer `p` at the end of a round.
abbrev pub release : Channel → ℕ → Engine → Channel
release c p e = record c {
  engine = record e { desc_used = sub32 e.desc_used (e.xfers p).desc_num };
}

pub after_completed :
    (w : World) (p k len : ℕ) (s : Ended)
    → (s.chan.engine.xfers p).state ≡ completed
    → s.chan.engine.streaming ≡ false
    → after_wait w p k len s
      ≡ record s { rv = ok; chan = release s.chan p s.chan.engine; done = s.done + len }
unfolding after_wait
after_completed w p k len s c m = ground arith

after_other :
    (w : World) (p k len : ℕ) (s : Ended)
    → (s.chan.engine.xfers p).state ≢ completed
    → let s' = after_wait w p k len s in
      (is_err s'.rv ≡ true)
      × (s'.done ≡ s.done)
      × ((s'.chan ≡ release s.chan p s.chan.engine)
          ⊎ (s'.chan ≡ release s.chan p (on_wait_timeout w.host s.chan.engine p)))
unfolding after_wait
after_other w p k len s c = ground arith

-- What the round has built and queued, and the state that the wait hands to the switch.
abbrev pub queued : World → ℕ → Ended → Rv × Engine
queued w p s =
    let t = transfer_init s.req (ring_of s.chan) in
    transfer_queue w.host w.offline
      (built s.chan p t.2 (transfer_of t.0 (s.nents - t.0.num == 0))).engine p

abbrev pub round_with : ℕ → Ended → Rv → Engine → Ended
round_with p s rv e =
    let t = transfer_init s.req (ring_of s.chan) in
    record {
      rv = rv;
      chan = record (built s.chan p t.2 (transfer_of t.0 (s.nents - t.0.num == 0))) { engine = e };
      req = t.1;
      nents = s.nents - t.0.num;
      done = s.done;
    }

pub xfer_round_lem :
    (w : World) (p k : ℕ) (s : Ended)
    → let q = queued w p s in
      let t = transfer_init s.req (ring_of s.chan) in
      xfer_round w p k s ≡ (
        if is_err q.0
        then round_with p s q.0 q.1
        else after_wait w p k t.0.len (round_with p s q.0 (w.during k q.1)))
unfolding xfer_round
xfer_round_lem w p k s = refl

-- The loop between two rounds: the ring is one, what is left of the request is what is not moved, and the
-- count of used descriptors is the one before the loop.
pub record IsGoing (total used : ℕ) (s : Ended) : Type 0 where
  pub ring : IsRing (ring_of s.chan)
  pub place : s.req.sw_desc_idx + s.nents ≡ length s.req.sdesc
  pub mode : s.chan.engine.streaming ≡ false
  pub counted : s.chan.engine.desc_used ≡ used
  pub sum : s.done + left s.req ≡ total

-- A round that ends with an error has moved nothing. Behind a wait its descriptors are released; behind
-- a refusal they are not.
pub record IsStopped (w : World) (p used : ℕ) (s s' : Ended) : Type 0 where
  pub bad : is_err s'.rv ≡ true
  pub same : s'.done ≡ s.done
  pub count :
      ((is_err (queued w p s).0 ≡ false) × (s'.chan.engine.desc_used ≡ used))
      ⊎ ((is_err (queued w p s).0 ≡ true)
          × (s'.chan.engine.desc_used ≡ used + slots s.req (ring_of s.chan)))

-- What the switch finds behind the wait.
pub record Waited (p used num : ℕ) (e : Engine) : Type 0 where
  pub mode : e.streaming ≡ false
  pub count : e.desc_used ≡ used + num
  pub size : (e.xfers p).desc_num ≡ num

pub queued-Waited :
    (w : World) (p total used : ℕ) (s : Ended)
    → IsGoing total used s
    → Waited p used (slots s.req (ring_of s.chan)) (queued w p s).1
unfolding built transfer_init
queued-Waited w p total used s g =
    let t = transfer_init s.req (ring_of s.chan) in
    let c = built s.chan p t.2 (transfer_of t.0 (s.nents - t.0.num == 0)) in
    let a = queue-Alike w.host w.offline c.engine p in
    record {
      mode = a.1 ∙ g.mode;
      count = a.0 ∙ ap (λ u. u + slots s.req (ring_of s.chan)) g.counted;
      size = a.2 ∙ (ground arith);
    }

pub during-Waited :
    (w : World) (p used num k : ℕ) (e : Engine)
    → Calm w p
    → Waited p used num e
    → Waited p used num (w.during k e)
during-Waited w p used num k e c v = record {
  mode = c.mode k e ∙ v.mode;
  count = c.used k e ∙ v.count;
  size = c.size k e ∙ v.size;
}

released :
    (c : Channel) (p used num : ℕ) (e : Engine)
    → Waited p used num e
    → used + num < 2 ^ 32
    → (release c p e).engine.desc_used ≡ used
released c p used num e v h = rw (v.count, v.size) (omega arith)

-- A completed transfer leaves the loop going, with less of the request left.
completed-IsGoing :
    (w : World) (p k total used : ℕ) (s : Ended) (e : Engine)
    → IsGoing total used s
    → 0 < s.nents
    → left s.req < 2 ^ 32
    → used + s.chan.desc_max < 2 ^ 32
    → Waited p used (slots s.req (ring_of s.chan)) e
    → (e.xfers p).state ≡ completed
    → let s' =
        after_wait w p k (transfer_init s.req (ring_of s.chan)).0.len (round_with p s ok e) in
      (s'.rv ≡ ok) × IsGoing total used s' × (s'.nents < s.nents)
unfolding built transfer_init
completed-IsGoing w p k total used s e g pos small few v c =
    let r = ring_of s.chan in
    let n = slots s.req r in
    let inside : s.req.sw_desc_idx < length s.req.sdesc = omega (arith, g.place) in
    let bounds = transfer_init-IsRing s.req r g.ring inside in
    let moved = transfer_init-left s.req r g.ring inside small in
    let len = (transfer_init s.req r).0.len in
    rw (after_completed w p k len (round_with p s ok e) c v.mode) (
      refl,
      record {
        ring = record { size = bounds.5.size; inside = bounds.5.inside; on_bus = bounds.5.on_bus };
        place = omega (arith, g.place, bounds);
        mode = v.mode;
        counted = released (round_with p s ok e).chan p used n e v (omega (arith, bounds));
        sum = omega (arith, g.sum, moved);
      },
      omega (arith, bounds, pos),
    )

failed-IsStopped :
    (w : World) (p k total used : ℕ) (s : Ended) (e : Engine)
    → IsGoing total used s
    → 0 < s.nents
    → used + s.chan.desc_max < 2 ^ 32
    → is_err (queued w p s).0 ≡ false
    → Waited p used (slots s.req (ring_of s.chan)) e
    → (e.xfers p).state ≢ completed
    → IsStopped w p used s
        (after_wait w p k (transfer_init s.req (ring_of s.chan)).0.len (round_with p s ok e))
unfolding built transfer_init
failed-IsStopped w p k total used s e g pos few good v c =
    let r = ring_of s.chan in
    let n = slots s.req r in
    let s0 = round_with p s ok e in
    let inside : s.req.sw_desc_idx < length s.req.sdesc = omega (arith, g.place) in
    let bounds = transfer_init-IsRing s.req r g.ring inside in
    let room : used + n < 2 ^ 32 = omega (arith, bounds) in
    let f = after_other w p k (transfer_init s.req r).0.len s0 c in
    let late = timeout-Alike w.host e p in
    let v' : Waited p used n (on_wait_timeout w.host e p) = record {
      mode = late.1 ∙ v.mode;
      count = late.0 ∙ v.count;
      size = late.2 ∙ v.size;
    } in
    record {
      bad = f.0;
      same = f.1;
      count = inl (
        good,
        elim f.2 [
          | inl e' ↦
              ap (λ (x : Channel). x.engine.desc_used) e' ∙ released s0.chan p used n e v room
          | inr e' ↦
              ap (λ (x : Channel). x.engine.desc_used) e' ∙ released s0.chan p used n _ v' room
        ],
      );
    }

refused-IsStopped :
    (w : World) (p total used : ℕ) (s : Ended)
    → IsGoing total used s
    → is_err (queued w p s).0 ≡ true
    → IsStopped w p used s (round_with p s (queued w p s).0 (queued w p s).1)
refused-IsStopped w p total used s g bad = record {
  bad = bad;
  same = refl;
  count = inr (bad, (queued-Waited w p total used s g).count);
}

TransferState-discrete : Discrete TransferState
TransferState-discrete = hlevel

-- A round goes on or ends the loop.
pub round_cases :
    (w : World) (p k total used : ℕ) (s : Ended)
    → Calm w p
    → IsGoing total used s
    → 0 < s.nents
    → total < 2 ^ 32
    → used + s.chan.desc_max < 2 ^ 32
    → let s' = xfer_round w p k s in
      ((s'.rv ≡ ok) × IsGoing total used s' × (s'.nents < s.nents)) ⊎ IsStopped w p used s s'
round_cases w p k total used s calm g pos small few =
    let q = queued w p s in
    let n = slots s.req (ring_of s.chan) in
    let v : Waited p used n q.1 = queued-Waited w p total used s g in
    elim (Bool-cases (is_err q.0)) [
      | inl bad ↦ rw (xfer_round_lem w p k s, bad) (inr (refused-IsStopped w p total used s g bad))
      | inr good ↦
          let rv_ok : q.0 ≡ ok = ground arith in
          let e = w.during k q.1 in
          let v' = during-Waited w p used n k q.1 calm v in
          rw (xfer_round_lem w p k s, good, rv_ok)
            (elim (TransferState-discrete (e.xfers p).state completed) [
              | yes c ↦
                  inl (completed-IsGoing w p k total used s e g pos (omega (arith, g.sum)) few v' c)
              | no c ↦ inr (failed-IsStopped w p k total used s e g pos few good v' c)
            ])
    ]
