-- ===== src/Xfer/Served.antt =====
-- `xdma_xfer_submit` of libxdma.c where the device serves every transfer, and where the engine refuses one.
use xdma_fpga.Base.{
  ℕ, zero, suc, ◌+◌, ◌^◌, ◌<◌, ◌==◌, true, false, List, [], ◌∷◌, ◌≡◌, inl, inr, arith, length, refl,
  sym, ap, ◌∙◌, ok, err, is_err, some, All, ebusy,
}
use native.Mathlib.Decide.{ℕ_discrete}
use xdma_fpga.Engine.{Engine, completed}
use xdma_fpga.Engine.Submit.{transfer_queue}
use xdma_fpga.Request.{SwDesc, XdmaRequest, xdma_init_request, transfer_init, slots}
use xdma_fpga.Request.Program.{sum_len}
use xdma_fpga.Request.Slots.{IsRing, transfer_init-IsRing}
use xdma_fpga.Request.Segments.{Fits, init_request_covers}
use xdma_fpga.Xfer.{
  World, Ended, Channel, Call, count, error, ring_of, built, xfer_round, xfer_loop, submit_request,
  xdma_xfer_submit,
}
use xdma_fpga.Xfer.Parts.{Calm}
use xdma_fpga.Xfer.Round.{
  IsGoing, round_cases, xfer_round_lem, queued, queued-Waited, during-Waited, after_completed,
  round_with,
}
use xdma_fpga.Xfer.Loop.{round_frame}
use xdma_fpga.Xfer.Submit.{
  IsReady, IsAccepted, start_of, start-IsGoing, sum-CoversAll, accepted_lem,
}
use xdma_fpga.Xfer.Loop.{sum-drop_all, ret_ok}

-- Every wait ends with the transfer completed, and nobody asks the engine to shut down.
pub record IsServing (w : World) (p : ℕ) : Type 0 where
  pub online : w.offline ≡ false
  pub finishes : (k : ℕ) (e : Engine) → ((w.during k e).xfers p).state ≡ completed
  pub stays_open : (k : ℕ) (e : Engine) → (w.during k e).shutdown_request ≡ false

queued_ok :
    (w : World) (p : ℕ) (s : Ended)
    → w.offline ≡ false
    → s.chan.engine.shutdown_request ≡ false
    → 0 < slots s.req (ring_of s.chan)
    → (queued w p s).0 ≡ ok
unfolding transfer_queue built transfer_init
queued_ok w p s o c pos = ground arith

round_served :
    (w : World) (p k total used : ℕ) (s : Ended)
    → Calm w p
    → IsServing w p
    → IsGoing total used s
    → 0 < s.nents
    → s.chan.engine.shutdown_request ≡ false
    → let s' = xfer_round w p k s in (s'.rv ≡ ok) × (s'.chan.engine.shutdown_request ≡ false)
unfolding transfer_init
round_served w p k total used s calm serving g pos open_ =
    let r = ring_of s.chan in
    let n = slots s.req r in
    let inside : s.req.sw_desc_idx < length s.req.sdesc = omega (arith, g.place) in
    let bounds = transfer_init-IsRing s.req r g.ring inside in
    let q = queued w p s in
    let fine : q.0 ≡ ok = queued_ok w p s serving.online open_ bounds.0 in
    let e = w.during k q.1 in
    let v = during-Waited w p used n k q.1 calm (queued-Waited w p total used s g) in
    let len = (transfer_init s.req r).0.len in
    rw
      (
        xfer_round_lem w p k s,
        fine,
        after_completed w p k len (round_with p s ok e) (serving.finishes k q.1) v.mode,
      )
      (refl, serving.stays_open k q.1)

loop_served :
    (w : World) (p fuel k total used : ℕ) (s : Ended)
    → Calm w p
    → IsServing w p
    → IsGoing total used s
    → s.rv ≡ ok
    → s.chan.engine.shutdown_request ≡ false
    → s.nents < fuel
    → total < 2 ^ 32
    → used + s.chan.desc_max < 2 ^ 32
    → (s' : Ended) × (xfer_loop w p fuel k s ≡ some s')
      × (s'.rv ≡ ok)
      × (s'.nents ≡ 0)
      × IsGoing total used s'
unfolding xfer_loop
loop_served w p zero k total used s c v g r o f small few = absurd (omega arith)
loop_served w p (suc fuel) k total used s c v g r o f small few = elim (ℕ_discrete s.nents 0) [
  | yes z ↦ (s, rw z, r, z, g)
  | no nz ↦
      let more : (s.nents == 0) ≡ false = ground arith in
      let s1 = xfer_round w p k s in
      let (fine, open_) = round_served w p k total used s c v g (omega arith) o in
      let go : is_err s1.rv ≡ false = ap is_err fine in
      elim (round_cases w p k total used s c g (omega arith) small few) [
        | inl (r', g', less) ↦
            let (s', e, good, none_left, g'') =
              loop_served w p fuel (k + 1) total used s1 c v g' r' open_ (omega arith) small
                (omega (arith, (round_frame w p k s).1)) in
            (s', rw (more, go) e, good, none_left, g'')
        | inr stop ↦ let t : true ≡ false = sym stop.bad ∙ go in absurd (cc)
      ]
]

-- Where the call is accepted, there is memory, and the device serves every transfer, `xdma_xfer_submit`
-- returns the length of the whole scatter list, and the count of used descriptors is what it was.
-- (Conditions as before: waits are calm, entries fit, and the engine is ready.)
pub submit_whole :
    (w : World) (p : ℕ) (a : Call) (c : Channel)
    → Calm w p
    → IsServing w p
    → IsAccepted w a c
    → ((n : ℕ) → a.alloc n ≡ true)
    → 0 < a.blen_max
    → All (Fits a.blen_max) a.mapped
    → IsReady c (sum_len a.mapped)
    → c.engine.shutdown_request ≡ false
    → (c' : Channel) × (xdma_xfer_submit w p a c ≡ some (count (sum_len a.mapped), c'))
      × (c'.engine.desc_used ≡ c.engine.desc_used)
      × IsRing (ring_of c')
unfolding submit_request
submit_whole w p a c calm serving acc mem b fits v o =
    elim (init_request_covers a.blen_max a.alloc a.mapped a.ep_addr b fits) [
      | inl (none_left, _) ↦ let t : true ≡ false = sym (mem _) ∙ none_left in absurd (cc)
      | inr (_, req, r, covers, _, _, z) ↦
          let same = sum-CoversAll a.blen_max a.mapped req.sdesc covers in
          let v' : IsReady c (sum_len req.sdesc) = rw same v in
          let (s, e, good, gone, g) =
            loop_served w p (length req.sdesc + 1) 0 (sum_len req.sdesc) c.engine.desc_used
              (start_of c req) calm serving (start-IsGoing c req v' z) refl o (omega arith) v'.small
              v'.few in
          let moved : s.done ≡ sum_len a.mapped = omega (
            arith,
            g.sum,
            same,
            sum-drop_all s.req.sw_desc_idx s.req.sdesc (omega (arith, g.place)),
          ) in
          let ends : submit_request w p c (some (some req))
              ≡ some (count (sum_len a.mapped), s.chan) =
            rw (e, submit_request)
              (ap (λ r'. some (r', s.chan)) (ret_ok s good ∙ ap count moved)) in
          (s.chan, accepted_lem w p a c acc ∙ (rw r ends), g.counted, g.ring)
    ]

queued_refused :
    (w : World) (p : ℕ) (s : Ended)
    → w.offline ≡ false
    → s.chan.engine.shutdown_request ≡ true
    → 0 < slots s.req (ring_of s.chan)
    → let q = queued w p s in
      (q.0 ≡ err ebusy)
      × (q.1.transfer_list ≡ s.chan.engine.transfer_list)
      × (q.1.desc_used ≡ s.chan.engine.desc_used + slots s.req (ring_of s.chan))
unfolding transfer_queue built transfer_init
queued_refused w p s o c pos = (ground arith, ground arith, ground arith)

loop_refused :
    (w : World) (p fuel k : ℕ) (s s1 : Ended)
    → 0 < fuel
    → 0 < s.nents
    → xfer_round w p k s ≡ s1
    → is_err s1.rv ≡ true
    → xfer_loop w p fuel k s ≡ some s1
unfolding xfer_loop
loop_refused w p zero k s s1 f pos e bad = absurd (omega arith)
loop_refused w p (suc fuel) k s s1 f pos e bad =
    let more : (s.nents == 0) ≡ false = ground arith in rw (more, e, bad) refl

has_pieces : (ds : List SwDesc) → 0 < sum_len ds → 0 < length ds
unfolding sum_len
has_pieces [] h = h
has_pieces (d ∷ ds) h = omega arith

-- Where an accepted call meets an engine that was asked to shut down, `xdma_xfer_submit` fails with -EBUSY
-- and queues nothing, but the count of used descriptors stays raised by the descriptors, one at least, of
-- the transfer that `transfer_init` built of the request. (There is memory, and a byte to move; entries fit,
-- and the engine is ready.)
pub submit_leaks :
    (w : World) (p : ℕ) (a : Call) (c : Channel)
    → IsAccepted w a c
    → ((n : ℕ) → a.alloc n ≡ true)
    → 0 < a.blen_max
    → All (Fits a.blen_max) a.mapped
    → IsReady c (sum_len a.mapped)
    → 0 < sum_len a.mapped
    → c.engine.shutdown_request ≡ true
    → (req : XdmaRequest) × (c' : Channel) × (xdma_init_request a.blen_max a.alloc a.mapped
          a.ep_addr
        ≡ some (some req))
      × (xdma_xfer_submit w p a c ≡ some (error ebusy, c'))
      × (c'.engine.transfer_list ≡ c.engine.transfer_list)
      × (c'.engine.desc_used ≡ c.engine.desc_used + (transfer_init req (ring_of c)).0.num)
      × (0 < (transfer_init req (ring_of c)).0.num)
unfolding submit_request transfer_init
submit_leaks w p a c acc mem b fits v some_len o =
    elim (init_request_covers a.blen_max a.alloc a.mapped a.ep_addr b fits) [
      | inl (none_left, _) ↦ let t : true ≡ false = sym (mem _) ∙ none_left in absurd (cc)
      | inr (_, req, r, covers, _, _, z) ↦
          let same = sum-CoversAll a.blen_max a.mapped req.sdesc covers in
          let pieces : req.sw_desc_idx < length req.sdesc =
            rw z (has_pieces req.sdesc (rw same some_len)) in
          let bounds = transfer_init-IsRing req (ring_of c) v.ring pieces in
          let s = start_of c req in
          let q = queued w p s in
          let (busy, l, u) = queued_refused w p s acc.online o bounds.0 in
          let s1 = round_with p s (err ebusy) q.1 in
          let round : xfer_round w p 0 s ≡ s1 = rw (xfer_round_lem w p 0 s, busy) refl in
          let e =
            loop_refused w p (length req.sdesc + 1) 0 s s1 (omega arith) (omega (arith, pieces))
              round refl in
          (
            req,
            s1.chan,
            r,
            accepted_lem w p a c acc ∙ (rw r (rw (e, submit_request) refl)),
            l,
            u,
            bounds.0,
          )
    ]
