-- ===== src/Sgdma/Dbuf/Leaks.antt =====
-- Where double buffering of cdev_sgdma.c frees memory too early, returns stale blocks, or comes to a standstill.
use xdma_fpga.Base.{
  ℕ, zero, suc, Bool, true, false, List, [], ◌∷◌, ◌≡◌, ◌≢◌, inl, inr, arith, refl, ◌∙◌, sym, Rv, ok,
  err, Errno, All,
}
use xdma_fpga.Sgdma.Dbuf.Stream.{IsStream, Holds, Side-cases}
use xdma_fpga.Sgdma.Dbuf.{
  Side, left, right, flip, Dbuf, slot, transfer_done, ioctl_do_dbuf_stop, failure, waiting,
  read_slot, block,
}

-- `ioctl_do_dbuf_stop` frees both buffers at once. If a transfer is still queued, the device writes its block to
-- memory that is freed.
pub stop_strays :
    (d : Dbuf) (i : Side) (rest : List Side)
    → d.active ≡ true
    → d.queue ≡ i ∷ rest
    → (transfer_done (ioctl_do_dbuf_stop d) false).stray ≡ true
unfolding ioctl_do_dbuf_stop transfer_done
stop_strays d left rest a q = ground arith
stop_strays d right rest a q = ground arith

-- Where the transfer of the buffer at `read_idx` is next and fails, the device has written nothing, yet double
-- buffering stays active and the next read returns the old content of the buffer as a block.
failed_reads_stale :
    (d : Dbuf) (rest : List Side) (count : ℕ)
    → d.active ≡ true
    → d.queue ≡ d.read_idx ∷ rest
    → let d' = transfer_done d true in
      (d'.produced ≡ d.produced)
      × (d'.active ≡ true)
      × ((read_slot d' count false true ok).0 ≡ block (slot d d.read_idx).content count)
unfolding transfer_done read_slot
failed_reads_stale d rest count a q = elim (Side-cases d.read_idx) [
  | inl l ↦ (ground arith, ground arith, ground arith)
  | inr r ↦ (ground arith, ground arith, ground arith)
]

-- The buffer at `read_idx` is neither filled nor queued, while double buffering is active.
pub record IsStuck (d : Dbuf) : Type 0 where
  pub on : d.active ≡ true
  pub empty : (slot d d.read_idx).filled ≡ false
  pub gone : All (λ i. i ≢ d.read_idx) d.queue

-- Transfers that end well.
unfoldable pub all_done : ℕ → Dbuf → Dbuf
all_done zero d = d
all_done (suc n) d = all_done n (transfer_done d false)

flip-ne : (i : Side) → flip i ≢ i
flip-ne left e = cc
flip-ne right e = cc

gone_of :
    (d : Dbuf) (q : List Side) (j : Side)
    → d.queue ≡ q
    → d.read_idx ≡ j
    → All (λ i. i ≢ j) q
    → All (λ i. i ≢ d.read_idx) d.queue
gone_of d q j e r g = rw (e, r) g

-- A transfer that ends leaves the buffer at `read_idx` stuck.
ended-IsStuck :
    (d : Dbuf) (q : List Side) (j : Side)
    → d.queue ≡ q
    → d.read_idx ≡ j
    → d.active ≡ true
    → (slot d j).filled ≡ false
    → All (λ i. i ≢ j) q
    → IsStuck (transfer_done d false)
unfolding transfer_done
ended-IsStuck d [] j e r a f g =
    let same : transfer_done d false ≡ d = ground arith in
    rw same (record { on = a; empty = rw r f; gone = rw e tt })
ended-IsStuck d (left ∷ q) left e r a f g = absurd (g.0 refl)
ended-IsStuck d (right ∷ q) right e r a f g = absurd (g.0 refl)
ended-IsStuck d (left ∷ q) right e r a f g = record {
  on = ground arith;
  empty = ground arith;
  gone = gone_of (transfer_done d false) q right (ground arith) (ground arith) g.1;
}
ended-IsStuck d (right ∷ q) left e r a f g = record {
  on = ground arith;
  empty = ground arith;
  gone = gone_of (transfer_done d false) q left (ground arith) (ground arith) g.1;
}

done-IsStuck : (d : Dbuf) → IsStuck d → IsStuck (transfer_done d false)
done-IsStuck d v = ended-IsStuck d d.queue d.read_idx refl refl v.on v.empty v.gone

all_done-IsStuck : (n : ℕ) (d : Dbuf) → IsStuck d → IsStuck (all_done n d)
unfolding all_done
all_done-IsStuck zero d v = v
all_done-IsStuck (suc n) d v = all_done-IsStuck n (transfer_done d false) (done-IsStuck d v)

stuck_waits :
    (d : Dbuf) (count : ℕ) (copied : Bool) (answer : Rv)
    → IsStuck d
    → (read_slot d count false copied answer).0 ≡ waiting
unfolding read_slot
stuck_waits d count copied answer v = ground arith

refused-IsStuck :
    (d : Dbuf) (n count : ℕ) (e : Errno)
    → d.active ≡ true
    → Holds d n
    → (slot d d.read_idx).filled ≡ true
    → let (r, d') = read_slot d count false true (err e) in (r ≡ failure e) × IsStuck d'
unfolding read_slot
refused-IsStuck d n count e a o f = elim (Side-cases d.read_idx) [
  | inl l ↦ (
    ground arith,
    record {
      on = ground arith;
      empty = ground arith;
      gone =
          gone_of (read_slot d count false true (err e)).1 d.queue left (ground arith)
            (ground arith) (queue_left o l);
    },
  )
  | inr r ↦ (
    ground arith,
    record {
      on = ground arith;
      empty = ground arith;
      gone =
          gone_of (read_slot d count false true (err e)).1 d.queue right (ground arith)
            (ground arith) (queue_right o r);
    },
  )
]
  where
    queue_left : Holds d n → d.read_idx ≡ left → All (λ i. i ≢ left) d.queue
    queue_left (inl h) l = let t : true ≡ false = sym f ∙ h.1 in absurd (cc)
    queue_left (inr (inl h)) l = rw (h.0, l) (flip-ne left, tt)
    queue_left (inr (inr h)) l = rw h.0 tt

    queue_right : Holds d n → d.read_idx ≡ right → All (λ i. i ≢ right) d.queue
    queue_right (inl h) l = let t : true ≡ false = sym f ∙ h.1 in absurd (cc)
    queue_right (inr (inl h)) l = rw (h.0, l) (flip-ne right, tt)
    queue_right (inr (inr h)) l = rw h.0 tt

-- A read that has copied a block, but whose new submission is refused, fails and gets the stream stuck. However many
-- transfers end well after it, every later read waits, also where its own submission would be granted.
pub refused_sticks :
    (d : Dbuf) (n count k later : ℕ) (e : Errno) (copied : Bool) (answer : Rv)
    → d.active ≡ true
    → IsStream d n
    → (slot d d.read_idx).filled ≡ true
    → let (r, d') = read_slot d count false true (err e) in
      (r ≡ failure e) × ((read_slot (all_done k d') later false copied answer).0 ≡ waiting)
refused_sticks d n count k later e copied answer a v f =
    let (r, stuck) = refused-IsStuck d n count e a v.order f in
    let d' = (read_slot d count false true (err e)).1 in
    (r, stuck_waits (all_done k d') later copied answer (all_done-IsStuck k d' stuck))
