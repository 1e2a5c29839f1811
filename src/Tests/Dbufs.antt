-- ===== src/Tests/Dbufs.antt =====
-- Double buffering of cdev_sgdma.c at concrete inputs.
use xdma_fpga.Base.{Bool, true, false, List, [], ◌∷◌, ◌≡◌, refl, arith, ok, err, enomem, inl, inr}
use xdma_fpga.Sgdma.Dbuf.{
  Side, left, right, Slot, Dbuf, Answers, transfer_done, read_slot, ioctl_do_dbuf_start,
  ioctl_do_dbuf_stop, failure, waiting,
}
use xdma_fpga.Sgdma.Dbuf.Stream.{IsStream, Whole, here, done, reads, Run-Whole, start-IsStream}
use xdma_fpga.Sgdma.Dbuf.Leaks.{all_done, stop_strays, refused_sticks}

abbrev empty_slot : Bool → Slot
empty_slot virt = record { virt = virt; size = 8192; filled = false; content = 0 }

abbrev with_queue : Bool → List Side → Dbuf
with_queue on q = record {
  active = on;
  size = 8192;
  ep_addr = 0;
  read_idx = left;
  slot_left = empty_slot on;
  slot_right = empty_slot on;
  queue = q;
  produced = 0;
  stray = false;
}

abbrev started : Dbuf
started = with_queue true (left ∷ right ∷ [])

started-IsStream : IsStream started 0
started-IsStream = record {
  memory_left = refl;
  memory_right = refl;
  kept = refl;
  order = inl (refl, refl, refl, refl);
}

-- Two transfers end and three reads are woken.
Run-Whole_example :
    let d1 = transfer_done (transfer_done started false) false in
    let d2 = (read_slot d1 8192 false true ok).1 in
    let d3 = (read_slot d2 8192 false true ok).1 in
    Whole (read_slot d3 8192 false true ok).1 (1 ∷ 0 ∷ [])
unfolding transfer_done read_slot
Run-Whole_example =
    Run-Whole started-IsStream
      (reads (reads (reads (done (done here)) 8192 false true) 8192 false true) 8192 false true)

abbrev willing : Answers
willing = record {
  copied = true;
  version_ok = true;
  memory = λ i. true;
  table = λ i. true;
  submits = λ i. ok;
}

start-IsStream_example :
    let (rv, d') = ioctl_do_dbuf_start willing 8192 0 (with_queue false []) in
    (rv ≡ ok) × (d'.active ≡ true) × IsStream d' 0
start-IsStream_example =
    start-IsStream willing 8192 0 (with_queue false []) refl refl refl refl refl refl
      (λ i. (refl, refl, refl)) (omega arith) (omega arith)

stop_strays_example : (transfer_done (ioctl_do_dbuf_stop started) false).stray ≡ true
stop_strays_example = stop_strays started left (right ∷ []) refl refl

-- The left buffer is filled.
abbrev half : Dbuf
half = record started {
  slot_left = record (empty_slot true) { filled = true };
  queue = right ∷ [];
  produced = 1;
}

half-IsStream : IsStream half 0
half-IsStream = record {
  memory_left = refl;
  memory_right = refl;
  kept = refl;
  order = inr (inl (refl, refl, refl, refl, refl));
}

refused_sticks_example :
    let (r, d') = read_slot half 8192 false true (err enomem) in
    (r ≡ failure enomem) × ((read_slot (all_done 9 d') 8192 false true ok).0 ≡ waiting)
refused_sticks_example = refused_sticks half 0 8192 9 8192 enomem true ok refl half-IsStream refl
