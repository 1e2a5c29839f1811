-- ===== src/Sgdma/Dbuf/Stream.antt =====
-- Double buffering of cdev_sgdma.c keeps the stream whole: reads return the device's blocks one after another.
use xdma_fpga.Base.{
  ℕ, zero, suc, ◌+◌, Bool, true, false, List, [], ◌∷◌, ◌≡◌, ◌⊎◌, inl, inr, arith, refl, ◌∙◌, sym,
  ok, Bool-cases, subst, ap, ◌%◌, ◌<◌, ◌==◌,
}
use xdma_fpga.Sgdma.Dbuf.{
  Side, left, right, flip, Dbuf, slot, transfer_done, ioctl_do_dbuf_start, ioctl_do_dbuf_stop,
  Answers, ReadResult, block, failure, restart, single, waiting, read_slot, page_size,
}

-- The next block to be read is `n`: the buffer at `read_idx` has it or will have it, and the other buffer the
-- block behind it. What is not filled is on the engine's queue, in order.
abbrev pub Holds : Dbuf → ℕ → Type 0
Holds d n =
    ((d.queue ≡ d.read_idx ∷ flip d.read_idx ∷ [])
      × ((slot d d.read_idx).filled ≡ false)
      × ((slot d (flip d.read_idx)).filled ≡ false)
      × (d.produced ≡ n))
    ⊎ ((d.queue ≡ flip d.read_idx ∷ [])
        × ((slot d d.read_idx).filled ≡ true)
        × ((slot d (flip d.read_idx)).filled ≡ false)
        × ((slot d d.read_idx).content ≡ n)
        × (d.produced ≡ n + 1))
    ⊎ ((d.queue ≡ [])
        × ((slot d d.read_idx).filled ≡ true)
        × ((slot d (flip d.read_idx)).filled ≡ true)
        × ((slot d d.read_idx).content ≡ n)
        × ((slot d (flip d.read_idx)).content ≡ n + 1)
        × (d.produced ≡ n + 2))

-- While double buffering is active: both buffers have memory, no block went astray, and block `n` is next.
pub record IsStream (d : Dbuf) (n : ℕ) : Type 0 where
  pub memory_left : d.slot_left.virt ≡ true
  pub memory_right : d.slot_right.virt ≡ true
  pub kept : d.stray ≡ false
  pub order : Holds d n

-- The blocks that a read hands over, before those of the reads earlier on.
abbrev pub taken : ReadResult → List ℕ → List ℕ
taken (block m count) bs = m ∷ bs
taken (failure e) bs = bs
taken restart bs = bs
taken single bs = bs
taken waiting bs = bs

-- A history: transfers end well, reads are woken and get their new submission queued, and double buffering is
-- stopped. The list has the blocks that were read, the newest first.
pub data Run (s : Dbuf) : Dbuf → List ℕ → Type 0 where
  here : Run s s []
  done : {d : Dbuf} {bs : List ℕ} → Run s d bs → Run s (transfer_done d false) bs
  reads :
      {d : Dbuf} {bs : List ℕ}
      → Run s d bs
      → (count : ℕ) (signal copied : Bool)
      → Run s
          (read_slot d count signal copied ok).1
          (taken (read_slot d count signal copied ok).0 bs)
  stops : {d : Dbuf} {bs : List ℕ} → Run s d bs → Run s (ioctl_do_dbuf_stop d) bs

pub Side-cases : (i : Side) → (i ≡ left) ⊎ (i ≡ right)
Side-cases left = inl refl
Side-cases right = inr refl

done-IsStream :
    (d : Dbuf) (n : ℕ) → d.active ≡ true → IsStream d n → IsStream (transfer_done d false) n
unfolding transfer_done
done-IsStream d n a v = elim (Side-cases d.read_idx) [
  | inl l ↦ elim v.order [
    | inl o ↦ record {
      memory_left = ground arith;
      memory_right = ground arith;
      kept = ground arith;
      order = inr (inl (ground arith));
    }
    | inr (inl o) ↦ record {
      memory_left = ground arith;
      memory_right = ground arith;
      kept = ground arith;
      order = inr (inr (ground arith));
    }
    | inr (inr o) ↦ record {
      memory_left = ground arith;
      memory_right = ground arith;
      kept = ground arith;
      order = inr (inr (ground arith));
    }
  ]
  | inr r ↦ elim v.order [
    | inl o ↦ record {
      memory_left = ground arith;
      memory_right = ground arith;
      kept = ground arith;
      order = inr (inl (ground arith));
    }
    | inr (inl o) ↦ record {
      memory_left = ground arith;
      memory_right = ground arith;
      kept = ground arith;
      order = inr (inr (ground arith));
    }
    | inr (inr o) ↦ record {
      memory_left = ground arith;
      memory_right = ground arith;
      kept = ground arith;
      order = inr (inr (ground arith));
    }
  ]
]

read_cases :
    (d : Dbuf) (n count : ℕ) (signal copied : Bool)
    → d.active ≡ true
    → IsStream d n
    → let (r, d') = read_slot d count signal copied ok in
      ((r ≡ block n count) × IsStream d' (n + 1)) ⊎ ((d' ≡ d) × ((bs : List ℕ) → taken r bs ≡ bs))
unfolding read_slot
read_cases d n count true copied a v = inr (refl, λ bs. refl)
read_cases d n count false false a v = inr (ground arith, λ bs. ground arith)
read_cases d n count false true a v = elim (Side-cases d.read_idx) [
  | inl l ↦ elim v.order [
    | inl o ↦ inr (ground arith, λ bs. ground arith)
    | inr (inl o) ↦ inl (
      ground arith,
      record {
        memory_left = ground arith;
        memory_right = ground arith;
        kept = ground arith;
        order = inl (ground arith);
      },
    )
    | inr (inr o) ↦ inl (
      ground arith,
      record {
        memory_left = ground arith;
        memory_right = ground arith;
        kept = ground arith;
        order = inr (inl (ground arith));
      },
    )
  ]
  | inr r ↦ elim v.order [
    | inl o ↦ inr (ground arith, λ bs. ground arith)
    | inr (inl o) ↦ inl (
      ground arith,
      record {
        memory_left = ground arith;
        memory_right = ground arith;
        kept = ground arith;
        order = inl (ground arith);
      },
    )
    | inr (inr o) ↦ inl (
      ground arith,
      record {
        memory_left = ground arith;
        memory_right = ground arith;
        kept = ground arith;
        order = inr (inl (ground arith));
      },
    )
  ]
]

-- The first `n` blocks, the newest first.
abbrev pub countdown : ℕ → List ℕ
countdown zero = []
countdown (suc n) = n ∷ countdown n

-- What has been read are the blocks from 0 on, and while double buffering is active block `n` is next.
abbrev pub Whole : Dbuf → List ℕ → Type 0
Whole d bs = (n : ℕ) × (bs ≡ countdown n) × ((d.active ≡ true) → IsStream d n)

inactive_done : (d : Dbuf) → d.active ≡ false → (transfer_done d false).active ≡ false
unfolding transfer_done
inactive_done d a = ground arith

inactive_read :
    (d : Dbuf) (count : ℕ) (signal copied : Bool)
    → d.active ≡ false
    → let (r, d') = read_slot d count signal copied ok in
      (d' ≡ d) × ((bs : List ℕ) → taken r bs ≡ bs)
unfolding read_slot
inactive_read d count signal copied a = (ground arith, λ bs. ground arith)

stopped : (d : Dbuf) → (ioctl_do_dbuf_stop d).active ≡ false
unfolding ioctl_do_dbuf_stop
stopped d = ground arith

done-Whole : (d : Dbuf) (bs : List ℕ) → Whole d bs → Whole (transfer_done d false) bs
done-Whole d bs (n, e, v) = elim (Bool-cases d.active) [
  | inr off ↦ (n, e, λ on. let t : true ≡ false = sym on ∙ inactive_done d off in absurd (cc))
  | inl on ↦ (n, e, λ _. done-IsStream d n on (v on))
]

read-Whole :
    (d : Dbuf) (bs : List ℕ) (count : ℕ) (signal copied : Bool)
    → Whole d bs
    → let (r, d') = read_slot d count signal copied ok in Whole d' (taken r bs)
read-Whole d bs count signal copied (n, e, v) =
    let r = (read_slot d count signal copied ok).0 in
    let d' = (read_slot d count signal copied ok).1 in
    let still : (d' ≡ d) → (taken r bs ≡ bs) → Whole d' (taken r bs) = λ same none_taken.
      subst (λ x. Whole x (taken r bs)) (sym same) (subst (Whole d) (sym none_taken) (n, e, v)) in
    elim (Bool-cases d.active) [
      | inr off ↦
          let (same, none_taken) = inactive_read d count signal copied off in
          still same (none_taken bs)
      | inl on ↦ elim (read_cases d n count signal copied on (v on)) [
        | inl (got, v') ↦ (n + 1, ap (λ x. taken x bs) got ∙ next_block n bs e, λ _. v')
        | inr (same, none_taken) ↦ still same (none_taken bs)
      ]
    ]
  where
    next_block : (k : ℕ) (l : List ℕ) → l ≡ countdown k → k ∷ l ≡ countdown (k + 1)
    next_block k l h = let more : k + 1 ≡ suc k = omega arith in rw (more, h) refl

-- From a pair of buffers that is a stream, whatever transfers end, none of them with a failure, however reads are
-- woken, and with a stop at any time: the blocks that were read are the first that the device wrote, each once and in order,
-- and while double buffering is active the next block is the one behind them, both buffers have memory, and
-- no block went astray. (Each new submission of a read is queued.)
pub Run-Whole : {s d : Dbuf} {bs : List ℕ} → IsStream s 0 → Run s d bs → Whole d bs
Run-Whole v here = (0, refl, λ _. v)
Run-Whole {s} v (done {d} {bs} r) = done-Whole d bs (Run-Whole v r)
Run-Whole {s} v (reads {d} {bs} r count signal copied) =
    read-Whole d bs count signal copied (Run-Whole v r)
Run-Whole {s} v (stops {d} {bs} r) =
    let (n, e, _) = Run-Whole v r in
    (n, e, λ on. let t : true ≡ false = sym on ∙ stopped d in absurd (cc))

-- Where nothing is queued on the channel yet, the kernel grants all, and the size is a positive number of pages,
-- `ioctl_do_dbuf_start` returns 0 and starts a stream.
pub start-IsStream :
    (a : Answers) (buf_size ep_addr : ℕ) (d : Dbuf)
    → d.active ≡ false
    → d.queue ≡ []
    → d.produced ≡ 0
    → d.stray ≡ false
    → a.copied ≡ true
    → a.version_ok ≡ true
    → ((i : Side) → (a.memory i ≡ true) × (a.table i ≡ true) × (a.submits i ≡ ok))
    → 0 < buf_size
    → buf_size % page_size ≡ 0
    → let (rv, d') = ioctl_do_dbuf_start a buf_size ep_addr d in
      (rv ≡ ok) × (d'.active ≡ true) × IsStream d' 0
unfolding ioctl_do_dbuf_start
start-IsStream a buf_size ep_addr d off q z k c vn all pos pages =
    let nz : (buf_size == 0) ≡ false = ground arith in
    let aligned : (buf_size % page_size == 0) ≡ true = ground arith in
    let l = all left in
    let r = all right in
    simp (off, q, z, k, c, vn, nz, aligned, l.0, l.1, l.2, r.0, r.1, r.2)
      (
        refl,
        refl,
        record {
          memory_left = refl;
          memory_right = refl;
          kept = refl;
          order = inl (refl, refl, refl, refl);
        },
      )
