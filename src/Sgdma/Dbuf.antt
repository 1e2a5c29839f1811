-- ===== src/Sgdma/Dbuf.antt =====
-- xdma/cdev_sgdma.c, double buffering of a channel to the host: two buffers that the device fills by turns
-- while `char_sgdma_read` copies them out.
--
-- The engine's queue of the two transfers is `queue`, served in order; `produced` counts the blocks that the
-- device has written, and a block is its number. What the calls of the kernel give (memory, copies to the user,
-- the outcome of a wait, `xdma_xfer_submit_nowait`) are arguments.
pub mod Stream
pub mod Leaks
use xdma_fpga.Base.{
  ℕ, ◌+◌, ◌%◌, Bool, true, false, not, ◌==◌, ◌||◌, ◌&&◌, Option, none, some, List, [], ◌∷◌, ◌++◌,
  ltb, Rv, ok, err, Errno, eio, enomem, efault, ebusy, einval, is_err, if◌then◌else◌,
}

-- The index of a buffer.
pub data Side : Type 0 where
  left right : Side

-- `idx ^ 1`
abbrev pub flip : Side → Side
flip left = right
flip right = left

-- `struct xdma_dbuf_slot`; `virt` is `virt != NULL`, and `content` the block in the memory.
pub record Slot : Type 0 where
  pub virt : Bool
  pub size : ℕ
  pub filled : Bool
  pub content : ℕ

-- The fields of `struct xdma_cdev` for double buffering, and what the device does with them.
pub record Dbuf : Type 0 where
  pub active : Bool
  pub size : ℕ
  pub ep_addr : ℕ
  pub read_idx : Side
  pub slot_left : Slot
  pub slot_right : Slot
  pub queue : List Side
  pub produced : ℕ
  -- a block was written to memory that was freed
  pub stray : Bool

abbrev pub slot : Dbuf → Side → Slot
slot d left = d.slot_left
slot d right = d.slot_right

abbrev pub set_slot : Dbuf → Side → Slot → Dbuf
set_slot d left s = record d { slot_left = s }
set_slot d right s = record d { slot_right = s }

-- `dbuf_io_done`
unfoldable pub dbuf_io_done : Dbuf → Side → Bool → Dbuf
dbuf_io_done d idx failed =
    if not d.active
    then d
    else if failed
    then record d { active = false }
    else set_slot d idx (record (slot d idx) { filled = true })

-- The device ends the transfer at the head of the queue: it has written a block, or failed. In both cases
-- `engine_transfer_completion` calls `io_done` with the error 0.
unfoldable pub transfer_done : Dbuf → Bool → Dbuf
unfolding dbuf_io_done
transfer_done d failed = elim d.queue [
  | [] ↦ d
  | idx ∷ rest ↦
      let s = slot d idx in
      let written =
        set_slot
          (record d { queue = rest; produced = d.produced + 1; stray = d.stray || not s.virt }) idx
          (record s { content = d.produced }) in
      dbuf_io_done (if failed then record d { queue = rest } else written) idx false
]

-- `dbuf_submit_slot`, where `xdma_xfer_submit_nowait` answers `answer` (`ok` is -EIOCBQUEUED).
unfoldable pub dbuf_submit_slot : Dbuf → Side → Rv → Rv × Dbuf
dbuf_submit_slot d idx answer =
    let d' = set_slot d idx (record (slot d idx) { filled = false }) in
    if is_err answer then (answer, d') else (ok, record d' { queue = d'.queue ++ (idx ∷ []) })

-- `dma_free_coherent` of both buffers, where there are any.
abbrev pub free_slots : Dbuf → Dbuf
free_slots d = record d {
  slot_left = record d.slot_left { virt = false };
  slot_right = record d.slot_right { virt = false };
}

-- What the kernel answers to `ioctl_do_dbuf_start`: the copy of the arguments, the memory and the table of each
-- buffer, and each submission.
pub record Answers : Type 0 where
  pub copied : Bool
  pub version_ok : Bool
  pub memory : Side → Bool
  pub table : Side → Bool
  pub submits : Side → Rv

-- One buffer of the loop of `ioctl_do_dbuf_start`: memory and table. A buffer without its table is freed at
-- once.
abbrev pub make_slot : Answers → ℕ → Dbuf → Side → Rv × Dbuf
make_slot a buf_size d idx =
    let made = set_slot d idx (record (slot d idx) { virt = true; size = buf_size }) in
    let missing = set_slot d idx (record (slot d idx) { virt = false; size = buf_size }) in
    if not (a.memory idx)
    then (err enomem, missing)
    else if not (a.table idx)
    then (err enomem, missing)
    else (ok, made)

-- `PAGE_SIZE`
abbrev pub page_size : ℕ
page_size = 4096

-- The submissions of `ioctl_do_dbuf_start`.
unfoldable pub submit_both : Answers → Dbuf → Rv × Dbuf
unfolding dbuf_submit_slot
submit_both a d =
    let (rv, d1) = dbuf_submit_slot (record d { active = true }) left (a.submits left) in
    let (rv', d2) = dbuf_submit_slot d1 right (a.submits right) in
    if is_err rv
    then (rv, free_slots (record d1 { active = false }))
    else if is_err rv'
    then (rv', free_slots (record d2 { active = false }))
    else (ok, d2)

-- `ioctl_do_dbuf_start` with the size and the address of its arguments.
unfoldable pub ioctl_do_dbuf_start : Answers → ℕ → ℕ → Dbuf → Rv × Dbuf
unfolding submit_both
ioctl_do_dbuf_start a buf_size ep_addr d =
    let d0 = record d { size = buf_size; ep_addr = ep_addr; read_idx = left } in
    let (rv, d1) = make_slot a buf_size d0 left in
    let (rv', d2) = make_slot a buf_size d1 right in
    if d.active
    then (err ebusy, d)
    else if not a.copied
    then (err efault, d)
    else if not a.version_ok
    then (err einval, d)
    else if buf_size == 0 || not (buf_size % page_size == 0)
    then (err einval, d)
    else if is_err rv
    then (rv, free_slots d1)
    else if is_err rv'
    then (rv', free_slots d2)
    else submit_both a d2

-- `ioctl_do_dbuf_stop`
unfoldable pub ioctl_do_dbuf_stop : Dbuf → Dbuf
ioctl_do_dbuf_stop d = if not d.active then d else free_slots (record d { active = false })

-- What a read returns: the block of which it copies `count` bytes, an error, or that the call goes the way of
-- a single buffer; or it still waits.
pub data ReadResult : Type 0 where
  block : ℕ → ℕ → ReadResult
  failure : Errno → ReadResult
  restart : ReadResult
  single : ReadResult
  waiting : ReadResult

abbrev pub failed_with : Rv → ReadResult
failed_with ok = ReadResult.single
failed_with (err x) = ReadResult.failure x

-- `char_sgdma_read` from its wait on, when it is woken: by a signal, or to look at the buffer and the flag. `copied`
-- says whether the copy to the user succeeds, and `answer` is for the new submission.
unfoldable pub read_slot : Dbuf → ℕ → Bool → Bool → Rv → ReadResult × Dbuf
unfolding dbuf_submit_slot
read_slot d count signal copied answer =
    let idx = d.read_idx in
    let s = slot d idx in
    let (rv, d') = dbuf_submit_slot d idx answer in
    if signal
    then (ReadResult.restart, d)
    else if not (s.filled || not d.active)
    then (ReadResult.waiting, d)
    else if not d.active
    then (ReadResult.failure eio, d)
    else if not copied
    then (ReadResult.failure efault, d)
    else if is_err rv
    then (failed_with rv, d')
    else (ReadResult.block s.content count, record d' { read_idx = flip idx })

-- `char_sgdma_read`: without double buffering it goes the way of a single buffer.
unfoldable pub char_sgdma_read : Dbuf → ℕ → Bool → Bool → Rv → ReadResult × Dbuf
unfolding read_slot
char_sgdma_read d count signal copied answer =
    if not d.active
    then (ReadResult.single, d)
    else if ltb d.size count
    then (ReadResult.failure einval, d)
    else read_slot d count signal copied answer
