-- ===== src/Sgdma/Buffer.antt =====
-- xdma/cdev_sgdma.c, reads and writes of a user's buffer: `check_transfer_align`,
-- `char_sgdma_map_user_buf_to_sgl` and `char_sgdma_read_write`.
--
-- A page of the user is named by its address. What the kernel's calls give (tables, pinned pages, the mapping
-- for DMA) are arguments.
pub mod Pages
pub mod Whole
use xdma_fpga.Base.{
  ℕ, zero, suc, ◌+◌, ◌-◌, ◌*◌, ◌/◌, ◌%◌, ◌^◌, min, bit_and, Bool, true, false, not, ◌&&◌, ◌==◌,
  Option, none, some, List, [], ◌∷◌, ltb, Rv, ok, err, Errno, enomem, efault, einval, if◌then◌else◌,
}
use xdma_fpga.Sgdma.Dbuf.{page_size}
use xdma_fpga.Request.{SwDesc}
use xdma_fpga.Xfer.{World, Channel, Call, Ssize, mismatch, xdma_xfer_submit}

-- The fields of `struct xdma_engine` that `check_transfer_align` reads.
pub record Alignment : Type 0 where
  pub non_incr_addr : Bool
  pub addr_align : ℕ
  pub len_granularity : ℕ

-- `x & (align - 1)`
abbrev pub lsb : ℕ → ℕ → ℕ
lsb x align = bit_and x (align - 1)

-- `check_transfer_align`
unfoldable pub check_transfer_align : Alignment → ℕ → ℕ → ℕ → Bool → Rv
check_transfer_align a buf count pos sync =
    if a.non_incr_addr
    then if not (lsb buf a.addr_align == 0)
      then err einval
      else if not (lsb pos a.addr_align == 0) && sync
      then err einval
      else if not (lsb count a.len_granularity == 0)
      then err einval
      else ok
    else if not (lsb buf a.addr_align == lsb pos a.addr_align)
    then err einval
    else ok

-- `pages_nr`, an `unsigned int`.
unfoldable pub pages_nr : ℕ → ℕ → ℕ
pages_nr buf len = ((buf + len + page_size - 1) - buf / page_size * page_size) / page_size % 2 ^ 32

-- The loop that fills the scatter list, one page after another: the entries, and what is left of `len`. The
-- minimum is taken of `unsigned int`s.
unfoldable pub page_entries : ℕ → ℕ → ℕ → List SwDesc × ℕ
page_entries zero buf len = ([], len)
page_entries (suc n) buf len =
    let nbytes = min (page_size - buf % page_size) (len % 2 ^ 32) in
    let (sgs, rest) = page_entries n (buf + nbytes) (len - nbytes) in
    (record { addr = buf; len = nbytes } ∷ sgs, rest)

-- What the kernel answers: the scatter table, the array of pages, the number of pages that it pinned or the error,
-- and whether it gave a page twice in a row.
pub data Pinned : Type 0 where
  pinned : ℕ → Pinned
  refused : Errno → Pinned

pub record Kernel : Type 0 where
  pub table : Bool
  pub pages : Bool
  pub pin : ℕ → Pinned
  pub duplicates : Bool

pub data Mapped : Type 0 where
  mapped : List SwDesc → Mapped
  failed : Errno → Mapped

-- The end of `char_sgdma_map_user_buf_to_sgl`: a length that is left over is refused.
abbrev pub all_of : List SwDesc × ℕ → Mapped
all_of (sgs, rest) = if rest == 0 then mapped sgs else failed einval

-- `char_sgdma_map_user_buf_to_sgl`
unfoldable pub char_sgdma_map_user_buf_to_sgl : Kernel → ℕ → ℕ → Mapped
char_sgdma_map_user_buf_to_sgl k buf len =
    let n = pages_nr buf len in
    if n == 0
    then failed einval
    else if not k.table
    then failed enomem
    else if not k.pages
    then failed enomem
    else elim (k.pin n) [
      | refused e ↦ failed e
      | pinned got ↦
          if not (got == n)
          then failed efault
          else if k.duplicates
          then failed efault
          else all_of (page_entries n buf len)
    ]

-- The arguments of `char_sgdma_read_write`, and what the engine's part of the driver is set up with.
pub record Io : Type 0 where
  pub buf : ℕ
  pub count : ℕ
  pub pos : ℕ
  pub write : Bool
  pub align : Alignment
  pub channel : ℕ
  pub channel_max : ℕ
  pub magic_ok : Bool
  pub blen_max : ℕ
  pub kernel : Kernel
  -- `dma_map_sg`: the list as the device sees it, or nothing
  pub dma_map : List SwDesc → List SwDesc
  pub alloc : ℕ → Bool

abbrev pub call_of : Io → List SwDesc → Call
call_of io sgs = record {
  channel = io.channel;
  channel_max = io.channel_max;
  magic_ok = io.magic_ok;
  write = io.write;
  ep_addr = io.pos;
  mapped = io.dma_map sgs;
  blen_max = io.blen_max;
  alloc = io.alloc;
}

-- More bytes than were asked for are not reported.
abbrev pub clip : ℕ → Ssize → Ssize
clip limit (Ssize.count n) = Ssize.count (if ltb limit n then limit else n)
clip limit (Ssize.error e) = Ssize.error e

-- `char_sgdma_read_write` behind its guards.
unfoldable pub transfer_mapped : World → ℕ → Io → Channel → Mapped → Option (Ssize × Channel)
transfer_mapped w p io c (failed e) = some (Ssize.error e, c)
transfer_mapped w p io c (mapped sgs) = elim (xdma_xfer_submit w p (call_of io sgs) c) [
  | none ↦ none
  | some (r, c') ↦ some (clip io.count r, c')
]

-- `char_sgdma_read_write`. `none`: the transfer does not end.
unfoldable pub char_sgdma_read_write : World → ℕ → Io → Channel → Option (Ssize × Channel)
unfolding transfer_mapped
char_sgdma_read_write w p io c =
    if mismatch io.write c.engine.dir
    then some (Ssize.error einval, c)
    else elim (check_transfer_align io.align io.buf io.count io.pos true) [
      | err e ↦ some (Ssize.error e, c)
      | ok ↦ transfer_mapped w p io c (char_sgdma_map_user_buf_to_sgl io.kernel io.buf io.count)
    ]
