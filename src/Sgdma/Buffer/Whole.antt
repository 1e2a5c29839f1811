-- ===== src/Sgdma/Buffer/Whole.antt =====
-- `char_sgdma_read_write` of cdev_sgdma.c as a whole, from the user's buffer to the count that it returns.
use xdma_fpga.Base.{
  ℕ, ◌+◌, ◌^◌, ◌<◌, true, false, List, [], ◌≡◌, ◌≢◌, arith, refl, ◌∙◌, ap, All, ok, some,
}
use xdma_fpga.Sgdma.Dbuf.{page_size}
use xdma_fpga.Request.{SwDesc}
use xdma_fpga.Request.Program.{sum_len}
use xdma_fpga.Request.Slots.{IsRing}
use xdma_fpga.Request.Segments.{Fits, Tiles}
use xdma_fpga.Xfer.{World, Channel, Ssize, count, xdma_xfer_submit, ring_of, mismatch}
use xdma_fpga.Xfer.Parts.{Calm}
use xdma_fpga.Xfer.Submit.{IsReady, IsAccepted}
use xdma_fpga.Xfer.Served.{IsServing, submit_whole}
use xdma_fpga.Sgdma.Buffer.{
  Io, pinned, check_transfer_align, pages_nr, mapped, call_of, clip, transfer_mapped,
  char_sgdma_read_write,
}
use xdma_fpga.Sgdma.Buffer.Pages.{map-Tiles}

-- The kernel grants a mapping of the buffer, and a list for the device with as many bytes.
pub record IsGranted (io : Io) : Type 0 where
  pub table : io.kernel.table ≡ true
  pub pages : io.kernel.pages ≡ true
  pub pins : (n : ℕ) → io.kernel.pin n ≡ pinned n
  pub apart : io.kernel.duplicates ≡ false
  pub length_kept :
      (sgs : List SwDesc)
      → Tiles page_size io.buf io.count sgs
      → sum_len (io.dma_map sgs) ≡ io.count
  pub not_lost : (sgs : List SwDesc) → Tiles page_size io.buf io.count sgs → io.dma_map sgs ≢ []
  pub fits :
      (sgs : List SwDesc)
      → Tiles page_size io.buf io.count sgs
      → All (Fits io.blen_max) (io.dma_map sgs)
  pub memory : (n : ℕ) → io.alloc n ≡ true

-- The call fits the channel: a known channel of the right direction and an aligned buffer of 1 to 2 ^ 32 - 1 bytes.
pub record IsFine (w : World) (io : Io) (c : Channel) : Type 0 where
  pub known : io.channel < io.channel_max
  pub magic : io.magic_ok ≡ true
  pub online : w.offline ≡ false
  pub way : mismatch io.write c.engine.dir ≡ false
  pub aligned : check_transfer_align io.align io.buf io.count io.pos true ≡ ok
  pub some_bytes : 0 < io.count
  pub below : io.buf + io.count + page_size < 2 ^ 64
  pub blen : 0 < io.blen_max

transfer_mapped_lem :
    (w : World) (p : ℕ) (io : Io) (c : Channel) (sgs : List SwDesc) (r : Ssize) (c' : Channel)
    → xdma_xfer_submit w p (call_of io sgs) c ≡ some (r, c')
    → transfer_mapped w p io c (mapped sgs) ≡ some (clip io.count r, c')
unfolding transfer_mapped
transfer_mapped_lem w p io c sgs r c' e = rw (e, transfer_mapped) refl

-- A read or write of an aligned buffer on an idle, ready channel, with all that the kernel is asked for granted
-- and every transfer served by the device, returns the count of bytes that was asked for, and leaves the count
-- of used descriptors as it was.
pub read_write_whole :
    (w : World) (p : ℕ) (io : Io) (c : Channel)
    → Calm w p
    → IsServing w p
    → IsGranted io
    → IsFine w io c
    → IsReady c io.count
    → c.engine.shutdown_request ≡ false
    → (c' : Channel) × (char_sgdma_read_write w p io c ≡ some (count io.count, c'))
      × (c'.engine.desc_used ≡ c.engine.desc_used)
      × IsRing (ring_of c')
unfolding char_sgdma_read_write
read_write_whole w p io c calm serving granted fine v o =
    let (sgs, made, tiles, _, _) =
      map-Tiles io.kernel io.buf io.count fine.some_bytes v.small fine.below granted.table
        granted.pages (granted.pins (pages_nr io.buf io.count)) granted.apart in
    let size : sum_len (io.dma_map sgs) ≡ io.count = granted.length_kept sgs tiles in
    let accepted : IsAccepted w (call_of io sgs) c = record {
      known = fine.known;
      magic = fine.magic;
      online = fine.online;
      way = fine.way;
      full = granted.not_lost sgs tiles;
    } in
    let (c', e, used, ring) =
      submit_whole w p (call_of io sgs) c calm serving accepted granted.memory fine.blen
        (granted.fits sgs tiles) (rw size v) o in
    let kept : clip io.count (count (sum_len (io.dma_map sgs))) ≡ count io.count =
      ground (arith, size) in
    (
      c',
      simp (fine.way, fine.aligned, made)
          (transfer_mapped_lem w p io c sgs _ c' e ∙ ap (λ r. some (r, c')) kept),
      used,
      ring,
    )
