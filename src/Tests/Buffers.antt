-- ===== src/Tests/Buffers.antt =====
-- The user's buffers of cdev_sgdma.c at concrete inputs.
use xdma_fpga.Base.{true, false, some, List, [], ◌∷◌, ◌≡◌, refl, arith, einval, All, length}
use xdma_fpga.Request.{SwDesc}
use xdma_fpga.Request.Program.{sum_len}
use xdma_fpga.Request.Segments.{Tiles}
use xdma_fpga.Request.Slots.{IsRing}
use xdma_fpga.Xfer.{Channel, count, ring_of}
use xdma_fpga.Xfer.Submit.{IsReady}
use xdma_fpga.Sgdma.Buffer.{
  Io, Kernel, pinned, mapped, failed, pages_nr, check_transfer_align,
  char_sgdma_map_user_buf_to_sgl, char_sgdma_read_write,
}
use xdma_fpga.Sgdma.Buffer.Pages.{InPage, map-Tiles, map_refuses_4g}
use xdma_fpga.Sgdma.Buffer.Whole.{IsGranted, IsFine, read_write_whole}
use xdma_fpga.Tests.Requests.{piece}
use xdma_fpga.Tests.Xfers.{world, world-Calm, world-IsServing, channel}

-- All is granted.
abbrev kernel : Kernel
kernel = record { table = true; pages = true; pin = pinned; duplicates = false }

map-Tiles_example :
    (sgs : List SwDesc) × (char_sgdma_map_user_buf_to_sgl kernel 0x1ff0 5000 ≡ mapped sgs)
    × Tiles 4096 0x1ff0 5000 sgs
    × All InPage sgs
    × (length sgs ≡ pages_nr 0x1ff0 5000)
map-Tiles_example =
    map-Tiles kernel 0x1ff0 5000 (omega arith) (omega arith) (omega arith) refl refl refl refl

map_refuses_4g_example : char_sgdma_map_user_buf_to_sgl kernel 0x1000 0x1_0000_0000 ≡ failed einval
map_refuses_4g_example =
    map_refuses_4g kernel 0x1000 0x1_0000_0000 (omega arith) (omega arith) refl refl (λ n. refl)
      refl

-- A write of 100 bytes, which the kernel maps to one entry.
abbrev io : Io
io = record {
  buf = 0x1ff0;
  count = 100;
  pos = 0x8000;
  write = true;
  align = record { non_incr_addr = false; addr_align = 1; len_granularity = 1 };
  channel = 0;
  channel_max = 1;
  magic_ok = true;
  blen_max = 64;
  kernel = kernel;
  dma_map = λ sgs. piece 0x7000 100 ∷ [];
  alloc = λ n. true;
}

granted : IsGranted io
unfolding sum_len
granted = record {
  table = refl;
  pages = refl;
  pins = λ n. refl;
  apart = refl;
  length_kept = λ sgs t. refl;
  not_lost = λ sgs t e. cc;
  fits = λ sgs t. omega arith;
  memory = λ n. refl;
}

fine : IsFine world io channel
unfolding check_transfer_align
fine = record {
  known = omega arith;
  magic = refl;
  online = refl;
  way = refl;
  aligned = refl;
  some_bytes = omega arith;
  below = omega arith;
  blen = omega arith;
}

ready : IsReady channel 100
ready = record { ring = omega arith; mode = refl; small = omega arith; few = omega arith }

read_write_whole_example :
    (c' : Channel) × (char_sgdma_read_write world 5 io channel ≡ some (count 100, c'))
    × (c'.engine.desc_used ≡ 3)
    × IsRing (ring_of c')
read_write_whole_example =
    read_write_whole world 5 io channel world-Calm world-IsServing granted fine ready refl
