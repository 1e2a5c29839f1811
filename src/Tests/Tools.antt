-- ===== src/Tests/Tools.antt =====
-- The loops of tools/dma_utils.c at concrete inputs.
use xdma_fpga.Base.{◌-◌, ◌≡◌, true, some, List, refl, arith}
use xdma_fpga.Request.{SwDesc}
use xdma_fpga.Request.Segments.{Tiles}
use xdma_fpga.Xfer.{Ssize}
use xdma_fpga.Tools.{rw_max_size, Sys, got, Outcome, read_to_buffer, write_from_buffer}
use xdma_fpga.Tools.Chunks.{IsWilling, Honest, Explains, read-Tiles, write-Explains}

abbrev willing : Sys
willing = record { seek = λ k. true; io = λ k n. got n }

willing-IsWilling : IsWilling willing
willing-IsWilling = record { seeks = λ k. refl; full = λ k n. refl }

read-Tiles_example :
    (cs : List SwDesc) × (read_to_buffer willing 3 0x8000_0000 64 5
      ≡ some (Ssize.count 0x8000_0000, cs))
    × Tiles rw_max_size 64 0x8000_0000 cs
read-Tiles_example =
    read-Tiles willing 3 0x8000_0000 64 5 willing-IsWilling (omega arith)
      (λ z. absurd (omega arith))

-- Every call moves a byte less than it should.
abbrev short : Sys
short = record { seek = λ k. true; io = λ k n. got (n - 1) }

short-Honest : Honest short
short-Honest k n m e = ground arith

write-Explains_example :
    (o : Outcome) × (write_from_buffer short 3 1000 0 7 ≡ some o)
    × Explains short 0 0 1000 0 o.0 o.1
write-Explains_example = write-Explains short 3 1000 0 7 short-Honest (omega arith)
