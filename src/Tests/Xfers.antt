-- ===== src/Tests/Xfers.antt =====
-- `xdma_xfer_submit` of libxdma.c at concrete inputs.
use xdma_fpga.Base.{◌+◌, ℕ, ◌<◌, true, false, some, [], ◌∷◌, ◌≡◌, ◌⊎◌, refl, arith, ebusy, Errno}
use xdma_fpga.Engine.{Engine, TransferState, update}
use xdma_fpga.Request.{XdmaRequest, xdma_init_request, transfer_init}
use xdma_fpga.Request.Program.{sum_len}
use xdma_fpga.Request.Segments.{CoversAll}
use xdma_fpga.Request.Slots.{IsRing}
use xdma_fpga.Xfer.{World, Channel, Call, Ssize, count, error, ring_of, xdma_xfer_submit}
use xdma_fpga.Xfer.Parts.{Calm}
use xdma_fpga.Xfer.Loop.{Rounds}
use xdma_fpga.Xfer.Submit.{start_of, Refuses, IsAccepted, IsReady, submit_returns}
use xdma_fpga.Xfer.Served.{IsServing, submit_whole, submit_leaks}
use xdma_fpga.Tests.Engines.{host, idle}
use xdma_fpga.Tests.Requests.{blank, piece}

-- A wait in which the device completes transfer 5.
abbrev served : ℕ → Engine → Engine
served k e = record e {
  running = false;
  shutdown_request = false;
  transfer_list = [];
  xfers = update e.xfers 5 (record (e.xfers 5) { state = TransferState.completed });
}

abbrev pub world : World
world = record { host = host; offline = false; during = served; result_length = λ k i. 0 }

pub world-Calm : Calm world 5
world-Calm = record { used = λ k e. refl; mode = λ k e. refl; size = λ k e. refl }

pub world-IsServing : IsServing world 5
world-IsServing = record { online = refl; finishes = λ k e. refl; stays_open = λ k e. refl }

-- A ring of two descriptors.
abbrev pub channel : Channel
channel = record {
  engine = idle;
  desc = blank ∷ blank ∷ [];
  desc_bus = 0x1000;
  cyclic_result_bus = 0;
  desc_idx = 1;
  desc_max = 2;
}

-- Three pieces, for a ring of two.
abbrev call : Call
call = record {
  channel = 0;
  channel_max = 1;
  magic_ok = true;
  write = true;
  ep_addr = 0x8000;
  mapped = piece 0x2000 10 ∷ [];
  blen_max = 4;
  alloc = λ n. true;
}

call-IsAccepted : IsAccepted world call channel
call-IsAccepted = record {
  known = omega arith;
  magic = refl;
  online = refl;
  way = refl;
  full = λ e. cc;
}

ready : IsReady channel (sum_len call.mapped)
unfolding sum_len
ready = record { ring = omega arith; mode = refl; small = omega arith; few = omega arith }

submit_returns_example :
    ((e : Errno) × Refuses world call channel e
      × (xdma_xfer_submit world 5 call channel ≡ some (error e, channel)))
    ⊎ (IsAccepted world call channel
        × (req : XdmaRequest) × (r : Ssize) × (c' : Channel) × (xdma_xfer_submit world 5 call
              channel
            ≡ some (r, c'))
        × CoversAll 4 (piece 0x2000 10 ∷ []) req.sdesc
        × Rounds world 5 req.sdesc r 0 (start_of channel req))
submit_returns_example =
    submit_returns world 5 call channel world-Calm (omega arith) (omega arith) ready

submit_whole_example :
    (c' : Channel) × (xdma_xfer_submit world 5 call channel
      ≡ some (count (sum_len call.mapped), c'))
    × (c'.engine.desc_used ≡ 3)
    × IsRing (ring_of c')
submit_whole_example =
    submit_whole world 5 call channel world-Calm world-IsServing call-IsAccepted (λ n. refl)
      (omega arith) (omega arith) ready refl

-- The same channel, asked to shut down.
abbrev closing : Channel
closing = record channel { engine = record idle { shutdown_request = true } }

closing-IsAccepted : IsAccepted world call closing
closing-IsAccepted = record {
  known = omega arith;
  magic = refl;
  online = refl;
  way = refl;
  full = λ e. cc;
}

closing_ready : IsReady closing (sum_len call.mapped)
unfolding sum_len
closing_ready = record { ring = omega arith; mode = refl; small = omega arith; few = omega arith }

some_bytes : 0 < sum_len call.mapped
unfolding sum_len
some_bytes = omega arith

submit_leaks_example :
    (req : XdmaRequest) × (c' : Channel) × (xdma_init_request 4 call.alloc call.mapped call.ep_addr
      ≡ some (some req))
    × (xdma_xfer_submit world 5 call closing ≡ some (error ebusy, c'))
    × (c'.engine.transfer_list ≡ [])
    × (c'.engine.desc_used ≡ 3 + (transfer_init req (ring_of closing)).0.num)
    × (0 < (transfer_init req (ring_of closing)).0.num)
submit_leaks_example =
    submit_leaks world 5 call closing closing-IsAccepted (λ n. refl) (omega arith) (omega arith)
      closing_ready some_bytes refl
