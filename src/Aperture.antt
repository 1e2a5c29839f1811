-- ===== src/Aperture.antt =====
-- xdma/libxdma.c, `xdma_xfer_aperture`: a transfer whose addresses on the card stay in a window of
-- `aperture` bytes, and start again at its base when they reach its end.
--
-- The walk over the scatter list starts each round from its first entry (`sg = req->sg`), while the index that
-- bounds it goes on from the last round. A round is on the `sg_max - sg_idx` first entries, then.
pub mod Inside
pub mod Cover
use xdma_fpga.Base.{
  ℕ, zero, suc, ◌+◌, ◌-◌, ◌*◌, ◌%◌, ◌^◌, min, bit_and, bit_or, Bool, true, false, not, ◌==◌, Option,
  none, some, List, [], ◌∷◌, ◌++◌, ltb, length, take, drop, Rv, ok, err, Errno, eio, enomem, ebusy,
  einval, etimedout, add32, sub32, add64, is_err, is_empty, if◌then◌else◌,
}
use xdma_fpga.Hw.{Dir, pci_dma_l, pci_dma_h, desc_magic}
use xdma_fpga.Hw.DescBit
use xdma_fpga.Desc.{XdmaDesc, desc_size, xdma_desc_set, xdma_get_next_adj, xdma_desc_adjacent}
use xdma_fpga.Engine.{Engine, Transfer, TransferState, update}
use xdma_fpga.Engine.Submit.{transfer_queue, on_wait_timeout}
use xdma_fpga.Request.{SwDesc, set_adjacents}
use xdma_fpga.Xfer.{World, Channel, Ssize, mismatch}

-- The window: `ep_addr`, `ep_addr_max` and `maxlen` of the source.
pub record Window : Type 0 where
  pub base : ℕ
  pub last : ℕ
  pub maxlen : ℕ

abbrev pub window : ℕ → ℕ → ℕ → Window
window ep_addr aperture blen_max = record {
  base = ep_addr;
  last = ep_addr + aperture - 1;
  maxlen = min aperture blen_max;
}

-- What one descriptor moves: `len` bytes between `addr` of the host and `ep` of the card.
pub record Piece : Type 0 where
  pub addr : ℕ
  pub ep : ℕ
  pub len : ℕ

-- The body of `while (tlen)` up to its descriptor: start again at the base behind the window's end, and do not
-- cross it.
unfoldable pub next_piece : Window → ℕ → ℕ → ℕ → Piece
next_piece w addr tlen ep =
    let ep' = if ltb w.last ep then w.base else ep in
    let len = min tlen w.maxlen in
    record {
      addr = addr;
      ep = ep';
      len = if ltb w.last (ep' + len) then (w.last - ep' + 1) % 2 ^ 32 else len;
    }

-- The loop `while (tlen)` as it ends: the pieces, what is left of the entry, the card's address and the
-- descriptors left.
pub record Cut : Type 0 where
  pub pieces : List Piece
  pub tlen : ℕ
  pub ep : ℕ
  pub room : ℕ

-- `room` is `desc_max - desc_idx`; the loop breaks when it is used up.
unfoldable pub cut_entry : Window → ℕ → ℕ → ℕ → ℕ → Cut
unfolding next_piece
cut_entry w zero addr tlen ep = record { pieces = []; tlen = tlen; ep = ep; room = 0 }
cut_entry w (suc room) addr tlen ep =
    let p = next_piece w addr tlen ep in
    let rest = cut_entry w room (add64 addr p.len) (tlen - p.len) (add64 p.ep p.len) in
    if tlen == 0
    then record { pieces = []; tlen = 0; ep = ep; room = suc room }
    else record rest { pieces = p ∷ rest.pieces }

unfoldable pub bytes_of : List Piece → ℕ
bytes_of [] = 0
bytes_of (p ∷ ps) = p.len + bytes_of ps

-- The `for` over the scatter list as it ends: the pieces, `sg_offset`, and how far the index went.
pub record Walk : Type 0 where
  pub pieces : List Piece
  pub sg_offset : ℕ
  pub passed : ℕ

unfoldable pub walk : Window → ℕ → ℕ → ℕ → List SwDesc → Walk
unfolding cut_entry bytes_of
walk w room sg_offset ep [] = record { pieces = []; sg_offset = sg_offset; passed = 0 }
walk w room sg_offset ep (sg ∷ sgs) =
    let c = cut_entry w room (add64 sg.addr sg_offset) (sub32 sg.len sg_offset) ep in
    let rest = walk w c.room 0 c.ep sgs in
    if room == 0
    then record { pieces = []; sg_offset = sg_offset; passed = 0 }
    else if c.tlen == 0
    then record rest { pieces = c.pieces ++ rest.pieces; passed = suc rest.passed }
    else record { pieces = c.pieces; sg_offset = add32 sg_offset (bytes_of c.pieces); passed = 0 }

-- The descriptors that move the pieces.
unfoldable pub set_pieces : Dir → List XdmaDesc → List Piece → List XdmaDesc
set_pieces dir (d ∷ ds) (p ∷ ps) = xdma_desc_set d p.addr p.ep p.len dir ∷ set_pieces dir ds ps
set_pieces dir [] ps = []
set_pieces dir (d ∷ ds) [] = d ∷ ds

-- "create the desc linked list": the links, and the control words.
unfoldable pub link : ℕ → List XdmaDesc → List XdmaDesc
link bus [] = []
link bus (d ∷ []) =
    record d {
      next_lo = 0;
      next_hi = 0;
      control = bit_or (bit_or desc_magic DescBit.stopped) (bit_or DescBit.eop DescBit.completed);
    }
    ∷ []
link bus (d ∷ e ∷ ds) =
    let bus' = add64 bus desc_size in
    record d { next_lo = pci_dma_l bus'; next_hi = pci_dma_h bus'; control = desc_magic }
    ∷ link bus' (e ∷ ds)

-- `struct xdma_request_cb`, the fields that a transfer with an aperture uses. `sgl` is `sgt`.
pub record ApertureRequest : Type 0 where
  pub sgl : List SwDesc
  pub total : ℕ
  pub ep_addr : ℕ
  pub aperture : ℕ
  pub offset : ℕ
  pub sg_idx : ℕ
  pub sg_offset : ℕ

-- The walk of one round.
unfoldable pub round_walk : ℕ → ApertureRequest → Channel → Walk
unfolding walk
round_walk blen_max req c =
    walk (window req.ep_addr req.aperture blen_max) (c.desc_max - c.desc_idx) req.sg_offset
      (add64 req.ep_addr (bit_and req.offset (req.aperture - 1)))
      (take (length req.sgl - req.sg_idx) req.sgl)

abbrev pub moved_on : ApertureRequest → Walk → ApertureRequest
moved_on req k = record req {
  offset = add32 req.offset (bytes_of k.pieces);
  sg_idx = req.sg_idx + k.passed;
  sg_offset = k.sg_offset;
}

-- What a round does to the engine before it queues the transfer `p`.
unfoldable pub program : ApertureRequest → Channel → ℕ → Walk → Channel
unfolding bytes_of set_pieces link
program req c p k =
    let n = length k.pieces in
    let bus = add64 c.desc_bus (desc_size * c.desc_idx) in
    let slots = set_pieces c.engine.dir (take n (drop c.desc_idx c.desc)) k.pieces in
    let t : Transfer = record {
      desc_bus = bus;
      desc_adjacent = n;
      desc_num = n;
      desc_cmpl = 0;
      state = TransferState.new;
      eop_rcved = false;
      cyclic = false;
      last_in_request = (moved_on req k).offset == req.total;
      has_cb = false;
    } in
    record c {
      desc =
          take c.desc_idx c.desc
          ++ (set_adjacents (link bus slots) ++ drop (c.desc_idx + n) c.desc);
      desc_idx = (c.desc_idx + n) % c.desc_max;
      engine = record c.engine {
        desc_used = c.engine.desc_used + n;
        xfers = update c.engine.xfers p t;
      };
    }

-- A round as it ends.
pub record ApertureState : Type 0 where
  pub rv : Rv
  pub chan : Channel
  pub req : ApertureRequest
  pub done : ℕ

-- The `switch` after the k-th wait, and the release of the descriptors.
unfoldable pub aperture_outcome : World → ℕ → ℕ → ApertureState → ApertureState
aperture_outcome w p len s =
    let e = s.chan.engine in
    let release = λ (f : Engine). record s.chan {
      engine = record f { desc_used = sub32 f.desc_used (f.xfers p).desc_num };
    } in
    elim (e.xfers p).state [
      | TransferState.completed ↦ record s { rv = ok; chan = release e; done = s.done + len }
      | TransferState.failed ↦ record s { rv = err eio; chan = release e }
      | _ ↦ record s { rv = err etimedout; chan = release (on_wait_timeout w.host e p) }
    ]

unfoldable pub aperture_round : World → ℕ → ℕ → ℕ → ApertureState → ApertureState
unfolding round_walk program aperture_outcome
aperture_round w p blen_max k s =
    let walked = round_walk blen_max s.req s.chan in
    let c = program s.req s.chan p walked in
    let (rv, queued) = transfer_queue w.host w.offline c.engine p in
    let s' : ApertureState = record {
      rv = rv;
      chan = record c { engine = queued };
      req = moved_on s.req walked;
      done = s.done;
    } in
    let waited = record s' { chan = record c { engine = w.during k queued } } in
    if is_err rv then s' else aperture_outcome w p (bytes_of walked.pieces % 2 ^ 32) waited

-- `while (req->offset < req->total_len)`. `none`: out of fuel.
unfoldable pub aperture_loop : World → ℕ → ℕ → ℕ → ℕ → ApertureState → Option ApertureState
aperture_loop w p blen_max zero k s = none
aperture_loop w p blen_max (suc fuel) k s =
    let s' = aperture_round w p blen_max k s in
    let rest = aperture_loop w p blen_max fuel (k + 1) s' in
    if not (ltb s.req.offset s.req.total) then some s else if is_err s'.rv then some s' else rest

unfoldable pub sum_lens : List SwDesc → ℕ
sum_lens [] = 0
sum_lens (sg ∷ sgs) = add32 sg.len (sum_lens sgs)

-- `return done ? done : rv;`
abbrev pub aperture_ret : ApertureState → Ssize
aperture_ret s =
    if s.done == 0
    then elim s.rv [ ok ↦ Ssize.count 0 | err e ↦ Ssize.error e ]
    else Ssize.count s.done

abbrev pub new_request : List SwDesc → ℕ → ℕ → ApertureRequest
new_request sgl ep_addr aperture = record {
  sgl = sgl;
  total = sum_lens sgl;
  ep_addr = ep_addr;
  aperture = aperture;
  offset = 0;
  sg_idx = 0;
  sg_offset = 0;
}

-- The arguments: the mapped scatter list (empty on failure), whether there is memory for the request, and
-- whether the engine's magic number is right.
pub record ApertureCall : Type 0 where
  pub magic_ok : Bool
  pub write : Bool
  pub ep_addr : ℕ
  pub aperture : ℕ
  pub mapped : List SwDesc
  pub memory : Bool
  pub blen_max : ℕ

-- `xdma_xfer_aperture`, with fuel for its loop.
unfoldable pub xdma_xfer_aperture :
    World → ℕ → ℕ → ApertureCall → Channel → Option (Ssize × Channel)
unfolding aperture_loop sum_lens
xdma_xfer_aperture w fuel p a c =
    let start : ApertureState = record {
      rv = ok;
      chan = c;
      req = new_request a.mapped a.ep_addr a.aperture;
      done = 0;
    } in
    if not a.magic_ok
    then some (Ssize.error einval, c)
    else if w.offline
    then some (Ssize.error ebusy, c)
    else if mismatch a.write c.engine.dir
    then some (Ssize.error einval, c)
    else if c.engine.streaming
    then some (Ssize.error einval, c)
    else if is_empty a.mapped
    then some (Ssize.error eio, c)
    else if not a.memory
    then some (Ssize.error enomem, c)
    else elim (aperture_loop w p a.blen_max fuel 0 start) [
      | none ↦ none
      | some s ↦ some (aperture_ret s, s.chan)
    ]
