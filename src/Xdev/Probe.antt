-- ===== src/Xdev/Probe.antt =====
-- xdma/libxdma.c, finding the engines of a device: `get_engine_id`, `get_engine_channel_id`,
-- `probe_for_engine`, `probe_engines` and `remove_engines`.
pub mod Found
pub mod Scan
use xdma_fpga.Base.{
  ℕ, zero, suc, ◌+◌, ◌*◌, ◌/◌, ◌^◌, bit_and, Bool, not, ◌||◌, ◌==◌, Rv, ok, err, einval, is_err,
  if◌then◌else◌,
}
use xdma_fpga.Hw.{Dir, to_device, from_device}
use xdma_fpga.Xdev.{Xdev, DevHost, SgEngine, dev_read, put_dir, put_engine, config_bar}
use xdma_fpga.Xdev.Offset
use xdma_fpga.Xdev.Create.{engine_init, engine_destroy}

-- `get_engine_id`
unfoldable pub get_engine_id : DevHost → Xdev → ℕ → ℕ × Xdev
get_engine_id h x regs =
    let (value, x') = dev_read h x (regs + Offset.identifier) in
    (bit_and value 0xffff_0000 / 2 ^ 16, x')

-- `get_engine_channel_id`
unfoldable pub get_engine_channel_id : DevHost → Xdev → ℕ → ℕ × Xdev
get_engine_channel_id h x regs =
    let (value, x') = dev_read h x (regs + Offset.identifier) in
    (bit_and value 0x0000_0f00 / 2 ^ 8, x')

-- The offset of an engine's registers, and the identifier expected there (`XDMA_ID_H2C`, `XDMA_ID_C2H`).
abbrev pub engine_offset : Dir → ℕ → ℕ
engine_offset to_device channel = channel * Offset.channel_spacing
engine_offset from_device channel = channel * Offset.channel_spacing + Offset.h2c_channel_offset

abbrev pub engine_id_expected : Dir → ℕ
engine_id_expected to_device = 0x1fc0
engine_id_expected from_device = 0x1fc1

-- What `engine_init` returns, with the engine stored.
abbrev pub stored : Dir → ℕ → Rv × Xdev × SgEngine → Rv × Xdev
stored dir channel (rv, x, e) = (rv, put_engine x dir channel e)

-- `probe_for_engine`
unfoldable pub probe_for_engine : DevHost → Dir → ℕ → Xdev → Rv × Xdev
unfolding get_engine_id get_engine_channel_id
probe_for_engine h dir channel x =
    let offset = engine_offset dir channel in
    let (engine_id, x1) = get_engine_id h x (config_bar x + offset) in
    let (channel_id, x2) = get_engine_channel_id h x1 (config_bar x + offset) in
    if not (engine_id == engine_id_expected dir) || not (channel_id == channel)
    then (err einval, x2)
    else stored dir channel (engine_init h x2 (x2.engines dir channel) offset dir channel)

-- One loop of `probe_engines` over the channels of a direction, with the rounds that are left: the channel where
-- it ends.
unfoldable pub probe_loop : DevHost → Dir → ℕ → ℕ → Xdev → ℕ × Xdev
probe_loop h dir zero i x = (i, x)
probe_loop h dir (suc n) i x =
    let (rv, x') = probe_for_engine h dir i x in
    let rest = probe_loop h dir n (i + 1) x' in if is_err rv then (i, x') else rest

-- The loop and the assignment behind it.
unfoldable pub probe_dir : DevHost → Dir → Xdev → Xdev
unfolding probe_loop
probe_dir h dir x =
    let (i, x') = probe_loop h dir (x.channel_max dir) 0 x in
    record x' { channel_max = put_dir x'.channel_max dir i }

-- `probe_engines`, which returns 0.
unfoldable pub probe_engines : DevHost → Xdev → Xdev
probe_engines h x = probe_dir h from_device (probe_dir h to_device x)

-- A loop of `remove_engines`.
unfoldable pub remove_loop : DevHost → Dir → ℕ → ℕ → Xdev → Xdev
remove_loop h dir zero i x = x
remove_loop h dir (suc n) i x =
    let e = x.engines dir i in
    let (x', e') = engine_destroy h x e dir i in
    remove_loop h dir n (i + 1) (if e.magic then put_engine x' dir i e' else x)

-- `remove_engines`
unfoldable pub remove_engines : DevHost → Xdev → Xdev
unfolding remove_loop
remove_engines h x =
    let x1 = remove_loop h to_device (x.channel_max to_device) 0 x in
    remove_loop h from_device (x1.channel_max from_device) 0 x1
