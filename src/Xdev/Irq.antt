-- ===== src/Xdev/Irq.antt =====
-- xdma/libxdma.c, the interrupt lines: the vector registers (`prog_irq_msix_channel`, `prog_irq_msix_user`),
-- and the requests and releases of lines under MSI-X, MSI and legacy interrupts (`irq_setup`,
-- `irq_teardown` and what they call). The kernel is one that has `pci_irq_vector`.
pub mod Lines
pub mod Requested
pub mod SetUp
pub mod Released
pub mod Balance
use xdma_fpga.Base.{
  ℕ, zero, suc, ◌+◌, ◌-◌, ◌*◌, ◌^◌, bit_and, bit_or, ltb, ◌==◌, Bool, true, false, ◌&&◌, not,
  Option, none, some, List, [], ◌∷◌, Rv, ok, err, einval, is_err, if◌then◌else◌,
}
use xdma_fpga.Hw.{Dir, to_device, from_device}
use xdma_fpga.Xdev.{
  Xdev, DevHost, SgEngine, DevEvent, Owner, device, user, channel, requested, released, note,
  dev_write, int_reg, put_engine, config_bar,
}
use xdma_fpga.Xdev.Offset

-- The inner loop of the vector registers, with the rounds that are left: four vectors to a word, from the i-th on.
-- The word, and the vector where it ends.
unfoldable pub pack_vectors : ℕ → ℕ → ℕ → ℕ → ℕ → ℕ × ℕ
pack_vectors zero shift i most val = (val, i)
pack_vectors (suc k) shift i most val =
    let rest = pack_vectors k (shift + 8) (i + 1) most (bit_or val (bit_and i 0x1f * 2 ^ shift)) in
    if ltb i most then rest else (val, i)

-- A word of the loops, and the vector where the next begins.
abbrev pub vector_word : Bool → ℕ → ℕ → ℕ × ℕ
vector_word clear i most = if clear then (0, i + 4) else pack_vectors 4 0 i most 0

-- The outer loop, with fuel for its rounds, which are not more than the vectors.
unfoldable pub prog_loop : ℕ → Bool → ℕ → ℕ → ℕ → ℕ → Xdev → Xdev
prog_loop zero clear base j i most x = x
prog_loop (suc fuel) clear base j i most x =
    let (val, next) = vector_word clear i most in
    let rest =
      prog_loop fuel clear base (j + 1) next most (dev_write x val (int_reg x (base + 4 * j))) in
    if ltb i most then rest else x

-- The channels of both directions.
abbrev pub channels : Xdev → ℕ
channels x = x.channel_max from_device + x.channel_max to_device

-- `prog_irq_msix_user`
unfoldable pub prog_irq_msix_user : Bool → Xdev → Xdev
prog_irq_msix_user clear x =
    prog_loop x.user_max clear Offset.user_msi_vector 0 (channels x) (channels x + x.user_max) x

-- `prog_irq_msix_channel`
unfoldable pub prog_irq_msix_channel : Bool → Xdev → Xdev
prog_irq_msix_channel clear x =
    prog_loop (channels x) clear Offset.channel_msi_vector 0 0 (channels x) x

-- `request_irq`
unfoldable pub request_irq : DevHost → ℕ → Owner → Xdev → Rv × Xdev
request_irq h vector owner x =
    let rv = h.request_irq x.requests in
    let x' = record x { requests = x.requests + 1 } in
    (rv, if is_err rv then x' else note x' (requested vector owner))

-- A loop of `irq_msix_channel_setup`, with the rounds that are left; the direction's first vector is at `base`.
unfoldable pub channel_setup_loop : DevHost → Dir → ℕ → ℕ → ℕ → Xdev → Rv × Xdev
channel_setup_loop h d base zero i x = (ok, x)
channel_setup_loop h d base (suc n) i x =
    let vector = h.irq_vector (base + i) in
    let (rv, x') = request_irq h vector (channel d i) x in
    let e = record (x'.engines d i) { msix_irq_line = vector } in
    let rest = channel_setup_loop h d base n (i + 1) (put_engine x' d i e) in
    if is_err rv then (rv, x') else rest

-- The second loop of `irq_msix_channel_setup`, if the first ended well.
unfoldable pub setup_c2h : DevHost → ℕ → Rv × Xdev → Rv × Xdev
setup_c2h h base (err c, x) = (err c, x)
setup_c2h h base (ok, x) = channel_setup_loop h from_device base (x.channel_max from_device) 0 x

-- `irq_msix_channel_setup`
unfoldable pub irq_msix_channel_setup : DevHost → Xdev → Rv × Xdev
irq_msix_channel_setup h x =
    if not x.msix_enabled
    then (ok, x)
    else setup_c2h h (x.channel_max to_device)
        (channel_setup_loop h to_device 0 (x.channel_max to_device) 0 x)

-- The loop that frees the lines of the user interrupts below the n-th, the last first.
unfoldable pub free_users : DevHost → ℕ → ℕ → Xdev → Xdev
free_users h base zero x = x
free_users h base (suc i) x =
    free_users h base i (note x (released (h.irq_vector (base + i)) (user i)))

-- The loop of `irq_msix_user_setup`, with the rounds that are left, and what it does on an error.
unfoldable pub user_setup_loop : DevHost → ℕ → ℕ → ℕ → Xdev → Rv × Xdev
user_setup_loop h base zero i x = (ok, x)
user_setup_loop h base (suc n) i x =
    let (rv, x') = request_irq h (h.irq_vector (base + i)) (user i) x in
    let rest = user_setup_loop h base n (i + 1) x' in
    if is_err rv then (rv, free_users h base i x') else rest

-- `irq_msix_user_setup`
unfoldable pub irq_msix_user_setup : DevHost → Xdev → Rv × Xdev
irq_msix_user_setup h x = user_setup_loop h (channels x) x.user_max 0 x

-- A loop of `irq_msix_channel_teardown`, with the rounds that are left.
unfoldable pub channel_teardown_loop : Dir → ℕ → ℕ → Xdev → Xdev
channel_teardown_loop d zero i x = x
channel_teardown_loop d (suc n) i x =
    let line = (x.engines d i).msix_irq_line in
    let rest = channel_teardown_loop d n (i + 1) (note x (released line (channel d i))) in
    if line == 0 then x else rest

-- `irq_msix_channel_teardown`
unfoldable pub irq_msix_channel_teardown : Xdev → Xdev
irq_msix_channel_teardown x =
    let x1 = prog_irq_msix_channel true x in
    let x2 = channel_teardown_loop to_device (x1.channel_max to_device) 0 x1 in
    let x3 = channel_teardown_loop from_device (x2.channel_max from_device) 0 x2 in
    if not x.msix_enabled then x else x3

-- The loop of `irq_msix_user_teardown`, with the rounds that are left.
unfoldable pub user_teardown_loop : DevHost → ℕ → ℕ → ℕ → Xdev → Xdev
user_teardown_loop h base zero i x = x
user_teardown_loop h base (suc n) i x =
    user_teardown_loop h base n (i + 1) (note x (released (h.irq_vector (base + i)) (user i)))

-- `irq_msix_user_teardown`
unfoldable pub irq_msix_user_teardown : DevHost → Xdev → Xdev
irq_msix_user_teardown h x =
    let x1 = prog_irq_msix_user true x in
    let x2 = user_teardown_loop h (channels x) x1.user_max 0 x1 in
    if not x.msix_enabled then x else x2

-- `irq_msi_setup`
unfoldable pub irq_msi_setup : DevHost → Xdev → Rv × Xdev
irq_msi_setup h x = request_irq h h.irq device (record x { irq_line = some h.irq })

-- The six words that `irq_legacy_setup` writes for a pin above 1.
unfoldable pub legacy_vectors : ℕ → Xdev → Xdev
legacy_vectors val x =
    let w = bit_or (bit_or (bit_or (val * 2 ^ 24) (val * 2 ^ 16)) (val * 2 ^ 8)) val in
    let reg = config_bar x in
    let x1 = dev_write x w (reg + 0x2080) in
    let x2 = dev_write x1 w (reg + 0x2084) in
    let x3 = dev_write x2 w (reg + 0x2088) in
    let x4 = dev_write x3 w (reg + 0x208c) in
    let x5 = dev_write x4 w (reg + 0x20a0) in dev_write x5 w (reg + 0x20a4)

-- `irq_legacy_setup`
unfoldable pub irq_legacy_setup : DevHost → Xdev → Rv × Xdev
unfolding legacy_vectors
irq_legacy_setup h x =
    let x' = if ltb 1 h.interrupt_pin then legacy_vectors (h.interrupt_pin - 1) x else x in
    if h.interrupt_pin == 0
    then (err einval, x)
    else request_irq h h.irq device (record x' { irq_line = some h.irq })

-- `irq_teardown`
unfoldable pub irq_teardown : DevHost → Xdev → Xdev
irq_teardown h x =
    if x.msix_enabled
    then irq_msix_user_teardown h (irq_msix_channel_teardown x)
    else elim x.irq_line [ none ↦ x | some line ↦ note x (released line device) ]

-- What `irq_setup` does under MSI-X behind each of its two calls.
unfoldable pub program_vectors : Rv × Xdev → Rv × Xdev
program_vectors (err c, x) = (err c, x)
program_vectors (ok, x) = (ok, prog_irq_msix_user false (prog_irq_msix_channel false x))

unfoldable pub setup_users : DevHost → Rv × Xdev → Rv × Xdev
setup_users h (err c, x) = (err c, x)
setup_users h (ok, x) = program_vectors (irq_msix_user_setup h x)

-- `irq_setup`, behind `pci_keep_intx_enabled`, which only concerns the PCI command word.
unfoldable pub irq_setup : DevHost → Xdev → Rv × Xdev
irq_setup h x =
    if x.msix_enabled
    then setup_users h (irq_msix_channel_setup h x)
    else if x.msi_enabled
    then irq_msi_setup h x
    else irq_legacy_setup h x
