-- ===== src/Xdev/Bars.antt =====
-- xdma/libxdma.c, the BARs of the device: `map_single_bar`, `is_config_bar`, `identify_bars`, `map_bars`
-- and `unmap_bars`, where `XDMA_CONFIG_BAR_NUM` is not defined, as in the repository.
pub mod Scanned
pub mod Roles
use xdma_fpga.Base.{
  ℕ, zero, suc, ◌+◌, ◌-◌, bit_and, Bool, not, ◌&&◌, ◌||◌, ◌==◌, ltb, leb, Option, none, some, List,
  [], ◌∷◌, ◌++◌, length, get_elem?, true, false, Rv, ok, err, einval, if◌then◌else◌,
}
use xdma_fpga.Xdev.{Xdev, DevHost, put, note, unmapped, dev_read}
use xdma_fpga.Xdev.Offset

-- `XDMA_BAR_NUM`, `XDMA_BAR_SIZE`
abbrev pub xdma_bar_num : ℕ
xdma_bar_num = 6

abbrev pub xdma_bar_size : ℕ
xdma_bar_size = 0x8000

abbrev pub int_max : ℕ
int_max = 0x7fff_ffff

-- A loop of `unmap_bars`, with the rounds that are left.
unfoldable pub unmap_loop : ℕ → ℕ → Xdev → Xdev
unmap_loop zero i x = x
unmap_loop (suc n) i x =
    unmap_loop n (i + 1) (
      if not (x.bar i == 0)
      then note (record x { bar = put x.bar i 0 }) (unmapped (x.bar i))
      else x)

-- `unmap_bars`
unfoldable pub unmap_bars : Xdev → Xdev
unfolding unmap_loop
unmap_bars x = unmap_loop xdma_bar_num 0 x

-- `map_single_bar`: the length that is mapped, and `none` for -1.
unfoldable pub map_single_bar : DevHost → ℕ → Xdev → Option ℕ × Xdev
map_single_bar h idx x =
    let bar_len = h.resource_len idx in
    let map_len = if ltb int_max bar_len then int_max else bar_len in
    let x1 = record x { bar = put x.bar idx 0 } in
    let x2 = record x1 { bar = put x1.bar idx (h.iomap idx map_len) } in
    if bar_len == 0
    then (some 0, x1)
    else if x2.bar idx == 0
    then (none, x2)
    else (some map_len, x2)

-- `is_config_bar`
unfoldable pub is_config_bar : DevHost → ℕ → Xdev → Bool × Xdev
is_config_bar h idx x =
    let (irq_id, x1) = dev_read h x (x.bar idx + (Offset.int_ctrl + Offset.identifier)) in
    let (cfg_id, x2) = dev_read h x1 (x.bar idx + (Offset.config + Offset.identifier)) in
    (bit_and irq_id 0xffff_0000 == 0x1fc2_0000 && bit_and cfg_id 0xffff_0000 == 0x1fc3_0000, x2)

-- `identify_bars`. The number of BARs is the length of the list, and a place outside it is not read.
unfoldable pub identify_bars : List ℕ → ℕ → Xdev → Xdev
identify_bars bar_id_list config_bar_pos x =
    let num_bars = length bar_id_list in
    if num_bars == 2
    then (if config_bar_pos == 0
        then record x { bypass_bar_idx = get_elem? bar_id_list 1 }
        else if config_bar_pos == 1
        then record x { user_bar_idx = get_elem? bar_id_list 0 }
        else x)
    else if num_bars == 3 || num_bars == 4
    then (if config_bar_pos == 1 || config_bar_pos == 2
        then record x {
          user_bar_idx = get_elem? bar_id_list 0;
          bypass_bar_idx = get_elem? bar_id_list (num_bars - 1);
        }
        else x)
    else x

-- The variables of the loop of `map_bars`.
pub record BarScan : Type 0 where
  pub bar_id_list : List ℕ
  pub config_bar_pos : ℕ
  pub xdev : Xdev

-- `xdev->config_bar_idx < 0`
abbrev pub no_config : Xdev → Bool
no_config x = elim x.config_bar_idx [ none ↦ true | some c ↦ false ]

-- The end of a round, for a BAR that is mapped.
unfoldable pub found_bar : DevHost → ℕ → ℕ → BarScan → BarScan
unfolding is_config_bar
found_bar h i bar_len s =
    let (flag, x') = is_config_bar h i s.xdev in
    let ids = s.bar_id_list ++ i ∷ [] in
    if not (ltb bar_len xdma_bar_size) && no_config s.xdev
    then (if flag
        then record {
          bar_id_list = ids;
          config_bar_pos = length s.bar_id_list;
          xdev = record x' { config_bar_idx = some i };
        }
        else record { bar_id_list = ids; config_bar_pos = s.config_bar_pos; xdev = x' })
    else record s { bar_id_list = ids }

-- A round of the loop of `map_bars`: whether it goes on, and the variables.
unfoldable pub bar_round : DevHost → ℕ → BarScan → Bool × BarScan
bar_round h i s =
    let (bar_len, x') = map_single_bar h i s.xdev in
    let s' = record s { xdev = x' } in
    elim bar_len [
      | none ↦ (false, s')
      | some len ↦ (true, if len == 0 then s' else found_bar h i len s')
    ]

-- The loop, with the rounds that are left: whether it ends without a failure, and its variables.
unfoldable pub bar_loop : DevHost → ℕ → ℕ → BarScan → Bool × BarScan
bar_loop h zero i s = (true, s)
bar_loop h (suc n) i s =
    let (fine, s') = bar_round h i s in
    let rest = bar_loop h n (i + 1) s' in if fine then rest else (false, s')

-- `map_bars`
unfoldable pub map_bars : DevHost → Xdev → Rv × Xdev
map_bars h x =
    let start : BarScan = record { bar_id_list = []; config_bar_pos = 0; xdev = x } in
    let (fine, s) = bar_loop h xdma_bar_num 0 start in
    if not fine || no_config s.xdev
    then (err einval, unmap_bars s.xdev)
    else (ok, identify_bars s.bar_id_list s.config_bar_pos s.xdev)
