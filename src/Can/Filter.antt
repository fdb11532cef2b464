-- ===== src/Can/Filter.antt =====
-- stm32/app/src/can/filter.c: the two acceptance filters of the receiver. A filter bank is what the
-- program passes to `can_filter_id_mask_32bit_init`; how the peripheral matches a frame against a
-- bank is hardware, and a parameter of the proofs.
pub mod Accept
pub mod Decode
mod Tests
use beamforming_software.Prelude.{
  ℕ, Bool, true, List, [], ◌∷◌, Option, none, some, ◌||◌, ltb, if◌then◌else◌, bit_and, bit_or, u32,
  ◌<<◌,
}
use beamforming_software.Can.Protocol.{
  enter_safe, type_value, extended_id_max, node_controller, node_min, node_max, node_broadcast,
}

abbrev pub filter_ide_bit : ℕ
filter_ide_bit = 4

abbrev pub filter_rtr_bit : ℕ
filter_rtr_bit = 2

abbrev pub bank_unicast : ℕ
bank_unicast = 0

abbrev pub bank_broadcast_safe : ℕ
bank_broadcast_safe = 1

abbrev pub filter_fifo0_index : ℕ
filter_fifo0_index = 0

-- the arguments of `can_filter_id_mask_32bit_init`
pub record Bank : Type 0 where
  pub number : ℕ
  pub id : ℕ
  pub mask : ℕ
  pub fifo : ℕ
  pub enable : Bool

abbrev pub pack_extended_id : ℕ → ℕ
pack_extended_id id = bit_or (u32 (bit_and id extended_id_max << 3)) filter_ide_bit

abbrev pub pack_extended_mask : ℕ → ℕ
pack_extended_mask mask =
    bit_or (bit_or (u32 (bit_and mask extended_id_max << 3)) filter_ide_bit) filter_rtr_bit

abbrev pub unicast_id : ℕ → ℕ
unicast_id self_node = bit_or (u32 (self_node << 21)) (u32 (node_controller << 16))

abbrev pub unicast_mask : ℕ
unicast_mask = bit_or (u32 (0x1f << 21)) (u32 (0x1f << 16))

abbrev pub broadcast_id : ℕ
broadcast_id =
    bit_or (bit_or (u32 (type_value enter_safe << 26)) (u32 (node_broadcast << 21)))
      (u32 (node_controller << 16))

abbrev pub broadcast_mask : ℕ
broadcast_mask = bit_or (bit_or (u32 (0x07 << 26)) (u32 (0x1f << 21))) (u32 (0x1f << 16))

abbrev pub unicast_filter : ℕ → Bank
unicast_filter self_node = record {
  number = bank_unicast;
  id = pack_extended_id (unicast_id self_node);
  mask = pack_extended_mask unicast_mask;
  fifo = filter_fifo0_index;
  enable = true;
}

abbrev pub broadcast_filter : Bank
broadcast_filter = record {
  number = bank_broadcast_safe;
  id = pack_extended_id broadcast_id;
  mask = pack_extended_mask broadcast_mask;
  fifo = filter_fifo0_index;
  enable = true;
}

-- The banks that are initialised, in order; `none` is the refusal, which initialises none.
unfoldable pub filter_configure : ℕ → Option (List Bank)
filter_configure self_node =
    if ltb self_node node_min || ltb node_max self_node
    then none
    else some (unicast_filter self_node ∷ broadcast_filter ∷ [])
