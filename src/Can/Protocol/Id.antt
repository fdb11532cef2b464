-- ===== src/Can/Protocol/Id.antt =====
-- stm32/app/src/can/protocol.c: `can_protocol_make_id` and `can_protocol_parse_id`. The pointers
-- are those of the callers' own variables and never NULL; a `false` is `none`.
pub mod Laws
use beamforming_software.Prelude.{
  ℕ, Bool, ◌||◌, Option, none, some, ltb, leb, if◌then◌else◌, bit_and, bit_or, u8, u16, u32, ◌<<◌,
  ◌>>◌,
}
use beamforming_software.Can.Protocol.{
  id_type_shift, id_destination_shift, id_source_shift, id_type_mask, id_node_mask,
  id_sequence_mask, MessageType, type_value, to_message_type, extended_id_max, node_broadcast,
}

-- what `can_protocol_parse_id` writes through its four pointers
pub record IdFields : Type 0 where
  pub type : MessageType
  pub destination : ℕ
  pub source : ℕ
  pub sequence : ℕ

-- the shifted fields, joined
abbrev pub pack_id : ℕ → ℕ → ℕ → ℕ → ℕ
pack_id type destination source sequence =
    bit_or
      (bit_or (bit_or (u32 (type << id_type_shift)) (u32 (destination << id_destination_shift)))
        (u32 (source << id_source_shift)))
      sequence

unfoldable pub make_id : MessageType → ℕ → ℕ → ℕ → Option ℕ
make_id type destination source sequence =
    let value = pack_id (type_value type) destination source sequence in
    if leb 8 (type_value type)
    then none
    else if ltb node_broadcast destination || ltb node_broadcast source
    then none
    else if ltb extended_id_max value
    then none
    else some value

-- the raw type of an identifier
abbrev pub raw_type : ℕ → ℕ
raw_type id = bit_and (id >> id_type_shift) id_type_mask

abbrev pub id_fields : ℕ → IdFields
id_fields id = record {
  type = to_message_type (raw_type id);
  destination = u8 (bit_and (id >> id_destination_shift) id_node_mask);
  source = u8 (bit_and (id >> id_source_shift) id_node_mask);
  sequence = u16 (bit_and id id_sequence_mask);
}

unfoldable pub parse_id : ℕ → Option IdFields
parse_id id =
    if ltb extended_id_max id
    then none
    else if leb 8 (raw_type id)
    then none
    else some (id_fields id)
