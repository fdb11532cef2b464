-- ===== src/Can/Protocol/Decode.antt =====
-- stm32/app/src/can/protocol.c: `can_protocol_decode_command` and its static helpers. The
-- command that the C code writes through a pointer is an argument and part of the result, so what
-- a refused frame leaves in it is modelled too. The pointers are never NULL.
pub mod Laws
use beamforming_software.Prelude.{
  ℕ, Bool, true, false, ◌||◌, ◌&&◌, not, none, some, ltb, ◌==◌, if◌then◌else◌, get_or,
}
use beamforming_software.Can.Protocol.{
  enter_safe_length, set_combined_length, set_phase_length, set_vga_length, ping_length,
  MessageType, enter_safe, set_combined, set_phase, set_vga, ping, type_value, DecodeResult, Frame,
  Command, zero_command, node_controller, node_min, node_max, node_broadcast, max_data_length,
  vga_max_attenuation_db, CommandResult,
}
use beamforming_software.Can.Protocol.Id.{IdFields, parse_id}

-- `frame->data[index]`, at indices below eight
abbrev pub byte : Frame → ℕ → ℕ
byte frame index = get_or frame.payload index 0

decode_enter_safe : Frame → DecodeResult
decode_enter_safe frame =
    if frame.dlc == enter_safe_length then DecodeResult.ok else DecodeResult.invalid_length

decode_set_combined : Frame → Command → DecodeResult × Command
decode_set_combined frame command =
    if not (frame.dlc == set_combined_length)
    then (DecodeResult.invalid_length, command)
    else if ltb vga_max_attenuation_db (byte frame 1)
    then (DecodeResult.invalid_payload, command)
    else (
      DecodeResult.ok,
      record command { phase_state = byte frame 0; attenuation_db = byte frame 1 },
    )

decode_set_phase : Frame → Command → DecodeResult × Command
decode_set_phase frame command =
    if not (frame.dlc == set_phase_length)
    then (DecodeResult.invalid_length, command)
    else (DecodeResult.ok, record command { phase_state = byte frame 0 })

decode_set_vga : Frame → Command → DecodeResult × Command
decode_set_vga frame command =
    if not (frame.dlc == set_vga_length)
    then (DecodeResult.invalid_length, command)
    else if ltb vga_max_attenuation_db (byte frame 0)
    then (DecodeResult.invalid_payload, command)
    else (DecodeResult.ok, record command { attenuation_db = byte frame 0 })

decode_ping : Frame → DecodeResult
decode_ping frame =
    if frame.dlc == ping_length then DecodeResult.ok else DecodeResult.invalid_length

-- the `switch` on the type
unfoldable pub decode_payload : MessageType → Frame → Command → DecodeResult × Command
unfolding decode_enter_safe decode_set_combined decode_set_phase decode_set_vga decode_ping
decode_payload enter_safe frame command = (decode_enter_safe frame, command)
decode_payload set_combined frame command = decode_set_combined frame command
decode_payload set_phase frame command = decode_set_phase frame command
decode_payload set_vga frame command = decode_set_vga frame command
decode_payload ping frame command = (decode_ping frame, command)
decode_payload _ frame command = (DecodeResult.unsupported_type, command)

-- the checks on the parsed identifier, and what follows them
unfoldable pub decode_fields : Frame → ℕ → IdFields → Command → DecodeResult × Command
decode_fields frame self_node id command =
    if not (id.destination == self_node) && not (id.destination == node_broadcast)
    then (DecodeResult.ignored, command)
    else if not (id.source == node_controller)
    then (DecodeResult.invalid_id, command)
    else if ltb (type_value ping) (type_value id.type)
    then (DecodeResult.unsupported_type, command)
    else if id.destination == node_broadcast && not (type_value id.type == type_value enter_safe)
    then (DecodeResult.broadcast_not_allowed, command)
    else decode_payload id.type frame (record zero_command {
      type = id.type;
      destination = id.destination;
      source = id.source;
      sequence = id.sequence;
    })

unfoldable pub decode_command : Frame → ℕ → Command → DecodeResult × Command
decode_command frame self_node command =
    if ltb self_node node_min || ltb node_max self_node
    then (DecodeResult.invalid_argument, command)
    else if not frame.extended || frame.remote
    then (DecodeResult.invalid_id, command)
    else if ltb max_data_length frame.dlc
    then (DecodeResult.invalid_length, command)
    else elim (parse_id frame.id) [
      | none ↦ (DecodeResult.invalid_id, command)
      | some id ↦ decode_fields frame self_node id command
    ]

abbrev pub is_state_changing_type : MessageType → Bool
is_state_changing_type enter_safe = true
is_state_changing_type set_combined = true
is_state_changing_type set_phase = true
is_state_changing_type set_vga = true
is_state_changing_type _ = false

abbrev pub result_from_decode : DecodeResult → CommandResult
result_from_decode DecodeResult.ok = CommandResult.ok
result_from_decode DecodeResult.invalid_length = CommandResult.invalid_length
result_from_decode DecodeResult.broadcast_not_allowed = CommandResult.broadcast_not_allowed
result_from_decode DecodeResult.unsupported_type = CommandResult.unsupported
result_from_decode _ = CommandResult.invalid_payload
