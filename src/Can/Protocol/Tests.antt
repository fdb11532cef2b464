-- ===== src/Can/Protocol/Tests.antt =====
-- Runs and instances of the protocol's theorems on frames like those of the shared vectors.
use beamforming_software.Prelude.{◌≤◌, ◌<◌, ◌≡◌, ◌↔◌, refl, arith, true, false, [], ◌∷◌, some, none}
use beamforming_software.Can.Protocol.{
  to_message_type, set_combined, ping, error, DecodeResult, CommandResult, Frame, Command,
  zero_command, StatusPayload, extended_id_max,
}
use beamforming_software.Can.Protocol.Id.{IdFields, make_id, parse_id}
use beamforming_software.Can.Protocol.Id.Laws.{
  IsIdFields, parse_id-make_id, make_id-parse_id, make_id_arbitration,
}
use beamforming_software.Can.Protocol.Decode.{decode_command, decode_fields, decode_payload}
use beamforming_software.Can.Protocol.Decode.Laws.{IsCommandFrame, decode_command_ok_iff}
use beamforming_software.Can.Protocol.Encode.Laws.{IsResponse, result_bytes, response_frame}

abbrev combined_fields : IdFields
combined_fields = record { type = set_combined; destination = 7; source = 0; sequence = 0x1234 }

abbrev ping_fields : IdFields
ping_fields = record { type = ping; destination = 1; source = 0; sequence = 0 }

-- SET_COMBINED to node 7, phase state 146 and 8 dB
abbrev combined_frame : Frame
combined_frame = record {
  id = 0x04e01234;
  extended = true;
  remote = false;
  dlc = 2;
  payload = 146 ∷ 8 ∷ 0 ∷ 0 ∷ 0 ∷ 0 ∷ 0 ∷ 0 ∷ [];
}

abbrev combined_command : Command
combined_command = record {
  type = set_combined;
  destination = 7;
  source = 0;
  sequence = 0x1234;
  phase_state = 146;
  attenuation_db = 8;
}

make_id_run : make_id set_combined 7 0 0x1234 ≡ some 0x04e01234
unfolding make_id
make_id_run = refl

make_ping_run : make_id ping 1 0 0 ≡ some 0x10200000
unfolding make_id
make_ping_run = refl

decode_run : decode_command combined_frame 7 zero_command ≡ (DecodeResult.ok, combined_command)
unfolding decode_command decode_fields decode_payload parse_id to_message_type
decode_run = refl

abbrev status_report : StatusPayload
status_report = record {
  node_id = 7;
  health_flags = 0;
  rx_dropped = 300;
  tx_dropped = 2;
  invalid_commands = 256;
}

abbrev ping_error : Frame
ping_error = response_frame error 9 7 2 (result_bytes ping CommandResult.busy)

parse_id-make_id_example :
    (0x04e01234 ≤ extended_id_max) × (parse_id 0x04e01234 ≡ some combined_fields)
parse_id-make_id_example = parse_id-make_id combined_fields 0x04e01234 (omega arith) make_id_run

make_id-parse_id_example :
    (0x04e01234 ≤ extended_id_max
      → (f : IdFields) × (parse_id 0x04e01234 ≡ some f)
        × IsIdFields f
        × (make_id f.type f.destination f.source f.sequence ≡ some 0x04e01234))
    × (extended_id_max < 0x04e01234 → parse_id 0x04e01234 ≡ none)
make_id-parse_id_example = make_id-parse_id 0x04e01234

make_id_arbitration_example : 0x04e01234 < 0x10200000
make_id_arbitration_example =
    make_id_arbitration combined_fields ping_fields 0x04e01234 0x10200000 (omega arith)
      (omega arith) (omega arith) make_id_run make_ping_run

decode_command_ok_iff_example :
    (decode_command combined_frame 7 zero_command ≡ (DecodeResult.ok, combined_command))
    ↔ IsCommandFrame 7 combined_frame combined_command
decode_command_ok_iff_example =
    decode_command_ok_iff 7 combined_frame zero_command combined_command (omega arith) (omega arith)
      (omega arith)

ping_error-IsResponse : IsResponse error 9 7 2 (result_bytes ping CommandResult.busy) ping_error
unfolding parse_id to_message_type
ping_error-IsResponse = record {
  extended = refl;
  remote = refl;
  identifier = refl;
  in_range = omega arith;
  dlc_exact = refl;
  payload = refl;
}
