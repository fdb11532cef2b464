-- ===== src/Can/Protocol/Encode.antt =====
-- stm32/app/src/can/protocol.c: `can_protocol_make_ack`, `_make_error`, `_make_status` and their
-- static helpers. The frame that the C code writes through a pointer is an argument and part of
-- the result; the pointers are never NULL.
pub mod Laws
use beamforming_software.Prelude.{
  ℕ, Bool, true, false, none, some, [], ◌∷◌, leb, if◌then◌else◌, set, bit_and, u8,
}
use beamforming_software.Can.Protocol.{
  ack_length, status_length, MessageType, ack, error, status, type_value, CommandResult,
  result_value, Frame, zero_frame, StatusPayload,
}
use beamforming_software.Can.Protocol.Id.{make_id}

abbrev protocol_version_major : ℕ
protocol_version_major = 3

abbrev protocol_version_minor : ℕ
protocol_version_minor = 0

abbrev protocol_version_patch : ℕ
protocol_version_patch = 0

-- `memset`, then the two flags
abbrev pub clear_frame : Frame → Frame
clear_frame frame = record zero_frame { extended = true; remote = false }

unfoldable pub make_result :
    MessageType → ℕ → ℕ → ℕ → MessageType → CommandResult → Frame → Bool × Frame
make_result response_type source_node destination_node sequence command_type result frame =
    if leb 8 (type_value command_type)
    then (false, frame)
    else elim (make_id response_type destination_node source_node sequence) [
      | none ↦ (false, clear_frame frame)
      | some id ↦ (
        true,
        record (clear_frame frame) {
          id = id;
          dlc = ack_length;
          payload =
              set (set (clear_frame frame).payload 0 (u8 (type_value command_type))) 1
                (u8 (result_value result));
        },
      )
    ]

unfoldable pub make_ack : ℕ → ℕ → ℕ → MessageType → Frame → Bool × Frame
unfolding make_result
make_ack source_node destination_node sequence command_type frame =
    make_result ack source_node destination_node sequence command_type CommandResult.ok frame

unfoldable pub make_error : ℕ → ℕ → ℕ → MessageType → CommandResult → Frame → Bool × Frame
unfolding make_result
make_error source_node destination_node sequence command_type result frame =
    make_result error source_node destination_node sequence command_type result frame

unfoldable pub make_status : ℕ → ℕ → ℕ → StatusPayload → Frame → Bool × Frame
make_status source_node destination_node sequence report frame =
    elim (make_id status destination_node source_node sequence) [
      | none ↦ (false, clear_frame frame)
      | some id ↦ (
        true,
        record (clear_frame frame) {
          id = id;
          dlc = status_length;
          payload =
              protocol_version_major
              ∷ protocol_version_minor
              ∷ protocol_version_patch
              ∷ report.node_id
              ∷ report.health_flags
              ∷ u8 (bit_and report.rx_dropped 0xff)
              ∷ u8 (bit_and report.tx_dropped 0xff)
              ∷ u8 (bit_and report.invalid_commands 0xff)
              ∷ [];
        },
      )
    ]
