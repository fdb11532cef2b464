-- ===== src/Can/Protocol.antt =====
-- stm32/app/include/can/protocol.h and stm32/app/include/rf/limits.h: the constants, the
-- enumerations and the structures of the wire protocol. A `uint8_t`, `uint16_t` or `uint32_t` is
-- a native number, and `data[8]` a list of eight bytes.
pub mod Id
pub mod Decode
pub mod Encode
mod Tests
use beamforming_software.Prelude.{
  ℕ, ◌<◌, ◌≡◌, ◌≢◌, refl, arith, Bool, false, List, length, replicate, ◌==◌, if◌then◌else◌,
}

abbrev pub extended_id_max : ℕ
extended_id_max = 0x1fffffff

abbrev pub node_controller : ℕ
node_controller = 0

abbrev pub node_min : ℕ
node_min = 1

abbrev pub node_max : ℕ
node_max = 30

abbrev pub node_broadcast : ℕ
node_broadcast = 31

abbrev pub max_data_length : ℕ
max_data_length = 8

abbrev pub id_type_shift : ℕ
id_type_shift = 26

abbrev pub id_destination_shift : ℕ
id_destination_shift = 21

abbrev pub id_source_shift : ℕ
id_source_shift = 16

abbrev pub id_type_mask : ℕ
id_type_mask = 0x07

abbrev pub id_node_mask : ℕ
id_node_mask = 0x1f

abbrev pub id_sequence_mask : ℕ
id_sequence_mask = 0xffff

abbrev pub enter_safe_length : ℕ
enter_safe_length = 0

abbrev pub set_phase_length : ℕ
set_phase_length = 1

abbrev pub set_vga_length : ℕ
set_vga_length = 1

abbrev pub set_combined_length : ℕ
set_combined_length = 2

abbrev pub ping_length : ℕ
ping_length = 0

abbrev pub ack_length : ℕ
ack_length = 2

abbrev pub status_length : ℕ
status_length = 8

-- `can_health_flag_t`
abbrev pub health_clock_fallback : ℕ
health_clock_fallback = 1

abbrev pub health_rx_dropped : ℕ
health_rx_dropped = 2

abbrev pub health_invalid_command : ℕ
health_invalid_command = 4

abbrev pub health_safe_lockout : ℕ
health_safe_lockout = 8

abbrev pub health_bus_off : ℕ
health_bus_off = 16

abbrev pub health_tx_dropped : ℕ
health_tx_dropped = 32

abbrev pub vga_max_attenuation_db : ℕ
vga_max_attenuation_db = 23

-- `can_message_type_t`, its counting member included
pub data MessageType : Type 0 where
  enter_safe set_combined set_phase set_vga ping status ack error type_count : MessageType

pub MessageType-discrete : Discrete MessageType
MessageType-discrete = hlevel

-- the number that the enumeration gives a member
abbrev pub type_value : MessageType → ℕ
type_value enter_safe = 0
type_value set_combined = 1
type_value set_phase = 2
type_value set_vga = 3
type_value ping = 4
type_value status = 5
type_value ack = 6
type_value error = 7
type_value type_count = 8

-- the cast `(can_message_type_t)raw`, made only where `raw` is below the count
unfoldable pub to_message_type : ℕ → MessageType
to_message_type n =
    if n == 0
    then enter_safe
    else if n == 1
    then set_combined
    else if n == 2
    then set_phase
    else if n == 3
    then set_vga
    else if n == 4
    then ping
    else if n == 5
    then status
    else if n == 6
    then ack
    else if n == 7
    then error
    else type_count

-- `can_decode_result_t`
pub data DecodeResult : Type 0 where
  ok ignored invalid_argument invalid_id invalid_length invalid_payload : DecodeResult
  unsupported_type broadcast_not_allowed : DecodeResult

-- `can_command_result_t`
pub data CommandResult : Type 0 where
  ok invalid_length invalid_payload unsupported hardware busy : CommandResult
  sequence_reuse broadcast_not_allowed : CommandResult

abbrev pub result_value : CommandResult → ℕ
result_value CommandResult.ok = 0
result_value CommandResult.invalid_length = 1
result_value CommandResult.invalid_payload = 2
result_value CommandResult.unsupported = 3
result_value CommandResult.hardware = 4
result_value CommandResult.busy = 5
result_value CommandResult.sequence_reuse = 6
result_value CommandResult.broadcast_not_allowed = 7

-- `can_frame_t`
pub record Frame : Type 0 where
  pub id : ℕ
  pub extended : Bool
  pub remote : Bool
  pub dlc : ℕ
  pub payload : List ℕ

-- `can_command_t`
pub record Command : Type 0 where
  pub type : MessageType
  pub destination : ℕ
  pub source : ℕ
  pub sequence : ℕ
  pub phase_state : ℕ
  pub attenuation_db : ℕ

-- `can_status_payload_t`
pub record StatusPayload : Type 0 where
  pub node_id : ℕ
  pub health_flags : ℕ
  pub rx_dropped : ℕ
  pub tx_dropped : ℕ
  pub invalid_commands : ℕ

-- the zeroed structures of the `= {0}` initialisers and the `memset`s
abbrev pub zero_payload : List ℕ
zero_payload = replicate max_data_length 0

abbrev pub zero_frame : Frame
zero_frame = record { id = 0; extended = false; remote = false; dlc = 0; payload = zero_payload }

abbrev pub zero_command : Command
zero_command = record {
  type = enter_safe;
  destination = 0;
  source = 0;
  sequence = 0;
  phase_state = 0;
  attenuation_db = 0;
}

-- What C's types say of a frame: the array has eight entries.
pub record IsFrame (f : Frame) : Type 0 where
  pub eight : length f.payload ≡ max_data_length
  pub dlc_byte : f.dlc < 256

pub type_value-lt : (t : MessageType) → t ≢ type_count → type_value t < 8
type_value-lt type_count h = absurd (h refl)
type_value-lt _ h = omega arith

pub type_value-to_message_type : (n : ℕ) → n < 8 → type_value (to_message_type n) ≡ n
unfolding to_message_type
type_value-to_message_type n h = ground arith

pub to_message_type-type_value : (t : MessageType) → to_message_type (type_value t) ≡ t
unfolding to_message_type
to_message_type-type_value enter_safe = refl
to_message_type-type_value _ = refl
