-- ===== src/Can/Protocol/Encode/Laws.antt =====
-- The responses on the wire: where they go, what they carry, and that no receiver takes one for
-- a command.
use beamforming_software.Prelude.{
  ℕ, Bool, ◌<◌, ◌≤◌, ◌≡◌, ◌≢◌, ◌%◌, refl, arith, true, false, List, [], ◌∷◌, some,
}
use beamforming_software.Prelude.Bits.{bit_and_mask}
use beamforming_software.Can.Protocol.{
  MessageType, ack, error, status, type_count, type_value, CommandResult, result_value, Frame,
  StatusPayload, DecodeResult, Command, node_controller, node_min, node_max, type_value-lt,
  extended_id_max,
}
use beamforming_software.Can.Protocol.Id.{IdFields, parse_id}
use beamforming_software.Can.Protocol.Id.Laws.{
  IsIdFields, id_value, make_id_sum, parse_id-id_value, id_value-le,
}
use beamforming_software.Can.Protocol.Decode.{decode_command, decode_fields}
use beamforming_software.Can.Protocol.Encode.{make_result, make_ack, make_error, make_status}

-- A response of a type, from a node to the controller, with the sequence of the request.
abbrev pub response_fields : MessageType → ℕ → ℕ → IdFields
response_fields t node sequence = record {
  type = t;
  destination = node_controller;
  source = node;
  sequence = sequence;
}

-- `f` is an extended data frame with the identifier of such a response and the given bytes.
pub record IsResponse (t : MessageType) (node sequence : ℕ) (dlc : ℕ) (bytes : List ℕ) (f : Frame)
    : Type 0 where
  pub extended : f.extended ≡ true
  pub remote : f.remote ≡ false
  pub identifier : parse_id f.id ≡ some (response_fields t node sequence)
  pub in_range : f.id ≤ extended_id_max
  pub dlc_exact : f.dlc ≡ dlc
  pub payload : f.payload ≡ bytes

response_fields-IsIdFields :
    (t : MessageType) (node sequence : ℕ)
    → t ≢ type_count
    → node ≤ node_max
    → sequence < 65536
    → IsIdFields (response_fields t node sequence)
response_fields-IsIdFields t node sequence ht hn hs = record {
  type_in = ht;
  destination_in = omega arith;
  source_in = omega arith;
  sequence_in = hs;
}

-- A frame of that shape, whole.
abbrev pub response_frame : MessageType → ℕ → ℕ → ℕ → List ℕ → Frame
response_frame t node sequence dlc bytes = record {
  id = id_value (response_fields t node sequence);
  extended = true;
  remote = false;
  dlc = dlc;
  payload = bytes;
}

response_frame-IsResponse :
    (t : MessageType) (node sequence dlc : ℕ) (bytes : List ℕ)
    → IsIdFields (response_fields t node sequence)
    → IsResponse t node sequence dlc bytes (response_frame t node sequence dlc bytes)
response_frame-IsResponse t node sequence dlc bytes h = record {
  extended = refl;
  remote = refl;
  identifier = parse_id-id_value (response_fields t node sequence) h;
  in_range = id_value-le (response_fields t node sequence) h;
  dlc_exact = refl;
  payload = refl;
}

answered :
    (t : MessageType) (node sequence dlc : ℕ) (bytes : List ℕ) (p : Bool × Frame)
    → IsIdFields (response_fields t node sequence)
    → p ≡ (true, response_frame t node sequence dlc bytes)
    → (p.0 ≡ true) × IsResponse t node sequence dlc bytes p.1
answered t node sequence dlc bytes p h e =
    rw e (refl, response_frame-IsResponse t node sequence dlc bytes h)

result_value-lt : (r : CommandResult) → result_value r < 8
result_value-lt r = ground arith

abbrev pub result_bytes : MessageType → CommandResult → List ℕ
result_bytes command_type r = type_value command_type ∷ result_value r ∷ 0 ∷ 0 ∷ 0 ∷ 0 ∷ 0 ∷ 0 ∷ []

make_result_lem :
    (t : MessageType) (node sequence : ℕ) (command_type : MessageType) (r : CommandResult)
    (f0 : Frame)
    → IsIdFields (response_fields t node sequence)
    → command_type ≢ type_count
    → make_result t node node_controller sequence command_type r f0
      ≡ (true, response_frame t node sequence 2 (result_bytes command_type r))
unfolding make_result
make_result_lem t node sequence command_type r f0 h hc = ground (
  arith,
  make_id_sum (response_fields t node sequence) h,
  type_value-lt command_type hc,
  result_value-lt r,
)

-- An ACK of any command type, from a node numbered at most 30 to the controller, goes out under the
-- request's sequence of 16 bits, with the command's type and the result OK in its two bytes.
pub make_ack_lem :
    (node sequence : ℕ) (command_type : MessageType) (f0 : Frame)
    → node ≤ node_max
    → sequence < 65536
    → command_type ≢ type_count
    → let (sent, f) = make_ack node node_controller sequence command_type f0 in
      (sent ≡ true) × IsResponse ack node sequence 2 (result_bytes command_type CommandResult.ok) f
unfolding make_ack
make_ack_lem node sequence command_type f0 hn hs hc =
    let h = response_fields-IsIdFields ack node sequence (λ e. cc) hn hs in
    answered ack node sequence 2 _ (make_ack node node_controller sequence command_type f0) h
      (make_result_lem ack node sequence command_type CommandResult.ok f0 h hc)

-- An ERROR of any command type and any result, from a node numbered at most 30 to the controller,
-- goes out under the request's sequence of 16 bits, with the command's type and the result in its
-- two bytes.
pub make_error_lem :
    (node sequence : ℕ) (command_type : MessageType) (r : CommandResult) (f0 : Frame)
    → node ≤ node_max
    → sequence < 65536
    → command_type ≢ type_count
    → let (sent, f) = make_error node node_controller sequence command_type r f0 in
      (sent ≡ true) × IsResponse error node sequence 2 (result_bytes command_type r) f
unfolding make_error
make_error_lem node sequence command_type r f0 hn hs hc =
    let h = response_fields-IsIdFields error node sequence (λ e. cc) hn hs in
    answered error node sequence 2 _ (make_error node node_controller sequence command_type r f0) h
      (make_result_lem error node sequence command_type r f0 h hc)

-- The STATUS payload, with the low bytes of the counters.
abbrev pub status_bytes : StatusPayload → List ℕ
status_bytes p =
    3
    ∷ 0
    ∷ 0
    ∷ p.node_id
    ∷ p.health_flags
    ∷ p.rx_dropped % 256
    ∷ p.tx_dropped % 256
    ∷ p.invalid_commands % 256
    ∷ []

-- A STATUS from a node numbered at most 30 to the controller goes out under the request's
-- sequence of 16 bits, with the version 3.0.0, the node, the flags and the low bytes of the three
-- counters in its eight bytes.
pub make_status_lem :
    (node sequence : ℕ) (p : StatusPayload) (f0 : Frame)
    → node ≤ node_max
    → sequence < 65536
    → let (sent, f) = make_status node node_controller sequence p f0 in
      (sent ≡ true) × IsResponse status node sequence 8 (status_bytes p) f
unfolding make_status
make_status_lem node sequence p f0 hn hs =
    let h = response_fields-IsIdFields status node sequence (λ e. cc) hn hs in
    answered status node sequence 8 _ (make_status node node_controller sequence p f0) h (
      ground (
        arith,
        make_id_sum (response_fields status node sequence) h,
        bit_and_mask 8 p.rx_dropped,
        bit_and_mask 8 p.tx_dropped,
        bit_and_mask 8 p.invalid_commands,
      ))

-- A node numbered 1 to 30 ignores every response of at most eight bytes that goes to the
-- controller, whoever sent it, and its command stays as it was.
pub decode-IsResponse :
    (t : MessageType) (node sequence dlc : ℕ) (bytes : List ℕ) (f : Frame) (self : ℕ) (c0 : Command)
    → IsResponse t node sequence dlc bytes f
    → dlc ≤ 8
    → node_min ≤ self
    → self ≤ node_max
    → decode_command f self c0 ≡ (DecodeResult.ignored, c0)
unfolding decode_command decode_fields
decode-IsResponse t node sequence dlc bytes f self c0 h hd lo hi = ground arith
