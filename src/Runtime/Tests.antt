-- ===== src/Runtime/Tests.antt =====
-- Instances of the runtime's theorems on a bus that keeps what it is given to send.
use beamforming_software.Prelude.{
  ℕ, u32, ◌≡◌, ◌⊎◌, inl, refl, arith, true, false, List, [], ◌∷◌, none,
}
use beamforming_software.Can.Protocol.{
  enter_safe, node_broadcast, set_combined, DecodeResult, Frame, Command, zero_frame, zero_command,
}
use beamforming_software.Can.Protocol.Id.{parse_id, make_id}
use beamforming_software.Can.Protocol.{to_message_type}
use beamforming_software.Can.Protocol.Decode.{decode_command, decode_fields, decode_payload}
use beamforming_software.Can.Protocol.Encode.{make_ack, make_result}
use beamforming_software.Can.TxQueue.{priority_ack}
use beamforming_software.Platform.SpiGuard.{Peripherals}
use beamforming_software.Platform.DiagnosticRecord.{new, hse_pll}
use beamforming_software.Rf.Plan.{zero_plan}
use beamforming_software.Runtime.{Bus, System, zero_cache, transmit, commit, serve_frame}
use beamforming_software.Runtime.Quiet.{IsUntouched, MayWrite, serve_frame-IsUntouched}
use beamforming_software.Rf.Execute.Latches.{Chips}
use beamforming_software.Runtime.Guarded.{IsSafe}
use beamforming_software.Runtime.Served.{serves, here, later}
use beamforming_software.Rf.Execute.Timing.{IsClock}
use beamforming_software.Runtime.Timing.{IsShort, serve_frame-IsShort}
use beamforming_software.Runtime.Contract.Cached.{IsServing, Reach-IsServing}
use beamforming_software.Runtime.Contract.Broadcast.{Obeyed, serve_frame-Obeyed}
use beamforming_software.Runtime.Refused.Counted.{IsRefused, serve_frame-IsRefused}
use beamforming_software.Runtime.Retry.{commit-retry}

abbrev outbox : Bus (List Frame)
outbox = record {
  setup = λ node sent. (true, []);
  receive = λ sent. (none, sent);
  send = λ frame priority sent. (true, frame ∷ sent);
  rx_dropped = λ sent. 0;
  tx_dropped = λ sent. 0;
  is_bus_off = λ sent. false;
}

abbrev ready : Peripherals
ready = record {
  status_register = λ spi poll. 2;
  millis = λ poll. poll;
  txe_mask = 2;
  bsy_mask = 128;
  error_mask = 64;
}

-- node 7 at start
abbrev started : System (List Frame)
started = record {
  runtime = record {
    state = record { phase_state = 0; attenuation_db = 23 };
    last_phase_command = 0;
    last_vga_command = 92;
    node_id = 7;
    clock_source = hse_pll;
    safe_lockout = false;
    invalid_commands = 0;
  };
  cache = zero_cache;
  retained = new;
  board = record { polls = 0; trace = [] };
  bus = [];
}

abbrev request : Frame
request = record {
  id = 0x04e01234;
  extended = true;
  remote = false;
  dlc = 2;
  payload = 146 ∷ 8 ∷ 0 ∷ 0 ∷ 0 ∷ 0 ∷ 0 ∷ 0 ∷ [];
}

abbrev requested : Command
requested = record {
  type = set_combined;
  destination = 7;
  source = 0;
  sequence = 0x1234;
  phase_state = 146;
  attenuation_db = 8;
}

request_decodes : decode_command request 7 zero_command ≡ (DecodeResult.ok, requested)
unfolding decode_command decode_fields decode_payload parse_id to_message_type
request_decodes = refl

ack_made : (make_ack 7 0 0x1234 set_combined zero_frame).0 ≡ true
unfolding make_ack make_result make_id
ack_made = refl

serve_frame-IsUntouched_example :
    let (d, c) = decode_command request 7 zero_command in
    IsUntouched outbox ready started (serve_frame outbox ready request started)
    ⊎ ((d ≡ DecodeResult.ok) × MayWrite outbox ready c request started)
serve_frame-IsUntouched_example = serve_frame-IsUntouched outbox ready request started

commit-retry_example :
    let after = commit outbox ready requested request zero_plan started in
    let ack = (make_ack 7 0 0x1234 set_combined zero_frame).1 in
    serve_frame outbox ready request after ≡ transmit outbox ready ack priority_ack after
commit-retry_example =
    commit-retry outbox ready requested request zero_plan started request_decodes (λ e. cc) refl
      (omega arith) ack_made

-- the chips at the start of node 7
abbrev started_chips : Chips
started_chips = record { phase_shift = 0; vga_shift = 92; phase_word = 0; vga_byte = 92 }

started-IsSafe : IsSafe started_chips started
started-IsSafe = record {
  latched = record { quiet = tt; phase_latched = refl; vga_latched = refl };
  bounded = omega arith;
  held = inl refl;
}

-- the request with a byte too few
abbrev short_request : Frame
short_request = record request { dlc = 1 }

short_refused : (decode_command short_request 7 zero_command).0 ≡ DecodeResult.invalid_length
unfolding decode_command decode_fields decode_payload parse_id to_message_type
short_refused = refl

serve_frame-IsRefused_example :
    let d = (decode_command short_request 7 zero_command).0 in
    IsRefused outbox ready short_request d started (serve_frame outbox ready short_request started)
serve_frame-IsRefused_example =
    serve_frame-IsRefused outbox ready short_request started (omega arith)
      (λ e. let refused = short_refused in cc) (λ e. let refused = short_refused in cc)

-- ENTER_SAFE to all nodes
abbrev safe_request : Frame
safe_request = record {
  id = 0x03e01234;
  extended = true;
  remote = false;
  dlc = 0;
  payload = 0 ∷ 0 ∷ 0 ∷ 0 ∷ 0 ∷ 0 ∷ 0 ∷ 0 ∷ [];
}

abbrev safe_requested : Command
safe_requested = record {
  type = enter_safe;
  destination = node_broadcast;
  source = 0;
  sequence = 0x1234;
  phase_state = 0;
  attenuation_db = 0;
}

safe_request_decodes :
    decode_command safe_request 7 zero_command ≡ (DecodeResult.ok, safe_requested)
unfolding decode_command decode_fields decode_payload parse_id to_message_type
safe_request_decodes = refl

serve_frame-Obeyed_example :
    (safe_requested.type ≡ enter_safe)
    × Obeyed safe_requested started (serve_frame outbox ready safe_request started)
serve_frame-Obeyed_example =
    serve_frame-Obeyed outbox ready safe_request started safe_requested
      (record { eight = refl; dlc_byte = omega arith }) (omega arith) (omega arith)
      safe_request_decodes refl

started-IsServing : IsServing outbox ready started_chips started
started-IsServing = record { safe = started-IsSafe; node = omega arith; cache = λ valid. cc }

Reach-IsServing_example :
    IsServing outbox ready started_chips (serve_frame outbox ready request started)
    × ((serve_frame outbox ready request started).runtime.node_id ≡ started.runtime.node_id)
Reach-IsServing_example =
    Reach-IsServing outbox ready started_chips
      (later here (serves request (record { eight = refl; dlc_byte = omega arith })))
      started-IsServing

-- a poll per millisecond
abbrev clocked : Peripherals
clocked = record ready { millis = λ poll. u32 poll }

abbrev poll_time : ℕ → ℕ
poll_time n = n

clocked-IsClock : IsClock clocked poll_time 0 9000000
clocked-IsClock = record {
  shown = λ n. refl;
  forward = λ n. omega arith;
  often = λ n lo hi. omega arith;
}

serve_frame-IsShort_example :
    IsShort outbox clocked poll_time 0 9000000 clocked-IsClock started.board
      (serve_frame outbox clocked request started).board
serve_frame-IsShort_example =
    serve_frame-IsShort outbox clocked poll_time 0 9000000 clocked-IsClock request started
      (record { eight = refl; dlc_byte = omega arith }) (omega arith) (omega arith) (omega arith)
