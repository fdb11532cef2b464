-- ===== src/Runtime.antt =====
-- stm32/app/src/can/runtime.c: the start, and the service of one command with the replay cache.
-- The bus is an interface: what `can_bus_setup`, `can_bus_receive`, `can_bus_send` and the bus's
-- counters do to a state of its own. The static cache and the retained record are parts of the
-- state. The pointers are never NULL.
pub mod Replay
pub mod Quiet
pub mod Retry
pub mod Guarded
pub mod Served
pub mod Locked
pub mod Reply
pub mod Contract
pub mod Refused
pub mod Delivered
pub mod Timing
pub mod OnBus
pub mod Answer
pub mod SendsOnce
mod Tests
use beamforming_software.Prelude.{
  ℕ, ◌+◌, Bool, true, false, ◌&&◌, ◌||◌, not, List, [], ◌∷◌, Option, none, some, ltb, leb, ◌==◌,
  if◌then◌else◌, ◌++◌, take, replicate, length, ◌-◌, uint16_max,
}
use beamforming_software.Can.Protocol.{
  health_clock_fallback, health_rx_dropped, health_invalid_command, health_safe_lockout,
  health_bus_off, health_tx_dropped, MessageType, ping, enter_safe, type_value, type_count,
  DecodeResult, CommandResult, Frame, zero_frame, Command, zero_command, StatusPayload,
  node_broadcast, node_controller, node_min, node_max, vga_max_attenuation_db, max_data_length,
}
use beamforming_software.Can.Protocol.Id.{IdFields, parse_id}
use beamforming_software.Can.Protocol.Decode.{
  decode_command, is_state_changing_type, result_from_decode,
}
use beamforming_software.Can.Protocol.Encode.{make_ack, make_error, make_status}
use beamforming_software.Can.TxQueue.{priority_error, priority_ack, priority_requested_status}
use beamforming_software.Platform.SpiGuard.{Peripherals}
use beamforming_software.Platform.DiagnosticRecord.{
  DiagnosticRecord, FirmwareClock, hsi48, FirmwareFault, no_fault,
}
use beamforming_software.Platform.RetainedDiagnostics
use beamforming_software.Rf.Plan.{RfState, Plan, zero_plan, plan_command}
use beamforming_software.Rf.Drivers.{Board}
use beamforming_software.Rf.Execute.{Outputs, execute_plan}
pub use beamforming_software.Runtime.Replay.{
  ReplayCache, zero_cache, ReplayResult, miss, sequence_reuse, hit, command_key_equal, same_bytes,
}
unfoldable pub use beamforming_software.Runtime.Replay.{replay_cache_lookup, replay_cache_store_ack}

-- `CAN_SPI_TIMEOUT_MILLIS`
abbrev pub spi_timeout_millis : ℕ
spi_timeout_millis = 2

-- `can_runtime_t`
pub record Runtime : Type 0 where
  pub state : RfState
  pub last_phase_command : ℕ
  pub last_vga_command : ℕ
  pub node_id : ℕ
  pub clock_source : FirmwareClock
  pub safe_lockout : Bool
  pub invalid_commands : ℕ

abbrev pub increment_invalid_commands : Runtime → Runtime
increment_invalid_commands r =
    if not (r.invalid_commands == uint16_max)
    then record r { invalid_commands = r.invalid_commands + 1 }
    else r

-- What the runtime calls of stm32/app/src/can/bus.c, on a state of the bus.
pub record Bus (B : Type 0) : Type 0 where
  pub setup : ℕ → B → Bool × B
  pub receive : B → Option Frame × B
  pub send : Frame → ℕ → B → Bool × B
  pub rx_dropped : B → ℕ
  pub tx_dropped : B → ℕ
  pub is_bus_off : B → Bool

-- all that a service may change
pub record System (B : Type 0) : Type 0 where
  pub runtime : Runtime
  pub cache : ReplayCache
  pub retained : DiagnosticRecord
  pub board : Board
  pub bus : B

module _ {B : Type 0} (ops : Bus B) (p : Peripherals) where
  abbrev pub transmit : Frame → ℕ → System B → System B
  transmit frame priority s = record s { bus = (ops.send frame priority s.bus).1 }

  unfoldable pub send_ack : Command → Frame → System B → System B
  send_ack command request s =
      let (made, response) =
        make_ack s.runtime.node_id command.source command.sequence command.type zero_frame in
      if command.destination == node_broadcast
      then s
      else if made
      then transmit response priority_ack
          (record s { cache = replay_cache_store_ack s.cache command request response })
      else s

  unfoldable pub send_error_for_command : Command → CommandResult → System B → System B
  send_error_for_command command result s =
      let (made, response) =
        make_error s.runtime.node_id command.source command.sequence command.type result
          zero_frame in
      if command.destination == node_broadcast
      then s
      else if made
      then transmit response priority_error s
      else s

  -- the part after the identifier is parsed
  abbrev pub send_error_for_fields : IdFields → DecodeResult → System B → System B
  send_error_for_fields id decoded s =
      let (made, response) =
        make_error s.runtime.node_id id.source id.sequence id.type (result_from_decode decoded)
          zero_frame in
      if not (id.destination == s.runtime.node_id)
        || (not (id.source == node_controller) || ltb (type_value ping) (type_value id.type))
      then s
      else if made
      then transmit response priority_error s
      else s

  unfoldable pub send_error_for_frame : Frame → DecodeResult → System B → System B
  send_error_for_frame frame decoded s =
      if not frame.extended || frame.remote
      then s
      else elim (parse_id frame.id) [ none ↦ s | some id ↦ send_error_for_fields id decoded s ]

  -- The flags are distinct bits, so that `|=` adds.
  abbrev pub flag : ℕ → Bool → ℕ
  flag value on = if on then value else 0

  abbrev pub is_fallback : FirmwareClock → Bool
  is_fallback hsi48 = true
  is_fallback _ = false

  unfoldable pub health_flags : System B → ℕ
  health_flags s =
      flag health_clock_fallback (is_fallback s.runtime.clock_source)
      + (flag health_rx_dropped (not (ops.rx_dropped s.bus == 0))
          + (flag health_invalid_command (not (s.runtime.invalid_commands == 0))
              + (flag health_safe_lockout s.runtime.safe_lockout
                  + (flag health_bus_off (ops.is_bus_off s.bus)
                      + flag health_tx_dropped (not (ops.tx_dropped s.bus == 0))))))

  unfoldable pub send_status : Command → System B → System B
  send_status command s =
      let report : StatusPayload = record {
        node_id = s.runtime.node_id;
        health_flags = health_flags s;
        rx_dropped = ops.rx_dropped s.bus;
        tx_dropped = ops.tx_dropped s.bus;
        invalid_commands = s.runtime.invalid_commands;
      } in
      let (made, response) =
        make_status s.runtime.node_id command.source command.sequence report zero_frame in
      if command.destination == node_broadcast
      then s
      else if made
      then transmit response priority_requested_status s
      else s

  -- what follows a successful execution
  unfoldable pub commit : Command → Frame → Plan → System B → System B
  commit command frame plan s =
      let done : System B = record s {
        runtime = record (s.runtime) { state = plan.resulting_state };
        retained =
            RetainedDiagnostics.set_commands s.retained s.runtime.last_phase_command
              s.runtime.last_vga_command;
      } in
      if command.destination == node_broadcast
      then record done { cache = zero_cache }
      else send_ack command frame done

  abbrev pub finish_execution : FirmwareFault → Command → Frame → Plan → System B → System B
  finish_execution no_fault command frame plan s = commit command frame plan s
  finish_execution cause command frame plan s =
      send_error_for_command command CommandResult.hardware
        (record s { retained = RetainedDiagnostics.set_fault s.retained cause })

  unfoldable pub run_plan : Command → Frame → Plan → System B → System B
  run_plan command frame plan s =
      let (cause, o) = execute_plan p spi_timeout_millis plan (record {
        last_phase_command = s.runtime.last_phase_command;
        last_vga_command = s.runtime.last_vga_command;
        board = s.board;
      }) in
      finish_execution cause command frame plan (record s {
        runtime = record (s.runtime) {
          last_phase_command = o.last_phase_command;
          last_vga_command = o.last_vga_command;
        };
        board = o.board;
      })

  abbrev pub planned_command : CommandResult × Plan → Command → Frame → System B → System B
  planned_command (CommandResult.ok, plan) command frame s = run_plan command frame plan s
  planned_command (result, plan) command frame s =
      send_error_for_command command result
        (record s { runtime = increment_invalid_commands s.runtime })

  -- a command that is not a replay
  unfoldable pub fresh_command : Command → Frame → System B → System B
  fresh_command command frame s =
      if type_value command.type == type_value ping
      then send_status command s
      else if s.runtime.safe_lockout && not (type_value command.type == type_value enter_safe)
      then send_error_for_command command CommandResult.busy s
      else planned_command (plan_command command s.runtime.state zero_plan) command frame s

  abbrev pub replayed : ReplayResult → Command → Frame → System B → System B
  replayed (hit response) command frame s = transmit response priority_ack s
  replayed sequence_reuse command frame s =
      send_error_for_command command CommandResult.sequence_reuse
        (record s { runtime = increment_invalid_commands s.runtime })
  replayed miss command frame s = fresh_command command frame s

  abbrev pub serve_decoded : DecodeResult × Command → Frame → System B → System B
  serve_decoded (DecodeResult.ignored, command) frame s = s
  serve_decoded (DecodeResult.ok, command) frame s =
      replayed (replay_cache_lookup s.cache command frame) command frame s
  serve_decoded (decoded, command) frame s =
      send_error_for_frame frame decoded
        (record s { runtime = increment_invalid_commands s.runtime })

  unfoldable pub serve_frame : Frame → System B → System B
  serve_frame frame s = serve_decoded (decode_command frame s.runtime.node_id zero_command) frame s

  unfoldable pub start : ℕ → FirmwareClock → Bool → RfState → ℕ → ℕ → System B → Bool × System B
  start node_id clock_source safe_lockout initial_state initial_phase_command initial_vga_command
        s =
      let (ready, bus) = ops.setup node_id s.bus in
      if ltb node_id node_min || ltb node_max node_id
      then (false, s)
      else if ltb vga_max_attenuation_db initial_state.attenuation_db
      then (false, s)
      else (
        ready,
        record s {
          runtime = record {
            state = initial_state;
            last_phase_command = initial_phase_command;
            last_vga_command = initial_vga_command;
            node_id = node_id;
            clock_source = clock_source;
            safe_lockout = safe_lockout;
            invalid_commands = 0;
          };
          cache = zero_cache;
          bus = bus;
        },
      )

  unfoldable pub service_next : System B → Bool × System B
  service_next s =
      let (found, bus) = ops.receive s.bus in
      elim found [
        | none ↦ (false, record s { bus = bus })
        | some frame ↦ (true, serve_frame frame (record s { bus = bus }))
      ]
