-- ===== src/Runtime/Reply.antt =====
-- The answers that docs/can-protocol.md promises, and the three functions that send them.
use beamforming_software.Prelude.{◌<◌, ◌≤◌, ◌≡◌, ◌≢◌, refl, sym, subst, arith, true, false, ◌==◌}
use beamforming_software.Can.Protocol.{
  ack, error, status, type_count, node_max, node_controller, node_broadcast, CommandResult, Frame,
  zero_frame, Command, StatusPayload,
}
use beamforming_software.Can.Protocol.Encode.{make_ack, make_error, make_status}
use beamforming_software.Can.Protocol.Encode.Laws.{
  IsResponse, result_bytes, status_bytes, make_ack_lem, make_error_lem, make_status_lem,
}
use beamforming_software.Can.TxQueue.{priority_ack, priority_error, priority_requested_status}
use beamforming_software.Platform.SpiGuard.{Peripherals}
use beamforming_software.Runtime.{
  Bus, System, replay_cache_store_ack, health_flags, transmit, send_ack, send_error_for_command,
  send_status,
}

-- The report of the health that a node gives of itself.
abbrev pub report_of : {B : Type 0} → Bus B → Peripherals → System B → StatusPayload
report_of ops p s = record {
  node_id = s.runtime.node_id;
  health_flags = health_flags ops p s;
  rx_dropped = ops.rx_dropped s.bus;
  tx_dropped = ops.tx_dropped s.bus;
  invalid_commands = s.runtime.invalid_commands;
}

-- a unicast command of the controller, as the decoder leaves it
pub record IsUnicast (c : Command) : Type 0 where
  pub from_controller : c.source ≡ node_controller
  pub unicast : c.destination ≢ node_broadcast
  pub sequence_in : c.sequence < 65536
  pub known : c.type ≢ type_count

module _ {B : Type 0} (ops : Bus B) (p : Peripherals) (c : Command) (u : IsUnicast c) where
  addressed : c.destination == node_broadcast ≡ false
  addressed = let ne = u.unicast in ground arith

  -- The ERROR of a command is made and given to the bus, and nothing else changes.
  pub send_error_for_command-sent :
      (r : CommandResult) (s : System B)
      → s.runtime.node_id ≤ node_max
      → (f : Frame) × IsResponse error s.runtime.node_id c.sequence 2 (result_bytes c.type r) f
        × (send_error_for_command ops p c r s ≡ transmit ops p f priority_error s)
  unfolding send_error_for_command
  send_error_for_command-sent r s h =
      let node = s.runtime.node_id in
      let made =
        subst
          (λ from.
            let (sent, f) = make_error node from c.sequence c.type r zero_frame in
            (sent ≡ true) × IsResponse error node c.sequence 2 (result_bytes c.type r) f)
          (sym u.from_controller)
          (make_error_lem node c.sequence c.type r zero_frame h u.sequence_in u.known) in
      (
        (make_error node c.source c.sequence c.type r zero_frame).1,
        made.1,
        rw (addressed, made.0) refl,
      )

  -- The ACK of a command is stored with the request, and given to the bus.
  pub send_ack-sent :
      (request : Frame) (s : System B)
      → s.runtime.node_id ≤ node_max
      → (f : Frame) × IsResponse ack s.runtime.node_id c.sequence 2
          (result_bytes c.type CommandResult.ok)
          f
        × (send_ack ops p c request s
            ≡ transmit ops p f priority_ack
                (record s { cache = replay_cache_store_ack s.cache c request f }))
  unfolding send_ack
  send_ack-sent request s h =
      let node = s.runtime.node_id in
      let made =
        subst
          (λ from.
            let (sent, f) = make_ack node from c.sequence c.type zero_frame in
            (sent ≡ true)
            × IsResponse ack node c.sequence 2 (result_bytes c.type CommandResult.ok) f)
          (sym u.from_controller)
          (make_ack_lem node c.sequence c.type zero_frame h u.sequence_in u.known) in
      ((make_ack node c.source c.sequence c.type zero_frame).1, made.1, rw (addressed, made.0) refl)

  -- The STATUS for a command is given to the bus, and nothing else changes.
  pub send_status-sent :
      (s : System B)
      → s.runtime.node_id ≤ node_max
      → (f : Frame) × IsResponse status s.runtime.node_id c.sequence 8
          (status_bytes (report_of ops p s))
          f
        × (send_status ops p c s ≡ transmit ops p f priority_requested_status s)
  unfolding send_status
  send_status-sent s h =
      let node = s.runtime.node_id in
      let report = report_of ops p s in
      let made =
        subst
          (λ from.
            let (sent, f) = make_status node from c.sequence report zero_frame in
            (sent ≡ true) × IsResponse status node c.sequence 8 (status_bytes report) f)
          (sym u.from_controller)
          (make_status_lem node c.sequence report zero_frame h u.sequence_in) in
      (
        (make_status node c.source c.sequence report zero_frame).1,
        made.1,
        rw (addressed, made.0) refl,
      )
