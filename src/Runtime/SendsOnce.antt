-- ===== src/Runtime/SendsOnce.antt =====
-- The service of any frame gives the bus at most one frame.
use beamforming_software.Prelude.{
  ℕ, ap, ◌==◌, ◌&&◌, ◌||◌, not, ltb, ◌≡◌, ◌⊎◌, inl, inr, refl, Bool, true, false, Option, none,
  some, if◌then◌else◌,
}
use beamforming_software.Can.Protocol.{
  StatusPayload, ping, enter_safe, type_value, node_broadcast, node_controller, DecodeResult,
  CommandResult, Frame, zero_frame, Command, zero_command,
}
use beamforming_software.Can.Protocol.Id.{IdFields, parse_id}
use beamforming_software.Can.Protocol.Decode.{decode_command, result_from_decode}
use beamforming_software.Can.Protocol.Encode.{make_ack, make_error, make_status}
use beamforming_software.Can.TxQueue.{priority_ack, priority_error, priority_requested_status}
use beamforming_software.Platform.SpiGuard.{Peripherals}
use beamforming_software.Platform.DiagnosticRecord.{FirmwareFault, no_fault}
use beamforming_software.Platform.RetainedDiagnostics
use beamforming_software.Rf.Plan.{Plan, zero_plan, plan_command}
use beamforming_software.Runtime.{
  Bus, System, transmit, zero_cache, health_flags, replay_cache_store_ack, ReplayResult, miss,
  sequence_reuse, hit, replay_cache_lookup, send_ack, send_error_for_command, send_error_for_fields,
  send_error_for_frame, send_status, commit, finish_execution, run_plan, planned_command,
  fresh_command, replayed, serve_decoded, serve_frame,
}
use beamforming_software.Runtime.Quiet.{counted}

module _ {B : Type 0} (ops : Bus B) (p : Peripherals) where
  abbrev pub SendsOnce : B → System B → Type 0
  SendsOnce b t =
      (t.bus ≡ b) ⊎ ((frame : Frame) × (priority : ℕ) × (t.bus ≡ (ops.send frame priority b).1))

  either :
      (test : Bool) (b : B) (x y : System B)
      → SendsOnce b x
      → SendsOnce b y
      → SendsOnce b (if test then x else y)
  either true b x y h k = h
  either false b x y h k = k

  -- the shape of the responses: a frame that was made is transmitted, unless a test forbids it
  responds :
      (test : Bool) (made : Bool × Frame) (priority : ℕ) (s x : System B)
      → x.bus ≡ s.bus
      → SendsOnce s.bus (if test then s else if made.0 then transmit ops p made.1 priority x else s)
  responds true made priority s x e = inl refl
  responds false (false, f) priority s x e = inl refl
  responds false (true, f) priority s x e = inr (f, priority, ap (λ b. (ops.send f priority b).1) e)

  error_once :
      (c : Command) (r : CommandResult) (s : System B)
      → SendsOnce s.bus (send_error_for_command ops p c r s)
  unfolding send_error_for_command
  error_once c r s =
      responds (c.destination == node_broadcast)
        (make_error s.runtime.node_id c.source c.sequence c.type r zero_frame) priority_error s s
        refl

  ack_once : (c : Command) (f : Frame) (s : System B) → SendsOnce s.bus (send_ack ops p c f s)
  unfolding send_ack
  ack_once c f s =
      let made = make_ack s.runtime.node_id c.source c.sequence c.type zero_frame in
      responds (c.destination == node_broadcast) made priority_ack s
        (record s { cache = replay_cache_store_ack s.cache c f made.1 }) refl

  status_once : (c : Command) (s : System B) → SendsOnce s.bus (send_status ops p c s)
  unfolding send_status
  status_once c s =
      let report : StatusPayload = record {
        node_id = s.runtime.node_id;
        health_flags = health_flags ops p s;
        rx_dropped = ops.rx_dropped s.bus;
        tx_dropped = ops.tx_dropped s.bus;
        invalid_commands = s.runtime.invalid_commands;
      } in
      responds (c.destination == node_broadcast)
        (make_status s.runtime.node_id c.source c.sequence report zero_frame)
        priority_requested_status s s refl

  fields_once :
      (id : IdFields) (d : DecodeResult) (s : System B)
      → SendsOnce s.bus (send_error_for_fields ops p id d s)
  fields_once id d s =
      responds
        (not (id.destination == s.runtime.node_id)
          || (not (id.source == node_controller) || ltb (type_value ping) (type_value id.type)))
        (make_error s.runtime.node_id id.source id.sequence id.type (result_from_decode d)
          zero_frame)
        priority_error s s refl

  frame_once :
      (f : Frame) (d : DecodeResult) (s : System B)
      → SendsOnce s.bus (send_error_for_frame ops p f d s)
  unfolding send_error_for_frame
  frame_once f d s =
      either (not f.extended || f.remote) s.bus s
        (elim (parse_id f.id) [ none ↦ s | some id ↦ send_error_for_fields ops p id d s ])
        (inl refl) (parsed (parse_id f.id))
    where
      parsed :
          (o : Option IdFields)
          → SendsOnce s.bus (elim o [ none ↦ s | some id ↦ send_error_for_fields ops p id d s ])
      parsed none = inl refl
      parsed (some id) = fields_once id d s

  commit_once :
      (c : Command) (f : Frame) (plan : Plan) (s : System B)
      → SendsOnce s.bus (commit ops p c f plan s)
  unfolding commit
  commit_once c f plan s =
      let done : System B = record s {
        runtime = record (s.runtime) { state = plan.resulting_state };
        retained =
            RetainedDiagnostics.set_commands s.retained s.runtime.last_phase_command
              s.runtime.last_vga_command;
      } in
      either (c.destination == node_broadcast) s.bus (record done { cache = zero_cache })
        (send_ack ops p c f done) (inl refl) (ack_once c f done)

  finish_once :
      (cause : FirmwareFault) (c : Command) (f : Frame) (plan : Plan) (s : System B)
      → SendsOnce s.bus (finish_execution ops p cause c f plan s)
  finish_once no_fault c f plan s = commit_once c f plan s
  finish_once cause c f plan s =
      error_once c CommandResult.hardware
        (record s { retained = RetainedDiagnostics.set_fault s.retained cause })

  planned_once :
      (x : CommandResult × Plan) (c : Command) (f : Frame) (s : System B)
      → SendsOnce s.bus (planned_command ops p x c f s)
  unfolding run_plan
  planned_once (CommandResult.ok, plan) c f s = finish_once _ c f plan _
  planned_once (result, plan) c f s = error_once c result (counted ops p s)

  fresh_once :
      (c : Command) (f : Frame) (s : System B) → SendsOnce s.bus (fresh_command ops p c f s)
  unfolding fresh_command
  fresh_once c f s =
      let planned = planned_command ops p (plan_command c s.runtime.state zero_plan) c f s in
      let busy = send_error_for_command ops p c CommandResult.busy s in
      let locked = s.runtime.safe_lockout && not (type_value c.type == type_value enter_safe) in
      either (type_value c.type == type_value ping) s.bus (send_status ops p c s)
        (if locked then busy else planned) (status_once c s)
        (either locked s.bus busy planned (error_once c CommandResult.busy s)
          (planned_once (plan_command c s.runtime.state zero_plan) c f s))

  replayed_once :
      (r : ReplayResult) (c : Command) (f : Frame) (s : System B)
      → SendsOnce s.bus (replayed ops p r c f s)
  replayed_once (hit response) c f s = inr (response, priority_ack, refl)
  replayed_once sequence_reuse c f s = error_once c CommandResult.sequence_reuse (counted ops p s)
  replayed_once miss c f s = fresh_once c f s

  decoded_once :
      (x : DecodeResult × Command) (f : Frame) (s : System B)
      → SendsOnce s.bus (serve_decoded ops p x f s)
  decoded_once (DecodeResult.ignored, c) f s = inl refl
  decoded_once (DecodeResult.ok, c) f s = replayed_once (replay_cache_lookup s.cache c f) c f s
  decoded_once (d, c) f s = frame_once f d (counted ops p s)

  -- The service of a frame, whatever it is, leaves the bus as it was or gives it one frame.
  pub serve_frame-SendsOnce : (f : Frame) (s : System B) → SendsOnce s.bus (serve_frame ops p f s)
  unfolding serve_frame
  serve_frame-SendsOnce f s = decoded_once (decode_command f s.runtime.node_id zero_command) f s
