-- ===== src/Runtime/Answer.antt =====
-- Each command of the controller to this node is answered once, and a broadcast is not.
use beamforming_software.Prelude.{
  ℕ, ◌≤◌, ◌<◌, ◌≡◌, ◌≢◌, ◌⊎◌, inl, inr, refl, sym, ap, ◌∙◌, subst, arith, true, false, Bool-cases,
  not, ◌==◌, ==_iff, ◌&&◌,
}
use beamforming_software.Can.Protocol.{
  ping, enter_safe, type_count, type_value, node_max, node_controller, node_broadcast, DecodeResult,
  CommandResult, Frame, zero_frame, IsFrame, Command, zero_command, StatusPayload,
}
use beamforming_software.Can.Protocol.Decode.{decode_command}
use beamforming_software.Can.Protocol.Decode.Laws.{decode-IsCommandFrame}
use beamforming_software.Can.Protocol.Encode.{make_ack, make_error, make_status}
use beamforming_software.Can.Protocol.Encode.Laws.{make_ack_lem, make_error_lem, make_status_lem}
use beamforming_software.Can.TxQueue.{priority_ack, priority_error, priority_requested_status}
use beamforming_software.Platform.SpiGuard.{Peripherals}
use beamforming_software.Platform.DiagnosticRecord.{FirmwareFault, no_fault}
use beamforming_software.Platform.RetainedDiagnostics
use beamforming_software.Runtime.Quiet.{counted}
use beamforming_software.Rf.Plan.{Plan, zero_plan, plan_command}
use beamforming_software.Runtime.{
  Bus, System, ReplayResult, miss, sequence_reuse, hit, replay_cache_lookup, health_flags,
  increment_invalid_commands, send_ack, send_error_for_command, send_status, commit,
  finish_execution, run_plan, planned_command, fresh_command, replayed, serve_decoded, serve_frame,
}

module _ {B : Type 0} (ops : Bus B) (p : Peripherals) (c : Command) where
  -- A broadcast leaves the bus `b` as it was; for any other command exactly one frame is given to
  -- it.
  abbrev pub Answered : B → System B → Type 0
  Answered b t =
      ((c.destination ≡ node_broadcast) × (t.bus ≡ b))
      ⊎ ((c.destination ≢ node_broadcast)
          × (response : Frame) × (priority : ℕ) × (t.bus ≡ (ops.send response priority b).1))

  -- what the decoder assures of a command
  record IsDecoded : Type 0 where
    from_controller : c.source ≡ node_controller
    sequence_in : c.sequence < 65536
    known : c.type ≢ type_count

  by_destination :
      (b : B) (t : System B) (response : Frame) (priority : ℕ)
      → (c.destination == node_broadcast ≡ true → t.bus ≡ b)
      → (c.destination == node_broadcast ≡ false → t.bus ≡ (ops.send response priority b).1)
      → Answered b t
  by_destination b t response priority quiet answer =
      elim (Bool-cases (c.destination == node_broadcast)) [
        | inl e ↦ inl ((==_iff c.destination node_broadcast).0 e, quiet e)
        | inr e ↦ inr ((λ k. ground arith), response, priority, answer e)
      ]

  module _ (d : IsDecoded) where
    error-Answered :
        (r : CommandResult) (s : System B)
        → s.runtime.node_id ≤ node_max
        → Answered s.bus (send_error_for_command ops p c r s)
    unfolding send_error_for_command
    error-Answered r s h =
        let (made, _) =
          make_error_lem s.runtime.node_id c.sequence c.type r zero_frame h d.sequence_in d.known in
        let from = d.from_controller in
        let sent : (make_error s.runtime.node_id c.source c.sequence c.type r zero_frame).0 ≡ true =
          ap (λ n. (make_error s.runtime.node_id n c.sequence c.type r zero_frame).0) from ∙ made in
        by_destination s.bus (send_error_for_command ops p c r s)
          (make_error s.runtime.node_id c.source c.sequence c.type r zero_frame).1 priority_error
          (λ e. ground arith) (λ e. ground arith)

    ack-Answered :
        (f : Frame) (s : System B)
        → s.runtime.node_id ≤ node_max
        → Answered s.bus (send_ack ops p c f s)
    unfolding send_ack
    ack-Answered f s h =
        let (made, _) =
          make_ack_lem s.runtime.node_id c.sequence c.type zero_frame h d.sequence_in d.known in
        let sent : (make_ack s.runtime.node_id c.source c.sequence c.type zero_frame).0 ≡ true =
          ap (λ n. (make_ack s.runtime.node_id n c.sequence c.type zero_frame).0) d.from_controller
          ∙ made in
        by_destination s.bus (send_ack ops p c f s)
          (make_ack s.runtime.node_id c.source c.sequence c.type zero_frame).1 priority_ack
          (λ e. ground arith) (λ e. ground arith)

    status-Answered :
        (s : System B) → s.runtime.node_id ≤ node_max → Answered s.bus (send_status ops p c s)
    unfolding send_status
    status-Answered s h =
        let report : StatusPayload = record {
          node_id = s.runtime.node_id;
          health_flags = health_flags ops p s;
          rx_dropped = ops.rx_dropped s.bus;
          tx_dropped = ops.tx_dropped s.bus;
          invalid_commands = s.runtime.invalid_commands;
        } in
        let (made, _) =
          make_status_lem s.runtime.node_id c.sequence report zero_frame h d.sequence_in in
        let sent : (make_status s.runtime.node_id c.source c.sequence report zero_frame).0 ≡ true =
          ap (λ n. (make_status s.runtime.node_id n c.sequence report zero_frame).0)
            d.from_controller
          ∙ made in
        by_destination s.bus (send_status ops p c s)
          (make_status s.runtime.node_id c.source c.sequence report zero_frame).1
          priority_requested_status (λ e. ground arith) (λ e. ground arith)

    commit-Answered :
        (f : Frame) (plan : Plan) (s : System B)
        → s.runtime.node_id ≤ node_max
        → Answered s.bus (commit ops p c f plan s)
    unfolding commit
    commit-Answered f plan s h = elim (Bool-cases (c.destination == node_broadcast)) [
      | inl e ↦ rw e (inl ((==_iff c.destination node_broadcast).0 e, refl))
      | inr e ↦ rw e (ack-Answered f _ h)
    ]

    finish-Answered :
        (cause : FirmwareFault) (f : Frame) (plan : Plan) (s : System B)
        → s.runtime.node_id ≤ node_max
        → Answered s.bus (finish_execution ops p cause c f plan s)
    finish-Answered no_fault f plan s h = commit-Answered f plan s h
    finish-Answered cause f plan s h =
        error-Answered CommandResult.hardware
          (record s { retained = RetainedDiagnostics.set_fault s.retained cause }) h

    counted-Answered :
        (r : CommandResult) (s : System B)
        → s.runtime.node_id ≤ node_max
        → Answered s.bus (send_error_for_command ops p c r (counted ops p s))
    counted-Answered r s h =
        let same : (increment_invalid_commands s.runtime).node_id ≡ s.runtime.node_id =
          ground arith in
        error-Answered r (counted ops p s) (subst (λ n. n ≤ node_max) (sym same) h)

    planned-Answered :
        (x : CommandResult × Plan) (f : Frame) (s : System B)
        → s.runtime.node_id ≤ node_max
        → Answered s.bus (planned_command ops p x c f s)
    unfolding run_plan
    planned-Answered (CommandResult.ok, plan) f s h = finish-Answered _ f plan _ h
    planned-Answered (result, plan) f s h = counted-Answered result s h

    fresh-Answered :
        (f : Frame) (s : System B)
        → s.runtime.node_id ≤ node_max
        → Answered s.bus (fresh_command ops p c f s)
    unfolding fresh_command
    fresh-Answered f s h = elim (Bool-cases (type_value c.type == type_value ping)) [
      | inl e ↦ rw e (status-Answered s h)
      | inr ne ↦
          elim (Bool-cases
            (s.runtime.safe_lockout && not (type_value c.type == type_value enter_safe))) [
              | inl locked ↦ rw (ne, locked) (error-Answered CommandResult.busy s h)
              | inr free ↦
                  rw (ne, free) (planned-Answered (plan_command c s.runtime.state zero_plan) f s h)
            ]
    ]

    hit_unicast :
        (f response : Frame) (s : System B)
        → replay_cache_lookup s.cache c f ≡ hit response
        → c.destination ≢ node_broadcast
    unfolding replay_cache_lookup
    hit_unicast f response s e k = ground arith

    replayed-Answered :
        (r : ReplayResult) (f : Frame) (s : System B)
        → replay_cache_lookup s.cache c f ≡ r
        → s.runtime.node_id ≤ node_max
        → Answered s.bus (replayed ops p r c f s)
    replayed-Answered (hit response) f s e h =
        inr (hit_unicast f response s e, response, priority_ack, refl)
    replayed-Answered sequence_reuse f s e h = counted-Answered CommandResult.sequence_reuse s h
    replayed-Answered miss f s e h = fresh-Answered f s h

-- On a node numbered at most 30, a frame of eight bytes of data that decodes to a unicast command
-- is answered by exactly one frame that is given to the bus, whatever the command is and however
-- its execution goes, and one that decodes to a broadcast command by none.
pub serve_frame-Answered :
    {B : Type 0} (ops : Bus B) (p : Peripherals) (f : Frame) (s : System B) (c : Command)
    → IsFrame f
    → s.runtime.node_id ≤ node_max
    → decode_command f s.runtime.node_id zero_command ≡ (DecodeResult.ok, c)
    → Answered ops p c s.bus (serve_frame ops p f s)
unfolding serve_frame
serve_frame-Answered ops p f s c h hn e =
    let w = decode-IsCommandFrame s.runtime.node_id f zero_command c h e in
    let d : IsDecoded ops p c = record {
      from_controller = w.source;
      sequence_in = w.fields.sequence_in;
      known = w.fields.type_in;
    } in
    subst (λ x. Answered ops p c s.bus (serve_decoded ops p x f s)) (sym e)
      (replayed-Answered ops p c d (replay_cache_lookup s.cache c f) f s refl hn)
