-- ===== src/Runtime/Timing.antt =====
-- How long the service of a frame waits, between two services of the watchdog.
use beamforming_software.Prelude.{
  ◌+◌, ℕ, ◌*◌, ◌≤◌, ◌≡◌, inl, inr, sym, ap, ◌∙◌, subst, arith, Bool-cases, ◌==◌, not, ◌&&◌,
}
use beamforming_software.Can.Protocol.{
  ping, enter_safe, type_value, vga_max_attenuation_db, CommandResult, Frame, IsFrame, Command,
  zero_command,
}
use beamforming_software.Can.Protocol.Decode.{decode_command}
use beamforming_software.Can.Protocol.Decode.Laws.{decode-IsCommandFrame}
use beamforming_software.Platform.SpiGuard.{Peripherals}
use beamforming_software.Platform.DiagnosticRecord.{FirmwareFault, no_fault}
use beamforming_software.Rf.Plan.{Plan, zero_plan, plan_command}
use beamforming_software.Rf.Plan.Safety.{plan_command_document}
use beamforming_software.Rf.Execute.{execute_plan}
use beamforming_software.Rf.Execute.Timing.{IsClock, Took, Took-none, Took-more, execute_plan-Took}
use beamforming_software.Rf.Drivers.{Board}
use beamforming_software.Runtime.{
  Bus, System, spi_timeout_millis, send_ack, send_error_for_command, commit, finish_execution,
  run_plan, planned_command, fresh_command, replayed, serve_decoded, serve_frame,
}
use beamforming_software.Runtime.Quiet.{
  serve_frame-IsUntouched, send_status-IsUntouched, send_error_for_command-IsUntouched,
}
use beamforming_software.Runtime.Guarded.{outputs, executed}

module _ {B : Type 0} (ops : Bus B) (p : Peripherals) (time : ℕ → ℕ) (from limit : ℕ)
    (clock : IsClock p time from limit) where
  -- At most three operations: 27 milliseconds, and nine million polls.
  abbrev pub IsShort : Board → Board → Type 0
  IsShort b b' = Took p time from limit clock 27 9000000 b.polls b'.polls

  same-IsShort : (b b' : Board) → b' ≡ b → IsShort b b'
  same-IsShort b b' e = subst (IsShort b) (sym e) (
      Took-more p time from limit clock 0 0 27 9000000 b.polls b.polls
        (Took-none p time from limit clock b.polls) (omega arith) (omega arith))

  finish_execution-board :
      (cause : FirmwareFault) (c : Command) (f : Frame) (plan : Plan) (t : System B)
      → (finish_execution ops p cause c f plan t).board ≡ t.board
  unfolding commit send_ack send_error_for_command
  finish_execution-board no_fault c f plan t = ground arith
  finish_execution-board cause c f plan t = ground arith

  run_plan-IsShort :
      (c : Command) (f : Frame) (plan : Plan) (s : System B)
      → plan.operation_count ≤ 3
      → from ≤ s.board.polls
      → s.board.polls + 9000000 ≤ limit
      → IsShort s.board (run_plan ops p c f plan s).board
  unfolding run_plan
  run_plan-IsShort c f plan s few hf hl =
      let x = execute_plan p spi_timeout_millis plan (outputs s) in
      subst (IsShort s.board) (sym (finish_execution-board x.0 c f plan (executed s x))) (
        Took-more p time from limit clock (plan.operation_count * 9)
          (plan.operation_count * 3000000) 27 9000000 s.board.polls x.1.board.polls
          (execute_plan-Took p time from limit clock plan (outputs s) hf (omega arith))
          (omega arith) (omega arith))

  fresh_command-IsShort :
      (c : Command) (f : Frame) (s : System B)
      → c.attenuation_db ≤ vga_max_attenuation_db
      → s.runtime.state.attenuation_db ≤ vga_max_attenuation_db
      → type_value c.type ≤ 4
      → from ≤ s.board.polls
      → s.board.polls + 9000000 ≤ limit
      → IsShort s.board (fresh_command ops p c f s).board
  unfolding fresh_command
  fresh_command-IsShort c f s hc hs ht hf hl =
      elim (Bool-cases (type_value c.type == type_value ping)) [
        | inl e ↦ rw e (same-IsShort s.board _ (send_status-IsUntouched ops p c s).same_board)
        | inr ne ↦
            elim (Bool-cases
              (s.runtime.safe_lockout && not (type_value c.type == type_value enter_safe))) [
                | inl locked ↦
                    rw (ne, locked)
                      (same-IsShort s.board _
                        (send_error_for_command-IsUntouched ops p c CommandResult.busy
                          s).same_board)
                | inr free ↦
                    let (accepted, _, few, _) =
                      plan_command_document c s.runtime.state zero_plan hc hs (omega arith) in
                    let plan = (plan_command c s.runtime.state zero_plan).1 in
                    rw (ne, free)
                      (subst (λ r. IsShort s.board (planned_command ops p (r, plan) c f s).board)
                        (sym accepted) (run_plan-IsShort c f plan s few hf hl))
              ]
      ]

  -- When the counter shows the time in milliseconds, and for the next nine million polls there is
  -- one at least every millisecond, the service of a frame of eight bytes of data, from a state
  -- with an attenuation of at most 23 dB, waits for the SPI peripherals at most 27 milliseconds
  -- and nine million polls, faults and timeouts included.
  pub serve_frame-IsShort :
      (f : Frame) (s : System B)
      → IsFrame f
      → s.runtime.state.attenuation_db ≤ vga_max_attenuation_db
      → from ≤ s.board.polls
      → s.board.polls + 9000000 ≤ limit
      → IsShort s.board (serve_frame ops p f s).board
  unfolding serve_frame
  serve_frame-IsShort f s h hs hf hl = elim (serve_frame-IsUntouched ops p f s) [
    | inl u ↦ same-IsShort s.board (serve_frame ops p f s).board u.same_board
    | inr (ok, w) ↦
        let x = decode_command f s.runtime.node_id zero_command in
        let c = x.1 in
        let d = decode-IsCommandFrame s.runtime.node_id f zero_command c h (λ k. (ok k, c)) in
        let same : serve_frame ops p f s ≡ fresh_command ops p c f s =
          ap (λ r. serve_decoded ops p (r, c) f s) ok
          ∙ ap (λ r. replayed ops p r c f s) w.not_cached in
        subst (λ (t : System B). IsShort s.board t.board) (sym same)
          (fresh_command-IsShort c f s d.attenuation hs d.command hf hl)
  ]
