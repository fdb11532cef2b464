-- ===== src/Runtime/Contract.antt =====
-- The contract of a unicast command: what the node does, and the one answer that it gives.
pub mod Kept
pub mod Cached
pub mod Broadcast
use beamforming_software.Prelude.{
  ℕ, ◌+◌, ◌<◌, ◌≤◌, ◌≡◌, ◌≢◌, ◌⊎◌, inl, inr, refl, sym, ap, ◌∙◌, subst, arith, Bool-cases, true,
  false, ◌==◌, not, ◌&&◌, ==_iff, length,
}
use beamforming_software.Can.Protocol.{
  MessageType, ping, enter_safe, ack, error, status, type_value, node_max, node_broadcast,
  vga_max_attenuation_db, DecodeResult, CommandResult, Frame, IsFrame, Command, zero_command,
}
use beamforming_software.Can.Protocol.Decode.{decode_command, is_state_changing_type}
use beamforming_software.Can.Protocol.Decode.Laws.{decode-IsCommandFrame, decode_header}
use beamforming_software.Can.Protocol.Encode.Laws.{IsResponse, result_bytes, status_bytes}
use beamforming_software.Can.TxQueue.{priority_ack, priority_error, priority_requested_status}
use beamforming_software.Platform.SpiGuard.{Peripherals}
use beamforming_software.Platform.DiagnosticRecord.{FirmwareFault, no_fault}
use beamforming_software.Platform.RetainedDiagnostics
use beamforming_software.Rf.Plan.{Plan, RfState, zero_plan, plan_command, max_operations}
use beamforming_software.Rf.Plan.Safety.{document_plan, plan_command_document, requested}
use beamforming_software.Rf.Execute.{Outputs, execute_plan}
use beamforming_software.Rf.Execute.Prefix.{seen, completes, execute_plan-Ran, Ran, Ran-whole}
use beamforming_software.Runtime.{
  Bus, System, ReplayResult, miss, sequence_reuse, hit, replay_cache_lookup, replay_cache_store_ack,
  spi_timeout_millis, transmit, send_ack, send_error_for_command, commit, finish_execution,
  run_plan, planned_command, fresh_command, replayed, serve_decoded, serve_frame,
}
use beamforming_software.Runtime.Quiet.{counted, type_of_value}
use beamforming_software.Runtime.Retry.{lookup-store}
use beamforming_software.Runtime.Guarded.{outputs, executed, plan_command-length}
use beamforming_software.Runtime.Reply.{
  IsUnicast, report_of, send_ack-sent, send_error_for_command-sent, send_status-sent,
}

changes-state : (t : MessageType) → type_value t ≤ 3 → is_state_changing_type t ≡ true
changes-state t h = ground arith

module _ {B : Type 0} (ops : Bus B) (p : Peripherals) (c : Command) (request : Frame) where
  -- The answer that a node gives under the command's sequence.
  abbrev pub Says : MessageType → CommandResult → System B → Frame → Type 0
  Says t r s f = IsResponse t s.runtime.node_id c.sequence 2 (result_bytes c.type r) f

  -- A command that is executed is not a PING, is not known to the cache, and is ENTER_SAFE if the
  -- node is in the safe lockout.
  pub record IsAllowed (s : System B) : Type 0 where
    pub first_time : replay_cache_lookup s.cache c request ≡ miss
    pub not_ping : c.type ≢ ping
    pub unlocked : (s.runtime.safe_lockout ≡ false) ⊎ (c.type ≡ enter_safe)

  -- Every operation of the command was executed in the document's order, the state is the requested
  -- one, and the ACK that is sent is kept for a retry.
  pub record IsExecuted (s t : System B) (f : Frame) : Type 0 where
    pub allowed : IsAllowed s
    pub written : seen (outputs t) ≡ completes (seen (outputs s)) (document_plan c s.runtime.state)
    pub state : t.runtime.state ≡ requested c s.runtime.state
    pub recorded :
        t.retained
        ≡ RetainedDiagnostics.set_commands s.retained t.runtime.last_phase_command
            t.runtime.last_vga_command
    pub says : Says ack CommandResult.ok s f
    pub sent : t.bus ≡ (ops.send f priority_ack s.bus).1
    pub kept : replay_cache_lookup t.cache c request ≡ hit f
    pub same_node : t.runtime.node_id ≡ s.runtime.node_id

  -- The operations were executed up to one that failed, the fault is recorded, the state and the
  -- cache are as before, and HARDWARE is sent.
  pub record IsFailed (s t : System B) (f : Frame) : Type 0 where
    pub allowed : IsAllowed s
    pub cause : FirmwareFault
    pub faulty : cause ≢ no_fault
    pub ran : Ran (document_plan c s.runtime.state) (seen (outputs s)) (cause, outputs t)
    pub state : t.runtime.state ≡ s.runtime.state
    pub recorded : t.retained ≡ RetainedDiagnostics.set_fault s.retained cause
    pub says : Says error CommandResult.hardware s f
    pub sent : t.bus ≡ (ops.send f priority_error s.bus).1
    pub cache : t.cache ≡ s.cache
    pub same_node : t.runtime.node_id ≡ s.runtime.node_id

  -- What becomes of a unicast command in the state `s`, with the frame that answers it.
  pub data Promise (s : System B) : System B → Type 0 where
    reported :
        (f : Frame)
        → replay_cache_lookup s.cache c request ≡ miss
        → c.type ≡ ping
        → IsResponse status s.runtime.node_id c.sequence 8 (status_bytes (report_of ops p s)) f
        → Promise s (transmit ops p f priority_requested_status s)
    repeated :
        (f : Frame)
        → replay_cache_lookup s.cache c request ≡ hit f
        → Promise s (transmit ops p f priority_ack s)
    reused :
        (f : Frame)
        → replay_cache_lookup s.cache c request ≡ sequence_reuse
        → Says error CommandResult.sequence_reuse s f
        → Promise s (transmit ops p f priority_error (counted ops p s))
    locked_out :
        (f : Frame)
        → replay_cache_lookup s.cache c request ≡ miss
        → c.type ≢ ping
        → s.runtime.safe_lockout ≡ true
        → c.type ≢ enter_safe
        → Says error CommandResult.busy s f
        → Promise s (transmit ops p f priority_error s)
    done : (f : Frame) (t : System B) → IsExecuted s t f → Promise s t
    failed : (f : Frame) (t : System B) → IsFailed s t f → Promise s t

  module _ (u : IsUnicast c) where
    commit-IsExecuted :
        (plan : Plan) (s : System B) (x : FirmwareFault × Outputs)
        → s.runtime.node_id ≤ node_max
        → IsAllowed s
        → is_state_changing_type c.type ≡ true
        → request.dlc ≤ length request.payload
        → seen x.1 ≡ completes (seen (outputs s)) (document_plan c s.runtime.state)
        → plan.resulting_state ≡ requested c s.runtime.state
        → (f : Frame) × IsExecuted s (commit ops p c request plan (executed s x)) f
    unfolding commit
    commit-IsExecuted plan s x hn allowed changes fits written state =
        let t = executed s x in
        let finished : System B = record t {
          runtime = record (t.runtime) { state = plan.resulting_state };
          retained =
              RetainedDiagnostics.set_commands t.retained t.runtime.last_phase_command
                t.runtime.last_vga_command;
        } in
        let ne = u.unicast in
        let addressed : c.destination == node_broadcast ≡ false = ground arith in
        let (f, says, out) = send_ack-sent ops p c u request finished hn in
        (
          f,
          rw (addressed, out)
              (record {
                allowed = allowed;
                written = written;
                state = state;
                recorded = refl;
                says = says;
                sent = refl;
                kept = lookup-store s.cache c request f u.unicast changes fits;
                same_node = refl;
              }),
        )

    finish-Promise :
        (plan : Plan) (s : System B) (x : FirmwareFault × Outputs)
        → s.runtime.node_id ≤ node_max
        → IsAllowed s
        → is_state_changing_type c.type ≡ true
        → request.dlc ≤ length request.payload
        → Ran (document_plan c s.runtime.state) (seen (outputs s)) x
        → (x.0 ≡ no_fault
            → seen x.1 ≡ completes (seen (outputs s)) (document_plan c s.runtime.state))
        → plan.resulting_state ≡ requested c s.runtime.state
        → Promise s (finish_execution ops p x.0 c request plan (executed s x))
    finish-Promise plan s (no_fault, o) hn allowed changes fits ran whole state =
        let (f, e) =
          commit-IsExecuted plan s (no_fault, o) hn allowed changes fits (whole refl) state in
        done f _ e
    finish-Promise plan s (cause, o) hn allowed changes fits ran whole state =
        let faulted : System B = record (executed s (cause, o)) {
          retained = RetainedDiagnostics.set_fault s.retained cause;
        } in
        let (f, says, out) =
          send_error_for_command-sent ops p c u CommandResult.hardware faulted hn in
        failed f _ (
          subst (λ t. IsFailed s t f) (sym out)
            (record {
              allowed = allowed;
              cause = cause;
              faulty = λ e. cc;
              ran = ran;
              state = refl;
              recorded = refl;
              says = says;
              sent = refl;
              cache = refl;
              same_node = refl;
            }))

    pub run_plan-Promise :
        (s : System B)
        → s.runtime.node_id ≤ node_max
        → c.attenuation_db ≤ vga_max_attenuation_db
        → s.runtime.state.attenuation_db ≤ vga_max_attenuation_db
        → IsAllowed s
        → type_value c.type ≤ 3
        → request.dlc ≤ length request.payload
        → Promise s (run_plan ops p c request (plan_command c s.runtime.state zero_plan).1 s)
    unfolding run_plan
    run_plan-Promise s hn hc hs allowed ht fits =
        let state = s.runtime.state in
        let plan = (plan_command c state zero_plan).1 in
        let (_, operations, few, result) =
          plan_command_document c state zero_plan hc hs (omega arith) in
        let full = plan_command-length c state zero_plan hc hs in
        let x = execute_plan p spi_timeout_millis plan (outputs s) in
        let ran =
          subst (λ os. Ran os (seen (outputs s)) x) operations
            (execute_plan-Ran p spi_timeout_millis plan (outputs s) (omega arith)) in
        finish-Promise plan s x hn allowed (changes-state c.type ht) fits ran
          (Ran-whole (document_plan c state) (seen (outputs s)) x ran) result
