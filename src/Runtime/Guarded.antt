-- ===== src/Runtime/Guarded.antt =====
-- The phase shifter through the execution of a command: it latches only at 23 dB, faults included.
use beamforming_software.Prelude.{
  ℕ, ◌*◌, ◌≤◌, ◌≡◌, ◌≢◌, ◌⊎◌, inl, inr, refl, sym, ap, ◌∙◌, subst, subst₂, arith, length,
}
use beamforming_software.Can.Protocol.{
  type_value, vga_max_attenuation_db, CommandResult, Frame, Command,
}
use beamforming_software.Platform.SpiGuard.{Peripherals}
use beamforming_software.Platform.DiagnosticRecord.{FirmwareFault, no_fault}
use beamforming_software.Platform.RetainedDiagnostics
use beamforming_software.Rf.Commands.{make_vga_command}
use beamforming_software.Rf.Plan.{Plan, RfState, zero_plan, plan_command, max_operations}
use beamforming_software.Rf.Plan.Safety.{document_plan, plan_command_document, requested}
use beamforming_software.Rf.Execute.{Outputs, execute_plan}
use beamforming_software.Rf.Execute.Prefix.{Seen, seen, execute_plan-Ran, Ran}
use beamforming_software.Rf.Execute.Latches.{
  Chips, IsLatched, IsHeld, Ran-IsLatched, document_operations-IsGuarded,
}
use beamforming_software.Runtime.{
  Bus, System, spi_timeout_millis, send_ack, commit, finish_execution, run_plan,
}
use beamforming_software.Runtime.Quiet.{IsUntouched, send_error_for_command-IsUntouched}

-- what an execution in a state starts from
abbrev pub outputs : {B : Type 0} → System B → Outputs
outputs s = record {
  last_phase_command = s.runtime.last_phase_command;
  last_vga_command = s.runtime.last_vga_command;
  board = s.board;
}

-- what an execution leaves, before its success is recorded
abbrev pub executed : {B : Type 0} → System B → FirmwareFault × Outputs → System B
executed s (cause, o) = record s {
  runtime = record (s.runtime) {
    last_phase_command = o.last_phase_command;
    last_vga_command = o.last_vga_command;
  };
  board = o.board;
}

-- The chips, from `c` on, latched a phase only at 23 dB. What is recorded as sent is what they
-- hold, and the attenuator holds the recorded attenuation or, after a fault, 23 dB.
pub record IsSafe {B : Type 0} (c : Chips) (s : System B) : Type 0 where
  pub latched : IsLatched c (seen (outputs s))
  pub bounded : s.runtime.state.attenuation_db ≤ vga_max_attenuation_db
  pub held : IsHeld s.runtime.state.attenuation_db s.runtime.last_vga_command

pub plan_command-length :
    (c : Command) (s : RfState) (plan0 : Plan)
    → c.attenuation_db ≤ 23
    → s.attenuation_db ≤ 23
    → length (plan_command c s plan0).1.operations ≡ max_operations
unfolding plan_command make_vga_command
plan_command-length c s plan0 hc hs = ground arith

module _ {B : Type 0} (ops : Bus B) (p : Peripherals) (chips : Chips) where
  pub untouched-IsSafe : (s t : System B) → IsUntouched ops p s t → IsSafe chips s → IsSafe chips t
  untouched-IsSafe s t u i =
      let same : seen (outputs t) ≡ seen (outputs s) = λ k. record {
        phase_word = u.same_phase k;
        vga_byte = u.same_vga k;
        trace = (u.same_board k).trace;
      } in
      record {
        latched = subst (IsLatched chips) (sym same) i.latched;
        bounded =
            subst (λ a. a ≤ vga_max_attenuation_db)
              (sym (ap (λ st. st.attenuation_db) u.same_state)) i.bounded;
        held =
            subst₂ IsHeld (sym (ap (λ st. st.attenuation_db) u.same_state)) (sym u.same_vga) i.held;
      }

  -- What an execution has left, before its success is recorded.
  record IsRun (s : System B) (attenuation : ℕ) (cause : FirmwareFault) (t : System B)
      : Type 0 where
    latched : IsLatched chips (seen (outputs t))
    same_state : t.runtime.state ≡ s.runtime.state
    outcome :
        ((cause ≡ no_fault) × (t.runtime.last_vga_command ≡ attenuation * 4))
        ⊎ ((cause ≢ no_fault) × IsHeld s.runtime.state.attenuation_db t.runtime.last_vga_command)

  commit-outputs :
      (c : Command) (f : Frame) (plan : Plan) (t : System B)
      → (seen (outputs (commit ops p c f plan t)) ≡ seen (outputs t))
        × ((commit ops p c f plan t).runtime.state ≡ plan.resulting_state)
  unfolding commit send_ack
  commit-outputs c f plan t = ground arith

  after_fault-IsSafe :
      (cause : FirmwareFault) (a : ℕ) (s t : System B)
      → IsSafe chips s
      → IsRun s a cause t
      → cause ≢ no_fault
      → IsSafe chips t
  after_fault-IsSafe cause a s t i r bad =
      let same = sym (ap (λ (st : RfState). st.attenuation_db) r.same_state) in
      record {
        latched = r.latched;
        bounded = subst (λ n. n ≤ vga_max_attenuation_db) same i.bounded;
        held = elim r.outcome [
          | inl (good, _) ↦ absurd (bad good)
          | inr (_, h) ↦ subst (λ n. IsHeld n t.runtime.last_vga_command) same h
        ];
      }

  after_success-IsSafe :
      (c : Command) (f : Frame) (plan : Plan) (s t : System B)
      → plan.resulting_state.attenuation_db ≤ vga_max_attenuation_db
      → IsRun s plan.resulting_state.attenuation_db no_fault t
      → IsSafe chips (commit ops p c f plan t)
  after_success-IsSafe c f plan s t le r =
      let (same_seen, state) = commit-outputs c f plan t in
      let same = sym (ap (λ (st : RfState). st.attenuation_db) state) in
      let byte : t.runtime.last_vga_command ≡ plan.resulting_state.attenuation_db * 4 =
        elim r.outcome [ inl (_, e) ↦ e | inr (bad, _) ↦ absurd (bad refl) ] in
      record {
        latched = subst (IsLatched chips) (sym same_seen) r.latched;
        bounded = subst (λ n. n ≤ vga_max_attenuation_db) same le;
        held = inl (ap (λ (v : Seen). v.vga_byte) same_seen ∙ (byte ∙ ap (λ n. n * 4) same));
      }

  finish_execution-IsSafe :
      (cause : FirmwareFault) (c : Command) (f : Frame) (plan : Plan) (s t : System B)
      → IsSafe chips s
      → plan.resulting_state.attenuation_db ≤ vga_max_attenuation_db
      → IsRun s plan.resulting_state.attenuation_db cause t
      → IsSafe chips (finish_execution ops p cause c f plan t)
  finish_execution-IsSafe no_fault c f plan s t i le r = after_success-IsSafe c f plan s t le r
  finish_execution-IsSafe cause c f plan s t i le r =
      let safe = after_fault-IsSafe cause plan.resulting_state.attenuation_db s t i r (λ e. cc) in
      let faulted : System B = record t {
        retained = RetainedDiagnostics.set_fault t.retained cause;
      } in
      untouched-IsSafe faulted _
        (send_error_for_command-IsUntouched ops p c CommandResult.hardware faulted)
        (record { latched = safe.latched; bounded = safe.bounded; held = safe.held })

  -- The execution of a command's plan.
  pub run_plan-IsSafe :
      (c : Command) (f : Frame) (s : System B)
      → c.attenuation_db ≤ vga_max_attenuation_db
      → type_value c.type ≤ 3
      → IsSafe chips s
      → IsSafe chips (run_plan ops p c f (plan_command c s.runtime.state zero_plan).1 s)
  unfolding run_plan
  run_plan-IsSafe c f s hc ht i =
      let state = s.runtime.state in
      let plan = (plan_command c state zero_plan).1 in
      let (_, operations, few, result) =
        plan_command_document c state zero_plan hc i.bounded (omega arith) in
      let (guarded, last, le) =
        document_operations-IsGuarded c.type c.phase_state c.attenuation_db
          s.runtime.last_vga_command state i.held hc i.bounded ht in
      let full = plan_command-length c state zero_plan hc i.bounded in
      let x = execute_plan p spi_timeout_millis plan (outputs s) in
      let ran = execute_plan-Ran p spi_timeout_millis plan (outputs s) (omega arith) in
      let (latched, left) =
        Ran-IsLatched chips state.attenuation_db (document_plan c state) (seen (outputs s)) x
          guarded i.latched (subst (λ os. Ran os (seen (outputs s)) x) operations ran) in
      let same : (requested c state).attenuation_db ≡ plan.resulting_state.attenuation_db =
        sym (ap (λ (st : RfState). st.attenuation_db) result) in
      finish_execution-IsSafe x.0 c f plan s _ i (subst (λ n. n ≤ vga_max_attenuation_db) same le)
        (record {
          latched = latched;
          same_state = refl;
          outcome = elim left [
            | inl (good, e) ↦ inl (good, e ∙ (last ∙ ap (λ n. n * 4) same))
            | inr (bad, h) ↦ inr (bad, h)
          ];
        })
