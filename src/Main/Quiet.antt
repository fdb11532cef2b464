-- ===== src/Main/Quiet.antt =====
-- The two chips through the boot sequence and everything that is served after it.
use beamforming_software.Prelude.{
  ℕ, ◌-◌, ◌*◌, ◌≡◌, inl, inr, refl, sym, ◌∙◌, ap, subst, subst₂, Bool, true, false, some, [],
  bit_and, get_or, if◌then◌else◌,
}
use beamforming_software.Platform.SpiGuard.{Peripherals}
use beamforming_software.Platform.DiagnosticRecord.{
  FirmwareClock, FirmwareFault, no_fault, clock_startup, phase_command, clock_ready,
}
use beamforming_software.Platform.RetainedDiagnostics
use beamforming_software.Platform.RetainedDiagnostics.{begin, lockout_required}
use beamforming_software.Platform.Clock.{ClockTree, ClockState, clock_setup}
use beamforming_software.Can.Protocol.{vga_max_attenuation_db}
use beamforming_software.Rf.Commands.{phase_state_from_millidegrees}
use beamforming_software.Rf.Plan.{Plan, Operation, zero_operation, vga, zero_plan, plan_startup}
use beamforming_software.Rf.Execute.{Outputs, unless_fault, execute_operation, execute_loop}
use beamforming_software.Rf.Execute.Prefix.{
  Seen, seen, complete, Outcome, execute_operation-Outcome,
}
use beamforming_software.Rf.Execute.Latches.{Chips, chips_after, IsQuietTrace, IsLatched}
use beamforming_software.Runtime.{Bus, System, spi_timeout_millis}
use beamforming_software.Runtime.Served.{Reach, Reach-IsSafe}
use beamforming_software.Main.{
  reset_flag_mask, running, Machine, with_retained, start_can, execute_first, execute_others,
  with_safe_outputs, after_safe_outputs, startup_planned, requested_phase, with_phase, with_clock,
  boot,
}
use beamforming_software.Main.Startup.{
  vga_operation, phase_operation, IsStartup, plan_startup-IsStartup, written-IsLatched,
  Outcome-IsQuietTrace,
}
use beamforming_software.Main.Booted.{
  IsBooted, fail-IsBooted, or_fail-IsBooted, start_phase, start-Started, finish_boot-IsBooted,
}

unless_fault_last : (x : FirmwareFault × Outputs) → unless_fault x (λ after. (no_fault, after)) ≡ x
unless_fault_last (no_fault, o) = refl
unless_fault_last (cause, o) = refl

module _ {B : Type 0} (ops : Bus B) (p : Peripherals) (tree : ClockTree) (node : ℕ) (c : Chips)
    (lockout : Bool) where
  -- from the first operation on
  one_round :
      (plan : Plan) (op : Operation) (o : Outputs)
      → plan.operation_count ≡ 2
      → get_or plan.operations 1 zero_operation ≡ op
      → execute_others ops p tree lockout node plan o ≡ execute_operation p spi_timeout_millis op o
  unfolding execute_loop
  one_round plan op o two second =
      (λ i. execute_loop p spi_timeout_millis plan.operations (two i - 1) 1 o)
      ∙ ((λ i.
            unless_fault (execute_operation p spi_timeout_millis (second i) o)
              (λ after. (no_fault, after)))
          ∙ unless_fault_last (execute_operation p spi_timeout_millis op o))

  others-IsBooted :
      (source : FirmwareClock) (plan : Plan) (s : Seen) (o : Outputs) (m : Machine B)
      → IsStartup (start_phase ops p tree node c lockout) plan
      → IsQuietTrace c s.trace
      → seen o ≡ complete s vga_operation
      → IsBooted c lockout (after_safe_outputs ops p tree lockout node source plan o m)
  others-IsBooted source plan s o m st h e =
      let op = phase_operation (start_phase ops p tree node c lockout) in
      let same = one_round plan op o st.two st.second in
      let x = execute_others ops p tree lockout node plan o in
      let outcome : Outcome op (complete s vga_operation) x =
        subst₂ (λ (v : Seen) y. Outcome op v y) e (sym same)
          (execute_operation-Outcome p spi_timeout_millis op.type op.command o) in
      let latched = written-IsLatched c (start_phase ops p tree node c lockout) s h in
      or_fail-IsBooted c lockout x (with_safe_outputs ops p tree lockout node m)
        (start_can ops p tree lockout node source plan)
        (Outcome-IsQuietTrace c op (complete s vga_operation) x h latched.quiet outcome)
        (λ good. elim outcome [
          | inr (bad, _) ↦ absurd (bad good)
          | inl (_, out) ↦
              finish_boot-IsBooted ops p tree node c lockout _ plan x.1 _
                (record {
                  latched = subst (IsLatched c) (sym out) latched;
                  same_board = refl;
                  phase_sent = ap (λ (v : Seen). v.phase_word) out;
                  vga_sent = ap (λ (v : Seen). v.vga_byte) out;
                  attenuation = st.attenuated;
                })
                (start-Started ops p tree node c lockout source plan x.1 _)
        ])

  startup_planned-IsBooted :
      (source : FirmwareClock) (x : Bool × Plan) (m : Machine B)
      → IsStartup (start_phase ops p tree node c lockout) x.1
      → IsQuietTrace c m.system.board.trace
      → IsBooted c lockout (startup_planned ops p tree lockout node source x m)
  startup_planned-IsBooted source (false, plan) m st h = fail-IsBooted c lockout phase_command m h
  startup_planned-IsBooted source (true, plan) m st h =
      let start : Outputs = record {
        last_phase_command = 0;
        last_vga_command = 0;
        board = m.system.board;
      } in
      let x = execute_first ops p tree lockout node plan m in
      let outcome : Outcome vga_operation (seen start) x =
        subst
          (λ op.
            Outcome vga_operation (seen start) (execute_operation p spi_timeout_millis op start))
          (sym st.first)
          (execute_operation-Outcome p spi_timeout_millis vga (vga_max_attenuation_db * 4) start) in
      or_fail-IsBooted c lockout x m (after_safe_outputs ops p tree lockout node source plan)
        (Outcome-IsQuietTrace c vga_operation (seen start) x h h outcome)
        (λ good. elim outcome [
          | inr (bad, _) ↦ absurd (bad good)
          | inl (_, out) ↦ others-IsBooted source plan (seen start) x.1 _ st h out
        ])

  requested_phase-state :
      phase_state_from_millidegrees (requested_phase ops p tree lockout node)
      ≡ some (start_phase ops p tree node c lockout)
  unfolding phase_state_from_millidegrees
  requested_phase-state = go lockout
    where
      go :
          (l : Bool)
          → phase_state_from_millidegrees (if l then 0 else 205300) ≡ some (if l then 0 else 146)
      go true = refl
      go false = refl

  with_clock-IsBooted :
      (x : Bool × FirmwareClock × ClockState) (m : Machine B)
      → IsQuietTrace c m.system.board.trace
      → IsBooted c lockout (with_clock ops p tree lockout node x m)
  with_clock-IsBooted (false, source, clock) m h =
      fail-IsBooted c lockout clock_startup (record m { clock = clock }) h
  with_clock-IsBooted (true, source, clock) m h =
      let (_, st) = plan_startup-IsStartup (start_phase ops p tree node c lockout) in
      let m1 : Machine B =
        with_retained
          (RetainedDiagnostics.set_state (RetainedDiagnostics.set_clock m.system.retained source)
            clock_ready)
          (record m { clock = clock }) in
      subst (λ ph. IsBooted c lockout (with_phase ops p tree lockout node source ph m1))
        (sym requested_phase-state)
        (startup_planned-IsBooted source
          (plan_startup (start_phase ops p tree node c lockout) 23 zero_plan) m1 st h)

module _ {B : Type 0} (ops : Bus B) (p : Peripherals) (tree : ClockTree) (node : ℕ)
    (c : Chips) where
  -- From whatever the chips hold, and after a quiet trace, a boot latches the phase shifter only
  -- at 23 dB. Without a reset it ends with the start-up phase, which is zero in the safe lockout,
  -- at 23 dB, and the service loop starts from a safe state, in the lockout exactly if the
  -- retained record asks for it.
  pub boot-IsBooted :
      (csr build_id : ℕ) (m : Machine B)
      → IsQuietTrace c m.system.board.trace
      → let r0 = begin m.system.retained (bit_and csr reset_flag_mask) build_id in
        IsBooted c (lockout_required r0) (boot ops p tree csr build_id node m)
  unfolding boot
  boot-IsBooted csr build_id m h =
      let r0 = begin m.system.retained (bit_and csr reset_flag_mask) build_id in
      with_clock-IsBooted ops p tree node c (lockout_required r0) (clock_setup tree m.clock)
        (with_retained r0 m) h

  -- From power-on, with an empty trace and whatever the chips hold, through a boot that reaches
  -- the service loop and any history of served frames, failed transfers and changes of the bus,
  -- the phase shifter latches only while the attenuator holds 23 dB, and the recorded commands
  -- are what the chips hold.
  pub always_quiet :
      (csr build_id : ℕ) (m : Machine B) (t : System B)
      → m.system.board.trace ≡ []
      → let (ending, m1) = boot ops p tree csr build_id node m in
        ending ≡ running
        → Reach ops p c m1.system t
        → IsQuietTrace c t.board.trace
          × ((chips_after c t.board.trace).phase_word ≡ t.runtime.last_phase_command)
          × ((chips_after c t.board.trace).vga_byte ≡ t.runtime.last_vga_command)
  always_quiet csr build_id m t fresh up r =
      let quiet_start = subst (IsQuietTrace c) (sym fresh) tt in
      let (safe, _) = (boot-IsBooted csr build_id m quiet_start).safe up in
      let l = (Reach-IsSafe ops p c r safe).latched in (l.quiet, l.phase_latched, l.vga_latched)
