-- ===== src/Main/Booted.antt =====
-- What the boot sequence leaves the two chips with, from the executed start-up plan on.
use beamforming_software.Prelude.{
  ℕ, ◌*◌, ◌≡◌, ◌≢◌, inr, refl, sym, ◌∙◌, ap, subst, arith, Bool, true, false, if◌then◌else◌,
}
use beamforming_software.Platform.SpiGuard.{Peripherals}
use beamforming_software.Platform.DiagnosticRecord.{
  FirmwareClock, FirmwareFault, no_fault, can_init, safe_lockout,
}
use beamforming_software.Platform.Faults.{firmware_fail}
use beamforming_software.Platform.RetainedDiagnostics
use beamforming_software.Platform.RetainedDiagnostics.{begin, lockout_required}
use beamforming_software.Platform.Clock.{ClockTree}
use beamforming_software.Can.Protocol.{vga_max_attenuation_db}
use beamforming_software.Rf.Plan.{Plan, RfState}
use beamforming_software.Rf.Plan.Safety.{phase_word_of}
use beamforming_software.Rf.Drivers.{Board}
use beamforming_software.Rf.Execute.{Outputs}
use beamforming_software.Rf.Execute.Prefix.{seen}
use beamforming_software.Rf.Execute.Latches.{Chips, chips_after, IsQuietTrace, IsLatched}
use beamforming_software.Runtime.{Bus, System, spi_timeout_millis}
use beamforming_software.Runtime
use beamforming_software.Runtime.Guarded.{IsSafe}
use beamforming_software.Main.{
  Ending, running, without_can, reset, Machine, with_retained, with_board, fail, or_fail,
  finish_boot,
}

module _ {B : Type 0} (c : Chips) (lockout : Bool) where
  -- What a boot leaves the chips with: the phase was latched only at 23 dB; without a reset the
  -- chips hold the start-up phase, which is zero in the lockout, at 23 dB; and the service loop
  -- starts from a safe state, in the lockout if it is required.
  pub record IsBooted (x : Ending × Machine B) : Type 0 where
    pub quiet : IsQuietTrace c x.1.system.board.trace
    pub phase_set :
        x.0 ≢ reset
        → (chips_after c x.1.system.board.trace).phase_word
          ≡ phase_word_of (if lockout then 0 else 146)
    pub attenuated :
        x.0 ≢ reset → (chips_after c x.1.system.board.trace).vga_byte ≡ vga_max_attenuation_db * 4
    pub safe : x.0 ≡ running → IsSafe c x.1.system × (x.1.system.runtime.safe_lockout ≡ lockout)

  pub fail-IsBooted :
      (cause : FirmwareFault) (m : Machine B)
      → IsQuietTrace c m.system.board.trace
      → IsBooted (fail cause m)
  fail-IsBooted cause m h = record {
    quiet = h;
    phase_set = λ e. absurd (e refl);
    attenuated = λ e. absurd (e refl);
    safe = λ e. cc;
  }

  pub or_fail-IsBooted :
      (x : FirmwareFault × Outputs) (m : Machine B)
      (next : Outputs → Machine B → Ending × Machine B)
      → IsQuietTrace c x.1.board.trace
      → (x.0 ≡ no_fault → IsBooted (next x.1 (with_board x.1.board m)))
      → IsBooted (or_fail x m next)
  or_fail-IsBooted (no_fault, o) m next h k = k refl
  or_fail-IsBooted (cause, o) m next h k = fail-IsBooted cause (with_board o.board m) h

if_cases : {A : Type 0} (l : Bool) (P : A → Type 0) {x y : A} → P x → P y → P (if l then x else y)
if_cases true P h k = h
if_cases false P h k = k

module _ {B : Type 0} (ops : Bus B) (p : Peripherals) (tree : ClockTree) (node : ℕ) (c : Chips)
    (lockout : Bool) where
  abbrev pub start_phase : ℕ
  start_phase = if lockout then 0 else 146

  -- the state of the system from which CAN is started
  pub record IsPrepared (plan : Plan) (o : Outputs) (m : Machine B) : Type 0 where
    pub latched : IsLatched c (seen o)
    pub same_board : m.system.board ≡ o.board
    pub phase_sent : o.last_phase_command ≡ phase_word_of start_phase
    pub vga_sent : o.last_vga_command ≡ vga_max_attenuation_db * 4
    pub attenuation : plan.resulting_state.attenuation_db ≡ vga_max_attenuation_db

  -- what the start of the runtime leaves
  abbrev pub Started : Plan → Outputs → System B → Bool × System B → Type 0
  Started plan o s x =
      (x.1.board ≡ s.board)
      × (x.0 ≡ true
          → (x.1.runtime.state ≡ plan.resulting_state)
            × (x.1.runtime.last_phase_command ≡ o.last_phase_command)
            × (x.1.runtime.last_vga_command ≡ o.last_vga_command)
            × (x.1.runtime.safe_lockout ≡ lockout))

  pub start-Started :
      (source : FirmwareClock) (plan : Plan) (o : Outputs) (s : System B)
      → Started plan o s (
          Runtime.start ops p node source lockout plan.resulting_state o.last_phase_command
            o.last_vga_command s)
  unfolding Runtime.start
  start-Started source plan o s = ground arith

  stopped-IsBooted :
      (ending : Ending) (plan : Plan) (o : Outputs) (m m1 : Machine B)
      → IsPrepared plan o m
      → m1.system.board ≡ m.system.board
      → ending ≢ running
      → IsBooted c lockout (ending, m1)
  stopped-IsBooted ending plan o m m1 r e no_run =
      let l = r.latched in
      let same = sym (e ∙ r.same_board) in
      record {
        quiet = subst (λ (b : Board). IsQuietTrace c b.trace) same l.quiet;
        phase_set = λ k.
            subst (λ (b : Board). (chips_after c b.trace).phase_word ≡ phase_word_of start_phase)
              same (l.phase_latched ∙ r.phase_sent);
        attenuated = λ k.
            subst (λ (b : Board). (chips_after c b.trace).vga_byte ≡ vga_max_attenuation_db * 4)
              same (l.vga_latched ∙ r.vga_sent);
        safe = λ k. absurd (no_run k);
      }

  served-IsBooted :
      (plan : Plan) (o : Outputs) (m m1 : Machine B)
      → IsPrepared plan o m
      → Started plan o m.system (true, m1.system)
      → IsBooted c lockout (running, m1)
  served-IsBooted plan o m m1 r (e, k) =
      let l = r.latched in
      let (state, phase_kept, vga_kept, locked) = k refl in
      let same = sym (e ∙ r.same_board) in
      let attenuation = ap (λ (st : RfState). st.attenuation_db) state ∙ r.attenuation in
      record {
        quiet = subst (λ (b : Board). IsQuietTrace c b.trace) same l.quiet;
        phase_set = λ x.
            subst (λ (b : Board). (chips_after c b.trace).phase_word ≡ phase_word_of start_phase)
              same (l.phase_latched ∙ r.phase_sent);
        attenuated = λ x.
            subst (λ (b : Board). (chips_after c b.trace).vga_byte ≡ vga_max_attenuation_db * 4)
              same (l.vga_latched ∙ r.vga_sent);
        safe = λ x. (
          record {
            latched =
                subst (IsLatched c)
                  (λ i. record {
                    phase_word = sym phase_kept i;
                    vga_byte = sym vga_kept i;
                    trace = (same i).trace;
                  })
                  l;
            bounded = omega (arith, attenuation);
            held = inr (vga_kept ∙ r.vga_sent);
          },
          locked,
        );
      }

  pub finish_boot-IsBooted :
      (x : Bool × System B) (plan : Plan) (o : Outputs) (m : Machine B)
      → IsPrepared plan o m
      → Started plan o m.system x
      → IsBooted c lockout (finish_boot ops p tree lockout node x m)
  finish_boot-IsBooted (true, s) plan o m r h = served-IsBooted plan o m _ r h
  finish_boot-IsBooted (false, s) plan o m r (e, h) =
      let stopped : Machine B = record m { system = s } in
      if_cases lockout (IsBooted c lockout)
        (stopped-IsBooted without_can plan o m
          (with_retained
            (RetainedDiagnostics.set_state (RetainedDiagnostics.set_fault s.retained can_init)
              safe_lockout)
            stopped)
          r e (λ k. cc))
        (stopped-IsBooted reset plan o m (with_retained (firmware_fail can_init s.retained) stopped)
          r e (λ k. cc))
