-- ===== src/Main/Startup.antt =====
-- The start-up plan on the two chips.
use beamforming_software.Prelude.{ℕ, ◌*◌, ◌≡◌, inl, inr, refl, sym, subst, true, get_or}
use beamforming_software.Platform.DiagnosticRecord.{FirmwareFault}
use beamforming_software.Can.Protocol.{vga_max_attenuation_db}
use beamforming_software.Rf.Commands.{make_vga_command}
use beamforming_software.Rf.Plan.{
  Plan, OperationType, Operation, zero_operation, phase, vga, zero_plan, plan_startup,
}
use beamforming_software.Rf.Plan.Safety.{phase_word_of}
use beamforming_software.Rf.Execute.{Outputs}
use beamforming_software.Rf.Execute.Prefix.{Seen, complete, begun, Outcome}
use beamforming_software.Rf.Execute.Latches.{Chips, IsQuietTrace, IsLatched}

abbrev pub vga_operation : Operation
vga_operation = record { type = vga; command = vga_max_attenuation_db * 4 }

abbrev pub phase_operation : ℕ → Operation
phase_operation state = record { type = phase; command = phase_word_of state }

-- The start-up plan: the attenuation first, and then the phase.
pub record IsStartup (phase_state : ℕ) (plan : Plan) : Type 0 where
  pub two : plan.operation_count ≡ 2
  pub first : get_or plan.operations 0 zero_operation ≡ vga_operation
  pub second : get_or plan.operations 1 zero_operation ≡ phase_operation phase_state
  pub attenuated : plan.resulting_state.attenuation_db ≡ vga_max_attenuation_db

pub plan_startup-IsStartup :
    (phase_state : ℕ)
    → let (started, plan) = plan_startup phase_state 23 zero_plan in
      (started ≡ true) × IsStartup phase_state plan
unfolding plan_startup make_vga_command
plan_startup-IsStartup phase_state =
    (refl, record { two = refl; first = refl; second = refl; attenuated = refl })

module _ (c : Chips) where
  -- a write that is at most begun latches nothing
  begun_quiet :
      (op : Operation) (s : Seen) → IsQuietTrace c s.trace → IsQuietTrace c (begun s op).trace
  begun_quiet op s h = go op.type
    where
      go :
          (t : OperationType)
          → IsQuietTrace c (begun s (record { type = t; command = op.command })).trace
      go vga = h
      go phase = h

  -- after both writes of the start-up plan
  abbrev pub written : ℕ → Seen → Seen
  written phase_state s = complete (complete s vga_operation) (phase_operation phase_state)

  pub written-IsLatched :
      (phase_state : ℕ) (s : Seen) → IsQuietTrace c s.trace → IsLatched c (written phase_state s)
  written-IsLatched phase_state s h = record {
    quiet = (refl, h);
    phase_latched = refl;
    vga_latched = refl;
  }

  pub Outcome-IsQuietTrace :
      (op : Operation) (s : Seen) (x : FirmwareFault × Outputs)
      → IsQuietTrace c s.trace
      → IsQuietTrace c (complete s op).trace
      → Outcome op s x
      → IsQuietTrace c x.1.board.trace
  Outcome-IsQuietTrace op s x h k (inl (_, e)) =
      subst (λ (v : Seen). IsQuietTrace c v.trace) (sym e) k
  Outcome-IsQuietTrace op s x h k (inr (_, inl e)) =
      subst (λ (v : Seen). IsQuietTrace c v.trace) (sym e) h
  Outcome-IsQuietTrace op s x h k (inr (_, inr e)) =
      subst (λ (v : Seen). IsQuietTrace c v.trace) (sym e) (begun_quiet op s h)
