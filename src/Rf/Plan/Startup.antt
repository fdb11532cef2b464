-- ===== src/Rf/Plan/Startup.antt =====
-- The plan of the boot sequence.
use beamforming_software.Prelude.{
  ℕ, ◌*◌, ◌≤◌, ◌<◌, ◌≡◌, sym, subst, subst₂, arith, true, false, List, [], ◌∷◌, ◌⊎◌, inl, inr,
  dec_lt,
}
use beamforming_software.Rf.Commands.{make_vga_command}
use beamforming_software.Rf.Plan.{Plan, RfState, Operation, phase, vga, plan_startup}
use beamforming_software.Rf.Plan.Safety.{Devices, IsQuiet, Shows, writes, planned, phase_word_of}

abbrev startup_state : ℕ → ℕ → RfState
startup_state phase_state attenuation = record {
  phase_state = phase_state;
  attenuation_db = attenuation;
}

abbrev startup_operations : ℕ → ℕ → List Operation
startup_operations phase_state attenuation =
    record { type = vga; command = attenuation * 4 }
    ∷ record { type = phase; command = phase_word_of phase_state }
    ∷ []

plan_startup-planned :
    (phase_state attenuation : ℕ) (plan0 : Plan)
    → attenuation ≤ 23
    → let (started, plan) = plan_startup phase_state attenuation plan0 in
      (started ≡ true)
      × (plan.operation_count ≡ 2)
      × (plan.resulting_state ≡ startup_state phase_state attenuation)
      × (planned plan ≡ startup_operations phase_state attenuation)
unfolding plan_startup make_vga_command
plan_startup-planned phase_state attenuation plan0 h = ground arith

-- A start with at most 23 dB plans the attenuation first and then the phase, and results in both;
-- at 23 dB, from whatever the devices hold after reset, the phase changes only at 23 dB and the
-- devices end in the resulting state. A start with more is refused, and leaves the plan alone.
pub plan_startup_safe :
    (phase_state attenuation : ℕ) (plan0 : Plan) (d : Devices)
    → let (started, plan) = plan_startup phase_state attenuation plan0 in
      ((attenuation ≤ 23)
        × (started ≡ true)
        × (plan.operation_count ≡ 2)
        × (plan.resulting_state ≡ startup_state phase_state attenuation)
        × Shows (writes d (planned plan)) plan.resulting_state
        × (attenuation ≡ 23 → IsQuiet d (planned plan)))
      ⊎ ((23 < attenuation) × (started ≡ false) × (plan ≡ plan0))
unfolding plan_startup
plan_startup_safe phase_state attenuation plan0 d = elim (dec_lt 23 attenuation) [
  | yes large ↦ inr (large, ground arith, ground arith)
  | no h ↦
      let (started, two, state, operations) =
        plan_startup-planned phase_state attenuation plan0 (omega arith) in
      inl (
        omega arith,
        started,
        two,
        state,
        subst₂ (λ os s. Shows (writes d os) s) (sym operations) (sym state) (omega arith),
        λ e. subst (IsQuiet d) (sym operations) (λ other. cc, (λ same. omega arith, tt)),
      )
]
