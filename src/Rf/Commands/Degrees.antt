-- ===== src/Rf/Commands/Degrees.antt =====
-- Phases in millidegrees to states, and attenuations to command bytes.
use beamforming_software.Prelude.{
  ℕ, ◌+◌, ◌*◌, ◌/◌, ◌%◌, ◌≤◌, ◌<◌, ◌≡◌, ◌⊎◌, inl, inr, arith, none, some, dec_lt,
}
use beamforming_software.Prelude.Bits.{bit_and_mask}
use beamforming_software.Can.Protocol.{vga_max_attenuation_db}
use beamforming_software.Rf.Commands.{phase_state_from_millidegrees, make_vga_command}

-- `turns` of the 256 steps in a full turn are nearest to `m` millidegrees, a half step rounding up.
pub record IsNearest (m steps : ℕ) : Type 0 where
  pub not_above : steps * 360000 ≤ m * 256 + 180000
  pub not_below : m * 256 < steps * 360000 + 180000

-- A phase of at most a full turn gives the nearest of the 256 states, where the full turn and
-- what rounds to it are state 0; a larger phase is refused.
pub phase_state-IsNearest :
    (m : ℕ)
    → ((m ≤ 360000)
        × (s : ℕ) × (phase_state_from_millidegrees m ≡ some s)
        × (s < 256)
        × (IsNearest m s ⊎ ((s ≡ 0) × IsNearest m 256)))
      ⊎ ((360000 < m) × (phase_state_from_millidegrees m ≡ none))
unfolding phase_state_from_millidegrees
phase_state-IsNearest m = elim (dec_lt 360000 m) [
  | yes large ↦ inr (large, ground arith)
  | no h ↦
      let steps : ℕ = (m * 256 + 180000) / 360000 in
      inl (
        omega arith,
        steps % 256,
        ground (arith, bit_and_mask 8 steps),
        omega arith,
        elim (dec_lt steps 256) [ yes small ↦ inl (omega arith) | no top ↦ inr (omega arith) ],
      )
]

-- An attenuation of at most 23 dB gives the byte with the decibels in bits 6 to 2 and nothing in
-- bits 7, 1 and 0; a larger one is refused.
pub make_vga_command_lem :
    (a : ℕ)
    → ((a ≤ vga_max_attenuation_db)
        × (c : ℕ) × (make_vga_command a ≡ some c)
        × (c < 128)
        × (c % 4 ≡ 0)
        × (c / 4 ≡ a))
      ⊎ ((vga_max_attenuation_db < a) × (make_vga_command a ≡ none))
unfolding make_vga_command
make_vga_command_lem a = elim (dec_lt 23 a) [
  | yes large ↦ inr (large, ground arith)
  | no h ↦ inl (omega arith, a * 4, ground arith, omega arith, omega arith, omega arith)
]
