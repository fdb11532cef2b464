-- ===== src/Rf/Commands.antt =====
-- stm32/app/src/rf/commands.c: serial words for the PE44820 phase shifter and the F0480
-- attenuator. The output pointers are never NULL; a `false` is `none`.
pub mod Serial
pub mod Degrees
use beamforming_software.Prelude.{
  ℕ, zero, suc, ◌+◌, ◌*◌, ◌/◌, Bool, not, Option, none, some, ltb, ◌==◌, if◌then◌else◌, get_or,
  bit_and, bit_or, u8, u16, ◌<<◌, ◌>>◌,
}
use beamforming_software.Can.Protocol.{vga_max_attenuation_db}
use beamforming_software.Rf.PhaseStates.{optimized_phase_state_by_index}

abbrev pub phase_full_turn_millidegrees : ℕ
phase_full_turn_millidegrees = 360000

abbrev pub phase_state_count : ℕ
phase_state_count = 256

abbrev pub phase_command_max : ℕ
phase_command_max = 0x1fff

abbrev pub phase_unit_address : ℕ
phase_unit_address = 1

abbrev pub phase_state_bits : ℕ
phase_state_bits = 8

abbrev pub phase_control_word_data_mask : ℕ
phase_control_word_data_mask = 0x00ff

abbrev pub phase_control_word_option_mask : ℕ
phase_control_word_option_mask = 0x0100

abbrev pub phase_unit_address_bits : ℕ
phase_unit_address_bits = 4

abbrev pub phase_command_phase_shift : ℕ
phase_command_phase_shift = 5

abbrev pub phase_command_option_shift : ℕ
phase_command_option_shift = 4

abbrev pub phase_command_address_mask : ℕ
phase_command_address_mask = 0x000f

abbrev pub vga_command_attenuation_shift : ℕ
vga_command_attenuation_shift = 2

reverse_loop : ℕ → ℕ → ℕ → ℕ
reverse_loop zero reversed word = reversed
reverse_loop (suc rounds) reversed word =
    reverse_loop rounds (u16 (bit_or (reversed << 1) (bit_and word 0x1))) (word >> 1)

unfoldable pub reverse_bits : ℕ → ℕ → ℕ
unfolding reverse_loop
reverse_bits word num_bits = reverse_loop num_bits 0 word

unfoldable pub get_optimized_phase_state : ℕ → ℕ
get_optimized_phase_state state_word_table_index =
    get_or optimized_phase_state_by_index state_word_table_index 0

-- the conversion of a `bool` to a number
abbrev pub of_bool : Bool → ℕ
of_bool b = if b then 1 else 0

unfoldable pub make_ps_command : ℕ → ℕ → ℕ
unfolding reverse_bits
make_ps_command phase_state unit_address_word =
    let state_word = u16 phase_state in
    let opt_bit = not (bit_and state_word phase_control_word_option_mask == 0) in
    let state_word_masked =
      reverse_bits (bit_and state_word phase_control_word_data_mask) phase_state_bits in
    let address = u8 (reverse_bits unit_address_word phase_unit_address_bits) in
    u16 (
      bit_or
        (bit_or (bit_and state_word_masked 0xff << phase_command_phase_shift)
          (of_bool opt_bit << phase_command_option_shift))
        (bit_and address phase_command_address_mask))

unfoldable pub phase_state_from_millidegrees : ℕ → Option ℕ
phase_state_from_millidegrees requested =
    let scaled = requested * phase_state_count + phase_full_turn_millidegrees / 2 in
    if ltb phase_full_turn_millidegrees requested
    then none
    else some (u8 (bit_and (scaled / phase_full_turn_millidegrees) 0xff))

unfoldable pub make_vga_command : ℕ → Option ℕ
make_vga_command attenuation_db =
    if ltb vga_max_attenuation_db attenuation_db
    then none
    else some (u8 (attenuation_db << vga_command_attenuation_shift))
