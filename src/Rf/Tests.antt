-- ===== src/Rf/Tests.antt =====
-- Runs and instances of the theorems on command words and plans.
use beamforming_software.Prelude.{
  ℕ, ◌<◌, ◌≤◌, ◌≡◌, ◌⊎◌, inl, refl, arith, true, false, List, [], ◌∷◌, ◌++◌, some, none,
}
use beamforming_software.Can.Protocol.{
  set_combined, set_phase, Command, zero_command, CommandResult,
}
use beamforming_software.Platform.Pins.{
  Port, gpio_a, gpio_b, gpio_c, PinMode, alternate_function, input, no_pull, spi_clock, Call,
  rcc_periph_clock_enable, Asked, make_calls,
}
use beamforming_software.Rf.Drivers.{spi2}
use beamforming_software.Rf.Setup.{
  phase_format, f0480spisetup, pe448spisetup, can_bus_pins, board_setup,
}
use beamforming_software.Rf.Setup.Levels.{
  IsReady, is_line, control_lines, is_orderly, board_setup-IsReady, board_setup-orderly,
}
use beamforming_software.Rf.Commands.{
  make_ps_command, phase_state_from_millidegrees, phase_command_max,
}
use beamforming_software.Rf.Commands.Serial.{msb_first, lsb_first, make_ps_command_serial}
use beamforming_software.Rf.Commands.Degrees.{IsNearest, phase_state-IsNearest}
use beamforming_software.Rf.Plan.{RfState, zero_plan, max_operations, plan_command}
use beamforming_software.Rf.Plan.Safety.{
  Devices, IsQuiet, Shows, writes, planned, requested, phase_word_of, plan_command_safe,
  plan_command_recovers,
}
use beamforming_software.Prelude.{◌==◌, ◌||◌, ◌+◌, ltb, if◌then◌else◌, [], ◌∷◌}
use beamforming_software.Rf.Plan.{Plan, vga, phase}
use beamforming_software.Platform.SpiGuard.{Peripherals, wait_for_status, poll_iteration_limit}
use beamforming_software.Platform.SpiGuard.Bounds.{Ended, wait_for_status-Ended}
use beamforming_software.Rf.Execute.{Outputs, execute_plan}
use beamforming_software.Rf.Execute.Prefix.{Ran, seen, execute_plan-Ran}

-- the state 146 at 8 dB, and the devices that hold it
abbrev state_146 : RfState
state_146 = record { phase_state = 146; attenuation_db = 8 }

abbrev devices_146 : Devices
devices_146 = record { phase_word = phase_word_of 146; vga_byte = 32 }

abbrev phase_90 : Command
phase_90 = record zero_command { type = set_phase; phase_state = 90; source = 0 }

abbrev combined_23 : Command
combined_23 = record zero_command { type = set_combined; phase_state = 90; attenuation_db = 23 }

devices_146-Shows : Shows devices_146 state_146
devices_146-Shows = record { phase_shown = refl; vga_shown = refl }

make_ps_command_run : make_ps_command 0x1d7 1 ≡ 0x1d78
unfolding make_ps_command
make_ps_command_run = refl

phase_state_run : phase_state_from_millidegrees 127800 ≡ some 91
unfolding phase_state_from_millidegrees
phase_state_run = refl

make_ps_command_serial_example :
    (make_ps_command 0x1d7 1 ≤ phase_command_max)
    × (msb_first 13 (make_ps_command 0x1d7 1) ≡ lsb_first 9 0x1d7 ++ lsb_first 4 1)
make_ps_command_serial_example = make_ps_command_serial 0x1d7 1 (omega arith) (omega arith)

abbrev word_146 : ℕ
word_146 = 0x1d7

abbrev unit_1 : ℕ
unit_1 = 1

phase_state-IsNearest_example :
    ((127800 ≤ 360000)
      × (s : ℕ) × (phase_state_from_millidegrees 127800 ≡ some s)
      × (s < 256)
      × (IsNearest 127800 s ⊎ ((s ≡ 0) × IsNearest 127800 256)))
    ⊎ ((360000 < 127800) × (phase_state_from_millidegrees 127800 ≡ none))
phase_state-IsNearest_example = phase_state-IsNearest 127800

plan_command_safe_example :
    let (result, plan) = plan_command phase_90 state_146 zero_plan in
    (result ≡ CommandResult.ok)
    × (plan.operation_count ≤ max_operations)
    × IsQuiet devices_146 (planned plan)
    × Shows (writes devices_146 (planned plan)) plan.resulting_state
    × (plan.resulting_state ≡ record { phase_state = 90; attenuation_db = 8 })
plan_command_safe_example =
    plan_command_safe phase_90 state_146 zero_plan devices_146 (omega arith) (omega arith)
      (omega arith) devices_146-Shows

plan_command_recovers_example :
    let (result, plan) = plan_command combined_23 state_146 zero_plan in
    (result ≡ CommandResult.ok)
    × IsQuiet (record { phase_word = 5; vga_byte = 12 }) (planned plan)
    × Shows
        (writes (record { phase_word = 5; vga_byte = 12 }) (planned plan))
        (requested combined_23 state_146)
plan_command_recovers_example =
    plan_command_recovers combined_23 state_146 zero_plan (record { phase_word = 5; vga_byte = 12 })
      (omega arith) (omega arith) (inl refl)

abbrev initial_db : ℕ
initial_db = 23

-- registers that are always ready, and registers that show an error from the fourth poll on
abbrev ready : Peripherals
ready = record {
  status_register = λ spi poll. 2;
  millis = λ poll. poll;
  txe_mask = 2;
  bsy_mask = 128;
  error_mask = 64;
}

abbrev failing : Peripherals
failing = record ready { status_register = λ spi poll. if ltb poll 4 then 2 else 66 }

abbrev idle : Outputs
idle = record {
  last_phase_command = 0;
  last_vga_command = 0;
  board = record { polls = 0; trace = [] };
}

abbrev two_writes : Plan
two_writes = record zero_plan {
  operations =
      record { type = vga; command = 92 }
      ∷ record { type = phase; command = 0x1d78 }
      ∷ record { type = vga; command = 32 }
      ∷ [];
  operation_count = 2;
}

execute_plan-Ran_example :
    Ran
      (record { type = vga; command = 92 } ∷ record { type = phase; command = 0x1d78 } ∷ [])
      (seen idle)
      (execute_plan failing 2 two_writes idle)
execute_plan-Ran_example = execute_plan-Ran failing 2 two_writes idle (omega arith)

wait_for_status-Ended_example :
    Ended failing 1 2 true 3 5 (wait_for_status failing 1 2 true 5 3) 3 (3 + poll_iteration_limit)
wait_for_status-Ended_example = wait_for_status-Ended failing 1 2 true 5 3

-- after a reset: PA13 and PA14 are the debug port's
abbrev reset_mode : Port → ℕ → PinMode
reset_mode gpio_a pin = if pin == 13 || pin == 14 then alternate_function else input
reset_mode port pin = input

reset_mode-inputs :
    (port : Port) (pin : ℕ) → is_line control_lines port pin ≡ true → reset_mode port pin ≡ input
reset_mode-inputs gpio_a pin h = ground arith
reset_mode-inputs gpio_b pin h = refl
reset_mode-inputs gpio_c pin h = refl

-- with nothing asked for
abbrev nothing_asked : Asked
nothing_asked = record {
  clocked = λ peripheral. false;
  level = λ port pin. false;
  mode = reset_mode;
  pull = λ port pin. no_pull;
  function = λ port pin. 0;
  spi = λ spi. record {
    enabled = false;
    format = phase_format;
    data_size = 0;
    threshold = 0;
    transmit_only = false;
    software_nss = false;
    nss_high = false;
  };
}

board_setup-IsReady_example : IsReady (make_calls board_setup nothing_asked)
board_setup-IsReady_example = board_setup-IsReady nothing_asked

abbrev without_first : List Call → List Call
without_first [] = []
without_first (call ∷ calls) = calls

-- between the two chips
board_setup-orderly_example :
    is_orderly (make_calls f0480spisetup nothing_asked) (rcc_periph_clock_enable (spi_clock spi2))
    ≡ true
board_setup-orderly_example =
    board_setup-orderly nothing_asked f0480spisetup (without_first pe448spisetup ++ can_bus_pins)
      (rcc_periph_clock_enable (spi_clock spi2)) reset_mode-inputs refl
