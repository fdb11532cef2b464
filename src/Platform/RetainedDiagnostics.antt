-- ===== src/Platform/RetainedDiagnostics.antt =====
-- stm32/app/src/platform/retained_diagnostics.c: the record in memory that no start-up code clears.
-- Each operation takes what the memory holds and returns what it holds afterwards.
pub mod Lockout
use beamforming_software.Prelude.{ℕ, Bool, if◌then◌else◌}
use beamforming_software.Platform.DiagnosticRecord
use beamforming_software.Platform.DiagnosticRecord.{
  DiagnosticRecord, FirmwareState, FirmwareClock, FirmwareFault, is_valid, begin_boot,
  should_lockout,
}

unfoldable pub valid_record : DiagnosticRecord → DiagnosticRecord
valid_record retained = if is_valid retained then retained else DiagnosticRecord.new

unfoldable pub begin : DiagnosticRecord → ℕ → ℕ → DiagnosticRecord
begin retained reset_flags build_id = begin_boot retained reset_flags build_id

unfoldable pub lockout_required : DiagnosticRecord → Bool
lockout_required retained = should_lockout retained

unfoldable pub set_state : DiagnosticRecord → FirmwareState → DiagnosticRecord
unfolding valid_record
set_state retained state = DiagnosticRecord.set_state (valid_record retained) state

unfoldable pub set_clock : DiagnosticRecord → FirmwareClock → DiagnosticRecord
unfolding valid_record
set_clock retained clock_source = DiagnosticRecord.set_clock (valid_record retained) clock_source

unfoldable pub set_commands : DiagnosticRecord → ℕ → ℕ → DiagnosticRecord
unfolding valid_record
set_commands retained phase_command vga_command =
    DiagnosticRecord.set_commands (valid_record retained) phase_command vga_command

unfoldable pub set_fault : DiagnosticRecord → FirmwareFault → DiagnosticRecord
unfolding valid_record
set_fault retained fault = DiagnosticRecord.set_fault (valid_record retained) fault

unfoldable pub mark_healthy : DiagnosticRecord → DiagnosticRecord
unfolding valid_record
mark_healthy retained = DiagnosticRecord.mark_healthy (valid_record retained)
