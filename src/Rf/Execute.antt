-- ===== src/Rf/Execute.antt =====
-- stm32/app/src/rf/execute.c: a plan is executed in order up to the first fault. The two commands
-- that the C code writes through pointers are arguments and parts of the result; the pointers are
-- never NULL.
pub mod Prefix
pub mod Latches
pub mod Timing
use beamforming_software.Prelude.{ℕ, zero, suc, ◌+◌, List, get_or, u8}
use beamforming_software.Platform.SpiGuard.{Peripherals, SpiGuardStatus}
use beamforming_software.Platform.DiagnosticRecord.{
  FirmwareFault, no_fault, phase_spi_timeout, phase_spi_error, vga_spi_timeout, vga_spi_error,
}
use beamforming_software.Rf.Plan.{Operation, zero_operation, OperationType, phase, vga, Plan}
use beamforming_software.Rf.Drivers.{Board, vga_write, phase_shifter_write}

abbrev pub phase_fault : SpiGuardStatus → FirmwareFault
phase_fault SpiGuardStatus.timeout = phase_spi_timeout
phase_fault _ = phase_spi_error

abbrev pub vga_fault : SpiGuardStatus → FirmwareFault
vga_fault SpiGuardStatus.timeout = vga_spi_timeout
vga_fault _ = vga_spi_error

-- what an execution changes: the two recorded commands, and the board
pub record Outputs : Type 0 where
  pub last_phase_command : ℕ
  pub last_vga_command : ℕ
  pub board : Board

-- `if (fault != FIRMWARE_FAULT_NONE) return fault;`
abbrev pub unless_fault :
    FirmwareFault × Outputs → (Outputs → FirmwareFault × Outputs) → FirmwareFault × Outputs
unless_fault (no_fault, o) next = next o
unless_fault (fault, o) next = (fault, o)

module _ (p : Peripherals) (timeout_millis : ℕ) where
  abbrev pub after_vga : ℕ → SpiGuardStatus × Board → Outputs → FirmwareFault × Outputs
  after_vga command (SpiGuardStatus.ok, board) o =
      (no_fault, record o { last_vga_command = command; board = board })
  after_vga command (failed, board) o = (vga_fault failed, record o { board = board })

  abbrev pub after_phase : ℕ → SpiGuardStatus × Board → Outputs → FirmwareFault × Outputs
  after_phase command (SpiGuardStatus.ok, board) o =
      (no_fault, record o { last_phase_command = command; board = board })
  after_phase command (failed, board) o = (phase_fault failed, record o { board = board })

  unfoldable pub execute_operation : Operation → Outputs → FirmwareFault × Outputs
  execute_operation operation o = elim operation.type [
    | vga ↦
        after_vga (u8 operation.command) (vga_write p (u8 operation.command) timeout_millis o.board)
          o
    | phase ↦
        after_phase operation.command
          (phase_shifter_write p operation.command timeout_millis o.board) o
  ]

  -- The loop from `index` on. The rest is run only without a fault.
  unfoldable pub execute_loop : List Operation → ℕ → ℕ → Outputs → FirmwareFault × Outputs
  execute_loop operations zero index o = (no_fault, o)
  execute_loop operations (suc rounds) index o =
      unless_fault (execute_operation (get_or operations index zero_operation) o)
        (λ after. execute_loop operations rounds (index + 1) after)

  unfoldable pub execute_plan : Plan → Outputs → FirmwareFault × Outputs
  execute_plan plan o = execute_loop plan.operations plan.operation_count 0 o
