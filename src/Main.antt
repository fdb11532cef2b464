-- ===== src/Main.antt =====
-- stm32/app/src/main.c: the boot sequence, and one pass of the service loop. The state of the
-- machine is the runtime's system with the clock tree. `firmware_fail` resets the machine, so
-- that a boot ends in a reset, in the loop without CAN, or in the service loop.
pub mod Session
pub mod Startup
pub mod Booted
pub mod Pass
pub mod Quiet
pub mod Locked
pub mod Serving
pub mod Answers
mod Tests
use beamforming_software.Prelude.{
  ℕ, zero, suc, ◌+◌, ◌-◌, Bool, true, false, Option, none, some, get_or, bit_and, ◌==◌,
  if◌then◌else◌,
}
use beamforming_software.Platform.SpiGuard.{Peripherals}
use beamforming_software.Platform.DiagnosticRecord.{
  DiagnosticRecord, FirmwareClock, FirmwareFault, no_fault, clock_startup, phase_command, can_init,
  clock_ready, safe_outputs, safe_lockout,
}
use beamforming_software.Platform.RetainedDiagnostics
use beamforming_software.Platform.RetainedDiagnostics.{begin, lockout_required}
use beamforming_software.Platform.Clock.{ClockTree, ClockState, clock_setup}
use beamforming_software.Platform.Faults.{firmware_fail}
use beamforming_software.Rf.Commands.{phase_state_from_millidegrees}
use beamforming_software.Rf.Plan.{Plan, zero_plan, zero_operation, plan_startup}
use beamforming_software.Rf.Drivers.{Board}
use beamforming_software.Rf.Execute.{Outputs, execute_operation, execute_loop}
use beamforming_software.Runtime.{Bus, System, spi_timeout_millis, service_next}
use beamforming_software.Runtime

abbrev pub operational_phase_millidegrees : ℕ
operational_phase_millidegrees = 205300

abbrev pub safe_phase_millidegrees : ℕ
safe_phase_millidegrees = 0

abbrev pub safe_vga_attenuation_db : ℕ
safe_vga_attenuation_db = 23

abbrev pub reset_flag_mask : ℕ
reset_flag_mask = 0xfe000000

pub data Ending : Type 0 where
  running without_can reset : Ending

pub record Machine (B : Type 0) : Type 0 where
  pub system : System B
  pub clock : ClockState

module _ {B : Type 0} where
  abbrev pub with_retained : DiagnosticRecord → Machine B → Machine B
  with_retained retained m = record m { system = record (m.system) { retained = retained } }

  abbrev pub with_board : Board → Machine B → Machine B
  with_board board m = record m { system = record (m.system) { board = board } }

  abbrev pub fail : FirmwareFault → Machine B → Ending × Machine B
  fail cause m = (reset, with_retained (firmware_fail cause m.system.retained) m)

  -- `execute_startup_operation_or_fail`, with what follows it
  abbrev pub or_fail :
      FirmwareFault × Outputs
      → Machine B
      → (Outputs → Machine B → Ending × Machine B)
      → Ending × Machine B
  or_fail (no_fault, o) m next = next o (with_board o.board m)
  or_fail (cause, o) m next = fail cause (with_board o.board m)

module _ {B : Type 0} (ops : Bus B) (p : Peripherals) (tree : ClockTree) (lockout : Bool)
    (node : ℕ) where
  -- what follows `can_runtime_start`
  abbrev pub finish_boot : Bool × System B → Machine B → Ending × Machine B
  finish_boot (true, s) m =
      let served : Machine B = record m { system = s } in
      (
        running,
        with_retained
            (if lockout
              then RetainedDiagnostics.set_state s.retained safe_lockout
              else RetainedDiagnostics.mark_healthy s.retained)
            served,
      )
  finish_boot (false, s) m =
      let stopped : Machine B = record m { system = s } in
      if lockout
      then (
        without_can,
        with_retained
            (RetainedDiagnostics.set_state (RetainedDiagnostics.set_fault s.retained can_init)
              safe_lockout)
            stopped,
      )
      else fail can_init stopped

  -- from the executed start-up plan on
  abbrev pub start_can : FirmwareClock → Plan → Outputs → Machine B → Ending × Machine B
  start_can source plan o m =
      let recorded =
        with_retained
          (RetainedDiagnostics.set_commands m.system.retained o.last_phase_command
            o.last_vga_command)
          m in
      finish_boot
        (Runtime.start ops p node source lockout plan.resulting_state o.last_phase_command
          o.last_vga_command recorded.system)
        recorded

  abbrev pub execute_first : Plan → Machine B → FirmwareFault × Outputs
  execute_first plan m =
      execute_operation p spi_timeout_millis (get_or plan.operations 0 zero_operation)
        (record { last_phase_command = 0; last_vga_command = 0; board = m.system.board })

  -- The loop over the other operations. The count is at least one.
  abbrev pub execute_others : Plan → Outputs → FirmwareFault × Outputs
  execute_others plan o =
      execute_loop p spi_timeout_millis plan.operations (plan.operation_count - 1) 1 o

  abbrev pub with_safe_outputs : Machine B → Machine B
  with_safe_outputs m =
      with_retained (RetainedDiagnostics.set_state m.system.retained safe_outputs) m

  abbrev pub after_safe_outputs : FirmwareClock → Plan → Outputs → Machine B → Ending × Machine B
  after_safe_outputs source plan o m =
      or_fail (execute_others plan o) (with_safe_outputs m) (start_can source plan)

  abbrev pub execute_startup : FirmwareClock → Plan → Machine B → Ending × Machine B
  execute_startup source plan m = or_fail (execute_first plan m) m (after_safe_outputs source plan)

  abbrev pub startup_planned : FirmwareClock → Bool × Plan → Machine B → Ending × Machine B
  startup_planned source (true, plan) m = execute_startup source plan m
  startup_planned source (false, plan) m = fail phase_command m

  abbrev pub requested_phase : ℕ
  requested_phase = if lockout then safe_phase_millidegrees else operational_phase_millidegrees

  abbrev pub with_phase : FirmwareClock → Option ℕ → Machine B → Ending × Machine B
  with_phase source none m = fail phase_command m
  with_phase source (some phase_state) m =
      startup_planned source (plan_startup phase_state safe_vga_attenuation_db zero_plan) m

  -- from `clock_setup` on
  abbrev pub with_clock : Bool × FirmwareClock × ClockState → Machine B → Ending × Machine B
  with_clock (true, source, clock) m =
      let retained =
        RetainedDiagnostics.set_state (RetainedDiagnostics.set_clock m.system.retained source)
          clock_ready in
      with_phase source (phase_state_from_millidegrees requested_phase)
        (with_retained retained (record m { clock = clock }))
  with_clock (false, source, clock) m = fail clock_startup (record m { clock = clock })

module _ {B : Type 0} (ops : Bus B) (p : Peripherals) (tree : ClockTree) where
  -- `csr` is what the reset flags' register reads.
  unfoldable pub boot : ℕ → ℕ → ℕ → Machine B → Ending × Machine B
  boot csr build_id node m =
      let begun =
        with_retained (begin m.system.retained (bit_and csr reset_flag_mask) build_id) m in
      with_clock ops p tree (lockout_required begun.system.retained) node (clock_setup tree m.clock)
        begun

module _ {B : Type 0} (ops : Bus B) (p : Peripherals) where
  -- The inner loop of `service_runtime` on rounds: whether it ended, how often it serviced the
  -- watchdog, and the system.
  unfoldable pub service_rounds : ℕ → System B → Bool × ℕ × System B
  service_rounds zero s = (false, 0, s)
  service_rounds (suc rounds) s =
      let (found, s') = service_next ops p s in
      let (ended, services, t) = service_rounds rounds s' in
      if found then (ended, services + 1, t) else (true, 0, s')

  -- One pass of its outer loop: whether it ended, how often it serviced the watchdog, whether it
  -- waits for an interrupt, and the system.
  unfoldable pub service_pass : ℕ → System B → Bool × ℕ × Bool × System B
  service_pass rounds s =
      let (ended, services, t) = service_rounds rounds s in (ended, services + 1, services == 0, t)
