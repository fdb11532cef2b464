-- ===== src/Platform/Tests.antt =====
-- Runs and instances of the theorems on the retained record.
use beamforming_software.Prelude.{◌≡◌, ◌≢◌, ◌⊎◌, refl, arith, true, false, [], ◌∷◌}
use beamforming_software.Platform.DiagnosticRecord.{
  DiagnosticRecord, new, is_valid, begin_boot, hard_fault, safe_outputs, checksum_of,
}
use beamforming_software.Platform.DiagnosticRecord.Seal.{to_state, to_fault, to_commands}
use beamforming_software.Platform.DiagnosticRecord.Boots.{
  IsBooting, Carried, Started, begin_boot_lem,
}
use beamforming_software.Platform.RetainedDiagnostics.{begin, lockout_required, mark_healthy}
use beamforming_software.Platform.RetainedDiagnostics.Lockout.{Session, retain_all, run}
use beamforming_software.Platform.RetainedDiagnostics.Lockout.Cleared.{lockout_cleared}
use beamforming_software.Platform.DiagnosticRecord.{unexpected_interrupt}
use beamforming_software.Platform.DiagnosticRecord.Seal.{new-is_valid}
use beamforming_software.Platform.Faults.{unexpected, usb_isr, take_exception}
use beamforming_software.Platform.Faults.Reported.{IsReported, take_exception-IsReported}
use beamforming_software.Prelude.{leb}
use beamforming_software.Platform.Timebase.{timebase_elapsed, ticks, timebase_elapsed-ticks}
use beamforming_software.Platform.BuildInfo.{firmware_build_id, firmware_build_id-node}

-- what the memory may hold after power-up
abbrev noise : DiagnosticRecord
noise = record {
  magic = 1;
  version = 2;
  build_id = 3;
  boot_count = 4;
  reset_flags = 5;
  checksum = 6;
  current_fault = 7;
  previous_fault = 8;
  last_phase_command = 9;
  last_vga_command = 10;
  state = 11;
  clock_source = 12;
  consecutive_incomplete_boots = 13;
}

-- a boot that a fault ends
abbrev faulty : Session
faulty = record {
  reset_flags = 1;
  updates = to_state safe_outputs ∷ to_commands 0x10 92 ∷ to_fault hard_fault ∷ [];
}

new_checksum_run : is_valid new ≡ true
unfolding new is_valid checksum_of
new_checksum_run = refl

lockout_cleared_example :
    lockout_required
      (begin (run (retain_all (mark_healthy noise) (to_fault hard_fault ∷ [])) 7 (faulty ∷ [])) 2 7)
    ≡ false
lockout_cleared_example =
    lockout_cleared noise (to_fault hard_fault ∷ []) (faulty ∷ []) 7 2 (omega arith)

begin_boot_lem_example :
    let b = begin_boot noise 2 7 in
    IsBooting b 2 7
    × (((is_valid noise ≡ true) × (noise.build_id ≡ 7) × Carried noise b)
        ⊎ (((is_valid noise ≡ false) ⊎ (noise.build_id ≢ 7)) × Started b))
begin_boot_lem_example = begin_boot_lem noise 2 7 (omega arith)

-- revision "a1"
firmware_build_id-node_example :
    firmware_build_id (97 ∷ 49 ∷ []) 7 ≢ firmware_build_id (97 ∷ 49 ∷ []) 8
firmware_build_id-node_example =
    firmware_build_id-node (97 ∷ 49 ∷ []) 7 8 (omega arith) (omega arith)
      (λ e. absurd (omega arith))

-- a counter that wraps on the way
timebase_elapsed-ticks_example :
    timebase_elapsed (ticks 5 (record { system_millis = 4294967294; reload = 47999 })) 4294967294 3
    ≡ leb 3 5
timebase_elapsed-ticks_example =
    timebase_elapsed-ticks (record { system_millis = 4294967294; reload = 47999 }) 5 3 (omega arith)
      (omega arith)

new_incomplete : new.consecutive_incomplete_boots ≡ 0
unfolding new
new_incomplete = refl

take_exception-IsReported_example :
    let left = take_exception (unexpected usb_isr) new in
    IsReported unexpected_interrupt new left (begin left 0 new.build_id)
take_exception-IsReported_example =
    take_exception-IsReported (unexpected usb_isr) new 0 new-is_valid
      (omega (arith, new_incomplete))
