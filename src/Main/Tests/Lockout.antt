-- ===== src/Main/Tests/Lockout.antt =====
-- Boots that fail, and the boot of the safe lockout after them.
use beamforming_software.Prelude.{
  leb, ℕ, zero, suc, ◌+◌, ◌≡◌, refl, ap, ◌∙◌, arith, Bool, true, false, List, bit_and, ◌==◌,
}
use beamforming_software.Can.Protocol.{Frame}
use beamforming_software.Platform.SpiGuard.{wait_loop, wait_for_status, wait_complete}
use beamforming_software.Platform.DiagnosticRecord.{DiagnosticRecord, FirmwareClock, new}
use beamforming_software.Platform.RetainedDiagnostics.{begin, lockout_required}
use beamforming_software.Platform.Clock.{
  Register, cr, cr2, cfgr, ClockTree, ClockState, clock_setup, try_hse_pll, try_hsi48,
}
use beamforming_software.Platform.Clock
use beamforming_software.Rf.Commands.{
  make_vga_command, make_ps_command, get_optimized_phase_state, phase_state_from_millidegrees,
}
use beamforming_software.Rf.Plan.{plan_startup}
use beamforming_software.Rf.Drivers.{vga_write, phase_shifter_write}
use beamforming_software.Rf.Execute.{execute_operation, execute_loop}
use beamforming_software.Runtime.{Bus, System, zero_cache}
use beamforming_software.Runtime
use beamforming_software.Platform.RetainedDiagnostics.Lockout.Exact.{earlier}
use beamforming_software.Main.Session.Failed.{
  FailedBoots, none_yet, once_more, lockout_after-FailedBoots,
}
use beamforming_software.Main.Locked.{HoldsSafe, FailedBoots-HoldsSafe}
use beamforming_software.Runtime.{serve_frame}
use beamforming_software.Runtime.Served.{serves, here, later}
use beamforming_software.Main.{
  reset_flag_mask, running, reset, Machine, with_board, with_retained, with_clock, boot,
}
use beamforming_software.Main.Tests.{outbox, ready, crystal, powered, unset_chips, request}

-- a clock tree of which nothing starts
abbrev dead : ClockTree
dead = record crystal { reads = λ reg before. 0 }

dead_wait :
    (n : ℕ) (reg : Register) (mask expected : ℕ) (s : ClockState)
    → (bit_and 0 mask == expected) ≡ false
    → (Clock.poll_loop dead n reg mask expected s).0 ≡ false
unfolding Clock.poll_loop
dead_wait zero reg mask expected s h = refl
dead_wait (suc n) reg mask expected s h =
    rw h (dead_wait n reg mask expected (Clock.poll dead reg s) h)

not_ready :
    (x : Bool × ClockState) (next : ClockState → Bool × ClockState)
    → x.0 ≡ false
    → (Clock.when_ready dead x next).0 ≡ false
not_ready (true, s) next e = cc
not_ready (false, s) next e = refl

no_crystal : (s : ClockState) → (try_hse_pll dead s).0 ≡ false
unfolding try_hse_pll
no_crystal s =
    not_ready _ _ (dead_wait Clock.startup_iteration_limit cr dead.cr_hserdy dead.cr_hserdy _ refl)

no_hsi48 : (s : ClockState) → (try_hsi48 dead s).0 ≡ false
unfolding try_hsi48
no_hsi48 s =
    not_ready _ _
      (dead_wait Clock.startup_iteration_limit cr2 dead.cr2_hsi48rdy dead.cr2_hsi48rdy _ refl)

dead_setup : (s : ClockState) → (clock_setup dead s).0 ≡ false
unfolding clock_setup
dead_setup s = ground (arith, no_crystal s, no_hsi48 (try_hse_pll dead s).1)

not_clocked :
    (lockout : Bool) (x : Bool × FirmwareClock × ClockState) (m : Machine (List Frame))
    → x.0 ≡ false
    → (with_clock outbox ready dead lockout 7 x m).0 ≡ reset
not_clocked lockout (true, source, clock) m e = cc
not_clocked lockout (false, source, clock) m e = refl

dead-boot : (m : Machine (List Frame)) → (boot outbox ready dead 0 1234 7 m).0 ≡ reset
unfolding boot
dead-boot m = not_clocked _ (clock_setup dead m.clock) _ (dead_setup m.clock)

abbrev after_boot : DiagnosticRecord → DiagnosticRecord
after_boot r = (boot outbox ready dead 0 1234 7 (powered r)).1.system.retained

one_more :
    {n : ℕ} {r : DiagnosticRecord}
    → FailedBoots (List Frame) 1234 7 new n r
    → FailedBoots (List Frame) 1234 7 new (n + 1) (after_boot r)
one_more {r = r} h = once_more h outbox ready dead 0 (powered r) refl (dead-boot (powered r))

new_count : new.consecutive_incomplete_boots ≡ 0
unfolding new
new_count = refl

lockout_after-FailedBoots_example :
    lockout_required (begin (after_boot (after_boot (after_boot new))) 0 1234)
    ≡ leb 3 (earlier new 1234 + 3)
lockout_after-FailedBoots_example =
    lockout_after-FailedBoots (List Frame) 1234 7 new (after_boot (after_boot (after_boot new))) 3 0
      (one_more (one_more (one_more none_yet))) (omega (arith, new_count))

three_enough : (k : ℕ) → leb 3 (k + 3) ≡ true
three_enough k = ground arith

-- the next boot, with a crystal
abbrev recovered : Machine (List Frame)
recovered = powered (after_boot (after_boot (after_boot new)))

-- The lockout decides only between two phases.
lockout_runs :
    (m : Machine (List Frame))
    → (with_clock outbox ready crystal true 7
        (clock_setup crystal (powered new).clock)
        (with_board (powered new).system.board m)).0
      ≡ running
unfolding clock_setup try_hse_pll try_hsi48 Clock.poll_loop phase_state_from_millidegrees
    plan_startup make_vga_command execute_operation execute_loop vga_write phase_shifter_write
    wait_complete wait_for_status wait_loop Runtime.start make_ps_command get_optimized_phase_state
lockout_runs m = refl

recovered_locked :
    lockout_required (begin recovered.system.retained (bit_and 0 reset_flag_mask) 1234) ≡ true
recovered_locked =
    lockout_after-FailedBoots (List Frame) 1234 7 new recovered.system.retained 3
      (bit_and 0 reset_flag_mask) (one_more (one_more (one_more none_yet)))
      (omega (arith, new_count))
    ∙ three_enough (earlier new 1234)

recovered_runs : (boot outbox ready crystal 0 1234 7 recovered).0 ≡ running
unfolding boot
recovered_runs =
    let m = recovered in
    ap
      (λ lockout.
        (with_clock outbox ready crystal lockout 7 (clock_setup crystal m.clock)
          (with_retained (begin m.system.retained (bit_and 0 reset_flag_mask) 1234) m)).0)
      recovered_locked
    ∙ lockout_runs (with_retained (begin m.system.retained (bit_and 0 reset_flag_mask) 1234) m)

FailedBoots-HoldsSafe_example :
    HoldsSafe unset_chips
      (serve_frame outbox ready request (boot outbox ready crystal 0 1234 7 recovered).1.system)
FailedBoots-HoldsSafe_example =
    FailedBoots-HoldsSafe outbox ready crystal 7 unset_chips 0 1234 3 new recovered
      (serve_frame outbox ready request (boot outbox ready crystal 0 1234 7 recovered).1.system)
      (one_more (one_more (one_more none_yet))) (omega arith) (omega (arith, new_count)) refl
      recovered_runs (later here (serves request (record { eight = refl; dlc_byte = omega arith })))
