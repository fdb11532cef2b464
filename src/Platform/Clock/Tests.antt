-- ===== src/Platform/Clock/Tests.antt =====
-- An instance of the clock's theorem, on a crystal that is ready at once.
use beamforming_software.Prelude.{◌+◌, ◌≤◌, ◌≡◌, ◌⊎◌, true, false, [], length}
use beamforming_software.Platform.DiagnosticRecord.{hse_pll, hsi48, unknown}
use beamforming_software.Platform.Clock.{
  core_clock_hz, cr, cr2, cfgr, ClockTree, ClockState, clock_setup,
}
use beamforming_software.Platform.Clock.Switch.{Seen, IsSafeSwitch}
use beamforming_software.Platform.Clock.Started.{clock_setup-IsSafeSwitch}

abbrev crystal : ClockTree
crystal = record {
  cr_hserdy = 0x20000;
  cr_pllrdy = 0x2000000;
  cr2_hsi48rdy = 0x20000;
  cfgr_sws = 12;
  cfgr_sws_pll = 8;
  cfgr_sws_hsi48 = 12;
  reads = λ reg before. elim reg [ cr ↦ 0x2020000 | cr2 ↦ 0 | cfgr ↦ 8 ];
}

abbrev at_reset : ClockState
at_reset = record { trace = []; apb1_frequency = 8000000; ahb_frequency = 8000000 }

clock_setup-IsSafeSwitch_example :
    let (started, source, s') = clock_setup crystal at_reset in
    IsSafeSwitch crystal s'.trace
    × (length s'.trace ≤ length at_reset.trace + 5000040)
    × (((started ≡ true)
          × (s'.apb1_frequency ≡ core_clock_hz)
          × (s'.ahb_frequency ≡ core_clock_hz)
          × (((source ≡ hse_pll) × Seen crystal cfgr crystal.cfgr_sws crystal.cfgr_sws_pll s'.trace)
              ⊎ ((source ≡ hsi48)
                  × Seen crystal cfgr crystal.cfgr_sws crystal.cfgr_sws_hsi48 s'.trace)))
        ⊎ ((started ≡ false)
            × (source ≡ unknown)
            × (s'.apb1_frequency ≡ at_reset.apb1_frequency)
            × (s'.ahb_frequency ≡ at_reset.ahb_frequency)))
clock_setup-IsSafeSwitch_example = clock_setup-IsSafeSwitch crystal at_reset tt
