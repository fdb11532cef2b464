-- ===== src/Main/Tests.antt =====
-- Instances of the boot's theorems, on a bus that keeps what it is given to send.
mod Lockout
mod OnBus
use beamforming_software.Prelude.{
  length, ℕ, zero, suc, ◌+◌, ◌≡◌, ◌⊎◌, refl, ap, ◌∙◌, arith, Bool, true, false, List, [], ◌∷◌, none,
  bit_and, ◌==◌,
}
use beamforming_software.Can.Protocol.{
  Frame, Command, zero_command, set_combined, DecodeResult, to_message_type,
}
use beamforming_software.Can.Protocol.Id.{parse_id}
use beamforming_software.Can.Protocol.Decode.{decode_command, decode_fields, decode_payload}
use beamforming_software.Can.Bus as CanBus
use beamforming_software.Can.Bus.Send.{IsFull}
use beamforming_software.Runtime.Delivered.{IsReply, IsTaken}
use beamforming_software.Main.Answers.{now, always_answers}
use beamforming_software.Platform.SpiGuard.{Peripherals, wait_loop, wait_for_status, wait_complete}
use beamforming_software.Platform.DiagnosticRecord.{
  DiagnosticRecord, FirmwareClock, new, hse_pll, is_valid, begin_boot, should_lockout, checksum_of,
}
use beamforming_software.Platform.RetainedDiagnostics.{begin, lockout_required}
use beamforming_software.Platform.Clock.{
  Register, cr, cr2, cfgr, ClockTree, ClockState, clock_setup, try_hse_pll, try_hsi48,
}
use beamforming_software.Platform.Clock
use beamforming_software.Rf.Commands.{
  make_vga_command, make_ps_command, get_optimized_phase_state, phase_state_from_millidegrees,
}
use beamforming_software.Rf.Plan.{plan_startup}
use beamforming_software.Rf.Drivers.{vga_write, phase_shifter_write}
use beamforming_software.Rf.Execute.{execute_operation, execute_loop}
use beamforming_software.Rf.Execute.Latches.{Chips, chips_after, IsQuietTrace}
use beamforming_software.Runtime.{Bus, System, zero_cache}
use beamforming_software.Runtime
use beamforming_software.Main.Session.Failed.{
  FailedBoots, none_yet, once_more, lockout_after-FailedBoots,
}
use beamforming_software.Can.Filter.{filter_configure}
use beamforming_software.Can.Bus.{BusState, setup, can_isr}
use beamforming_software.Can.Bus.Mailboxes.{Mailboxes, boxes, boxes-IsBxcan, unset}
use beamforming_software.Can.Bus.Steps as BusSteps
use beamforming_software.Can.Bus.Steps.{IsSound, Reach-IsSound}
use beamforming_software.Runtime.OnBus.{bus_ops}
use beamforming_software.Main.{service_pass}
use beamforming_software.Main.Pass.{waiting, service_pass-waiting}
use beamforming_software.Main.Booted.{IsBooted}
use beamforming_software.Main.Quiet.{boot-IsBooted, always_quiet}
use beamforming_software.Main.Locked.{HoldsSafe, FailedBoots-HoldsSafe}
use beamforming_software.Runtime.{serve_frame}
use beamforming_software.Runtime.Served.{serves, here, later}
use beamforming_software.Main.{
  reset_flag_mask, Ending, running, reset, Machine, with_board, with_retained, with_clock, boot,
}

abbrev outbox : Bus (List Frame)
outbox = record {
  setup = λ node sent. (true, []);
  receive = λ sent. (none, sent);
  send = λ frame priority sent. (true, frame ∷ sent);
  rx_dropped = λ sent. 0;
  tx_dropped = λ sent. 0;
  is_bus_off = λ sent. false;
}

abbrev ready : Peripherals
ready = record {
  status_register = λ spi poll. 2;
  millis = λ poll. poll;
  txe_mask = 2;
  bsy_mask = 128;
  error_mask = 64;
}

abbrev crystal : ClockTree
crystal = record {
  cr_hserdy = 0x20000;
  cr_pllrdy = 0x2000000;
  cr2_hsi48rdy = 0x20000;
  cfgr_sws = 12;
  cfgr_sws_pll = 8;
  cfgr_sws_hsi48 = 12;
  reads = λ reg before. elim reg [ cr ↦ 0x2020000 | cr2 ↦ 0 | cfgr ↦ 8 ];
}

-- power-on, with a record in the retained memory
abbrev powered : DiagnosticRecord → Machine (List Frame)
powered retained = record {
  system = record {
    runtime = record {
      state = record { phase_state = 0; attenuation_db = 0 };
      last_phase_command = 0;
      last_vga_command = 0;
      node_id = 0;
      clock_source = hse_pll;
      safe_lockout = false;
      invalid_commands = 0;
    };
    cache = zero_cache;
    retained = retained;
    board = record { polls = 0; trace = [] };
    bus = [];
  };
  clock = record { trace = []; apb1_frequency = 8000000; ahb_frequency = 8000000 };
}

powered_runs : (boot outbox ready crystal 0 1234 7 (powered new)).0 ≡ running
unfolding boot clock_setup try_hse_pll try_hsi48 Clock.poll_loop phase_state_from_millidegrees
    plan_startup make_vga_command execute_operation execute_loop vga_write phase_shifter_write
    wait_complete wait_for_status wait_loop Runtime.start lockout_required begin begin_boot
    should_lockout is_valid new checksum_of make_ps_command get_optimized_phase_state
powered_runs = refl

-- what the chips may hold at power-on
abbrev unset_chips : Chips
unset_chips = record { phase_shift = 7; vga_shift = 9; phase_word = 11; vga_byte = 0 }

abbrev booted : System (List Frame)
booted = (boot outbox ready crystal 0 1234 7 (powered new)).1.system

-- SET_COMBINED to node 7
abbrev request : Frame
request = record {
  id = 0x04e01234;
  extended = true;
  remote = false;
  dlc = 2;
  payload = 146 ∷ 8 ∷ 0 ∷ 0 ∷ 0 ∷ 0 ∷ 0 ∷ 0 ∷ [];
}

abbrev served : System (List Frame)
served = serve_frame outbox ready request booted

always_quiet_example :
    IsQuietTrace unset_chips served.board.trace
    × ((chips_after unset_chips served.board.trace).phase_word ≡ served.runtime.last_phase_command)
    × ((chips_after unset_chips served.board.trace).vga_byte ≡ served.runtime.last_vga_command)
always_quiet_example =
    always_quiet outbox ready crystal 7 unset_chips 0 1234 (powered new) served refl powered_runs
      (later here (serves request (record { eight = refl; dlc_byte = omega arith })))

boot-IsBooted_example :
    let r0 = begin (powered new).system.retained (bit_and 0 reset_flag_mask) 1234 in
    IsBooted unset_chips (lockout_required r0) (boot outbox ready crystal 0 1234 7 (powered new))
boot-IsBooted_example = boot-IsBooted outbox ready crystal 7 unset_chips 0 1234 (powered new) tt
