-- ===== src/Main/Tests/OnBus.antt =====
-- The service loop and the answers on a bus with counted mailboxes.
use beamforming_software.Prelude.{length, ℕ, suc, ◌+◌, ◌≡◌, ◌⊎◌, refl, arith, true, [], ◌==◌}
use beamforming_software.Can.Protocol.{
  Frame, Command, zero_command, set_combined, DecodeResult, to_message_type,
}
use beamforming_software.Can.Protocol.Id.{parse_id}
use beamforming_software.Can.Protocol.Decode.{decode_command, decode_fields, decode_payload}
use beamforming_software.Can.Bus as CanBus
use beamforming_software.Can.Bus.Send.{IsFull}
use beamforming_software.Runtime.Delivered.{IsReply, IsTaken}
use beamforming_software.Main.Answers.{now, always_answers}
use beamforming_software.Platform.SpiGuard.{wait_loop, wait_for_status, wait_complete}
use beamforming_software.Platform.DiagnosticRecord.{
  new, is_valid, begin_boot, should_lockout, checksum_of,
}
use beamforming_software.Platform.RetainedDiagnostics.{begin, lockout_required}
use beamforming_software.Platform.Clock.{
  Register, cr, cr2, cfgr, ClockTree, ClockState, clock_setup, try_hse_pll, try_hsi48,
}
use beamforming_software.Platform.Clock
use beamforming_software.Rf.Commands.{
  make_vga_command, make_ps_command, get_optimized_phase_state, phase_state_from_millidegrees,
}
use beamforming_software.Rf.Plan.{plan_startup}
use beamforming_software.Rf.Drivers.{vga_write, phase_shifter_write}
use beamforming_software.Rf.Execute.{execute_operation, execute_loop}
use beamforming_software.Runtime.{Bus, System, zero_cache}
use beamforming_software.Runtime
use beamforming_software.Can.Filter.{filter_configure}
use beamforming_software.Can.Bus.{BusState, setup, can_isr}
use beamforming_software.Can.Bus.Mailboxes.{Mailboxes, boxes, boxes-IsBxcan, unset}
use beamforming_software.Can.Bus.Steps as BusSteps
use beamforming_software.Can.Bus.Steps.{IsSound, Reach-IsSound}
use beamforming_software.Runtime.OnBus.{bus_ops}
use beamforming_software.Main.{service_pass}
use beamforming_software.Main.Pass.{waiting, serve_all, service_pass-waiting}
use beamforming_software.Runtime.{serve_frame}
use beamforming_software.Main.{Ending, running, Machine, boot}
use beamforming_software.Main.Tests.{ready, crystal, powered, unset_chips, booted, request}

setup_succeeds : (setup boxes 7 unset).0 ≡ true
unfolding setup filter_configure
setup_succeeds = refl

-- set up as node 7, with the frame of the FIFO received
abbrev with_frame : System (BusState Mailboxes)
with_frame = record {
  runtime = booted.runtime;
  cache = zero_cache;
  retained = new;
  board = booted.board;
  bus = can_isr boxes (setup boxes 7 unset).1;
}

with_frame-IsSound : IsSound boxes boxes-IsBxcan with_frame.bus
with_frame-IsSound =
    Reach-IsSound boxes boxes-IsBxcan
      (BusSteps.later (BusSteps.start unset setup_succeeds) BusSteps.interrupts)

service_pass-waiting_example :
    let n = length (waiting boxes boxes-IsBxcan ready with_frame.bus) in
    let (ended, services, waits, t) = service_pass (bus_ops boxes) ready (suc n) with_frame in
    (ended ≡ true)
    × (services ≡ n + 1)
    × (waits ≡ (n == 0))
    × (t
        ≡ serve_all boxes boxes-IsBxcan ready
            (waiting boxes boxes-IsBxcan ready with_frame.bus)
            with_frame)
    × (waiting boxes boxes-IsBxcan ready t.bus ≡ [])
service_pass-waiting_example =
    service_pass-waiting boxes boxes-IsBxcan ready with_frame with_frame-IsSound

-- power-on on the mailboxes
abbrev powered_bus : Machine (BusState Mailboxes)
powered_bus = record {
  system = record {
    runtime = booted.runtime;
    cache = zero_cache;
    retained = new;
    board = record { polls = 0; trace = [] };
    bus = unset;
  };
  clock = (powered new).clock;
}

abbrev on_bus : Ending × Machine (BusState Mailboxes)
on_bus = boot (bus_ops boxes) ready crystal 0 1234 7 powered_bus

powered_bus_runs : on_bus.0 ≡ running
unfolding boot clock_setup try_hse_pll try_hsi48 Clock.poll_loop phase_state_from_millidegrees
    plan_startup make_vga_command execute_operation execute_loop vga_write phase_shifter_write
    wait_complete wait_for_status wait_loop Runtime.start lockout_required begin begin_boot
    should_lockout is_valid new checksum_of make_ps_command get_optimized_phase_state setup
    filter_configure
powered_bus_runs = refl

abbrev requested : Command
requested = record {
  type = set_combined;
  destination = 7;
  source = 0;
  sequence = 0x1234;
  phase_state = 146;
  attenuation_db = 8;
}

numbered_7 : on_bus.1.system.runtime.node_id ≡ 7
unfolding boot clock_setup try_hse_pll try_hsi48 Clock.poll_loop phase_state_from_millidegrees
    plan_startup make_vga_command execute_operation execute_loop vga_write phase_shifter_write
    wait_complete wait_for_status wait_loop Runtime.start lockout_required begin begin_boot
    should_lockout is_valid new checksum_of make_ps_command get_optimized_phase_state setup
    filter_configure
numbered_7 = refl

request_decodes :
    decode_command request on_bus.1.system.runtime.node_id zero_command
    ≡ (DecodeResult.ok, requested)
unfolding decode_command decode_fields decode_payload parse_id to_message_type
request_decodes = rw numbered_7 refl

always_answers_example :
    let t = serve_frame (bus_ops boxes) ready request on_bus.1.system in
    (r : Frame) × (priority : ℕ) × IsReply on_bus.1.system.runtime.node_id requested r
    × (t.bus ≡ (CanBus.send boxes r priority on_bus.1.system.bus).1)
    × (IsFull boxes boxes-IsBxcan r priority on_bus.1.system.bus
        ⊎ IsTaken boxes boxes-IsBxcan ready unset_chips r on_bus.1.system.bus t.bus)
always_answers_example =
    always_answers boxes boxes-IsBxcan ready crystal 7 unset_chips 0 1234 powered_bus
      on_bus.1.system request requested refl powered_bus_runs now
      (record { eight = refl; dlc_byte = omega arith }) request_decodes (λ e. cc)
