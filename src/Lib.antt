-- ===== src/Lib.antt =====
-- BeamControl: the STM32 firmware of a beamforming receiver board (stm32/app). A controller sends
-- commands over CAN; the board decodes them, plans writes to a phase shifter and an attenuator,
-- and answers. A record in memory that survives a reset decides on a safe lockout.
--
-- The parts and where they are modelled:
-- - Prelude: Boolean tests, arrays of a fixed size, words of 8, 16 and 32 bits, and lemmas on
--   bits.
-- - Can.Protocol (stm32/app/src/can/protocol.c, stm32/app/include/can/protocol.h): identifiers in
--   Can/Protocol/Id, `can_protocol_decode_command` in Decode, the responses in Encode. The child
--   modules Laws hold the proofs.
-- - Can.RxQueue (stm32/app/src/can/rx_queue.c): the ring from the receive interrupt to the main
--   loop. Refine relates it to a FIFO; Race takes `can_rx_queue_pop` apart at its volatile
--   accesses and lets the interrupt run in the gaps.
-- - Can.TxQueue (stm32/app/src/can/tx_queue.c): the bounded queue of responses with priorities;
--   Contents, Select and Evict hold the proofs for its operations, and Order those for the order
--   in which its frames leave.
-- - Rf.PhaseStates and Rf.Commands (stm32/app/include/rf/phase_states_2_4ghz.h,
--   stm32/app/src/rf/commands.c): the calibration table and the serial words. Serial and Degrees
--   hold the proofs.
-- - Rf.Plan (stm32/app/src/rf/plan.c): which writes a decoded command takes. Safety runs a plan on
--   the two devices, each of which is the last word written to it; Startup is about the boot plan.
-- - Platform.SpiGuard (stm32/app/src/platform/spi_guard.c): bounded waits on a status register,
--   whose samples are a parameter. The loop recurs on the polls left, of a million. Bounds says
--   when a wait ends.
-- - Rf.Drivers (`vga_write` of stm32/app/src/rf/vga.c, `phase_shifter_write` of
--   stm32/app/src/rf/phase_shifter.c): one guarded transfer each, as a trace of pins and data.
-- - Rf.Setup (`f0480spisetup`, `pe448spisetup` of the same files, and the pins of `can_bus_setup`
--   of stm32/app/src/can/bus.c, on stm32/app/include/platform/board.h): sequences of calls of
--   libopencm3. Platform.Pins keeps what the calls have asked for; Levels is about the levels on
--   the way.
-- - Rf.Execute (stm32/app/src/rf/execute.c): a plan executed up to its first fault. Prefix says
--   what it leaves behind, Latches what the two chips latch of the trace, and Timing how long it
--   waits.
-- - Can.Filter (stm32/app/src/can/filter.c): the two acceptance filters. Accept describes the
--   frames that they pass, with the match of the peripheral as a hypothesis; Decode relates them
--   to the decoder.
-- - Can.Bus (stm32/app/src/can/bus.c): the queues joined to the CAN peripheral, which is a record
--   of functions on a state. Laws states what the proofs rely on of it. Drain, Send and Interrupt
--   hold the proofs for the operations; Steps and Delivery are about histories of them.
-- - Runtime (stm32/app/src/can/runtime.c): the start, and the service of one frame with the replay
--   cache (in Replay), the lockout and the responses. The bus is an interface, which OnBus fills
--   with Can.Bus. Quiet says which frames may write to the devices, Retry is about the cache,
--   Answer about the responses, SendsOnce about what reaches the bus, and Guarded and Served about
--   the chips through histories of services. Reply, Contract and Refused hold the node's part of
--   docs/can-protocol.md against the service of a frame; Contract.Cached is about the replay
--   cache, and Contract.Broadcast about broadcasts. Locked is about the safe lockout through
--   histories, and Delivered about the answers on the bus driver. Timing bounds the waits of a
--   service, with the time of the n-th poll as a parameter.
-- - Platform.Clock (stm32/app/src/platform/clock.c): the start of the clock as a trace of
--   accesses. Its waits recur on the reads left, of a million. Switch and Started hold the proofs.
-- - Platform.Timebase (stm32/app/src/platform/timebase.c): the counter of milliseconds and the
--   test of elapsed time.
-- - Platform.Faults (stm32/app/src/platform/faults.c) and Platform.BuildInfo
--   (stm32/app/src/platform/build_info.c): the failure handlers with the vector table, and the
--   build id.
-- - Main (stm32/app/src/main.c): the boot sequence, with its three endings. Session relates it to
--   the retained record; Startup, Booted and Quiet to the two chips; Pass is about one pass of the
--   service loop, whose rounds are one more than the frames that wait. Locked follows a boot of
--   the safe lockout through its services; Serving and Answers follow a boot to the answers in the
--   mailboxes.
-- - Platform.DiagnosticRecord (stm32/app/src/platform/diagnostic_record.c) and
--   Platform.RetainedDiagnostics (stm32/app/src/platform/retained_diagnostics.c): the record with
--   its checksum, its boots, and histories of boots in Lockout; Lockout.Exact and Lockout.Cleared
--   say when a boot asks for the safe lockout.
--
-- How the parts interact: the interrupt pushes frames into the receive ring; the main loop pops
-- one, decodes it, plans it from the current state, executes the plan and sends a response, which
-- waits in the transmit queue for a mailbox; the boot sequence begins a record, asks for the
-- lockout and marks the record healthy at the end.
--
-- Conventions. Numbers are natural numbers, with each conversion to 8, 16 or 32 bits written out.
-- A C array is a list of its length, and reads beyond it give the zero value. A structure that C
-- changes through a pointer is an argument and a part of the result, so what a refused call leaves
-- in it is modelled. Pointers are never NULL; every caller in the program passes the address of an
-- object. Loops recur on the number of rounds, which the code bounds by `count`, a constant or the
-- frames that are pending; where the bound is not the code's own, a result states that it is
-- enough. What C's types guarantee of an argument, such as a node number below 256, is a
-- hypothesis where a proof uses it.
--
-- Not modelled: what the registers make of the calls that set up the pins and the SPI peripherals,
-- and the watchdog, which are libopencm3, so that the trace of the devices begins after their
-- set-up; the endless repetition of main's loops; frames that arrive while the interrupt handler
-- empties the receive FIFO, which its next run takes; how the interrupts are routed to their
-- handlers, which is the linker's work; the controller on the Raspberry Pi, the tools and the
-- simulation, which are other programs.
pub mod Prelude
pub mod Can
pub mod Rf
pub mod Platform
pub mod Runtime
pub mod Main
