-- ===== src/Rf/Drivers.antt =====
-- `vga_write` of stm32/app/src/rf/vga.c and `phase_shifter_write` of
-- stm32/app/src/rf/phase_shifter.c: one guarded transfer each. The board keeps the number of status
-- polls so far and the trace of what the pins and the data registers saw, newest first.
use beamforming_software.Prelude.{ℕ, List, ◌∷◌, ltb, if◌then◌else◌}
use beamforming_software.Platform.SpiGuard.{Peripherals, SpiGuardStatus, wait_txe, wait_complete}
use beamforming_software.Rf.Commands.{phase_command_max}

pub data Event : Type 0 where
  cs_low cs_high le_low le_high margin : Event
  vga_data phase_data : ℕ → Event

pub record Board : Type 0 where
  pub polls : ℕ
  pub trace : List Event

-- what `board_control_line_margin`, `gpio_clear`, `gpio_set` and the data registers see
abbrev pub emit : Event → Board → Board
emit event board = record board { trace = event ∷ board.trace }

-- `SPI1` and `SPI2`
abbrev pub spi1 : ℕ
spi1 = 1

abbrev pub spi2 : ℕ
spi2 = 2

module _ (p : Peripherals) where
  -- the transfer complete: the end of `vga_write`
  abbrev pub vga_finish : SpiGuardStatus × ℕ → Board → SpiGuardStatus × Board
  vga_finish (SpiGuardStatus.ok, polls) board =
      (SpiGuardStatus.ok, emit margin (emit cs_high (emit margin (record board { polls = polls }))))
  vga_finish (failed, polls) board = (failed, record board { polls = polls })

  -- what `vga_write` does once the transmit buffer is empty
  abbrev pub vga_transfer : ℕ → ℕ → Board → SpiGuardStatus × Board
  vga_transfer command timeout_millis board =
      let sent = emit (vga_data command) (emit margin (emit cs_low board)) in
      vga_finish (wait_complete p spi1 timeout_millis sent.polls) sent

  abbrev pub vga_start : SpiGuardStatus × ℕ → ℕ → ℕ → Board → SpiGuardStatus × Board
  vga_start (SpiGuardStatus.ok, polls) command timeout_millis board =
      vga_transfer command timeout_millis (record board { polls = polls })
  vga_start (failed, polls) command timeout_millis board = (failed, record board { polls = polls })

  unfoldable pub vga_write : ℕ → ℕ → Board → SpiGuardStatus × Board
  vga_write command timeout_millis board =
      vga_start (wait_txe p spi1 timeout_millis board.polls) command timeout_millis board

  abbrev pub phase_finish : SpiGuardStatus × ℕ → Board → SpiGuardStatus × Board
  phase_finish (SpiGuardStatus.ok, polls) board =
      (SpiGuardStatus.ok, emit margin (emit le_high (emit margin (record board { polls = polls }))))
  phase_finish (failed, polls) board = (failed, record board { polls = polls })

  abbrev pub phase_transfer : ℕ → ℕ → Board → SpiGuardStatus × Board
  phase_transfer command timeout_millis board =
      let sent = emit (phase_data command) (emit margin (emit le_low board)) in
      phase_finish (wait_complete p spi2 timeout_millis sent.polls) sent

  abbrev pub phase_start : SpiGuardStatus × ℕ → ℕ → ℕ → Board → SpiGuardStatus × Board
  phase_start (SpiGuardStatus.ok, polls) command timeout_millis board =
      phase_transfer command timeout_millis (record board { polls = polls })
  phase_start (failed, polls) command timeout_millis board =
      (failed, record board { polls = polls })

  unfoldable pub phase_shifter_write : ℕ → ℕ → Board → SpiGuardStatus × Board
  phase_shifter_write command timeout_millis board =
      if ltb phase_command_max command
      then (SpiGuardStatus.invalid_argument, board)
      else phase_start (wait_txe p spi2 timeout_millis board.polls) command timeout_millis board
