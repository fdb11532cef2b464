-- ===== src/Rf/Setup.antt =====
-- `f0480spisetup` of stm32/app/src/rf/vga.c and `pe448spisetup` of
-- stm32/app/src/rf/phase_shifter.c, on the pins of stm32/app/include/platform/board.h, and the
-- pins of the CAN bus, as calls.
pub mod Levels
use beamforming_software.Prelude.{ℕ, true, false, List, [], ◌∷◌, ◌++◌}
use beamforming_software.Rf.Drivers.{spi1, spi2}
use beamforming_software.Platform.Pins.{
  Port, gpio_a, gpio_b, gpio_c, port_clock, spi_clock, can_clock, output, alternate_function,
  no_pull, pull_up, SpiFormat, Call, rcc_periph_clock_enable, gpio_set, gpio_clear,
  gpio_set_output_options, gpio_mode_setup, gpio_set_af, spi_disable, spi_enable, spi_init_master,
  spi_set_data_size, spi_fifo_reception_threshold, spi_set_bidirectional_transmit_only_mode,
  spi_enable_software_slave_management, spi_set_nss_high,
}

abbrev pub can_port : Port
can_port = gpio_a

abbrev pub can_rx_pin : ℕ
can_rx_pin = 11

abbrev pub can_tx_pin : ℕ
can_tx_pin = 12

abbrev pub can_af : ℕ
can_af = 4

abbrev pub phase_le_port : Port
phase_le_port = gpio_b

abbrev pub phase_le_pin : ℕ
phase_le_pin = 12

abbrev pub phase_sp_port : Port
phase_sp_port = gpio_c

abbrev pub phase_sp_pin : ℕ
phase_sp_pin = 7

abbrev pub phase_clk_port : Port
phase_clk_port = gpio_b

abbrev pub phase_clk_pin : ℕ
phase_clk_pin = 13

abbrev pub phase_mosi_port : Port
phase_mosi_port = gpio_b

abbrev pub phase_mosi_pin : ℕ
phase_mosi_pin = 15

abbrev pub phase_af : ℕ
phase_af = 0

abbrev pub phase_opt_port : Port
phase_opt_port = gpio_a

abbrev pub phase_opt_pin : ℕ
phase_opt_pin = 3

abbrev pub phase_address_low_port_a : Port
phase_address_low_port_a = gpio_a

abbrev pub phase_address_low_pins_a : List ℕ
phase_address_low_pins_a = 5 ∷ 6 ∷ []

abbrev pub phase_address_low_port_c : Port
phase_address_low_port_c = gpio_c

abbrev pub phase_address_low_pins_c : List ℕ
phase_address_low_pins_c = 4 ∷ []

abbrev pub phase_address_a0_port : Port
phase_address_a0_port = gpio_a

abbrev pub phase_address_a0_pin : ℕ
phase_address_a0_pin = 4

abbrev pub vga_cs_port : Port
vga_cs_port = gpio_a

abbrev pub vga_cs_pin : ℕ
vga_cs_pin = 15

abbrev pub vga_clk_port : Port
vga_clk_port = gpio_b

abbrev pub vga_clk_pin : ℕ
vga_clk_pin = 3

abbrev pub vga_mosi_port : Port
vga_mosi_port = gpio_b

abbrev pub vga_mosi_pin : ℕ
vga_mosi_pin = 5

abbrev pub vga_af : ℕ
vga_af = 0

abbrev pub vga_format : SpiFormat
vga_format = record {
  baudrate_divider = 16;
  idle_high = false;
  second_edge = false;
  lsb_first = true;
}

abbrev pub phase_format : SpiFormat
phase_format = record {
  baudrate_divider = 16;
  idle_high = false;
  second_edge = false;
  lsb_first = false;
}

abbrev pub f0480spisetup : List Call
f0480spisetup =
    rcc_periph_clock_enable (spi_clock spi1)
    ∷ rcc_periph_clock_enable (port_clock gpio_a)
    ∷ rcc_periph_clock_enable (port_clock gpio_b)
    ∷ gpio_set vga_cs_port (vga_cs_pin ∷ [])
    ∷ gpio_mode_setup vga_cs_port output no_pull (vga_cs_pin ∷ [])
    ∷ gpio_set_output_options vga_cs_port (vga_cs_pin ∷ [])
    ∷ gpio_mode_setup vga_clk_port alternate_function no_pull (vga_clk_pin ∷ [])
    ∷ gpio_mode_setup vga_mosi_port alternate_function no_pull (vga_mosi_pin ∷ [])
    ∷ gpio_set_af vga_clk_port vga_af (vga_clk_pin ∷ [])
    ∷ gpio_set_af vga_mosi_port vga_af (vga_mosi_pin ∷ [])
    ∷ gpio_set_output_options vga_clk_port (vga_clk_pin ∷ vga_mosi_pin ∷ [])
    ∷ spi_disable spi1
    ∷ spi_init_master spi1 vga_format
    ∷ spi_set_data_size spi1 8
    ∷ spi_fifo_reception_threshold spi1 8
    ∷ spi_set_bidirectional_transmit_only_mode spi1
    ∷ spi_enable_software_slave_management spi1
    ∷ spi_set_nss_high spi1
    ∷ spi_enable spi1
    ∷ []

abbrev pub pe448spisetup : List Call
pe448spisetup =
    rcc_periph_clock_enable (spi_clock spi2)
    ∷ rcc_periph_clock_enable (port_clock gpio_a)
    ∷ rcc_periph_clock_enable (port_clock gpio_b)
    ∷ rcc_periph_clock_enable (port_clock gpio_c)
    ∷ gpio_clear phase_opt_port (phase_opt_pin ∷ [])
    ∷ gpio_clear phase_address_low_port_a phase_address_low_pins_a
    ∷ gpio_clear phase_address_low_port_c phase_address_low_pins_c
    ∷ gpio_set phase_address_a0_port (phase_address_a0_pin ∷ [])
    ∷ gpio_mode_setup phase_opt_port output no_pull
        (phase_opt_pin ∷ (phase_address_low_pins_a ++ phase_address_a0_pin ∷ []))
    ∷ gpio_mode_setup phase_address_low_port_c output no_pull phase_address_low_pins_c
    ∷ gpio_set phase_le_port (phase_le_pin ∷ [])
    ∷ gpio_mode_setup phase_le_port output no_pull (phase_le_pin ∷ [])
    ∷ gpio_set_output_options phase_le_port (phase_le_pin ∷ [])
    ∷ gpio_set phase_sp_port (phase_sp_pin ∷ [])
    ∷ gpio_mode_setup phase_sp_port output no_pull (phase_sp_pin ∷ [])
    ∷ gpio_set_output_options phase_sp_port (phase_sp_pin ∷ [])
    ∷ gpio_mode_setup phase_clk_port alternate_function no_pull (phase_clk_pin ∷ [])
    ∷ gpio_mode_setup phase_mosi_port alternate_function no_pull (phase_mosi_pin ∷ [])
    ∷ gpio_set_af phase_clk_port phase_af (phase_clk_pin ∷ [])
    ∷ gpio_set_af phase_mosi_port phase_af (phase_mosi_pin ∷ [])
    ∷ gpio_set_output_options phase_clk_port (phase_clk_pin ∷ phase_mosi_pin ∷ [])
    ∷ spi_disable spi2
    ∷ spi_init_master spi2 phase_format
    ∷ spi_set_data_size spi2 13
    ∷ spi_fifo_reception_threshold spi2 16
    ∷ spi_set_bidirectional_transmit_only_mode spi2
    ∷ spi_enable_software_slave_management spi2
    ∷ spi_set_nss_high spi2
    ∷ spi_enable spi2
    ∷ []

-- the pins in `can_bus_setup` of stm32/app/src/can/bus.c
abbrev pub can_bus_pins : List Call
can_bus_pins =
    rcc_periph_clock_enable (port_clock gpio_a)
    ∷ rcc_periph_clock_enable can_clock
    ∷ gpio_mode_setup can_port alternate_function pull_up (can_rx_pin ∷ can_tx_pin ∷ [])
    ∷ gpio_set_af can_port can_af (can_rx_pin ∷ can_tx_pin ∷ [])
    ∷ gpio_set_output_options can_port (can_tx_pin ∷ [])
    ∷ []

-- In the order of the boot. Between the two chips and the CAN bus the boot makes its start-up
-- writes to the chips, which set up no pin.
abbrev pub board_setup : List Call
board_setup = f0480spisetup ++ (pe448spisetup ++ can_bus_pins)
