-- ===== src/Platform/Pins.antt =====
-- The set-up code of the pins and the SPI peripherals as the sequence of the calls that it makes
-- of libopencm3, and what the calls up to a point have asked for. What the hardware makes of a
-- call is not modelled. The pins that stm32/app/include/platform/board.h names are numbers of a
-- port.
pub mod Throughout
use beamforming_software.Prelude.{
  ℕ, Bool, true, false, ◌&&◌, ◌||◌, ◌==◌, if◌then◌else◌, List, [], ◌∷◌,
}

pub data Port : Type 0 where
  gpio_a gpio_b gpio_c : Port

pub data Peripheral : Type 0 where
  port_clock : Port → Peripheral
  spi_clock : ℕ → Peripheral
  can_clock : Peripheral

pub data PinMode : Type 0 where
  input output alternate_function : PinMode

pub data Pull : Type 0 where
  no_pull pull_up : Pull

-- `spi_init_master` is given the divider, the clock's idle level and edge, and the order.
pub record SpiFormat : Type 0 where
  pub baudrate_divider : ℕ
  pub idle_high : Bool
  pub second_edge : Bool
  pub lsb_first : Bool

-- The calls. All outputs are push-pull and fast.
pub data Call : Type 0 where
  rcc_periph_clock_enable : Peripheral → Call
  gpio_set gpio_clear gpio_set_output_options : Port → List ℕ → Call
  gpio_mode_setup : Port → PinMode → Pull → List ℕ → Call
  gpio_set_af : Port → ℕ → List ℕ → Call
  spi_disable spi_enable : ℕ → Call
  spi_init_master : ℕ → SpiFormat → Call
  spi_set_data_size spi_fifo_reception_threshold : ℕ → ℕ → Call
  spi_set_bidirectional_transmit_only_mode spi_enable_software_slave_management : ℕ → Call
  spi_set_nss_high : ℕ → Call

-- what was asked of an SPI peripheral
pub record SpiAsked : Type 0 where
  pub enabled : Bool
  pub format : SpiFormat
  pub data_size : ℕ
  pub threshold : ℕ
  pub transmit_only : Bool
  pub software_nss : Bool
  pub nss_high : Bool

-- What was asked for last.
pub record Asked : Type 0 where
  pub clocked : Peripheral → Bool
  pub level : Port → ℕ → Bool
  pub mode : Port → ℕ → PinMode
  pub pull : Port → ℕ → Pull
  pub function : Port → ℕ → ℕ
  pub spi : ℕ → SpiAsked

abbrev pub same_port : Port → Port → Bool
same_port gpio_a gpio_a = true
same_port gpio_b gpio_b = true
same_port gpio_c gpio_c = true
same_port _ _ = false

abbrev same_peripheral : Peripheral → Peripheral → Bool
same_peripheral (port_clock left) (port_clock right) = same_port left right
same_peripheral (spi_clock left) (spi_clock right) = left == right
same_peripheral can_clock can_clock = true
same_peripheral _ _ = false

abbrev has : List ℕ → ℕ → Bool
has [] pin = false
has (x ∷ xs) pin = x == pin || has xs pin

-- a value at the pins of a port, and the old ones elsewhere
abbrev at_pins : {A : Type 0} → Port → List ℕ → A → (Port → ℕ → A) → Port → ℕ → A
at_pins port pins value old p n = if same_port port p && has pins n then value else old p n

abbrev at_spi : ℕ → SpiAsked → (ℕ → SpiAsked) → ℕ → SpiAsked
at_spi spi value old n = if spi == n then value else old n

-- what a call addresses
abbrev pub target : Call → Peripheral
target (rcc_periph_clock_enable peripheral) = peripheral
target (gpio_set port pins) = port_clock port
target (gpio_clear port pins) = port_clock port
target (gpio_set_output_options port pins) = port_clock port
target (gpio_mode_setup port mode pull pins) = port_clock port
target (gpio_set_af port function pins) = port_clock port
target (spi_disable spi) = spi_clock spi
target (spi_enable spi) = spi_clock spi
target (spi_init_master spi format) = spi_clock spi
target (spi_set_data_size spi bits) = spi_clock spi
target (spi_fifo_reception_threshold spi bits) = spi_clock spi
target (spi_set_bidirectional_transmit_only_mode spi) = spi_clock spi
target (spi_enable_software_slave_management spi) = spi_clock spi
target (spi_set_nss_high spi) = spi_clock spi

abbrev change_spi : ℕ → SpiAsked → Asked → Asked
change_spi spi value s = record s { spi = at_spi spi value s.spi }

abbrev pub make_call : Call → Asked → Asked
make_call (rcc_periph_clock_enable peripheral) s = record s {
  clocked = λ q. same_peripheral peripheral q || s.clocked q;
}
make_call (gpio_set port pins) s = record s { level = at_pins port pins true s.level }
make_call (gpio_clear port pins) s = record s { level = at_pins port pins false s.level }
make_call (gpio_set_output_options port pins) s = s
make_call (gpio_mode_setup port mode pull pins) s = record s {
  mode = at_pins port pins mode s.mode;
  pull = at_pins port pins pull s.pull;
}
make_call (gpio_set_af port function pins) s = record s {
  function = at_pins port pins function s.function;
}
make_call (spi_disable spi) s = change_spi spi (record (s.spi spi) { enabled = false }) s
make_call (spi_enable spi) s = change_spi spi (record (s.spi spi) { enabled = true }) s
make_call (spi_init_master spi format) s = change_spi spi (record (s.spi spi) { format = format }) s
make_call (spi_set_data_size spi bits) s =
    change_spi spi (record (s.spi spi) { data_size = bits }) s
make_call (spi_fifo_reception_threshold spi bits) s =
    change_spi spi (record (s.spi spi) { threshold = bits }) s
make_call (spi_set_bidirectional_transmit_only_mode spi) s =
    change_spi spi (record (s.spi spi) { transmit_only = true }) s
make_call (spi_enable_software_slave_management spi) s =
    change_spi spi (record (s.spi spi) { software_nss = true }) s
make_call (spi_set_nss_high spi) s = change_spi spi (record (s.spi spi) { nss_high = true }) s

-- the calls, one after the other
abbrev pub make_calls : List Call → Asked → Asked
make_calls [] s = s
make_calls (call ∷ calls) s = make_calls calls (make_call call s)
