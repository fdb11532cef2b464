-- ===== src/Rf/Setup/Levels.antt =====
-- What the set-up of the board leaves, and that no control line moves on the way.
use beamforming_software.Prelude.{
  ℕ, ◌+◌, ◌==◌, ◌||◌, inl, inr, Bool-cases, fun_ext, ◌≡◌, refl, sym, subst, Bool, true, false, ◌&&◌,
  not, List, [], ◌∷◌, ◌++◌, if◌then◌else◌,
}
use beamforming_software.Rf.Commands.{phase_unit_address}
use beamforming_software.Rf.Drivers.{spi1, spi2}
use beamforming_software.Platform.Pins.{
  same_port, Port, gpio_a, gpio_b, gpio_c, PinMode, input, output, alternate_function, SpiFormat,
  Call, rcc_periph_clock_enable, spi_disable, SpiAsked, Asked, spi_clock, target, make_calls,
}
use beamforming_software.Platform.Pins.Throughout.{throughout, throughout-state}
use beamforming_software.Rf.Setup.{board_setup}

-- the level at which a line rests
pub record Line : Type 0 where
  pub port : Port
  pub pin : ℕ
  pub rest : Bool

abbrev line : Port → ℕ → Bool → Line
line port pin rest = record { port = port; pin = pin; rest = rest }

-- CSb of the attenuator; LE, serial mode and OPT of the phase shifter; and its address straps: the
-- pins of docs/overview.md
abbrev pub control_lines : List Line
control_lines =
    line gpio_a 15 true
    ∷ line gpio_b 12 true
    ∷ line gpio_c 7 true
    ∷ line gpio_a 3 false
    ∷ line gpio_a 4 true
    ∷ line gpio_a 5 false
    ∷ line gpio_a 6 false
    ∷ line gpio_c 4 false
    ∷ []

abbrev pub is_output : PinMode → Bool
is_output output = true
is_output _ = false

abbrev same_level : Bool → Bool → Bool
same_level true level = level
same_level false level = not level

-- Each line rests at its level from the moment that it is an output.
abbrev pub lines_rest : List Line → Asked → Bool
lines_rest [] s = true
lines_rest (l ∷ ls) s =
    (if is_output (s.mode l.port l.pin) then same_level l.rest (s.level l.port l.pin) else true)
    && lines_rest ls s

-- A peripheral is asked for something only when its clock was, and an SPI peripheral is set up
-- only while it is off.
abbrev pub is_prepared : Asked → Call → Bool
is_prepared s (rcc_periph_clock_enable peripheral) = true
is_prepared s (spi_disable spi) = s.clocked (spi_clock spi)
is_prepared s call =
    s.clocked (target call)
    && elim (target call) [ spi_clock spi ↦ not (s.spi spi).enabled | _ ↦ true ]

abbrev pub is_orderly : Asked → Call → Bool
is_orderly s call = is_prepared s call && lines_rest control_lines s

abbrev all_outputs : List Line → Asked → Bool
all_outputs [] s = true
all_outputs (l ∷ ls) s = is_output (s.mode l.port l.pin) && all_outputs ls s

-- a strap's share of the address
abbrev strap : Asked → Port → ℕ → ℕ → ℕ
strap s port pin weight = if s.level port pin then weight else 0

-- a line of a peripheral
abbrev HasFunction : Asked → Port → ℕ → ℕ → Type 0
HasFunction s port pin af = (s.mode port pin ≡ alternate_function) × (s.function port pin ≡ af)

-- A transmit-only bus of three wires, that the chip's own line frames.
abbrev three_wire : SpiFormat → ℕ → ℕ → SpiAsked
three_wire format bits threshold = record {
  enabled = true;
  format = format;
  data_size = bits;
  threshold = threshold;
  transmit_only = true;
  software_nss = true;
  nss_high = true;
}

-- The board is ready, by the pins and functions of docs/overview.md and the formats of
-- docs/hardware-validation.md: the control lines are outputs at rest, the straps give the
-- address, the attenuator is sent bytes, its low bit first, and the phase shifter 13 bits, the
-- high bit first, both with the clock low at rest and the data sampled at its first edge.
pub record IsReady (s : Asked) : Type 0 where
  pub outputs : all_outputs control_lines s ≡ true
  pub rest : lines_rest control_lines s ≡ true
  pub address :
      (a1 a2 a3 : ℕ)
      → strap s gpio_a 4 1 + (strap s gpio_a 5 a1 + (strap s gpio_a 6 a2 + strap s gpio_c 4 a3))
        ≡ phase_unit_address
  pub vga_spi :
      s.spi spi1
      ≡ three_wire
          (record {
            baudrate_divider = 16;
            idle_high = false;
            second_edge = false;
            lsb_first = true;
          })
          8
          8
  pub phase_spi :
      s.spi spi2
      ≡ three_wire
          (record {
            baudrate_divider = 16;
            idle_high = false;
            second_edge = false;
            lsb_first = false;
          })
          13
          16
  pub vga_lines : HasFunction s gpio_b 3 0 × HasFunction s gpio_b 5 0
  pub phase_lines : HasFunction s gpio_b 13 0 × HasFunction s gpio_b 15 0
  pub can_lines : HasFunction s gpio_a 11 4 × HasFunction s gpio_a 12 4

-- Whatever was asked for before, after the set-up of the attenuator, of the phase shifter and of
-- the pins of the CAN bus, in the order of the boot, the eight control lines PA15, PB12, PC7,
-- PA3, PA4, PA5, PA6 and PC4 are asked to be outputs at their rest levels, and the address straps
-- give the address that the phase words carry, whichever weights the low straps have. SPI1 is
-- asked for 8 bits, the low one first, on PB3 and PB5 with AF0, and SPI2 for 13 bits, the high
-- one first, on PB13 and PB15 with AF0, both to transmit only, with clock polarity and phase 0
-- and an enabled peripheral. CAN is on PA11 and PA12 with AF4. No later part undoes an earlier
-- one.
pub board_setup-IsReady : (s : Asked) → IsReady (make_calls board_setup s)
board_setup-IsReady s = record {
  outputs = refl;
  rest = refl;
  address = λ a1 a2 a3. refl;
  vga_spi = refl;
  phase_spi = refl;
  vga_lines = ((refl, refl), (refl, refl));
  phase_lines = ((refl, refl), (refl, refl));
  can_lines = ((refl, refl), (refl, refl));
}

-- a pin of the lines
abbrev pub is_line : List Line → Port → ℕ → Bool
is_line [] port pin = false
is_line (l ∷ ls) port pin = same_port l.port port && l.pin == pin || is_line ls port pin

-- the modes of the other pins, and the lines as inputs
abbrev lines_input : (Port → ℕ → PinMode) → Port → ℕ → PinMode
lines_input mode port pin = if is_line control_lines port pin then input else mode port pin

orderly_from_inputs :
    (s : Asked) → throughout is_orderly board_setup (record s { mode = lines_input s.mode }) ≡ true
orderly_from_inputs s = refl

inputs-same :
    (mode : Port → ℕ → PinMode)
    → ((port : Port) (pin : ℕ) → is_line control_lines port pin ≡ true → mode port pin ≡ input)
    → (port : Port) (pin : ℕ) → lines_input mode port pin ≡ mode port pin
inputs-same mode inputs port pin = elim (Bool-cases (is_line control_lines port pin)) [
  | inl e ↦ rw e (sym (inputs port pin e))
  | inr e ↦ rw e refl
]

-- When the pins of the eight control lines are inputs, whatever the others are, then before every
-- call of the set-up: its peripheral's clock was asked for, an SPI peripheral is set up only
-- while it is off, and each control line that is an output already has its rest level, so that no
-- chip sees a line move. After a reset only PA13 and PA14, which are no control lines, are not
-- inputs.
pub board_setup-orderly :
    (s : Asked) (before after : List Call) (call : Call)
    → ((port : Port) (pin : ℕ) → is_line control_lines port pin ≡ true → s.mode port pin ≡ input)
    → board_setup ≡ before ++ call ∷ after
    → is_orderly (make_calls before s) call ≡ true
board_setup-orderly s before after call inputs e = throughout-state is_orderly before after call s (
    subst (λ calls. throughout is_orderly calls s ≡ true) e
      (subst (λ mode. throughout is_orderly board_setup (record s { mode = mode }) ≡ true)
        (fun_ext (λ port. fun_ext (inputs-same s.mode inputs port))) (orderly_from_inputs s)))
