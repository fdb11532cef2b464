-- ===== src/Platform/Clock.antt =====
-- stm32/app/src/platform/clock.c: the start of the 48 MHz clock, from the crystal or else from the
-- internal oscillator. The trace keeps what the program did to the clock tree and what it read,
-- newest first; what a register reads is a function of the trace before. `clock_source` is never
-- NULL.
pub mod Switch
pub mod Started
mod Tests
use beamforming_software.Prelude.{
  ℕ, zero, suc, ◌*◌, Bool, true, false, List, ◌∷◌, ◌==◌, if◌then◌else◌, bit_and,
}
use beamforming_software.Platform.DiagnosticRecord.{FirmwareClock, hse_pll, hsi48, unknown}

abbrev pub hse_clock_hz : ℕ
hse_clock_hz = 16000000

abbrev pub core_clock_hz : ℕ
core_clock_hz = 48000000

abbrev pub startup_iteration_limit : ℕ
startup_iteration_limit = 1000000

abbrev pub hse_pll_multiplier : ℕ
hse_pll_multiplier = 3

pub data Oscillator : Type 0 where
  hse pll hsi48_osc : Oscillator

-- `RCC_CR`, `RCC_CR2` and `RCC_CFGR`
pub data Register : Type 0 where
  cr cr2 cfgr : Register

-- the calls of libopencm3's `rcc_` and `flash_` functions, the register accesses, by what they do
pub data ClockEvent : Type 0 where
  osc_on osc_off sysclk : Oscillator → ClockEvent
  hpre_nodiv ppre_nodiv prefetch wait_states : ClockEvent
  pll_mul3 pll_source_hse pll_xtpre_hse : ClockEvent
  css_on css_off : ClockEvent
  polled : Register → ℕ → ClockEvent

-- libopencm3's masks, and what the registers read after a trace
pub record ClockTree : Type 0 where
  pub cr_hserdy : ℕ
  pub cr_pllrdy : ℕ
  pub cr2_hsi48rdy : ℕ
  pub cfgr_sws : ℕ
  pub cfgr_sws_pll : ℕ
  pub cfgr_sws_hsi48 : ℕ
  pub reads : Register → List ClockEvent → ℕ

-- the trace, and libopencm3's two variables
pub record ClockState : Type 0 where
  pub trace : List ClockEvent
  pub apb1_frequency : ℕ
  pub ahb_frequency : ℕ

abbrev pub does : ClockEvent → ClockState → ClockState
does event s = record s { trace = event ∷ s.trace }

module _ (t : ClockTree) where
  abbrev pub poll : Register → ClockState → ClockState
  poll reg s = does (polled reg (t.reads reg s.trace)) s

  -- The loop, on the reads that remain.
  unfoldable pub poll_loop : ℕ → Register → ℕ → ℕ → ClockState → Bool × ClockState
  poll_loop zero reg mask expected s = (false, s)
  poll_loop (suc remaining) reg mask expected s =
      let rest = poll_loop remaining reg mask expected (poll reg s) in
      if bit_and (t.reads reg s.trace) mask == expected then (true, poll reg s) else rest

  abbrev pub wait_for_register : Register → ℕ → ℕ → ClockState → Bool × ClockState
  wait_for_register reg mask expected s = poll_loop startup_iteration_limit reg mask expected s

  abbrev pub configure_48mhz_bus_and_flash : ClockState → ClockState
  configure_48mhz_bus_and_flash s =
      does wait_states (does prefetch (does ppre_nodiv (does hpre_nodiv s)))

  abbrev pub publish_48mhz_frequencies : ClockState → ClockState
  publish_48mhz_frequencies s = record s {
    apb1_frequency = core_clock_hz;
    ahb_frequency = core_clock_hz;
  }

  -- `if (!wait_for_register(...)) return false;`
  abbrev pub when_ready : Bool × ClockState → (ClockState → Bool × ClockState) → Bool × ClockState
  when_ready (true, s) next = next s
  when_ready (false, s) next = (false, s)

  abbrev pub start_pll : ClockState → ClockState
  start_pll s =
      does (osc_on pll)
        (does pll_xtpre_hse (does pll_source_hse (does pll_mul3 (configure_48mhz_bus_and_flash s))))

  unfoldable pub try_hse_pll : ClockState → Bool × ClockState
  try_hse_pll s =
      when_ready (wait_for_register cr t.cr_hserdy t.cr_hserdy (does (osc_on hse) s)) (λ s1.
        when_ready (wait_for_register cr t.cr_pllrdy t.cr_pllrdy (start_pll s1)) (λ s2.
          when_ready (wait_for_register cfgr t.cfgr_sws t.cfgr_sws_pll (does (sysclk pll) s2))
            (λ s3. (true, publish_48mhz_frequencies (does css_on s3)))))

  unfoldable pub try_hsi48 : ClockState → Bool × ClockState
  try_hsi48 s =
      when_ready (wait_for_register cr2 t.cr2_hsi48rdy t.cr2_hsi48rdy (does (osc_on hsi48_osc) s))
        (λ s1.
          when_ready
            (wait_for_register cfgr t.cfgr_sws t.cfgr_sws_hsi48
              (does (sysclk hsi48_osc) (configure_48mhz_bus_and_flash s1)))
            (λ s2. (
              true,
              publish_48mhz_frequencies (does (osc_off hse) (does (osc_off pll) (does css_off s2))),
            )))

  -- The second part is what `*clock_source` holds.
  unfoldable pub clock_setup : ClockState → Bool × FirmwareClock × ClockState
  clock_setup s =
      let (on_pll, s1) = try_hse_pll s in
      let (on_hsi48, s2) = try_hsi48 s1 in
      if on_pll
      then (true, hse_pll, s1)
      else if on_hsi48
      then (true, hsi48, s2)
      else (false, unknown, s2)
