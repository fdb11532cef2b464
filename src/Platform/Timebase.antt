-- ===== src/Platform/Timebase.antt =====
-- stm32/app/src/platform/timebase.c: the counter of milliseconds, and the test of elapsed time. The
-- SysTick timer calls `sys_tick_handler` once per period.
use beamforming_software.Prelude.{
  ℕ, zero, suc, ◌+◌, ◌-◌, ◌/◌, ◌^◌, ◌<◌, ◌≡◌, ◌∙◌, ap, arith, Bool, leb, u32,
}
use beamforming_software.Platform.SpiGuard.{elapsed}

-- `system_millis`, and the reload value of the timer
pub record Timebase : Type 0 where
  pub system_millis : ℕ
  pub reload : ℕ

unfoldable pub timebase_setup : ℕ → Timebase
timebase_setup core_clock_hz = record {
  system_millis = 0;
  reload = u32 (core_clock_hz / 1000 + 2 ^ 32 - 1);
}

abbrev pub sys_tick_handler : Timebase → Timebase
sys_tick_handler t = record t { system_millis = u32 (t.system_millis + 1) }

abbrev pub timebase_elapsed : Timebase → ℕ → ℕ → Bool
timebase_elapsed t start_millis timeout_millis = elapsed t.system_millis start_millis timeout_millis

abbrev pub ticks : ℕ → Timebase → Timebase
ticks zero t = t
ticks (suc n) t = ticks n (sys_tick_handler t)

ticks-millis :
    (n : ℕ) (t : Timebase)
    → t.system_millis < 2 ^ 32
    → (ticks n t).system_millis ≡ u32 (t.system_millis + n)
ticks-millis zero t h = omega arith
ticks-millis (suc n) t h = ticks-millis n (sys_tick_handler t) (omega arith) ∙ omega arith

-- For fewer than 2 ^ 32 ticks, a timeout counted from the reading before them has elapsed exactly
-- if they are at least as many as its milliseconds, also when the counter wraps in between.
pub timebase_elapsed-ticks :
    (t : Timebase) (n timeout_millis : ℕ)
    → t.system_millis < 2 ^ 32
    → n < 2 ^ 32
    → timebase_elapsed (ticks n t) t.system_millis timeout_millis ≡ leb timeout_millis n
timebase_elapsed-ticks t n timeout_millis h k =
    let millis = ticks-millis n t h in
    let passed : u32 ((ticks n t).system_millis + 2 ^ 32 - t.system_millis) ≡ n = omega arith in
    ap (λ (m : ℕ). leb timeout_millis m) passed
