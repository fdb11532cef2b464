-- ===== src/Platform/SpiGuard.antt =====
-- stm32/app/src/platform/spi_guard.c and the elapsed-time test of
-- stm32/app/src/platform/timebase.c: bounded waits on a status register. The register and the
-- millisecond counter are hardware: what the n-th poll of a peripheral reads is a parameter, as
-- are the masks, which libopencm3 defines. A round of the wait reads the register for the errors
-- and then for the level, and the counter for its start and then for the time elapsed; each pair of
-- reads is one sample here.
pub mod Bounds
use beamforming_software.Prelude.{
  ℕ, zero, suc, ◌+◌, ◌-◌, ◌^◌, Bool, true, false, List, not, leb, ◌==◌, if◌then◌else◌, bit_and, u32,
}

-- `SPI_POLL_ITERATION_LIMIT`
abbrev pub poll_iteration_limit : ℕ
poll_iteration_limit = 1000000

-- `spi_guard_status_t`
pub data SpiGuardStatus : Type 0 where
  ok timeout error invalid_argument : SpiGuardStatus

-- The peripherals as the program sees them: `status_register spi n` is what the n-th poll of `spi`
-- reads, and `millis n` what the counter of milliseconds shows then.
pub record Peripherals : Type 0 where
  pub status_register : ℕ → ℕ → ℕ
  pub millis : ℕ → ℕ
  pub txe_mask : ℕ
  pub bsy_mask : ℕ
  pub error_mask : ℕ

-- `timebase_elapsed`, with the reading of the counter as an argument
abbrev pub elapsed : ℕ → ℕ → ℕ → Bool
elapsed now start_millis timeout_millis = leb timeout_millis (u32 (now + 2 ^ 32 - start_millis))

module _ (p : Peripherals) where
  abbrev pub has_error : ℕ → ℕ → Bool
  has_error spi poll = not (bit_and (p.status_register spi poll) p.error_mask == 0)

  abbrev pub is_set : ℕ → ℕ → ℕ → Bool
  is_set spi mask poll = not (bit_and (p.status_register spi poll) mask == 0)

  -- whether a reading of a bit is the one that is waited for
  abbrev pub same_level : Bool → Bool → Bool
  same_level true expected = expected
  same_level false expected = not expected

  -- The loop: the result, and the number of the next poll.
  unfoldable pub wait_loop : ℕ → ℕ → Bool → ℕ → ℕ → ℕ → ℕ → SpiGuardStatus × ℕ
  wait_loop spi mask expected_set start timeout_millis zero poll = (SpiGuardStatus.timeout, poll)
  wait_loop spi mask expected_set start timeout_millis (suc remaining) poll =
      let rest = wait_loop spi mask expected_set start timeout_millis remaining (poll + 1) in
      if has_error spi poll
      then (SpiGuardStatus.error, poll + 1)
      else if same_level (is_set spi mask poll) expected_set
      then (SpiGuardStatus.ok, poll + 1)
      else if elapsed (p.millis poll) start timeout_millis
      then (SpiGuardStatus.timeout, poll + 1)
      else rest

  unfoldable pub wait_for_status : ℕ → ℕ → Bool → ℕ → ℕ → SpiGuardStatus × ℕ
  wait_for_status spi mask expected_set timeout_millis poll =
      wait_loop spi mask expected_set (p.millis poll) timeout_millis poll_iteration_limit poll

  abbrev pub wait_txe : ℕ → ℕ → ℕ → SpiGuardStatus × ℕ
  wait_txe spi timeout_millis poll = wait_for_status spi p.txe_mask true timeout_millis poll

  abbrev pub wait_not_busy : ℕ → ℕ → ℕ → SpiGuardStatus × ℕ
  wait_not_busy spi timeout_millis poll = wait_for_status spi p.bsy_mask false timeout_millis poll

  -- `if (txe_status != SPI_GUARD_OK) return txe_status;`
  abbrev pub then_not_busy : ℕ → ℕ → SpiGuardStatus × ℕ → SpiGuardStatus × ℕ
  then_not_busy spi timeout_millis (SpiGuardStatus.ok, poll) = wait_not_busy spi timeout_millis poll
  then_not_busy spi timeout_millis (failed, poll) = (failed, poll)

  unfoldable pub wait_complete : ℕ → ℕ → ℕ → SpiGuardStatus × ℕ
  wait_complete spi timeout_millis poll =
      then_not_busy spi timeout_millis (wait_txe spi timeout_millis poll)
