-- ===== src/Platform.antt =====
-- The platform layer of the receiver firmware: stm32/app/src/platform and
-- stm32/app/include/platform.
pub mod DiagnosticRecord
pub mod RetainedDiagnostics
mod Tests
pub mod SpiGuard
pub mod Clock
pub mod Faults
pub mod Pins
pub mod BuildInfo
pub mod Timebase
