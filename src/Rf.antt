-- ===== src/Rf.antt =====
-- The RF side of the receiver firmware: stm32/app/src/rf and stm32/app/include/rf.
pub mod PhaseStates
pub mod Commands
pub mod Plan
mod Tests
pub mod Drivers
pub mod Setup
pub mod Execute
