-- ===== src/Can.antt =====
-- The CAN side of the receiver firmware: stm32/app/src/can and stm32/app/include/can.
pub mod Protocol
pub mod RxQueue
pub mod TxQueue
pub mod Filter
pub mod Bus
