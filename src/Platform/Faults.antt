-- ===== src/Platform/Faults.antt =====
-- stm32/app/src/platform/faults.c: each failure is recorded in the retained memory before the
-- reset. The functions do not return; a function here is what the retained record holds at the
-- reset.
pub mod Reported
use beamforming_software.Prelude.{Bool, true, false}
use beamforming_software.Platform.DiagnosticRecord.{
  DiagnosticRecord, FirmwareFault, hard_fault, clock_security, unexpected_interrupt,
}
use beamforming_software.Platform.RetainedDiagnostics

abbrev pub firmware_fail : FirmwareFault → DiagnosticRecord → DiagnosticRecord
firmware_fail fault retained = RetainedDiagnostics.set_fault retained fault

abbrev pub hard_fault_handler : DiagnosticRecord → DiagnosticRecord
hard_fault_handler retained = firmware_fail hard_fault retained

-- The flag is that of the clock security system.
abbrev pub nmi_handler : Bool → DiagnosticRecord → DiagnosticRecord
nmi_handler true retained = firmware_fail clock_security retained
nmi_handler false retained = firmware_fail unexpected_interrupt retained

abbrev pub unexpected_interrupt_handler : DiagnosticRecord → DiagnosticRecord
unexpected_interrupt_handler retained = firmware_fail unexpected_interrupt retained

-- the interrupts that `UNEXPECTED_ISR_ALIAS` gives the same handler
pub data Interrupt : Type 0 where
  wwdg_isr pvd_isr rtc_isr flash_isr rcc_isr exti0_1_isr exti2_3_isr exti4_15_isr tsc_isr
        dma1_channel1_isr dma1_channel2_3_dma2_channel1_2_isr dma1_channel4_7_dma2_channel3_5_isr
        adc_comp_isr tim1_brk_up_trg_com_isr tim1_cc_isr tim2_isr tim3_isr tim6_dac_isr tim7_isr
        tim14_isr tim15_isr tim16_isr tim17_isr i2c1_isr i2c2_isr spi1_isr spi2_isr usart1_isr
        usart2_isr usart3_4_isr usb_isr :
      Interrupt

-- What ends the program: the exceptions that have a handler here.
pub data Exception : Type 0 where
  hard_fault_exception : Exception
  non_maskable : Bool → Exception
  unexpected : Interrupt → Exception

-- the vector table's entries, by what the retained record holds at the reset
abbrev pub take_exception : Exception → DiagnosticRecord → DiagnosticRecord
take_exception hard_fault_exception retained = hard_fault_handler retained
take_exception (non_maskable css) retained = nmi_handler css retained
take_exception (unexpected interrupt) retained = unexpected_interrupt_handler retained
