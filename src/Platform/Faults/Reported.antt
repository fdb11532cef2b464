-- ===== src/Platform/Faults/Reported.antt =====
-- An exception is reported by the next boot.
use beamforming_software.Prelude.{
  ◌==◌, ℕ, ◌+◌, ◌≤◌, ◌≡◌, inl, inr, refl, sym, ◌∙◌, subst, arith, true, false, min, uint8_max, u16,
}
use beamforming_software.Platform.DiagnosticRecord.{
  DiagnosticRecord, FirmwareFault, hard_fault, clock_security, unexpected_interrupt, fault_value,
  is_valid, begin_boot, state_value, healthy, set_fault,
}
use beamforming_software.Platform.DiagnosticRecord.Seal.{to_fault, update, update-is_valid}
use beamforming_software.Platform.DiagnosticRecord.Boots.{begin_boot_lem}
use beamforming_software.Platform.RetainedDiagnostics
use beamforming_software.Platform.RetainedDiagnostics.{begin, valid_record}
use beamforming_software.Platform.Faults.{
  Exception, hard_fault_exception, non_maskable, unexpected, firmware_fail, take_exception,
}

-- the fault that each exception stands for
abbrev pub cause_of : Exception → FirmwareFault
cause_of hard_fault_exception = hard_fault
cause_of (non_maskable true) = clock_security
cause_of (non_maskable false) = unexpected_interrupt
cause_of (unexpected interrupt) = unexpected_interrupt

take_exception-fail :
    (e : Exception) (r : DiagnosticRecord) → take_exception e r ≡ firmware_fail (cause_of e) r
take_exception-fail hard_fault_exception r = refl
take_exception-fail (non_maskable true) r = refl
take_exception-fail (non_maskable false) r = refl
take_exception-fail (unexpected interrupt) r = refl

-- What a failure leaves, and what the next boot of the build makes of it.
pub record IsReported (cause : FirmwareFault) (r left next : DiagnosticRecord) : Type 0 where
  pub valid : is_valid left ≡ true
  pub previous : next.previous_fault ≡ fault_value cause
  pub same_phase : next.last_phase_command ≡ r.last_phase_command
  pub same_vga : next.last_vga_command ≡ r.last_vga_command
  pub incomplete :
      next.consecutive_incomplete_boots ≡ min (r.consecutive_incomplete_boots + 1) uint8_max

record IsFault (cause : FirmwareFault) (r left : DiagnosticRecord) : Type 0 where
  valid : is_valid left ≡ true
  build : left.build_id ≡ r.build_id
  fault : left.current_fault ≡ fault_value cause
  phase : left.last_phase_command ≡ r.last_phase_command
  vga : left.last_vga_command ≡ r.last_vga_command
  unhealthy : (left.state == state_value healthy) ≡ false
  count : left.consecutive_incomplete_boots ≡ r.consecutive_incomplete_boots

fault_value-u16 : (cause : FirmwareFault) → u16 (fault_value cause) ≡ fault_value cause
fault_value-u16 cause = ground arith

set_fault-IsFault :
    (cause : FirmwareFault) (r : DiagnosticRecord)
    → is_valid r ≡ true
    → r.consecutive_incomplete_boots ≤ uint8_max
    → IsFault cause r (set_fault r cause)
unfolding set_fault update
set_fault-IsFault cause r v h = record {
  valid = update-is_valid r (to_fault cause) v;
  build = refl;
  fault = fault_value-u16 cause;
  phase = refl;
  vga = refl;
  unhealthy = refl;
  count = refl;
}

retained-set_fault :
    (cause : FirmwareFault) (r : DiagnosticRecord)
    → is_valid r ≡ true
    → RetainedDiagnostics.set_fault r cause ≡ set_fault r cause
unfolding RetainedDiagnostics.set_fault valid_record
retained-set_fault cause r v = rw v refl

fault-IsReported :
    (cause : FirmwareFault) (r left : DiagnosticRecord) (flags : ℕ)
    → IsFault cause r left
    → r.consecutive_incomplete_boots ≤ uint8_max
    → IsReported cause r left (begin_boot left flags r.build_id)
fault-IsReported cause r left flags i h =
    let (_, base) = begin_boot_lem left flags r.build_id (omega (arith, i.count)) in
    elim base [
      | inl (_, _, (count, previous, phase, vga, incomplete)) ↦ record {
        valid = i.valid;
        previous = previous ∙ i.fault;
        same_phase = phase ∙ i.phase;
        same_vga = vga ∙ i.vga;
        incomplete = (let unhealthy = i.unhealthy in let same = i.count in ground arith);
      }
      | inr (inl broken, _) ↦ absurd (let valid = i.valid in cc)
      | inr (inr other, _) ↦ absurd (other i.build)
    ]

-- Every exception, the interrupts without a handler of their own included, that comes while the
-- retained record is valid with a count of boots in a byte leaves a valid record. The next boot
-- of the same build reports the exception's fault as the previous one, keeps the last commands,
-- and counts one more incomplete boot, up to 255.
pub take_exception-IsReported :
    (e : Exception) (r : DiagnosticRecord) (flags : ℕ)
    → is_valid r ≡ true
    → r.consecutive_incomplete_boots ≤ uint8_max
    → let left = take_exception e r in IsReported (cause_of e) r left (begin left flags r.build_id)
unfolding begin
take_exception-IsReported e r flags v h =
    let same : take_exception e r ≡ set_fault r (cause_of e) =
      take_exception-fail e r ∙ retained-set_fault (cause_of e) r v in
    subst (λ left. IsReported (cause_of e) r left (begin_boot left flags r.build_id)) (sym same)
      (fault-IsReported (cause_of e) r (set_fault r (cause_of e)) flags
        (set_fault-IsFault (cause_of e) r v h) h)
