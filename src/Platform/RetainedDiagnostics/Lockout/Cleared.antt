-- ===== src/Platform/RetainedDiagnostics/Lockout/Cleared.antt =====
-- A boot that gets healthy clears the count, whatever comes after it.
use beamforming_software.Prelude.{
  ℕ, ◌+◌, ◌≤◌, ◌≡◌, inl, inr, refl, arith, false, List, [], ◌∷◌, length, uint8_max,
}
use beamforming_software.Platform.DiagnosticRecord
use beamforming_software.Platform.DiagnosticRecord.{DiagnosticRecord, new, is_valid, should_lockout}
use beamforming_software.Platform.DiagnosticRecord.Seal.{
  Update, to_state, to_clock, to_commands, to_fault, to_healthy,
}
use beamforming_software.Platform.DiagnosticRecord.Boots.{begin_boot_lem}
use beamforming_software.Platform.RetainedDiagnostics.{
  valid_record, begin, lockout_required, set_state, set_clock, set_commands, set_fault,
  mark_healthy,
}
use beamforming_software.Platform.RetainedDiagnostics.Lockout.{Session, retain, retain_all, run}

abbrev incomplete : DiagnosticRecord → ℕ
incomplete m = m.consecutive_incomplete_boots

valid_record-le : (m : DiagnosticRecord) → incomplete (valid_record m) ≤ incomplete m
unfolding valid_record new
valid_record-le m = ground arith

-- no update counts
retain-le : (m : DiagnosticRecord) (u : Update) → incomplete (retain m u) ≤ incomplete m
unfolding retain set_state set_clock set_commands set_fault mark_healthy DiagnosticRecord.set_state
    DiagnosticRecord.set_clock DiagnosticRecord.set_commands DiagnosticRecord.set_fault
    DiagnosticRecord.mark_healthy
retain-le m (to_state s) = valid_record-le m
retain-le m (to_clock c) = valid_record-le m
retain-le m (to_commands p v) = valid_record-le m
retain-le m (to_fault f) = valid_record-le m
retain-le m to_healthy = omega arith

retain_all-le :
    (m : DiagnosticRecord) (us : List Update) → incomplete (retain_all m us) ≤ incomplete m
unfolding retain_all
retain_all-le m [] = omega arith
retain_all-le m (u ∷ us) = omega (arith, retain-le m u, retain_all-le (retain m u) us)

-- and a boot counts at most one
begin-le :
    (m : DiagnosticRecord) (flags build : ℕ)
    → incomplete m ≤ uint8_max
    → incomplete (begin m flags build) ≤ incomplete m + 1
unfolding begin
begin-le m flags build h = elim (begin_boot_lem m flags build h).1 [
  | inl (_, _, (_, _, _, _, counted)) ↦ ground arith
  | inr (_, (_, _, _, _, counted)) ↦ omega arith
]

run-le :
    (m : DiagnosticRecord) (build k : ℕ) (ss : List Session)
    → incomplete m ≤ k
    → k + length ss ≤ uint8_max
    → incomplete (run m build ss) ≤ k + length ss
unfolding run
run-le m build k [] h byte = omega arith
run-le m build k (s ∷ ss) h byte =
    let m1 = begin m s.reset_flags build in
    let rest =
      run-le (retain_all m1 s.updates) build (k + 1) ss
        (omega (arith, begin-le m s.reset_flags build, retain_all-le m1 s.updates)) (omega arith) in
    omega (arith, rest)

lockout_of_few : (m : DiagnosticRecord) → incomplete m ≤ 2 → lockout_required m ≡ false
unfolding lockout_required should_lockout
lockout_of_few m h = ground arith

healthy-zero : (m : DiagnosticRecord) → incomplete (mark_healthy m) ≡ 0
unfolding mark_healthy DiagnosticRecord.mark_healthy
healthy-zero m = refl

-- Once a boot is marked healthy, whatever the memory held and whatever that boot records
-- afterwards, a fault included, the next two boots do not ask for the lockout, of whichever build
-- they are and whatever the first of them records.
pub lockout_cleared :
    (m : DiagnosticRecord) (us : List Update) (ss : List Session) (build flags : ℕ)
    → length ss ≤ 1
    → lockout_required (begin (run (retain_all (mark_healthy m) us) build ss) flags build) ≡ false
lockout_cleared m us ss build flags h =
    let left = retain_all (mark_healthy m) us in
    let none_left : incomplete left ≤ 0 =
      omega (arith, healthy-zero m, retain_all-le (mark_healthy m) us) in
    let few = run-le left build 0 ss none_left (omega arith) in
    lockout_of_few (begin (run left build ss) flags build)
      (omega (arith, begin-le (run left build ss) flags build (omega arith)))
