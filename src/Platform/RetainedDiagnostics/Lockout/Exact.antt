-- ===== src/Platform/RetainedDiagnostics/Lockout/Exact.antt =====
-- When a boot asks for the safe lockout, exactly: the count after a run of incomplete boots.
use beamforming_software.Prelude.{
  ℕ, suc, ◌+◌, ◌≤◌, ◌≡◌, inl, inr, subst, ◌∙◌, arith, ◌==◌, ◌&&◌, not, leb, if◌then◌else◌, List, [],
  ◌∷◌, length, min, uint8_max,
}
use beamforming_software.Platform.DiagnosticRecord.{
  DiagnosticRecord, healthy, state_value, is_valid,
}
use beamforming_software.Platform.DiagnosticRecord.Seal.{begin_boot-is_valid}
use beamforming_software.Platform.DiagnosticRecord.Boots.{begin_boot_lem}
use beamforming_software.Platform.RetainedDiagnostics.{begin, lockout_required}
use beamforming_software.Platform.RetainedDiagnostics.Lockout.{
  Session, retain_all, run, AllIncomplete, IsIncomplete, retain_all-IsIncomplete,
  begin-IsIncomplete, run-IsIncomplete, lockout_of_count,
}

-- The boots in a row that the memory before a boot shows as incomplete: those that a valid record
-- of the build counts and the one that left it, unless that one got healthy; and none otherwise.
abbrev pub earlier : DiagnosticRecord → ℕ → ℕ
earlier r build =
    if is_valid r && (r.build_id == build && not (r.state == state_value healthy))
    then r.consecutive_incomplete_boots + 1
    else 0

begin-first :
    (r : DiagnosticRecord) (flags build : ℕ)
    → r.consecutive_incomplete_boots ≤ uint8_max
    → IsIncomplete (begin r flags build) build (min (earlier r build) uint8_max)
unfolding begin
begin-first r flags build h =
    let (now, cases) = begin_boot_lem r flags build h in
    record {
      valid = begin_boot-is_valid r flags build;
      same_build = now.build_now;
      not_healthy = λ e. absurd (omega (arith, now.state_now));
      counted = elim cases [
        | inl (valid, same, (_, _, _, _, counted)) ↦ ground arith
        | inr (inl broken, (_, _, _, _, counted)) ↦ ground arith
        | inr (inr other, (_, _, _, _, counted)) ↦ ground arith
      ];
      byte = omega arith;
    }

begin-after :
    (r : DiagnosticRecord) (ss : List Session) (flags build : ℕ)
    → r.consecutive_incomplete_boots ≤ uint8_max
    → AllIncomplete ss
    → IsIncomplete
        (begin (run r build ss) flags build)
        build
        (min (earlier r build + length ss) uint8_max)
unfolding run
begin-after r [] flags build h i =
    let same : min (earlier r build + 0) uint8_max ≡ min (earlier r build) uint8_max =
      omega arith in
    rw same (begin-first r flags build h)
begin-after r (s ∷ ss) flags build h (first, rest) =
    let n : ℕ = min (earlier r build) uint8_max in
    let m = retain_all (begin r s.reset_flags build) s.updates in
    let started =
      retain_all-IsIncomplete (begin r s.reset_flags build) build n s.updates first
        (begin-first r s.reset_flags build h) in
    let count : ℕ = min (n + length ss) uint8_max in
    let same : min (count + 1) uint8_max ≡ min (earlier r build + suc (length ss)) uint8_max =
      omega arith in
    subst (IsIncomplete (begin (run m build ss) flags build) build) same (
      begin-IsIncomplete (run m build ss) flags build count
        (run-IsIncomplete m build n ss rest started))

-- After boots that all end before they get healthy, a boot of the build asks for the lockout
-- exactly if they are three or more, together with the incomplete ones that the memory showed
-- before.
pub lockout_exact :
    (r : DiagnosticRecord) (ss : List Session) (flags build : ℕ)
    → r.consecutive_incomplete_boots ≤ uint8_max
    → AllIncomplete ss
    → lockout_required (begin (run r build ss) flags build) ≡ leb 3 (earlier r build + length ss)
lockout_exact r ss flags build h i =
    let n : ℕ = earlier r build + length ss in
    let saturated : leb 3 (min n uint8_max) ≡ leb 3 n = ground arith in
    lockout_of_count (begin (run r build ss) flags build) build (min n uint8_max)
      (begin-after r ss flags build h i)
    ∙ saturated
