-- ===== src/Platform/RetainedDiagnostics/Lockout.antt =====
-- The safe lockout over whole histories of boots: what the memory holds after a reset decides, and
-- each boot may update it any number of times before the next reset cuts it off.
pub mod Exact
pub mod Cleared
use beamforming_software.Prelude.{
  ◌==◌, leb, if◌then◌else◌, ℕ, suc, ◌+◌, ◌≤◌, ◌≡◌, ◌≢◌, inl, inr, refl, sym, subst, ◌∙◌, ap, arith,
  true, false, List, [], ◌∷◌, length, min, uint8_max, Bool-cases,
}
use beamforming_software.Platform.DiagnosticRecord
use beamforming_software.Platform.DiagnosticRecord.{
  DiagnosticRecord, FirmwareState, healthy, state_value, is_valid, begin_boot, should_lockout,
  lockout_threshold, next_incomplete,
}
use beamforming_software.Platform.DiagnosticRecord.Seal.{
  Update, to_state, to_clock, to_commands, to_fault, to_healthy, update, update-is_valid,
  begin_boot-is_valid, new-is_valid,
}
use beamforming_software.Platform.DiagnosticRecord.Boots.{begin_boot_lem}
use beamforming_software.Platform.RetainedDiagnostics.{
  valid_record, begin, lockout_required, set_state, set_clock, set_commands, set_fault,
  mark_healthy,
}

-- The operations of the retained record, by name.
unfoldable pub retain : DiagnosticRecord → Update → DiagnosticRecord
unfolding set_state set_clock set_commands set_fault mark_healthy
retain m (to_state s) = set_state m s
retain m (to_clock c) = set_clock m c
retain m (to_commands p v) = set_commands m p v
retain m (to_fault f) = set_fault m f
retain m to_healthy = mark_healthy m

unfoldable pub retain_all : DiagnosticRecord → List Update → DiagnosticRecord
retain_all m [] = m
retain_all m (u ∷ us) = retain_all (retain m u) us

-- One boot: its reset flags, and its updates up to the next reset.
pub record Session : Type 0 where
  pub reset_flags : ℕ
  pub updates : List Update

unfoldable pub run : DiagnosticRecord → ℕ → List Session → DiagnosticRecord
run m build [] = m
run m build (s ∷ ss) = run (retain_all (begin m s.reset_flags build) s.updates) build ss

valid_record-same : (m : DiagnosticRecord) → is_valid m ≡ true → valid_record m ≡ m
unfolding valid_record
valid_record-same m h = ground arith

valid_record-is_valid : (m : DiagnosticRecord) → is_valid (valid_record m) ≡ true
unfolding valid_record
valid_record-is_valid m = elim (Bool-cases (is_valid m)) [
  | inl h ↦ rw h h
  | inr h ↦ rw h new-is_valid
]

-- The retained operations are the record's own, on the record that was found valid.
retain-update : (m : DiagnosticRecord) (u : Update) → retain m u ≡ update (valid_record m) u
unfolding retain update
retain-update m (to_state s) = refl
retain-update m _ = refl

-- No update of the list makes the record healthy.
abbrev pub NeverHealthy : List Update → Type 0
NeverHealthy [] = Unit {0}
NeverHealthy (to_state s ∷ us) = (s ≢ healthy) × NeverHealthy us
NeverHealthy (to_healthy ∷ us) = ⊥
NeverHealthy (_ ∷ us) = NeverHealthy us

abbrev pub AllIncomplete : List Session → Type 0
AllIncomplete [] = Unit {0}
AllIncomplete (s ∷ ss) = NeverHealthy s.updates × AllIncomplete ss

-- A valid record of a build that is not healthy, with its count of incomplete boots.
pub record IsIncomplete (m : DiagnosticRecord) (build count : ℕ) : Type 0 where
  pub valid : is_valid m ≡ true
  pub same_build : m.build_id ≡ build
  pub not_healthy : m.state ≢ state_value healthy
  pub counted : m.consecutive_incomplete_boots ≡ count
  pub byte : count ≤ uint8_max

update-IsIncomplete :
    (m : DiagnosticRecord) (build count : ℕ) (u : Update)
    → NeverHealthy (u ∷ [])
    → IsIncomplete m build count
    → IsIncomplete (update m u) build count
unfolding update DiagnosticRecord.set_state DiagnosticRecord.set_clock DiagnosticRecord.set_commands
    DiagnosticRecord.set_fault
update-IsIncomplete m build count u h i = record {
  valid = update-is_valid m u i.valid;
  same_build = build_kept u h;
  not_healthy = state_kept u h;
  counted = count_kept u h;
  byte = i.byte;
}
  where
    build_kept : (u : Update) → NeverHealthy (u ∷ []) → (update m u).build_id ≡ build
    build_kept to_healthy h = absurd h
    build_kept (to_state s) h = i.same_build
    build_kept _ h = i.same_build

    state_kept : (u : Update) → NeverHealthy (u ∷ []) → (update m u).state ≢ state_value healthy
    state_kept to_healthy h = absurd h
    state_kept (to_state s) h = λ e. h.0 (ground arith)
    state_kept (to_fault f) h = λ e. absurd (omega arith)
    state_kept _ h = i.not_healthy

    count_kept :
        (u : Update) → NeverHealthy (u ∷ []) → (update m u).consecutive_incomplete_boots ≡ count
    count_kept to_healthy h = absurd h
    count_kept (to_state s) h = i.counted
    count_kept _ h = i.counted

NeverHealthy-cons :
    (u : Update) (us : List Update)
    → NeverHealthy (u ∷ us)
    → NeverHealthy (u ∷ []) × NeverHealthy us
NeverHealthy-cons to_healthy us h = absurd h
NeverHealthy-cons (to_state s) us h = ((h.0, tt), h.1)
NeverHealthy-cons _ us h = (tt, h)

pub retain_all-IsIncomplete :
    (m : DiagnosticRecord) (build count : ℕ) (us : List Update)
    → NeverHealthy us
    → IsIncomplete m build count
    → IsIncomplete (retain_all m us) build count
unfolding retain_all
retain_all-IsIncomplete m build count [] h i = i
retain_all-IsIncomplete m build count (u ∷ us) h i =
    let (first, rest) = NeverHealthy-cons u us h in
    let same : update m u ≡ retain m u =
      sym (retain-update m u ∙ ap (λ r. update r u) (valid_record-same m i.valid)) in
    retain_all-IsIncomplete (retain m u) build count us rest
      (subst (λ r. IsIncomplete r build count) same (update-IsIncomplete m build count u first i))

counted_more :
    (m : DiagnosticRecord) (build count : ℕ)
    → IsIncomplete m build count
    → (n : ℕ)
    → n ≡ (
        if m.state == state_value healthy
        then 0
        else min (m.consecutive_incomplete_boots + 1) uint8_max)
    → n ≡ min (count + 1) uint8_max
counted_more m build count i n e =
    let unhealthy = i.not_healthy in let counted = i.counted in ground arith

-- A boot on such a record counts one more, up to 255.
pub begin-IsIncomplete :
    (m : DiagnosticRecord) (flags build count : ℕ)
    → IsIncomplete m build count
    → IsIncomplete (begin m flags build) build (min (count + 1) uint8_max)
unfolding begin
begin-IsIncomplete m flags build count i =
    let (now, cases) = begin_boot_lem m flags build (omega (arith, i.counted, i.byte)) in
    record {
      valid = begin_boot-is_valid m flags build;
      same_build = now.build_now;
      not_healthy = λ e. absurd (omega (arith, now.state_now));
      counted = elim cases [
        | inl (_, _, (_, _, _, _, now_counted)) ↦ counted_more m build count i _ now_counted
        | inr (inl bad, _) ↦ cc (i.valid)
        | inr (inr other, _) ↦ absurd (other i.same_build)
      ];
      byte = omega arith;
    }

pub run-IsIncomplete :
    (m : DiagnosticRecord) (build count : ℕ) (ss : List Session)
    → AllIncomplete ss
    → IsIncomplete m build count
    → IsIncomplete (run m build ss) build (min (count + length ss) uint8_max)
unfolding run
run-IsIncomplete m build count [] h i =
    let same : min (count + 0) uint8_max ≡ count = omega (arith, i.byte) in rw same i
run-IsIncomplete m build count (s ∷ ss) (first, rest) i =
    let next : ℕ = min (count + 1) uint8_max in
    let same : min (next + length ss) uint8_max ≡ min (count + suc (length ss)) uint8_max =
      omega arith in
    rw (← same) (
      run-IsIncomplete (retain_all (begin m s.reset_flags build) s.updates) build next ss rest (
        retain_all-IsIncomplete (begin m s.reset_flags build) build next s.updates first
          (begin-IsIncomplete m s.reset_flags build count i)))

pub lockout_of_count :
    (m : DiagnosticRecord) (build count : ℕ)
    → IsIncomplete m build count
    → lockout_required m ≡ leb 3 count
unfolding lockout_required should_lockout
lockout_of_count m build count i = ground arith
