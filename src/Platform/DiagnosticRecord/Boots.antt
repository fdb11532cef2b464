-- ===== src/Platform/DiagnosticRecord/Boots.antt =====
-- What a boot makes of the record before it, and when it asks for the safe lockout.
use beamforming_software.Prelude.{
  ℕ, ◌+◌, ◌≤◌, ◌==◌, min, if◌then◌else◌, uint8_max, ◌%◌, ◌^◌, ◌≡◌, ◌≢◌, ◌⊎◌, inl, inr, refl, arith,
  true, false, Bool-cases, ℕ_discrete,
}
use beamforming_software.Platform.DiagnosticRecord.{
  DiagnosticRecord, new, is_valid, boot_base, carry_over, begin_boot, state_value, booting,
  clock_value, unknown, fault_value, no_fault, healthy,
}

-- What a boot records in every case.
pub record IsBooting (r : DiagnosticRecord) (flags build : ℕ) : Type 0 where
  pub build_now : r.build_id ≡ build
  pub flags_now : r.reset_flags ≡ flags
  pub state_now : r.state ≡ state_value booting
  pub clock_now : r.clock_source ≡ clock_value unknown
  pub fault_now : r.current_fault ≡ fault_value no_fault

boot_base_same :
    (r : DiagnosticRecord) (build : ℕ)
    → is_valid r ≡ true
    → r.build_id ≡ build
    → boot_base r build ≡ carry_over r
boot_base_same r build h e = ground arith

boot_base_other :
    (r : DiagnosticRecord) (build : ℕ)
    → (is_valid r ≡ false) ⊎ (r.build_id ≢ build)
    → boot_base r build ≡ new
boot_base_other r build (inl h) = ground arith
boot_base_other r build (inr h) = ground arith

boot_base_fault :
    (r : DiagnosticRecord) (build : ℕ) → (boot_base r build).current_fault ≡ fault_value no_fault
unfolding new
boot_base_fault r build = ground arith

abbrev pub Carried : DiagnosticRecord → DiagnosticRecord → Type 0
Carried r b =
    (b.boot_count ≡ (r.boot_count + 1) % 2 ^ 32)
    × (b.previous_fault ≡ r.current_fault)
    × (b.last_phase_command ≡ r.last_phase_command)
    × (b.last_vga_command ≡ r.last_vga_command)
    × (b.consecutive_incomplete_boots ≡ (
        if r.state == state_value healthy
        then 0
        else min (r.consecutive_incomplete_boots + 1) uint8_max))

abbrev pub Started : DiagnosticRecord → Type 0
Started b =
    (b.boot_count ≡ 1)
    × (b.previous_fault ≡ fault_value no_fault)
    × (b.last_phase_command ≡ 0)
    × (b.last_vga_command ≡ 0)
    × (b.consecutive_incomplete_boots ≡ 0)

boot_same :
    (r : DiagnosticRecord) (flags build : ℕ)
    → is_valid r ≡ true
    → r.build_id ≡ build
    → r.consecutive_incomplete_boots ≤ uint8_max
    → Carried r (begin_boot r flags build)
unfolding begin_boot
boot_same r flags build h e byte = let base = boot_base_same r build h e in ground arith

boot_other :
    (r : DiagnosticRecord) (flags build : ℕ)
    → (is_valid r ≡ false) ⊎ (r.build_id ≢ build)
    → Started (begin_boot r flags build)
unfolding begin_boot new
boot_other r flags build h = let base = boot_base_other r build h in ground arith

-- The start of a boot, on every record that the memory may hold with a count of incomplete boots in
-- a byte. A valid record of the same build gets one more boot (modulo 2^32), its fault becomes the
-- previous one, its commands stay, and the incomplete boots are one more, up to 255, or zero if the
-- record was healthy. Any other record is replaced by the first boot of this build.
pub begin_boot_lem :
    (r : DiagnosticRecord) (flags build : ℕ)
    → r.consecutive_incomplete_boots ≤ uint8_max
    → let b = begin_boot r flags build in
      IsBooting b flags build
      × (((is_valid r ≡ true) × (r.build_id ≡ build) × Carried r b)
          ⊎ (((is_valid r ≡ false) ⊎ (r.build_id ≢ build)) × Started b))
unfolding begin_boot
begin_boot_lem r flags build byte = (
  record {
    build_now = refl;
    flags_now = refl;
    state_now = refl;
    clock_now = refl;
    fault_now = boot_base_fault r build;
  },
  elim (Bool-cases (is_valid r)) [
    | inl h ↦ elim (ℕ_discrete r.build_id build) [
      | yes e ↦ inl (h, e, boot_same r flags build h e byte)
      | no ne ↦ inr (inr ne, boot_other r flags build (inr ne))
    ]
    | inr h ↦ inr (inl h, boot_other r flags build (inl h))
  ],
)
