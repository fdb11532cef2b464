-- ===== src/Platform/DiagnosticRecord/Seal.antt =====
-- Every operation leaves a record that the next boot accepts.
use beamforming_software.Prelude.{ℕ, ◌≡◌, ◌↔◌, refl, sym, arith, true}
use beamforming_software.Platform.DiagnosticRecord.{
  DiagnosticRecord, FirmwareState, FirmwareClock, FirmwareFault, diagnostic_magic,
  diagnostic_version, checksum_of, seal, new, is_valid, boot_base, stamp_boot, begin_boot,
  set_state, set_clock, set_commands, set_fault, mark_healthy,
}

-- The record has the magic number, the version and the checksum of its other fields.
pub record IsSealed (r : DiagnosticRecord) : Type 0 where
  pub magic_right : r.magic ≡ diagnostic_magic
  pub version_right : r.version ≡ diagnostic_version
  pub checksum_right : r.checksum ≡ checksum_of r

pub is_valid-IsSealed : (r : DiagnosticRecord) → (is_valid r ≡ true) ↔ IsSealed r
unfolding is_valid
is_valid-IsSealed r = (λ h. ground arith, λ h. ground arith)

-- The checksum does not read its own field.
checksum_of-seal : (r : DiagnosticRecord) → checksum_of (seal r) ≡ checksum_of r
unfolding checksum_of
checksum_of-seal r = refl

pub seal-is_valid :
    (r : DiagnosticRecord)
    → r.magic ≡ diagnostic_magic
    → r.version ≡ diagnostic_version
    → is_valid (seal r) ≡ true
seal-is_valid r m v =
    (is_valid-IsSealed (seal r)).1
      (record { magic_right = m; version_right = v; checksum_right = sym (checksum_of-seal r) })

-- The operations that change a record within a boot.
pub data Update : Type 0 where
  to_state : FirmwareState → Update
  to_clock : FirmwareClock → Update
  to_commands : ℕ → ℕ → Update
  to_fault : FirmwareFault → Update
  to_healthy : Update

unfoldable pub update : DiagnosticRecord → Update → DiagnosticRecord
update r (to_state s) = set_state r s
update r (to_clock c) = set_clock r c
update r (to_commands p v) = set_commands r p v
update r (to_fault f) = set_fault r f
update r to_healthy = mark_healthy r

pub update-is_valid :
    (r : DiagnosticRecord) (u : Update) → is_valid r ≡ true → is_valid (update r u) ≡ true
unfolding update set_state set_clock set_commands set_fault mark_healthy
update-is_valid r u h =
    let sealed = (is_valid-IsSealed r).0 h in go u sealed.magic_right sealed.version_right
  where
    go :
        (u : Update)
        → r.magic ≡ diagnostic_magic
        → r.version ≡ diagnostic_version
        → is_valid (update r u) ≡ true
    go (to_state s) m v = seal-is_valid _ m v
    go (to_clock c) m v = seal-is_valid _ m v
    go (to_commands p q) m v = seal-is_valid _ m v
    go (to_fault f) m v = seal-is_valid _ m v
    go to_healthy m v = seal-is_valid _ m v

boot_base-header :
    (r : DiagnosticRecord) (build : ℕ)
    → ((boot_base r build).magic ≡ diagnostic_magic)
      × ((boot_base r build).version ≡ diagnostic_version)
unfolding new is_valid
boot_base-header r build = ground arith

pub begin_boot-is_valid :
    (r : DiagnosticRecord) (flags build : ℕ) → is_valid (begin_boot r flags build) ≡ true
unfolding begin_boot
begin_boot-is_valid r flags build =
    let (m, v) = boot_base-header r build in
    seal-is_valid (stamp_boot (boot_base r build) flags build) m v

pub new-is_valid : is_valid new ≡ true
unfolding new
new-is_valid = seal-is_valid _ refl refl

-- A new record is valid, every update of a valid record is valid, and the start of a boot makes a
-- valid record whatever the memory held.
pub is_valid-always :
    (r : DiagnosticRecord) (u : Update) (flags build : ℕ)
    → (is_valid new ≡ true)
      × (is_valid r ≡ true → is_valid (update r u) ≡ true)
      × (is_valid (begin_boot r flags build) ≡ true)
is_valid-always r u flags build =
    (new-is_valid, update-is_valid r u, begin_boot-is_valid r flags build)
