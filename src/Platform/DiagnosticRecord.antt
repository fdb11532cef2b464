-- ===== src/Platform/DiagnosticRecord.antt =====
-- stm32/app/src/platform/diagnostic_record.c and its header: the sealed record that survives a
-- reset. The record pointers are never NULL. The fields hold the numbers of the enumerations, as
-- the C structure does.
pub mod Seal
pub mod Boots
use beamforming_software.Prelude.{
  ℕ, ◌+◌, ◌*◌, Bool, ◌&&◌, ltb, leb, ◌==◌, if◌then◌else◌, bit_xor, u8, u16, u32, ◌>>◌, uint8_max,
}

abbrev pub diagnostic_magic : ℕ
diagnostic_magic = 0x42464d31

abbrev pub diagnostic_version : ℕ
diagnostic_version = 1

abbrev pub lockout_threshold : ℕ
lockout_threshold = 3

abbrev pub fnv_offset_basis : ℕ
fnv_offset_basis = 2166136261

abbrev pub fnv_prime : ℕ
fnv_prime = 16777619

-- `firmware_state_t`
pub data FirmwareState : Type 0 where
  uninitialized booting clock_ready safe_outputs healthy safe_lockout fault : FirmwareState

abbrev pub state_value : FirmwareState → ℕ
state_value uninitialized = 0
state_value booting = 1
state_value clock_ready = 2
state_value safe_outputs = 3
state_value healthy = 4
state_value safe_lockout = 5
state_value fault = 6

-- `firmware_clock_t`
pub data FirmwareClock : Type 0 where
  unknown hse_pll hsi48 : FirmwareClock

abbrev pub clock_value : FirmwareClock → ℕ
clock_value unknown = 0
clock_value hse_pll = 1
clock_value hsi48 = 2

-- `firmware_fault_t`
pub data FirmwareFault : Type 0 where
  no_fault clock_startup clock_security vga_command vga_spi_timeout vga_spi_error : FirmwareFault
  phase_command phase_spi_timeout phase_spi_error hard_fault : FirmwareFault
  unexpected_interrupt can_init : FirmwareFault

abbrev pub fault_value : FirmwareFault → ℕ
fault_value no_fault = 0
fault_value clock_startup = 1
fault_value clock_security = 2
fault_value vga_command = 3
fault_value vga_spi_timeout = 4
fault_value vga_spi_error = 5
fault_value phase_command = 6
fault_value phase_spi_timeout = 7
fault_value phase_spi_error = 8
fault_value hard_fault = 9
fault_value unexpected_interrupt = 10
fault_value can_init = 11

-- `diagnostic_record_t`
pub record DiagnosticRecord : Type 0 where
  pub magic : ℕ
  pub version : ℕ
  pub build_id : ℕ
  pub boot_count : ℕ
  pub reset_flags : ℕ
  pub checksum : ℕ
  pub current_fault : ℕ
  pub previous_fault : ℕ
  pub last_phase_command : ℕ
  pub last_vga_command : ℕ
  pub state : ℕ
  pub clock_source : ℕ
  pub consecutive_incomplete_boots : ℕ

unfoldable pub checksum_mix_byte : ℕ → ℕ → ℕ
checksum_mix_byte hash value = u32 (bit_xor hash value * fnv_prime)

unfoldable pub checksum_mix_u16 : ℕ → ℕ → ℕ
unfolding checksum_mix_byte
checksum_mix_u16 hash value =
    checksum_mix_byte (checksum_mix_byte hash (u8 value)) (u8 (value >> 8))

unfoldable pub checksum_mix_u32 : ℕ → ℕ → ℕ
unfolding checksum_mix_u16
checksum_mix_u32 hash value =
    checksum_mix_u16 (checksum_mix_u16 hash (u16 value)) (u16 (value >> 16))

-- The checksum covers every field but itself.
unfoldable pub checksum_of : DiagnosticRecord → ℕ
unfolding checksum_mix_u32
checksum_of r =
    let h1 = checksum_mix_u32 fnv_offset_basis r.magic in
    let h2 = checksum_mix_u32 h1 r.version in
    let h3 = checksum_mix_u32 h2 r.build_id in
    let h4 = checksum_mix_u32 h3 r.boot_count in
    let h5 = checksum_mix_u32 h4 r.reset_flags in
    let h6 = checksum_mix_u16 h5 r.current_fault in
    let h7 = checksum_mix_u16 h6 r.previous_fault in
    let h8 = checksum_mix_u16 h7 r.last_phase_command in
    let h9 = checksum_mix_byte h8 r.last_vga_command in
    let h10 = checksum_mix_byte h9 r.state in
    let h11 = checksum_mix_byte h10 r.clock_source in
    checksum_mix_byte h11 r.consecutive_incomplete_boots

abbrev pub seal : DiagnosticRecord → DiagnosticRecord
seal r = record r { checksum = checksum_of r }

unfoldable pub new : DiagnosticRecord
new = seal (record {
  magic = diagnostic_magic;
  version = diagnostic_version;
  build_id = 0;
  boot_count = 0;
  reset_flags = 0;
  checksum = 0;
  current_fault = fault_value no_fault;
  previous_fault = fault_value no_fault;
  last_phase_command = 0;
  last_vga_command = 0;
  state = state_value uninitialized;
  clock_source = clock_value unknown;
  consecutive_incomplete_boots = 0;
})

unfoldable pub is_valid : DiagnosticRecord → Bool
is_valid r =
    r.magic == diagnostic_magic && (r.version == diagnostic_version && r.checksum == checksum_of r)

-- The count of boots that did not get healthy, after the boot `r` came from.
abbrev pub next_incomplete : DiagnosticRecord → ℕ
next_incomplete r =
    if r.state == state_value healthy
    then 0
    else if ltb r.consecutive_incomplete_boots uint8_max
    then r.consecutive_incomplete_boots + 1
    else r.consecutive_incomplete_boots

-- what a record of the same build carries over
abbrev pub carry_over : DiagnosticRecord → DiagnosticRecord
carry_over previous = record previous {
  previous_fault = previous.current_fault;
  current_fault = fault_value no_fault;
  consecutive_incomplete_boots = next_incomplete previous;
}

-- the record before it is stamped: the previous one if it is valid and of this build
abbrev pub boot_base : DiagnosticRecord → ℕ → DiagnosticRecord
boot_base previous build_id =
    if is_valid previous && previous.build_id == build_id then carry_over previous else new

abbrev pub stamp_boot : DiagnosticRecord → ℕ → ℕ → DiagnosticRecord
stamp_boot r reset_flags build_id = record r {
  build_id = build_id;
  boot_count = u32 (r.boot_count + 1);
  reset_flags = reset_flags;
  state = state_value booting;
  clock_source = clock_value unknown;
}

unfoldable pub begin_boot : DiagnosticRecord → ℕ → ℕ → DiagnosticRecord
begin_boot previous reset_flags build_id =
    seal (stamp_boot (boot_base previous build_id) reset_flags build_id)

unfoldable pub should_lockout : DiagnosticRecord → Bool
should_lockout r = is_valid r && leb lockout_threshold r.consecutive_incomplete_boots

unfoldable pub set_state : DiagnosticRecord → FirmwareState → DiagnosticRecord
set_state r state = seal (record r { state = u8 (state_value state) })

unfoldable pub set_clock : DiagnosticRecord → FirmwareClock → DiagnosticRecord
set_clock r clock_source = seal (record r { clock_source = u8 (clock_value clock_source) })

unfoldable pub set_commands : DiagnosticRecord → ℕ → ℕ → DiagnosticRecord
set_commands r phase_word vga_byte =
    seal (record r { last_phase_command = phase_word; last_vga_command = vga_byte })

unfoldable pub set_fault : DiagnosticRecord → FirmwareFault → DiagnosticRecord
set_fault r cause =
    seal (record r { current_fault = u16 (fault_value cause); state = state_value fault })

unfoldable pub mark_healthy : DiagnosticRecord → DiagnosticRecord
mark_healthy r = seal (record r { state = state_value healthy; consecutive_incomplete_boots = 0 })
