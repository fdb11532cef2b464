-- ===== src/Can/Filter/Tests.antt =====
-- Instances of the filters' theorems, with the peripheral's match as its manual describes it.
use beamforming_software.Prelude.{
  ◌≡◌, arith, Bool, true, false, List, [], ◌∷◌, some, if◌then◌else◌, ◌==◌, bit_and,
}
use beamforming_software.Can.Protocol.{Frame, zero_command, DecodeResult}
use beamforming_software.Can.Protocol.Decode.{decode_command}
use beamforming_software.Can.Filter.{Bank, filter_configure}
use beamforming_software.Can.Filter.Accept.{IsMaskMatch, passes, filter_word}
use beamforming_software.Can.Filter.Decode.{IsHeard, filter_configure-decode_command}

abbrev mask_match : Bank → Frame → Bool
mask_match b f = if b.enable then bit_and (filter_word f) b.mask == bit_and b.id b.mask else false

mask_match-IsMaskMatch : IsMaskMatch mask_match
mask_match-IsMaskMatch = record { agrees = λ b f e. ground arith }

-- SET_COMBINED to node 7
abbrev combined_frame : Frame
combined_frame = record {
  id = 0x04e01234;
  extended = true;
  remote = false;
  dlc = 2;
  payload = 146 ∷ 8 ∷ 0 ∷ 0 ∷ 0 ∷ 0 ∷ 0 ∷ 0 ∷ [];
}

filter_configure-decode_command_example :
    let d = (decode_command combined_frame 7 zero_command).0 in
    (banks : List Bank) × (filter_configure 7 ≡ some banks)
    × (d ≡ DecodeResult.ok → passes mask_match banks combined_frame ≡ true)
    × (passes mask_match banks combined_frame ≡ true → IsHeard d)
filter_configure-decode_command_example =
    filter_configure-decode_command mask_match 7 combined_frame zero_command mask_match-IsMaskMatch
      (omega arith) (omega arith) (omega arith) (λ e. omega arith)
