-- ===== src/Can/Filter/Accept.antt =====
-- What the two filters let through.
use beamforming_software.Prelude.{
  ℕ, ◌+◌, ◌-◌, ◌*◌, ◌/◌, ◌%◌, ◌^◌, ◌<◌, ◌≡◌, ◌⊎◌, ◌↔◌, refl, ap, ◌∙◌, arith, Bool, true, false,
  List, [], ◌∷◌, ◌||◌, ◌==◌, ==_iff, if◌then◌else◌, bit_and, bit_or, u32, ◌<<◌,
}
use beamforming_software.Prelude.Bits.{bit_and_mask, bit_and_step, bit_and_split, bit_or_disjoint}
use beamforming_software.Can.Protocol.{
  enter_safe, type_value, Frame, extended_id_max, node_controller, node_broadcast, to_message_type,
  type_value-to_message_type, to_message_type-type_value,
}
use beamforming_software.Can.Protocol.Id.{id_fields, raw_type}
use beamforming_software.Can.Filter.{
  Bank, unicast_id, unicast_mask, pack_extended_id, pack_extended_mask,
}

-- The word that the peripheral compares, as its manual lays it out: the identifier in the high
-- bits, then IDE and RTR.
abbrev pub filter_word : Frame → ℕ
filter_word f =
    if f.extended
    then f.id * 8 + 4 + (if f.remote then 2 else 0)
    else f.id * 2097152 + (if f.remote then 2 else 0)

-- What a bank in identifier-mask mode does, by the manual: the bits of the mask must agree.
pub record IsMaskMatch (matches : Bank → Frame → Bool) : Type 0 where
  pub agrees :
      (b : Bank) (f : Frame)
      → b.enable ≡ true
      → matches b f ≡ (bit_and (filter_word f) b.mask == bit_and b.id b.mask)

-- Some bank of the list lets the frame through.
abbrev pub passes : (Bank → Frame → Bool) → List Bank → Frame → Bool
passes matches [] f = false
passes matches (b ∷ bs) f = matches b f || passes matches bs f

-- The mask of a filter is ones in the high bits, and IDE and RTR.
masked :
    (k w : ℕ) → bit_and w ((2 ^ k - 1) * 524288 + 6) ≡ w / 524288 % 2 ^ k * 524288 + w / 2 % 4 * 2
masked k w =
    let split : w ≡ w / 524288 * 524288 + w % 524288 = omega arith in
    let low : w % 524288 ≡ w % 524288 / 8 * 8 + w % 8 = omega arith in
    let high_part = bit_and_mask k (w / 524288) in
    let low_part : bit_and (w % 524288) 6 ≡ w / 2 % 4 * 2 = omega (
      arith,
      ap (λ (t : ℕ). bit_and t 6) low,
      bit_and_split 3 (w % 524288 / 8) (w % 8) 0 6,
      bit_and_mask 0 (w % 524288 / 8),
      bit_and_step (w % 8) 6,
      bit_and_mask 2 (w % 8 / 2),
    ) in
    omega (
      arith,
      ap (λ (t : ℕ). bit_and t ((2 ^ k - 1) * 524288 + 6)) split,
      bit_and_split 19 (w / 524288) (w % 524288) (2 ^ k - 1) 6,
      high_part,
      low_part,
    )

pub unicast_bank :
    (self : ℕ)
    → self < 32
    → (pack_extended_id (unicast_id self) ≡ self * 32 * 524288 + 4)
      × (pack_extended_mask unicast_mask ≡ (2 ^ 10 - 1) * 524288 + 6)
unicast_bank self h =
    let shifted : u32 (self << 21) ≡ self * 2 ^ 21 = omega arith in
    let joined : unicast_id self ≡ self * 2 ^ 21 =
      ap (λ (t : ℕ). bit_or t 0) shifted
      ∙ (bit_or_disjoint 21 self 0 (omega arith) ∙ omega arith) in
    let inner : u32 (bit_and (unicast_id self) extended_id_max << 3) ≡ self * 262144 * 8 * 8 =
      ap (λ (t : ℕ). u32 (bit_and t extended_id_max << 3)) joined
      ∙ omega (arith, bit_and_mask 29 (self * 2 ^ 21)) in
    (
      ap (λ (t : ℕ). bit_or t 4) inner
          ∙ (bit_or_disjoint 3 (self * 262144 * 8) 4 (omega arith) ∙ omega arith),
      refl,
    )

abbrev pub field_matches : ℕ → ℕ → ℕ → Bool
field_matches k w id =
    bit_and w ((2 ^ k - 1) * 524288 + 6) == bit_and (id * 524288 + 4) ((2 ^ k - 1) * 524288 + 6)

word_low : (f : Frame) → (filter_word f / 2 % 4 ≡ 2) ↔ ((f.extended ≡ true) × (f.remote ≡ false))
word_low f = ground arith

word_high : (f : Frame) → f.extended ≡ true → filter_word f / 524288 ≡ f.id / 65536
word_high f h = ground arith

field_matches_iff :
    (k : ℕ) (f : Frame) (id : ℕ)
    → id < 2 ^ k
    → (field_matches k (filter_word f) id ≡ true)
      ↔ ((f.extended ≡ true) × (f.remote ≡ false) × (f.id / 65536 % 2 ^ k ≡ id))
field_matches_iff k f id h =
    let word = masked k (filter_word f) in
    let bank = masked k (id * 524288 + 4) in
    let m : ℕ = (2 ^ k - 1) * 524288 + 6 in
    let fit : id % 2 ^ k ≡ id = grind arith in
    let same : (id * 524288 + 4) / 524288 ≡ id = omega arith in
    let bank_value : bit_and (id * 524288 + 4) ((2 ^ k - 1) * 524288 + 6) ≡ id * 524288 + 4 =
      omega (arith, bank, ap (λ (t : ℕ). t % 2 ^ k) same, fit) in
    let words : (field_matches k (filter_word f) id ≡ true)
        ↔ (filter_word f / 524288 % 2 ^ k * 524288 + filter_word f / 2 % 4 * 2 ≡ id * 524288 + 4) =
      (
        λ e.
            let same_bits =
              (==_iff (bit_and (filter_word f) m) (bit_and (id * 524288 + 4) m)).0 e in
            omega arith,
        λ e. (==_iff (bit_and (filter_word f) m) (bit_and (id * 524288 + 4) m)).1 (omega arith),
      ) in
    (
      λ e.
          let parts = words.0 e in
          let (ext, data_frame) = (word_low f).0 (omega arith) in
          (ext, data_frame, omega (arith, ap (λ (t : ℕ). t % 2 ^ k) (word_high f ext))),
      λ h.
          let (ext, data_frame, e) = h in
          words.1 (
            omega (
              arith,
              (word_low f).1 (ext, data_frame),
              ap (λ (t : ℕ). t % 2 ^ k) (word_high f ext),
            )),
    )

-- The frames that the receiver wants: extended data frames from the controller, to the node itself
-- or as a broadcast ENTER_SAFE.
pub record IsWanted (self : ℕ) (f : Frame) : Type 0 where
  pub extended : f.extended ≡ true
  pub no_remote : f.remote ≡ false
  pub source : (id_fields f.id).source ≡ node_controller
  pub destination :
      ((id_fields f.id).destination ≡ self)
      ⊎ (((id_fields f.id).destination ≡ node_broadcast) × ((id_fields f.id).type ≡ enter_safe))

wanted_number : (id : ℕ) → (id_fields id).source ≡ id / 65536 % 32
wanted_number id = omega (arith, bit_and_mask 5 (id / 65536))

wanted_destination : (id : ℕ) → (id_fields id).destination ≡ id / 2097152 % 32
wanted_destination id = omega (arith, bit_and_mask 5 (id / 2097152))

wanted_type : (id : ℕ) → ((id_fields id).type ≡ enter_safe) ↔ (id / 67108864 % 8 ≡ 0)
wanted_type id =
    let raw : raw_type id ≡ id / 67108864 % 8 = bit_and_mask 3 (id / 67108864) in
    (
      λ e. omega (arith, ap type_value e, type_value-to_message_type (raw_type id) (omega arith)),
      λ e.
          let zero_raw : raw_type id ≡ 0 = omega arith in
          ap to_message_type zero_raw ∙ to_message_type-type_value enter_safe,
    )

pub unicast_iff :
    (self : ℕ) (f : Frame)
    → self < 32
    → (field_matches 10 (filter_word f) (self * 32) ≡ true) ↔ (
        (f.extended ≡ true)
        × (f.remote ≡ false)
        × ((id_fields f.id).source ≡ node_controller)
        × ((id_fields f.id).destination ≡ self))
unicast_iff self f h =
    let parts = field_matches_iff 10 f (self * 32) (omega arith) in
    (
      λ e.
          let (ext, data_frame, field) = parts.0 e in
          (
            ext,
            data_frame,
            omega (arith, wanted_number f.id),
            omega (arith, wanted_destination f.id),
          ),
      λ w.
          let (ext, data_frame, source, destination) = w in
          parts.1 (ext, data_frame, omega (arith, wanted_number f.id, wanted_destination f.id)),
    )

pub broadcast_iff :
    (f : Frame)
    → (field_matches 13 (filter_word f) 992 ≡ true) ↔ (
        (f.extended ≡ true)
        × (f.remote ≡ false)
        × ((id_fields f.id).source ≡ node_controller)
        × ((id_fields f.id).destination ≡ node_broadcast)
        × ((id_fields f.id).type ≡ enter_safe))
broadcast_iff f =
    let parts = field_matches_iff 13 f 992 (omega arith) in
    (
      λ e.
          let (ext, data_frame, field) = parts.0 e in
          (
            ext,
            data_frame,
            omega (arith, wanted_number f.id),
            omega (arith, wanted_destination f.id),
            (wanted_type f.id).1 (omega arith),
          ),
      λ w.
          let (ext, data_frame, source, destination, safe) = w in
          parts.1 (
            ext,
            data_frame,
            omega (arith, (wanted_type f.id).0 safe, wanted_number f.id, wanted_destination f.id),
          ),
    )
