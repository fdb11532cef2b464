-- ===== src/Can/Filter/Decode.antt =====
-- The filters against the decoder: no command is lost, and the decoder sees no frame that it would
-- ignore.
use beamforming_software.Prelude.{
  ℕ, ◌≤◌, ◌≡◌, ◌≢◌, ◌⊎◌, ◌↔◌, inl, inr, refl, ap, sym, ◌∙◌, arith, Bool, true, List, [], ◌∷◌, some,
  Bool-cases, ◌==◌, bit_and, ◌*◌,
}
use beamforming_software.Can.Protocol.{
  MessageType, enter_safe, zero_command, Frame, IsFrame, Command, DecodeResult, extended_id_max,
  node_controller, node_min, node_max, node_broadcast,
}
use beamforming_software.Can.Protocol.Id.{IdFields, id_fields}
use beamforming_software.Can.Protocol.Id.Laws.{id_fields-id_value, parse_id-some}
use beamforming_software.Can.Protocol.Decode.{decode_command, decode_fields, decode_payload}
use beamforming_software.Can.Protocol.Decode.Laws.{wire_fields, decode_command_ok_iff}
use beamforming_software.Can.Filter.{
  Bank, filter_configure, unicast_filter, broadcast_filter, unicast_mask, pack_extended_mask,
}
use beamforming_software.Can.Filter.Accept.{
  field_matches, IsMaskMatch, IsWanted, passes, filter_word, unicast_bank, unicast_iff,
  broadcast_iff,
}

module _ (matches : Bank → Frame → Bool) (m : IsMaskMatch matches) (self : ℕ) (f : Frame)
    (hi : self ≤ node_max) where
  unicast_match : matches (unicast_filter self) f ≡ field_matches 10 (filter_word f) (self * 32)
  unicast_match =
      m.agrees (unicast_filter self) f refl
      ∙ ap
          (λ (t : ℕ).
            bit_and (filter_word f) (pack_extended_mask unicast_mask)
            == bit_and t (pack_extended_mask unicast_mask))
          (unicast_bank self (omega arith)).0

  broadcast_match : matches broadcast_filter f ≡ field_matches 13 (filter_word f) 992
  broadcast_match = m.agrees broadcast_filter f refl

  wanted_passes :
      IsWanted self f → passes matches (unicast_filter self ∷ broadcast_filter ∷ []) f ≡ true
  wanted_passes w = elim w.destination [
    | inl here ↦
        let e = (unicast_iff self f (omega arith)).1 (w.extended, w.no_remote, w.source, here) in
        rw (unicast_match ∙ e)
    | inr (all, safe) ↦
        let e = (broadcast_iff f).1 (w.extended, w.no_remote, w.source, all, safe) in
        let found = broadcast_match ∙ e in ground arith
  ]

  passes-IsWanted :
      passes matches (unicast_filter self ∷ broadcast_filter ∷ []) f ≡ true → IsWanted self f
  passes-IsWanted h = elim (Bool-cases (matches (unicast_filter self) f)) [
    | inl e ↦
        let (ext, data_frame, source, here) =
          (unicast_iff self f (omega arith)).0 (sym unicast_match ∙ e) in
        record { extended = ext; no_remote = data_frame; source = source; destination = inl here }
    | inr ne ↦
        let found : matches broadcast_filter f ≡ true = ground arith in
        let (ext, data_frame, source, all, safe) =
          (broadcast_iff f).0 (sym broadcast_match ∙ found) in
        record {
          extended = ext;
          no_remote = data_frame;
          source = source;
          destination = inr (all, safe);
        }
  ]

-- A node numbered 1 to 30 sets two filters up, which let through exactly the frames that it wants:
-- extended data frames from the controller, to this node or as a broadcast ENTER_SAFE.
pub filter_configure-IsWanted :
    (matches : Bank → Frame → Bool) (self : ℕ) (f : Frame)
    → IsMaskMatch matches
    → node_min ≤ self
    → self ≤ node_max
    → (banks : List Bank) × (filter_configure self ≡ some banks)
      × ((passes matches banks f ≡ true) ↔ IsWanted self f)
unfolding filter_configure
filter_configure-IsWanted matches self f m lo hi = (
  unicast_filter self ∷ broadcast_filter ∷ [],
  ground arith,
  (passes-IsWanted matches m self f hi, wanted_passes matches m self f hi),
)

decode_payload_kind :
    (t : MessageType) (f : Frame) (c : Command)
    → let d = (decode_payload t f c).0 in
      (d ≢ DecodeResult.ignored)
      × (d ≢ DecodeResult.invalid_id)
      × (d ≢ DecodeResult.broadcast_not_allowed)
unfolding decode_payload
decode_payload_kind t f c = ground arith

ok-IsWanted :
    (self : ℕ) (f : Frame) (c0 c : Command)
    → IsFrame f
    → node_min ≤ self
    → self ≤ node_max
    → decode_command f self c0 ≡ (DecodeResult.ok, c)
    → IsWanted self f
ok-IsWanted self f c0 c h lo hi e =
    let w = (decode_command_ok_iff self f c0 c h lo hi).0 e in
    let fields : id_fields f.id ≡ wire_fields c =
      ap id_fields w.identifier ∙ id_fields-id_value (wire_fields c) w.fields in
    record {
      extended = w.extended;
      no_remote = w.remote;
      source = ap (λ (i : IdFields). i.source) fields ∙ w.source;
      destination = elim w.destination [
        | inl here ↦ inl (ap (λ (i : IdFields). i.destination) fields ∙ here)
        | inr (all, safe) ↦ inr (
          ap (λ (i : IdFields). i.destination) fields ∙ all,
          ap (λ (i : IdFields). i.type) fields ∙ safe,
        )
      ];
    }

-- the result of no frame that the filters should have kept away
abbrev pub IsHeard : DecodeResult → Type 0
IsHeard d =
    (d ≢ DecodeResult.ignored)
    × (d ≢ DecodeResult.invalid_id)
    × (d ≢ DecodeResult.broadcast_not_allowed)

decode_fields-IsHeard :
    (self : ℕ) (f : Frame) (id : IdFields) (c0 : Command)
    → id.source ≡ node_controller
    → (id.destination ≡ self) ⊎ ((id.destination ≡ node_broadcast) × (id.type ≡ enter_safe))
    → self ≤ node_max
    → IsHeard (decode_fields f self id c0).0
unfolding decode_fields
decode_fields-IsHeard self f id c0 hs hd hi =
    let kind = decode_payload_kind id.type f (record zero_command {
      type = id.type;
      destination = id.destination;
      source = id.source;
      sequence = id.sequence;
    }) in
    ground arith

decode_command-IsHeard :
    (self : ℕ) (f : Frame) (c0 : Command)
    → node_min ≤ self
    → self ≤ node_max
    → f.id ≤ extended_id_max
    → IsWanted self f
    → IsHeard (decode_command f self c0).0
unfolding decode_command
decode_command-IsHeard self f c0 lo hi range w =
    let parsed = parse_id-some f.id range in
    let heard = decode_fields-IsHeard self f (id_fields f.id) c0 w.source w.destination hi in
    let ext = w.extended in let data_frame = w.no_remote in ground arith

-- The filters of a node numbered 1 to 30 against its decoder, on a frame whose extended identifier
-- has 29 bits: a frame that decodes to a command passes them, and a frame that passes them is
-- neither ignored nor refused for its identifier or as a broadcast.
pub filter_configure-decode_command :
    (matches : Bank → Frame → Bool) (self : ℕ) (f : Frame) (c0 : Command)
    → IsMaskMatch matches
    → IsFrame f
    → node_min ≤ self
    → self ≤ node_max
    → (f.extended ≡ true → f.id ≤ extended_id_max)
    → let d = (decode_command f self c0).0 in
      (banks : List Bank) × (filter_configure self ≡ some banks)
      × (d ≡ DecodeResult.ok → passes matches banks f ≡ true)
      × (passes matches banks f ≡ true → IsHeard d)
filter_configure-decode_command matches self f c0 m h lo hi range =
    let (banks, configured, wanted) = filter_configure-IsWanted matches self f m lo hi in
    (
      banks,
      configured,
      λ e. wanted.1 (
          ok-IsWanted self f c0 (decode_command f self c0).1 h lo hi
            (λ i. (e i, (decode_command f self c0).1))),
      λ e. let w = wanted.0 e in decode_command-IsHeard self f c0 lo hi (range w.extended) w,
    )
