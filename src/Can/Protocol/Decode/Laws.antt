-- ===== src/Can/Protocol/Decode/Laws.antt =====
-- What `can_protocol_decode_command` accepts: exactly the frames that docs/can-protocol.md
-- describes. The description is independent of the code: a table of payloads, and the identifier as
-- a sum.
use beamforming_software.Prelude.{
  ℕ, ◌≤◌, ◌≡◌, ◌⊎◌, ◌↔◌, inl, inr, refl, sym, subst, arith, true, false, List, [], ◌∷◌, length,
  take, some, Option-cases,
}
use beamforming_software.Can.Protocol.{
  MessageType, enter_safe, set_combined, set_phase, set_vga, ping, type_value, DecodeResult, Frame,
  IsFrame, Command, zero_command, node_controller, node_min, node_max, node_broadcast,
  vga_max_attenuation_db,
}
use beamforming_software.Can.Protocol.Id.{IdFields, parse_id}
use beamforming_software.Can.Protocol.Id.Laws.{
  IsIdFields, id_value, parse_id_inversion, parse_id-id_value,
}
use beamforming_software.Can.Protocol.Decode.{decode_command, decode_fields, decode_payload, byte}

-- The table of payloads: the bytes of each command, from its phase state and its attenuation.
abbrev pub wire_payload : Command → List ℕ
wire_payload c = elim c.type [
  | set_combined ↦ c.phase_state ∷ c.attenuation_db ∷ []
  | set_phase ↦ c.phase_state ∷ []
  | set_vga ↦ c.attenuation_db ∷ []
  | _ ↦ []
]

abbrev pub wire_fields : Command → IdFields
wire_fields c = record {
  type = c.type;
  destination = c.destination;
  source = c.source;
  sequence = c.sequence;
}

wire_payload-short : (c : Command) → length (wire_payload c) ≤ 2
wire_payload-short c = ground arith

-- A setting that the type does not carry is zero.
abbrev pub IsCanonical : Command → Type 0
IsCanonical c = elim c.type [
  | set_combined ↦ Unit {0}
  | set_phase ↦ c.attenuation_db ≡ 0
  | set_vga ↦ c.phase_state ≡ 0
  | _ ↦ (c.phase_state ≡ 0) × (c.attenuation_db ≡ 0)
]

-- `f` is an extended data frame from the controller to the node `self`, or a broadcast ENTER_SAFE,
-- whose identifier and payload are those of the command `c`.
pub record IsCommandFrame (self : ℕ) (f : Frame) (c : Command) : Type 0 where
  pub extended : f.extended ≡ true
  pub remote : f.remote ≡ false
  pub identifier : f.id ≡ id_value (wire_fields c)
  pub fields : IsIdFields (wire_fields c)
  pub source : c.source ≡ node_controller
  pub command : type_value c.type ≤ 4
  pub destination :
      (c.destination ≡ self) ⊎ ((c.destination ≡ node_broadcast) × (c.type ≡ enter_safe))
  pub dlc : f.dlc ≡ length (wire_payload c)
  pub bytes : take f.dlc f.payload ≡ wire_payload c
  pub attenuation : c.attenuation_db ≤ vga_max_attenuation_db
  pub canonical : IsCanonical c

-- the checks before the identifier
pub decode_header :
    (f : Frame) (self : ℕ) (c0 c : Command)
    → decode_command f self c0 ≡ (DecodeResult.ok, c)
    → (f.extended ≡ true)
      × (f.remote ≡ false)
      × (f.dlc ≤ 8)
      × (id : IdFields) × (parse_id f.id ≡ some id)
      × (decode_fields f self id c0 ≡ (DecodeResult.ok, c))
unfolding decode_command
decode_header f self c0 c e = elim (Option-cases (parse_id f.id)) [
  | inl p ↦ ground arith
  | inr (id, p) ↦ (ground arith, ground arith, ground arith, id, p, ground arith)
]

decode_checks :
    (f : Frame) (self : ℕ) (id : IdFields) (c0 c : Command)
    → decode_fields f self id c0 ≡ (DecodeResult.ok, c)
    → ((id.destination ≡ self) ⊎ ((id.destination ≡ node_broadcast) × (id.type ≡ enter_safe)))
      × (id.source ≡ node_controller)
      × (type_value id.type ≤ 4)
      × (decode_payload id.type f (record zero_command {
        type = id.type;
        destination = id.destination;
        source = id.source;
        sequence = id.sequence;
      })
          ≡ (DecodeResult.ok, c))
unfolding decode_fields
decode_checks f self id c0 c e = ground arith

-- the bytes of a frame by their indices
take_one : (f : Frame) → IsFrame f → take 1 f.payload ≡ byte f 0 ∷ []
take_one f h = ground arith

take_two : (f : Frame) → IsFrame f → take 2 f.payload ≡ byte f 0 ∷ byte f 1 ∷ []
take_two f h = ground arith

-- What the payload's decoder adds to the header of the command.
record IsPayload (t : MessageType) (d s q : ℕ) (f : Frame) (c : Command) : Type 0 where
  header : wire_fields c ≡ record { type = t; destination = d; source = s; sequence = q }
  length_exact : f.dlc ≡ length (wire_payload c)
  bytes_exact : take f.dlc f.payload ≡ wire_payload c
  attenuation_in : c.attenuation_db ≤ vga_max_attenuation_db
  settings : IsCanonical c

abbrev header_command : MessageType → ℕ → ℕ → ℕ → Command
header_command t d s q = record zero_command { type = t; destination = d; source = s; sequence = q }

decode_payload-IsPayload :
    (t : MessageType) (d s q : ℕ) (f : Frame) (c : Command)
    → IsFrame f
    → decode_payload t f (header_command t d s q) ≡ (DecodeResult.ok, c)
    → IsPayload t d s q f c
unfolding decode_payload
decode_payload-IsPayload enter_safe d s q f c h e = ground (arith)
decode_payload-IsPayload set_combined d s q f c h e = ground (arith, take_two f h)
decode_payload-IsPayload set_phase d s q f c h e = ground (arith, take_one f h)
decode_payload-IsPayload set_vga d s q f c h e = ground (arith, take_one f h)
decode_payload-IsPayload ping d s q f c h e = ground arith
decode_payload-IsPayload _ d s q f c h e = cc

decode_payload_complete :
    (t : MessageType) (d s q : ℕ) (f : Frame) (c : Command)
    → IsFrame f
    → type_value t ≤ 4
    → IsPayload t d s q f c
    → decode_payload t f (header_command t d s q) ≡ (DecodeResult.ok, c)
unfolding decode_payload
decode_payload_complete enter_safe d s q f c h small p = ground arith
decode_payload_complete set_combined d s q f c h small p = ground (arith, take_two f h)
decode_payload_complete set_phase d s q f c h small p = ground (arith, take_one f h)
decode_payload_complete set_vga d s q f c h small p = ground (arith, take_one f h)
decode_payload_complete ping d s q f c h small p = ground arith
decode_payload_complete _ d s q f c h small p = absurd (omega arith)

pub decode-IsCommandFrame :
    (self : ℕ) (f : Frame) (c0 c : Command)
    → IsFrame f
    → decode_command f self c0 ≡ (DecodeResult.ok, c)
    → IsCommandFrame self f c
decode-IsCommandFrame self f c0 c h e =
    let (ext, rem, dlc, id, parsed, rest) = decode_header f self c0 c e in
    let (to, from, small, last) = decode_checks f self id c0 c rest in
    let p = decode_payload-IsPayload id.type id.destination id.source id.sequence f c h last in
    let (ranges, sum) = parse_id_inversion f.id id parsed in
    record {
      extended = ext;
      remote = rem;
      identifier = subst (λ g. f.id ≡ id_value g) (sym p.header) sum;
      fields = subst IsIdFields (sym p.header) ranges;
      source = ground arith;
      command = ground arith;
      destination = ground arith;
      dlc = p.length_exact;
      bytes = p.bytes_exact;
      attenuation = p.attenuation_in;
      canonical = p.settings;
    }

IsCommandFrame-decode :
    (self : ℕ) (f : Frame) (c0 c : Command)
    → IsFrame f
    → node_min ≤ self
    → self ≤ node_max
    → IsCommandFrame self f c
    → decode_command f self c0 ≡ (DecodeResult.ok, c)
unfolding decode_command decode_fields
IsCommandFrame-decode self f c0 c h lo hi w =
    let parsed : parse_id f.id ≡ some (wire_fields c) =
      rw w.identifier (parse_id-id_value (wire_fields c) w.fields) in
    let payload =
      decode_payload_complete c.type c.destination c.source c.sequence f c h w.command (record {
        header = refl;
        length_exact = w.dlc;
        bytes_exact = w.bytes;
        attenuation_in = w.attenuation;
        settings = w.canonical;
      }) in
    let fields : decode_fields f self (wire_fields c) c0 ≡ (DecodeResult.ok, c) = ground arith in
    ground (arith, wire_payload-short c)

-- For a receiver's own node number, a frame decodes to a command exactly when it is that command
-- on the wire: an extended data frame from the controller to this node, or a broadcast ENTER_SAFE,
-- with a controller's type, the exact payload of the table and an attenuation of at most 23 dB.
pub decode_command_ok_iff :
    (self : ℕ) (f : Frame) (c0 c : Command)
    → IsFrame f
    → node_min ≤ self
    → self ≤ node_max
    → (decode_command f self c0 ≡ (DecodeResult.ok, c)) ↔ IsCommandFrame self f c
decode_command_ok_iff self f c0 c h lo hi =
    (decode-IsCommandFrame self f c0 c h, IsCommandFrame-decode self f c0 c h lo hi)
