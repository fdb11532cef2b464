-- ===== src/Runtime/Refused.antt =====
-- The service of a frame that the decoder refuses: what is counted, and which ERROR goes out.
pub mod Counted
use beamforming_software.Prelude.{
  ℕ, Bool, ◌+◌, ◌≤◌, ◌≡◌, ◌≢◌, ◌⊎◌, inl, inr, refl, sym, ap, ◌∙◌, subst, arith, Bool-cases, true,
  false, ◌==◌, not, ◌||◌, ltb, Option, none, some, uint16_max, Option-cases,
}
use beamforming_software.Can.Protocol.{
  MessageType, ping, error, type_value, node_max, node_controller, DecodeResult, CommandResult,
  Frame, zero_frame, Command, zero_command,
}
use beamforming_software.Can.Protocol.Id.{IdFields, parse_id}
use beamforming_software.Can.Protocol.Id.Laws.{IsIdFields, parse_id_inversion}
use beamforming_software.Can.Protocol.Decode.{
  decode_command, decode_fields, decode_payload, result_from_decode,
}
use beamforming_software.Can.Protocol.Encode.{make_error}
use beamforming_software.Can.Protocol.Encode.Laws.{IsResponse, result_bytes, make_error_lem}
use beamforming_software.Can.TxQueue.{priority_error}
use beamforming_software.Platform.SpiGuard.{Peripherals}
use beamforming_software.Runtime.{
  Runtime, Bus, System, transmit, send_error_for_fields, send_error_for_frame, serve_decoded,
  serve_frame,
}
use beamforming_software.Runtime.Quiet.{
  IsUntouched, counted, counted-IsUntouched, send_error_for_frame-IsUntouched,
}

-- The controller asks this node alone for something that a command can be.
pub record IsAddressed (node : ℕ) (f : Frame) (id : IdFields) : Type 0 where
  pub extended : f.extended ≡ true
  pub remote : f.remote ≡ false
  pub parsed : parse_id f.id ≡ some id
  pub to_node : id.destination ≡ node
  pub from_controller : id.source ≡ node_controller
  pub command_type : type_value id.type ≤ 4

-- the results that a request to this node alone may have
abbrev pub plain : DecodeResult → Bool
plain DecodeResult.ignored = false
plain DecodeResult.unsupported_type = false
plain DecodeResult.broadcast_not_allowed = false
plain _ = true

pub plain-result :
    (d : DecodeResult)
    → plain d ≡ true
    → d ≢ DecodeResult.ok
    → (result_from_decode d ≡ CommandResult.invalid_length)
      ⊎ (result_from_decode d ≡ CommandResult.invalid_payload)
plain-result d e ne = ground arith

decode_payload-plain :
    (t : MessageType) (f : Frame) (c : Command)
    → type_value t ≤ 4
    → plain (decode_payload t f c).0 ≡ true
unfolding decode_payload
decode_payload-plain t f c h = ground arith

decode_fields-plain :
    (f : Frame) (node : ℕ) (id : IdFields) (c0 : Command)
    → node ≤ node_max
    → id.destination ≡ node
    → id.source ≡ node_controller
    → type_value id.type ≤ 4
    → plain (decode_fields f node id c0).0 ≡ true
unfolding decode_fields
decode_fields-plain f node id c0 hn hd hs ht =
    let rest : Command = record zero_command {
      type = id.type;
      destination = id.destination;
      source = id.source;
      sequence = id.sequence;
    } in
    ground (arith, decode_payload-plain id.type f rest ht)

pub decode_command-plain :
    (node : ℕ) (f : Frame) (id : IdFields) (c0 : Command)
    → node ≤ node_max
    → IsAddressed node f id
    → plain (decode_command f node c0).0 ≡ true
unfolding decode_command
decode_command-plain node f id c0 hn a =
    let parsed = a.parsed in
    let extended = a.extended in
    let remote = a.remote in
    ground (arith, decode_fields-plain f node id c0 hn a.to_node a.from_controller a.command_type)

module _ {B : Type 0} (ops : Bus B) (p : Peripherals) (f : Frame) (d : DecodeResult)
    (s : System B) where
  -- An ERROR with the decoder's result answers the request, or there was none to this node.
  abbrev pub Answers : System B → Type 0
  Answers t =
      ((id : IdFields) × IsAddressed s.runtime.node_id f id
        × (r : Frame) × IsResponse error s.runtime.node_id id.sequence 2
            (result_bytes id.type (result_from_decode d)) r
        × (t ≡ transmit ops p r priority_error s))
      ⊎ (((id : IdFields) → ¬ IsAddressed s.runtime.node_id f id) × (t ≡ s))

  -- the request's fields, through the parsed identifier
  of_parsed : Option IdFields → IdFields → IdFields
  of_parsed none fallback = fallback
  of_parsed (some id) fallback = id

  not_asked :
      (id : IdFields)
      → parse_id f.id ≡ some id
      → (not (id.destination == s.runtime.node_id)
          || (not (id.source == node_controller) || ltb (type_value ping) (type_value id.type)))
        ≡ true
      → (other : IdFields) → ¬ IsAddressed s.runtime.node_id f other
  unfolding of_parsed
  not_asked id parsed test other a =
      let same : id ≡ other = ap (λ o. of_parsed o id) (sym parsed ∙ a.parsed) in
      let to_node = ap (λ (i : IdFields). i.destination) same ∙ a.to_node in
      let from = ap (λ (i : IdFields). i.source) same ∙ a.from_controller in
      let kind = subst (λ (i : IdFields). type_value i.type ≤ 4) (sym same) a.command_type in
      ground arith

  fields-Answers :
      (id : IdFields)
      → s.runtime.node_id ≤ node_max
      → IsIdFields id
      → f.extended ≡ true
      → f.remote ≡ false
      → parse_id f.id ≡ some id
      → Answers (send_error_for_fields ops p id d s)
  fields-Answers id hn w ext rem parsed =
      elim (Bool-cases (
        not (id.destination == s.runtime.node_id)
        || (not (id.source == node_controller) || ltb (type_value ping) (type_value id.type)))) [
          | inl other ↦ rw other (inr (not_asked id parsed other, refl))
          | inr asked ↦
              let a : IsAddressed s.runtime.node_id f id = record {
                extended = ext;
                remote = rem;
                parsed = parsed;
                to_node = ground arith;
                from_controller = ground arith;
                command_type = ground arith;
              } in
              let node = s.runtime.node_id in
              let result = result_from_decode d in
              let made =
                subst
                  (λ from.
                    let (sent, r) = make_error node from id.sequence id.type result zero_frame in
                    (sent ≡ true)
                    × IsResponse error node id.sequence 2 (result_bytes id.type result) r)
                  (sym a.from_controller)
                  (make_error_lem node id.sequence id.type result zero_frame hn w.sequence_in
                    w.type_in) in
              rw (asked, made.0) (inl (id, a, _, made.1, refl))
        ]

  pub frame-Answers : s.runtime.node_id ≤ node_max → Answers (send_error_for_frame ops p f d s)
  unfolding send_error_for_frame
  frame-Answers hn = elim (Bool-cases (not f.extended || f.remote)) [
    | inl test ↦
        rw test (inr ((λ id a. let ext = a.extended in let rem = a.remote in ground arith), refl))
    | inr plain_data ↦ elim (Option-cases (parse_id f.id)) [
      | inl parsed ↦ rw (plain_data, parsed) (inr ((λ id a. let found = a.parsed in cc), refl))
      | inr (id, parsed) ↦
          rw (plain_data, parsed)
            (fields-Answers id hn (parse_id_inversion f.id id parsed).0 (ground arith)
              (ground arith) parsed)
    ]
  ]
