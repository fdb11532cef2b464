-- ===== src/Can/Protocol/Id/Laws.antt =====
-- Identifiers pack their four fields without overlap.
use beamforming_software.Prelude.{
  ℕ, ◌+◌, ◌*◌, ◌/◌, ◌^◌, ◌≤◌, ◌<◌, ◌≡◌, ◌≢◌, arith, none, some, ap, ◌∙◌, u32, ◌<<◌, bit_or, ◌⊎◌,
  ◌↔◌,
}
use beamforming_software.Prelude.Bits.{bit_or_disjoint, bit_and_mask}
use beamforming_software.Can.Protocol.{
  type_count, type_value, to_message_type, extended_id_max, type_value-lt,
  type_value-to_message_type, to_message_type-type_value, node_broadcast,
}
use beamforming_software.Can.Protocol.Id.{IdFields, pack_id, make_id, raw_type, id_fields, parse_id}

-- The ranges of the fields: three bits, five, five and sixteen.
pub record IsIdFields (f : IdFields) : Type 0 where
  pub type_in : f.type ≢ type_count
  pub destination_in : f.destination ≤ node_broadcast
  pub source_in : f.source ≤ node_broadcast
  pub sequence_in : f.sequence < 65536

-- The identifier as the protocol document writes it, with sums for its disjoint fields.
abbrev pub id_value : IdFields → ℕ
id_value f = type_value f.type * 67108864 + f.destination * 2097152 + f.source * 65536 + f.sequence

field-bit_or : (k q r x y : ℕ) → x ≡ q * 2 ^ k → y ≡ r → r < 2 ^ k → bit_or x y ≡ q * 2 ^ k + r
field-bit_or k q r x y ex ey h = rw (ex, ey) (bit_or_disjoint k q r h)

pub pack_id_sum :
    (t d s q : ℕ)
    → t < 8
    → d < 32
    → s < 32
    → q < 65536
    → pack_id t d s q ≡ t * 67108864 + d * 2097152 + s * 65536 + q
pack_id_sum t d s q ht hd hs hq =
    let two =
      field-bit_or 26 t (d * 2097152) (u32 (t << 26)) (u32 (d << 21)) (omega arith) (omega arith)
        (omega arith) in
    let three =
      field-bit_or 21 (t * 32 + d) (s * 65536) (bit_or (u32 (t << 26)) (u32 (d << 21)))
        (u32 (s << 16)) (omega arith) (omega arith) (omega arith) in
    let four =
      field-bit_or 16 (t * 1024 + d * 32 + s) q
        (bit_or (bit_or (u32 (t << 26)) (u32 (d << 21))) (u32 (s << 16))) q (omega arith)
        (omega arith) (omega arith) in
    omega arith

-- Reading the fields of a sum gives them back.
pub id_fields-id_value : (f : IdFields) → IsIdFields f → id_fields (id_value f) ≡ f
id_fields-id_value f h = λ i. record {
  type = type_path i;
  destination = destination_path i;
  source = source_path i;
  sequence = sequence_path i;
}
  where
    v : ℕ
    v = id_value f

    small : type_value f.type < 8
    small = type_value-lt f.type h.type_in

    type_path : (id_fields v).type ≡ f.type
    type_path =
        ap to_message_type (omega (arith, bit_and_mask 3 (v / 67108864), small))
        ∙ to_message_type-type_value f.type

    destination_path : (id_fields v).destination ≡ f.destination
    destination_path = omega (arith, bit_and_mask 5 (v / 2097152))

    source_path : (id_fields v).source ≡ f.source
    source_path = omega (arith, bit_and_mask 5 (v / 65536))

    sequence_path : (id_fields v).sequence ≡ f.sequence
    sequence_path = omega (arith, bit_and_mask 16 v)

-- On extended identifiers the fields make the identifier up.
pub id_value-id_fields : (id : ℕ) → id ≤ extended_id_max → id_value (id_fields id) ≡ id
id_value-id_fields id h = omega (
  arith,
  type_value-to_message_type (raw_type id) (omega (arith, bit_and_mask 3 (id / 67108864))),
  bit_and_mask 3 (id / 67108864),
  bit_and_mask 5 (id / 2097152),
  bit_and_mask 5 (id / 65536),
  bit_and_mask 16 id,
)

-- For fields in range, the packed identifier is their sum and is no larger than 29 bits.
pub make_id_sum :
    (f : IdFields)
    → IsIdFields f
    → make_id f.type f.destination f.source f.sequence ≡ some (id_value f)
unfolding make_id
make_id_sum f h = ground (
  arith,
  type_value-lt f.type h.type_in,
  pack_id_sum (type_value f.type) f.destination f.source f.sequence,
)

pub parse_id-some : (id : ℕ) → id ≤ extended_id_max → parse_id id ≡ some (id_fields id)
unfolding parse_id
parse_id-some id h = ground (arith, bit_and_mask 3 (id / 67108864))

-- What makes an identifier has its fields in range, the sequence being typed.
make_id_ranges :
    (f : IdFields) (id : ℕ)
    → f.sequence < 65536
    → make_id f.type f.destination f.source f.sequence ≡ some id
    → IsIdFields f
unfolding make_id
make_id_ranges f id hs e = record {
  type_in = λ counted. ground arith;
  destination_in = ground arith;
  source_in = ground arith;
  sequence_in = hs;
}

make_id_inversion :
    (f : IdFields) (id : ℕ)
    → f.sequence < 65536
    → make_id f.type f.destination f.source f.sequence ≡ some id
    → IsIdFields f × (id ≡ id_value f)
make_id_inversion f id hs e =
    let ranges = make_id_ranges f id hs e in (ranges, cc (make_id_sum f ranges))

pub id_value-le : (f : IdFields) → IsIdFields f → id_value f ≤ extended_id_max
id_value-le f h = omega (arith, type_value-lt f.type h.type_in)

pub id_fields-IsIdFields : (id : ℕ) → IsIdFields (id_fields id)
id_fields-IsIdFields id = record {
  type_in = λ e. omega (
    arith,
    ap type_value e,
    type_value-to_message_type (raw_type id) (omega (arith, bit_and_mask 3 (id / 67108864))),
    bit_and_mask 3 (id / 67108864),
  );
  destination_in = omega (arith, bit_and_mask 5 (id / 2097152));
  source_in = omega (arith, bit_and_mask 5 (id / 65536));
  sequence_in = omega (arith, bit_and_mask 16 id);
}

-- `can_protocol_make_id` followed by `can_protocol_parse_id`: for a sequence of 16 bits, an
-- identifier that is made is at most 29 bits long and parses to the fields that it was made of.
pub parse_id-make_id :
    (f : IdFields) (id : ℕ)
    → f.sequence < 65536
    → make_id f.type f.destination f.source f.sequence ≡ some id
    → (id ≤ extended_id_max) × (parse_id id ≡ some f)
parse_id-make_id f id hs e =
    let (ranges, sum) = make_id_inversion f id hs e in
    let le = id_value-le f ranges in
    (omega arith, rw (sum, parse_id-some (id_value f) le, id_fields-id_value f ranges))

-- `can_protocol_parse_id` succeeds on every identifier of 29 bits, with fields in range, and
-- making an identifier of them gives it back; on every larger number it fails.
pub make_id-parse_id :
    (id : ℕ)
    → (id ≤ extended_id_max
        → (f : IdFields) × (parse_id id ≡ some f)
          × IsIdFields f
          × (make_id f.type f.destination f.source f.sequence ≡ some id))
      × (extended_id_max < id → parse_id id ≡ none)
unfolding parse_id
make_id-parse_id id = (
  λ h. (
    id_fields id,
    parse_id-some id h,
    id_fields-IsIdFields id,
    rw (make_id_sum (id_fields id) (id_fields-IsIdFields id), id_value-id_fields id h),
  ),
  λ h. ground arith,
)

-- For a sequence of 16 bits, `can_protocol_make_id` refuses exactly the counting type and the nodes
-- above broadcast.
pub make_id-none_iff :
    (f : IdFields)
    → f.sequence < 65536
    → (make_id f.type f.destination f.source f.sequence ≡ none)
      ↔ ((f.type ≡ type_count) ⊎ ((node_broadcast < f.destination) ⊎ (node_broadcast < f.source)))
unfolding make_id
make_id-none_iff f hs = (
  λ e. ground (arith, pack_id_sum (type_value f.type) f.destination f.source f.sequence),
  λ h. ground arith,
)

-- Identifiers are ordered by type first: of two that are made with sequences of 16 bits, the one of
-- the smaller type is the smaller number, which wins CAN arbitration, whatever the other fields
-- are.
pub make_id_arbitration :
    (f g : IdFields) (i j : ℕ)
    → f.sequence < 65536
    → g.sequence < 65536
    → type_value f.type < type_value g.type
    → make_id f.type f.destination f.source f.sequence ≡ some i
    → make_id g.type g.destination g.source g.sequence ≡ some j
    → i < j
make_id_arbitration f g i j hf hg h ei ej =
    let (rf, sf) = make_id_inversion f i hf ei in
    let (rg, sg) = make_id_inversion g j hg ej in omega (arith, sf, sg)

-- What parses is the sum of its fields, which are in range.
pub parse_id_inversion :
    (id : ℕ) (f : IdFields) → parse_id id ≡ some f → IsIdFields f × (id ≡ id_value f)
unfolding parse_id
parse_id_inversion id f e =
    let fields : id_fields id ≡ f = ground arith in
    (rw (← fields) (id_fields-IsIdFields id), rw (← fields, id_value-id_fields id (ground arith)))

pub parse_id-id_value : (f : IdFields) → IsIdFields f → parse_id (id_value f) ≡ some f
parse_id-id_value f h = rw (parse_id-some (id_value f) (id_value-le f h), id_fields-id_value f h)
