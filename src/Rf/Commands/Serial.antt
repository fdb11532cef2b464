-- ===== src/Rf/Commands/Serial.antt =====
-- The words as the devices read them.
use beamforming_software.Prelude.{
  ℕ, zero, suc, ◌+◌, ◌-◌, ◌*◌, ◌/◌, ◌%◌, ◌^◌, ◌≤◌, ◌<◌, ◌≡◌, refl, ap, ap₂, ◌∙◌, length, sym, arith,
  not, List, [], ◌∷◌, ◌++◌, ◌==◌, bit_and, bit_or, u8, u16, ◌<<◌,
}
use beamforming_software.Prelude.Bits.{bit_or_disjoint, bit_and_mask, bit_and_single}
use native.Mathlib.Nat.{pow-suc, one-le-pow}
use beamforming_software.Rf.Commands.{
  reverse_loop, reverse_bits, make_ps_command, of_bool, phase_command_max,
}

-- The value with the `n` low bits of `w` in the other order.
abbrev pub reversed_value : ℕ → ℕ → ℕ
reversed_value zero w = 0
reversed_value (suc n) w = w % 2 * 2 ^ n + reversed_value n (w / 2)

-- One round of the loop on a word that still has room.
reverse_round :
    (r w : ℕ) → (r + 1) * 2 ≤ 65536 → u16 (bit_or (r << 1) (bit_and w 1)) ≡ r * 2 + w % 2
reverse_round r w h =
    rw (bit_and_mask 1 w) (omega (arith, bit_or_disjoint 1 r (w % 2) (omega arith)))

room_for_round : (r n : ℕ) → (r + 1) * 2 ^ suc n ≤ 65536 → (r + 1) * 2 ≤ 65536
room_for_round r n h =
    let split : 2 ^ n ≡ suc (2 ^ n - 1) = omega (arith, one-le-pow n 2) in
    omega (arith, ap (λ (t : ℕ). (r + 1) * t) (pow-suc 2 n), ap (λ (t : ℕ). (r + 1) * t) split)

bit_mul : (b p : ℕ) → b < 2 → b * p ≤ p
bit_mul zero p h = omega arith
bit_mul (suc zero) p h = omega arith
bit_mul (suc (suc b)) p h = absurd (omega arith)

reverse_loop_lem :
    (n r w : ℕ) → (r + 1) * 2 ^ n ≤ 65536 → reverse_loop n r w ≡ r * 2 ^ n + reversed_value n w
unfolding reverse_loop
reverse_loop_lem zero r w h = omega arith
reverse_loop_lem (suc n) r w h =
    let doubled = ap (λ (t : ℕ). r * t) (pow-suc 2 n) in
    let whole = ap (λ (t : ℕ). (r + 1) * t) (pow-suc 2 n) in
    let bit = bit_mul (w % 2) (2 ^ n) (omega arith) in
    rw (reverse_round r w (room_for_round r n h))
      (omega (arith, reverse_loop_lem n (r * 2 + w % 2) (w / 2) (omega arith), doubled))

-- `reverseBits` on words of up to sixteen bits turns the order of the low bits round.
pub reverse_bits_lem : (w n : ℕ) → 2 ^ n ≤ 65536 → reverse_bits w n ≡ reversed_value n w
unfolding reverse_bits
reverse_bits_lem w n h = omega (arith, reverse_loop_lem n 0 w (omega arith))

opt_value : (w : ℕ) → w < 512 → of_bool (not (bit_and (u16 w) 0x0100 == 0)) ≡ w / 256
opt_value w h = ground (arith, bit_and_single 8 (u16 w))

-- the join of the three fields
abbrev join_fields : ℕ → ℕ → ℕ → ℕ
join_fields bits opt address =
    u16 (bit_or (bit_or (bit_and bits 0xff << 5) (opt << 4)) (bit_and (u8 address) 0x000f))

two_fields : (d o : ℕ) → o < 2 → bit_or (d << 5) (o << 4) ≡ (d * 2 + o) * 16
two_fields d o h = omega (arith, bit_or_disjoint 5 d (o * 16) (omega arith))

join_fields_sum : (d o a : ℕ) → d < 256 → o < 2 → a < 16 → join_fields d o a ≡ d * 32 + o * 16 + a
join_fields_sum d o a hd ho ha =
    let low : bit_and (u8 a) 0x000f ≡ a = omega (arith, bit_and_mask 4 (u8 a)) in
    let high : bit_and d 0xff ≡ d = omega (arith, bit_and_mask 8 d) in
    rw (low, high)
      (omega
        (arith, bit_or_disjoint 4 (d * 2 + o) a ha, ap (λ (t : ℕ). bit_or t a) (two_fields d o ho)))

-- The command word as a sum of its fields.
make_ps_command_sum :
    (w a : ℕ)
    → w < 512
    → a < 16
    → make_ps_command w a ≡ reversed_value 8 w * 32 + w / 256 * 16 + reversed_value 4 a
unfolding make_ps_command
make_ps_command_sum w a hw ha =
    let masked : bit_and (u16 w) 0x00ff ≡ w % 256 = omega (arith, bit_and_mask 8 (u16 w)) in
    let phase : reverse_bits (bit_and (u16 w) 0x00ff) 8 ≡ reversed_value 8 w =
      reverse_bits_lem (bit_and (u16 w) 0x00ff) 8 (omega arith) ∙ (rw masked (omega arith)) in
    let address = reverse_bits_lem a 4 (omega arith) in
    (λ i. join_fields (phase i) (opt_value w hw i) (address i))
    ∙ join_fields_sum (reversed_value 8 w) (w / 256) (reversed_value 4 a) (omega arith)
        (omega arith) (omega arith)

-- The bits of a number as they are sent: highest first, and lowest first.
abbrev pub msb_first : ℕ → ℕ → List ℕ
msb_first zero x = []
msb_first (suc n) x = x / 2 ^ n % 2 ∷ msb_first n (x % 2 ^ n)

abbrev pub lsb_first : ℕ → ℕ → List ℕ
lsb_first zero x = []
lsb_first (suc n) x = x % 2 ∷ lsb_first n (x / 2)

-- the number that a list of bits is, highest first
abbrev bits_value : List ℕ → ℕ
bits_value [] = 0
bits_value (b ∷ bs) = b * 2 ^ length bs + bits_value bs

abbrev AreBits : List ℕ → Type 0
AreBits [] = Unit {0}
AreBits (b ∷ bs) = (b < 2) × AreBits bs

bits_value-lt : (bs : List ℕ) → AreBits bs → bits_value bs < 2 ^ length bs
bits_value-lt [] h = omega arith
bits_value-lt (b ∷ bs) (hb, h) =
    omega (arith, bits_value-lt bs h, bit_mul b (2 ^ length bs) hb, pow-suc 2 (length bs))

split_top : (b p r : ℕ) → b < 2 → r < p → ((b * p + r) / p % 2 ≡ b) × ((b * p + r) % p ≡ r)
split_top zero p r hb h = grind arith
split_top (suc zero) p r hb h = grind arith
split_top (suc (suc b)) p r hb h = absurd (omega arith)

msb_first-bits_value : (bs : List ℕ) → AreBits bs → msb_first (length bs) (bits_value bs) ≡ bs
msb_first-bits_value [] h = refl
msb_first-bits_value (b ∷ bs) (hb, h) =
    let (top, rest) = split_top b (2 ^ length bs) (bits_value bs) hb (bits_value-lt bs h) in
    ap₂ ◌∷◌ top (ap (msb_first (length bs)) rest ∙ msb_first-bits_value bs h)

-- A command of a nine-bit control word and a four-bit address fits thirteen bits and, sent highest
-- bit first, puts on the wire D0 to D7, OPT and A0 to A3.
pub make_ps_command_serial :
    (w a : ℕ)
    → w < 512
    → a < 16
    → (make_ps_command w a ≤ phase_command_max)
      × (msb_first 13 (make_ps_command w a) ≡ lsb_first 9 w ++ lsb_first 4 a)
make_ps_command_serial w a hw ha =
    let bits : List ℕ = lsb_first 9 w ++ lsb_first 4 a in
    let are : AreBits (lsb_first 9 w ++ lsb_first 4 a) = omega arith in
    let sum : make_ps_command w a ≡ bits_value (lsb_first 9 w ++ lsb_first 4 a) =
      omega (arith, make_ps_command_sum w a hw ha) in
    (
      omega (arith, sum, bits_value-lt bits are),
      ap (msb_first 13) sum ∙ msb_first-bits_value bits are,
    )

-- Different control words or addresses give different commands.
pub make_ps_command_injective :
    (w a w' a' : ℕ)
    → w < 512
    → a < 16
    → w' < 512
    → a' < 16
    → make_ps_command w a ≡ make_ps_command w' a'
    → (w ≡ w') × (a ≡ a')
make_ps_command_injective w a w' a' hw ha hw' ha' e =
    let same : lsb_first 9 w ++ lsb_first 4 a ≡ lsb_first 9 w' ++ lsb_first 4 a' =
      sym (make_ps_command_serial w a hw ha).1
      ∙ (ap (msb_first 13) e ∙ (make_ps_command_serial w' a' hw' ha').1) in
    ground arith
