-- ===== src/Rf/PhaseStates.antt =====
-- stm32/app/include/rf/phase_states_2_4ghz.h and the table at the top of
-- stm32/app/src/rf/commands.c: the calibrated control words of the phase shifter.
use beamforming_software.Prelude.{ℕ, List, [], ◌∷◌, ◌++◌, map, get_or}

-- The value of each `OPTIMIZED_STATE_n`, in the order of `n`: OPT in bit 8, D7 to D0 below.
abbrev low_states : List ℕ
low_states =
    0b000000000 ∷ 0b100000001 ∷ 0b000000010 ∷ 0b100000011 ∷ 0b000000100 ∷ 0b100000101 ∷ 0b000000110
    ∷ 0b000000111 ∷ 0b100000111 ∷ 0b000001000 ∷ 0b000001001 ∷ 0b000001010 ∷ 0b000001011
    ∷ 0b100001011 ∷ 0b000001100 ∷ 0b000001101 ∷ 0b000010000 ∷ 0b000010001 ∷ 0b000010010
    ∷ 0b100010011 ∷ 0b000010100 ∷ 0b000010101 ∷ 0b000010110 ∷ 0b000010111 ∷ 0b100010111
    ∷ 0b000011000 ∷ 0b000011001 ∷ 0b000011010 ∷ 0b000011011 ∷ 0b100011011 ∷ 0b000011100
    ∷ 0b000011101 ∷ 0b000100000 ∷ 0b000100001 ∷ 0b100011111 ∷ 0b000100011 ∷ 0b000100100
    ∷ 0b000100101 ∷ 0b000100110 ∷ 0b100100110 ∷ 0b100100111 ∷ 0b000101000 ∷ 0b100101000
    ∷ 0b100101001 ∷ 0b000101010 ∷ 0b100101011 ∷ 0b000101100 ∷ 0b000101101 ∷ 0b100101101
    ∷ 0b100110000 ∷ 0b100101111 ∷ 0b100110010 ∷ 0b100110011 ∷ 0b100110100 ∷ 0b100110101
    ∷ 0b100110110 ∷ 0b100110111 ∷ 0b000111000 ∷ 0b100111000 ∷ 0b100111001 ∷ 0b100111010
    ∷ 0b100111011 ∷ 0b000111100 ∷ 0b000111101 ∷ 0b101000000 ∷ 0b100111110 ∷ 0b101000010
    ∷ 0b101000011 ∷ 0b001000100 ∷ 0b101000101 ∷ 0b001000110 ∷ 0b101000111 ∷ 0b101000111
    ∷ 0b001001000 ∷ 0b101001000 ∷ 0b001001010 ∷ 0b001001011 ∷ 0b101001011 ∷ 0b001001100
    ∷ 0b001001101 ∷ 0b001010000 ∷ 0b101010001 ∷ 0b001010010 ∷ 0b101010011 ∷ 0b001010100
    ∷ 0b101010100 ∷ 0b001010110 ∷ 0b001010111 ∷ 0b101010111 ∷ 0b001011000 ∷ 0b001011001
    ∷ 0b001011010 ∷ 0b001011011 ∷ 0b101011011 ∷ 0b001011100 ∷ 0b001011101 ∷ 0b001100000
    ∷ 0b101100001 ∷ 0b101011111 ∷ 0b101100011 ∷ 0b001100100 ∷ 0b001100101 ∷ 0b101100101
    ∷ 0b001100111 ∷ 0b101100111 ∷ 0b001101000 ∷ 0b001101001 ∷ 0b101101001 ∷ 0b001101011
    ∷ 0b101101011 ∷ 0b101101011 ∷ 0b001101100 ∷ 0b101101100 ∷ 0b101110000 ∷ 0b001110010
    ∷ 0b101101111 ∷ 0b101110011 ∷ 0b001110100 ∷ 0b101110101 ∷ 0b001110110 ∷ 0b101110111
    ∷ 0b001111000 ∷ 0b001111001 ∷ 0b101111001 ∷ 0b001111010 ∷ 0b101111011 ∷ 0b101111011
    ∷ 0b001111100 ∷ []

abbrev high_states : List ℕ
high_states =
    0b001111101 ∷ 0b101111101 ∷ 0b001111110 ∷ 0b010000000 ∷ 0b110000001 ∷ 0b010000010 ∷ 0b110000011
    ∷ 0b010000100 ∷ 0b110000101 ∷ 0b010000110 ∷ 0b010000111 ∷ 0b110000111 ∷ 0b010001000
    ∷ 0b010001001 ∷ 0b010001010 ∷ 0b010001011 ∷ 0b110001011 ∷ 0b010001100 ∷ 0b010001101
    ∷ 0b010010000 ∷ 0b110001110 ∷ 0b010010010 ∷ 0b010010011 ∷ 0b010010100 ∷ 0b110010100
    ∷ 0b110010101 ∷ 0b110010110 ∷ 0b110010111 ∷ 0b010011000 ∷ 0b010011001 ∷ 0b010011010
    ∷ 0b010011011 ∷ 0b110011011 ∷ 0b010011100 ∷ 0b010011101 ∷ 0b010100000 ∷ 0b010011111
    ∷ 0b010100010 ∷ 0b110100011 ∷ 0b010100100 ∷ 0b110100101 ∷ 0b010100110 ∷ 0b010100111
    ∷ 0b110100111 ∷ 0b010101000 ∷ 0b010101001 ∷ 0b010101010 ∷ 0b110101010 ∷ 0b110101011
    ∷ 0b010101100 ∷ 0b110101101 ∷ 0b010101110 ∷ 0b010101111 ∷ 0b010110010 ∷ 0b010110011
    ∷ 0b010110100 ∷ 0b010110101 ∷ 0b010110110 ∷ 0b010110111 ∷ 0b110110111 ∷ 0b010111000
    ∷ 0b010111001 ∷ 0b010111010 ∷ 0b010111011 ∷ 0b110111011 ∷ 0b010111100 ∷ 0b110111101
    ∷ 0b010111110 ∷ 0b111000001 ∷ 0b011000010 ∷ 0b111000011 ∷ 0b011000100 ∷ 0b011000101
    ∷ 0b111000101 ∷ 0b011000111 ∷ 0b111000111 ∷ 0b011001000 ∷ 0b111001000 ∷ 0b111001001
    ∷ 0b011001010 ∷ 0b111001011 ∷ 0b111001011 ∷ 0b011001100 ∷ 0b011001101 ∷ 0b011010001
    ∷ 0b011010010 ∷ 0b111001111 ∷ 0b111010011 ∷ 0b011010100 ∷ 0b111010101 ∷ 0b011010110
    ∷ 0b111010111 ∷ 0b011011000 ∷ 0b011011000 ∷ 0b111011001 ∷ 0b011011010 ∷ 0b111011011
    ∷ 0b111011011 ∷ 0b011011100 ∷ 0b011011101 ∷ 0b111100000 ∷ 0b111011110 ∷ 0b111100010
    ∷ 0b111100011 ∷ 0b011100100 ∷ 0b111100100 ∷ 0b011100110 ∷ 0b011100111 ∷ 0b111100111
    ∷ 0b011101000 ∷ 0b011101001 ∷ 0b111101001 ∷ 0b011101011 ∷ 0b111101011 ∷ 0b111101011
    ∷ 0b011101100 ∷ 0b011101101 ∷ 0b011110001 ∷ 0b011110010 ∷ 0b111110011 ∷ 0b111101111
    ∷ 0b011110100 ∷ 0b111110101 ∷ 0b011110110 ∷ 0b111110111 ∷ 0b011111000 ∷ 0b011111001
    ∷ 0b111111001 ∷ []

abbrev pub optimized_states : List ℕ
optimized_states = low_states ++ high_states

-- The enumerator `OPTIMIZED_STATE_n`, as the number that the enumeration gives it.
abbrev pub optimized_state : ℕ → ℕ
optimized_state n = get_or optimized_states n 0

-- `optimizedPhaseStateByIndex`: which enumerator each index has.
abbrev pub optimized_phase_state_by_index : List ℕ
optimized_phase_state_by_index = map optimized_state (
    0 ∷ 1 ∷ 2 ∷ 3 ∷ 4 ∷ 5 ∷ 6 ∷ 7 ∷ 8 ∷ 9 ∷ 10 ∷ 11 ∷ 12 ∷ 13 ∷ 14 ∷ 15 ∷ 16 ∷ 17 ∷ 18 ∷ 19 ∷ 20
    ∷ 21 ∷ 22 ∷ 23 ∷ 24 ∷ 25 ∷ 26 ∷ 27 ∷ 28 ∷ 29 ∷ 30 ∷ 31 ∷ 32 ∷ 33 ∷ 34 ∷ 35 ∷ 36 ∷ 37 ∷ 38 ∷ 39
    ∷ 40 ∷ 41 ∷ 42 ∷ 43 ∷ 44 ∷ 45 ∷ 46 ∷ 47 ∷ 48 ∷ 49 ∷ 50 ∷ 51 ∷ 52 ∷ 53 ∷ 54 ∷ 55 ∷ 56 ∷ 57 ∷ 58
    ∷ 59 ∷ 60 ∷ 61 ∷ 62 ∷ 63 ∷ 64 ∷ 65 ∷ 66 ∷ 67 ∷ 68 ∷ 69 ∷ 70 ∷ 71 ∷ 72 ∷ 73 ∷ 74 ∷ 75 ∷ 76 ∷ 77
    ∷ 78 ∷ 79 ∷ 80 ∷ 81 ∷ 82 ∷ 83 ∷ 84 ∷ 85 ∷ 86 ∷ 87 ∷ 88 ∷ 89 ∷ 90 ∷ 91 ∷ 92 ∷ 93 ∷ 94 ∷ 95 ∷ 96
    ∷ 97 ∷ 98 ∷ 99 ∷ 100 ∷ 101 ∷ 102 ∷ 103 ∷ 104 ∷ 105 ∷ 106 ∷ 107 ∷ 108 ∷ 109 ∷ 110 ∷ 111 ∷ 112
    ∷ 113 ∷ 114 ∷ 115 ∷ 116 ∷ 117 ∷ 118 ∷ 119 ∷ 120 ∷ 121 ∷ 122 ∷ 123 ∷ 124 ∷ 125 ∷ 126 ∷ 127 ∷ 128
    ∷ 129 ∷ 130 ∷ 131 ∷ 132 ∷ 133 ∷ 134 ∷ 135 ∷ 136 ∷ 137 ∷ 138 ∷ 139 ∷ 140 ∷ 141 ∷ 142 ∷ 143 ∷ 144
    ∷ 145 ∷ 146 ∷ 147 ∷ 148 ∷ 149 ∷ 150 ∷ 151 ∷ 152 ∷ 153 ∷ 154 ∷ 155 ∷ 156 ∷ 157 ∷ 158 ∷ 159 ∷ 160
    ∷ 161 ∷ 162 ∷ 163 ∷ 164 ∷ 165 ∷ 166 ∷ 167 ∷ 168 ∷ 169 ∷ 170 ∷ 171 ∷ 172 ∷ 173 ∷ 174 ∷ 175 ∷ 176
    ∷ 177 ∷ 178 ∷ 179 ∷ 180 ∷ 181 ∷ 182 ∷ 183 ∷ 184 ∷ 185 ∷ 186 ∷ 187 ∷ 188 ∷ 189 ∷ 190 ∷ 191 ∷ 192
    ∷ 193 ∷ 194 ∷ 195 ∷ 196 ∷ 197 ∷ 198 ∷ 199 ∷ 200 ∷ 201 ∷ 202 ∷ 203 ∷ 204 ∷ 205 ∷ 206 ∷ 207 ∷ 208
    ∷ 209 ∷ 210 ∷ 211 ∷ 212 ∷ 213 ∷ 214 ∷ 215 ∷ 216 ∷ 217 ∷ 218 ∷ 219 ∷ 220 ∷ 221 ∷ 222 ∷ 223 ∷ 224
    ∷ 225 ∷ 226 ∷ 227 ∷ 228 ∷ 229 ∷ 230 ∷ 231 ∷ 232 ∷ 233 ∷ 234 ∷ 235 ∷ 236 ∷ 237 ∷ 238 ∷ 239 ∷ 240
    ∷ 241 ∷ 242 ∷ 243 ∷ 244 ∷ 245 ∷ 246 ∷ 247 ∷ 248 ∷ 249 ∷ 250 ∷ 251 ∷ 252 ∷ 253 ∷ 254 ∷ 255 ∷ [])
