-- ===== src/Platform/BuildInfo.antt =====
-- stm32/app/src/platform/build_info.c: the number of a build, hashed from its revision, a string of
-- bytes, and its node number.
use beamforming_software.Prelude.{ℕ, ◌*◌, ◌<◌, ◌^◌, ◌≡◌, ◌≢◌, arith, List, [], ◌∷◌, u32, bit_xor}
use beamforming_software.Prelude.Xor.{bit_xor-lt, bit_xor_cancel}

abbrev pub hash_step : ℕ → ℕ → ℕ
hash_step hash byte = u32 (bit_xor hash byte * 16777619)

abbrev pub hash_revision : ℕ → List ℕ → ℕ
hash_revision hash [] = hash
hash_revision hash (character ∷ characters) = hash_revision (hash_step hash character) characters

unfoldable pub firmware_build_id : List ℕ → ℕ → ℕ
firmware_build_id revision node_id = hash_step (hash_revision 2166136261 revision) node_id

-- The multiplier is odd, so that the product modulo 2 ^ 32 is reversible.
multiplied :
    (a b : ℕ) → a < 4294967296 → b < 4294967296 → u32 (a * 16777619) ≡ u32 (b * 16777619) → a ≡ b
multiplied a b ha hb e = omega arith

hash_revision-lt :
    (hash : ℕ) (revision : List ℕ) → hash < 2 ^ 32 → hash_revision hash revision < 2 ^ 32
hash_revision-lt hash [] h = h
hash_revision-lt hash (c ∷ cs) h = hash_revision-lt (hash_step hash c) cs (omega arith)

-- For node numbers in a byte, builds of one revision for different nodes have different build ids.
pub firmware_build_id-node :
    (revision : List ℕ) (left right : ℕ)
    → left < 256
    → right < 256
    → left ≢ right
    → firmware_build_id revision left ≢ firmware_build_id revision right
unfolding firmware_build_id
firmware_build_id-node revision left right hl hr ne e =
    let hash = hash_revision 2166136261 revision in
    let small = hash_revision-lt 2166136261 revision (omega arith) in
    ne (
      bit_xor_cancel 32 hash left right (omega arith) (omega arith) (
        multiplied (bit_xor hash left) (bit_xor hash right)
          (bit_xor-lt 32 hash left small (omega arith))
          (bit_xor-lt 32 hash right small (omega arith)) e))
