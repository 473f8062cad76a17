-- ===== src/Storage/Crc32.antt =====
-- src/Crc32.cpp and include/streamforge/Crc32.hpp: the table-driven CRC-32 checksum.
use Prim.Native.Nat.{bit_xor}
use stream_forge.Base.{
  ℕ, zero, suc, ◌+◌, ◌/◌, ◌%◌, ◌^◌, ◌<◌, ◌≡◌, refl, List, [], ◌∷◌, ◌++◌, arith, ◌==◌, if◌then◌else◌,
  get_or,
}
use stream_forge.Base.Bytes.{u32_mod}

abbrev pub initial_crc : ℕ
initial_crc = 0xffff_ffff

-- One of the eight rounds by which `get_table` computes an entry.
table_round : ℕ → ℕ
table_round crc = if crc % 2 == 1 then bit_xor (crc / 2) 0xedb8_8320 else crc / 2

table_rounds : ℕ → ℕ → ℕ
table_rounds zero crc = crc
table_rounds (suc j) crc = table_rounds j (table_round crc)

-- The entries from the i-th on, n of them.
table_from : ℕ → ℕ → List ℕ
table_from zero i = []
table_from (suc n) i = table_rounds 8 i ∷ table_from n (i + 1)

pub get_table : List ℕ
unfolding table_from table_rounds table_round
get_table = table_from 256 0

-- The index is a uint8_t, so it always lies in the table.
pub update_byte : ℕ → ℕ → ℕ
unfolding get_table
update_byte raw_crc b = bit_xor (raw_crc / 2 ^ 8) (get_or get_table (bit_xor raw_crc b % 256) 0)

unfoldable pub update : ℕ → List ℕ → ℕ
unfolding update_byte
update raw_crc [] = raw_crc
update raw_crc (b ∷ bytes) = update (update_byte raw_crc b) bytes

-- A uint32_t result.
pub finalize : ℕ → ℕ
finalize raw_crc = bit_xor raw_crc 0xffff_ffff % 2 ^ 32

unfoldable pub calculate : List ℕ → ℕ
unfolding finalize update
calculate bytes = finalize (update initial_crc bytes)

-- A checksum fits the four bytes that the formats give it.
pub calculate-lt : (bytes : List ℕ) → calculate bytes < u32_mod
unfolding calculate
calculate-lt bytes = omega arith

-- A running checksum goes on where the last piece ended.
pub update-append : (raw : ℕ) (xs ys : List ℕ) → update raw (xs ++ ys) ≡ update (update raw xs) ys
unfolding update
update-append raw [] ys = refl
update-append raw (x ∷ xs) ys = update-append (update_byte raw x) xs ys

-- The check value of the CRC-32 catalogue: the checksum of "123456789".
check_value :
    calculate (b'1' ∷ b'2' ∷ b'3' ∷ b'4' ∷ b'5' ∷ b'6' ∷ b'7' ∷ b'8' ∷ b'9' ∷ []) ≡ 0xcbf4_3926
unfolding calculate
check_value = refl
