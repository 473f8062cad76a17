-- ===== src/Base/Bytes.antt =====
-- Bytes, and machine words laid out in memory. A word is a number below 2 ^ 32 or 2 ^ 64; an
-- int64_t is kept as its bit pattern. `memcpy` between a word and a buffer is little-endian on the
-- x86-64 machines that the broker is built for, and `byteswap` is the exchange of the byte order
-- that src/RecordCodec.cpp spells by masks and shifts.
use Prim.Native.Nat.{ℕ, ◌+◌, ◌*◌, ◌/◌, ◌%◌, ◌^◌, ◌<◌}
use mathlib.Core.Path.{◌≡◌}
use mathlib.Core.List.{List, [], ◌∷◌}
use mathlib.Core.Bool.{Bool}
use stream_forge.Base.Tests.{ltb}
use native.Mathlib.Omega.{arith}

abbrev pub IsByte : ℕ → Type 0
IsByte b = b < 256

abbrev pub u32_mod : ℕ
u32_mod = 2 ^ 32

abbrev pub u64_mod : ℕ
u64_mod = 2 ^ 64

-- `a < b` on int64_t values, of which these are the bit patterns.
abbrev pub signed_lt : ℕ → ℕ → Bool
signed_lt a b = ltb ((a + 2 ^ 63) % 2 ^ 64) ((b + 2 ^ 63) % 2 ^ 64)

unfoldable pub load32 : ℕ → ℕ → ℕ → ℕ → ℕ
load32 a b c d = a + b * 2 ^ 8 + c * 2 ^ 16 + d * 2 ^ 24

unfoldable pub store32 : ℕ → List ℕ
store32 v = (v % 256) ∷ (v / 2 ^ 8 % 256) ∷ (v / 2 ^ 16 % 256) ∷ (v / 2 ^ 24 % 256) ∷ []

unfoldable pub byteswap32 : ℕ → ℕ
byteswap32 v =
    v % 256 * 2 ^ 24 + v / 2 ^ 8 % 256 * 2 ^ 16 + v / 2 ^ 16 % 256 * 2 ^ 8 + v / 2 ^ 24 % 256

pub byteswap32-lt : (v : ℕ) → byteswap32 v < u32_mod
unfolding byteswap32
byteswap32-lt v = omega arith

-- The big-endian bytes of a word.
unfoldable pub be32 : ℕ → List ℕ
be32 v = (v / 2 ^ 24 % 256) ∷ (v / 2 ^ 16 % 256) ∷ (v / 2 ^ 8 % 256) ∷ (v % 256) ∷ []

pub store32-byteswap32 : (v : ℕ) → store32 (byteswap32 v) ≡ be32 v
unfolding store32 byteswap32 be32
store32-byteswap32 v = ground arith

pub byteswap32-load32 :
    (a b c d : ℕ)
    → IsByte a
    → IsByte b
    → IsByte c
    → IsByte d
    → byteswap32 (load32 a b c d) ≡ a * 2 ^ 24 + b * 2 ^ 16 + c * 2 ^ 8 + d
unfolding load32 byteswap32
byteswap32-load32 a b c d ha hb hc hd = omega arith

unfoldable pub load64 : ℕ → ℕ → ℕ → ℕ → ℕ → ℕ → ℕ → ℕ → ℕ
load64 a b c d e f g h =
    a + b * 2 ^ 8 + c * 2 ^ 16 + d * 2 ^ 24 + e * 2 ^ 32 + f * 2 ^ 40 + g * 2 ^ 48 + h * 2 ^ 56

unfoldable pub store64 : ℕ → List ℕ
store64 v =
    (v % 256)
    ∷ (v / 2 ^ 8 % 256)
    ∷ (v / 2 ^ 16 % 256)
    ∷ (v / 2 ^ 24 % 256)
    ∷ (v / 2 ^ 32 % 256)
    ∷ (v / 2 ^ 40 % 256)
    ∷ (v / 2 ^ 48 % 256)
    ∷ (v / 2 ^ 56 % 256)
    ∷ []

unfoldable pub byteswap64 : ℕ → ℕ
byteswap64 v =
    v % 256 * 2 ^ 56
    + v / 2 ^ 8 % 256 * 2 ^ 48
    + v / 2 ^ 16 % 256 * 2 ^ 40
    + v / 2 ^ 24 % 256 * 2 ^ 32
    + v / 2 ^ 32 % 256 * 2 ^ 24
    + v / 2 ^ 40 % 256 * 2 ^ 16
    + v / 2 ^ 48 % 256 * 2 ^ 8
    + v / 2 ^ 56 % 256

unfoldable pub be64 : ℕ → List ℕ
be64 v =
    (v / 2 ^ 56 % 256)
    ∷ (v / 2 ^ 48 % 256)
    ∷ (v / 2 ^ 40 % 256)
    ∷ (v / 2 ^ 32 % 256)
    ∷ (v / 2 ^ 24 % 256)
    ∷ (v / 2 ^ 16 % 256)
    ∷ (v / 2 ^ 8 % 256)
    ∷ (v % 256)
    ∷ []

pub store64-byteswap64 : (v : ℕ) → store64 (byteswap64 v) ≡ be64 v
unfolding store64 byteswap64 be64
store64-byteswap64 v = ground arith

-- Reading what was written.
pub word32 :
    (v : ℕ)
    → v < u32_mod
    → byteswap32 (load32 (v / 2 ^ 24 % 256) (v / 2 ^ 16 % 256) (v / 2 ^ 8 % 256) (v % 256)) ≡ v
unfolding byteswap32 load32
word32 v h = omega arith

pub word64 :
    (v : ℕ)
    → v < u64_mod
    → byteswap64 (
        load64
          (v / 2 ^ 56 % 256)
          (v / 2 ^ 48 % 256)
          (v / 2 ^ 40 % 256)
          (v / 2 ^ 32 % 256)
          (v / 2 ^ 24 % 256)
          (v / 2 ^ 16 % 256)
          (v / 2 ^ 8 % 256)
          (v % 256))
      ≡ v
unfolding byteswap64 load64
word64 v h = omega arith

-- Writing what was read.
pub be32-load32 :
    (a b c d : ℕ)
    → IsByte a
    → IsByte b
    → IsByte c
    → IsByte d
    → be32 (byteswap32 (load32 a b c d)) ≡ a ∷ b ∷ c ∷ d ∷ []
unfolding be32 byteswap32 load32
be32-load32 a b c d ha hb hc hd = ground arith

pub be64-load64 :
    (a b c d e f g h : ℕ)
    → IsByte a
    → IsByte b
    → IsByte c
    → IsByte d
    → IsByte e
    → IsByte f
    → IsByte g
    → IsByte h
    → be64 (byteswap64 (load64 a b c d e f g h)) ≡ a ∷ b ∷ c ∷ d ∷ e ∷ f ∷ g ∷ h ∷ []
unfolding be64 byteswap64 load64
be64-load64 a b c d e f g h ha hb hc hd he hf hg hh = ground arith

pub byteswap64-lt : (v : ℕ) → byteswap64 v < u64_mod
unfolding byteswap64
byteswap64-lt v = omega arith
