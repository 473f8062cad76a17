-- ===== src/Wire/ByteOrder.antt =====
-- The conversions between the byte orders of the host and the network, which winsock2 provides:
-- htonl, ntohl, htons and ntohs. They are a parameter; documented is that the converted word, laid
-- out in memory, has its bytes in the order of the network.
use stream_forge.Base.{ℕ, ◌+◌, ◌*◌, ◌/◌, ◌%◌, ◌^◌, ◌<◌, ◌≡◌, List, [], ◌∷◌, arith}
use stream_forge.Base.Bytes.{
  IsByte, load32, store32, byteswap32, be32, store32-byteswap32, byteswap32-load32,
}

unfoldable pub load16 : ℕ → ℕ → ℕ
load16 a b = a + b * 2 ^ 8

unfoldable pub store16 : ℕ → List ℕ
store16 v = (v % 256) ∷ (v / 2 ^ 8 % 256) ∷ []

unfoldable pub be16 : ℕ → List ℕ
be16 v = (v / 2 ^ 8 % 256) ∷ (v % 256) ∷ []

pub record ByteOrder : Type 0 where
  pub htonl : ℕ → ℕ
  pub ntohl : ℕ → ℕ
  pub htons : ℕ → ℕ
  pub ntohs : ℕ → ℕ
  pub htonl_bytes : (v : ℕ) → v < 2 ^ 32 → store32 (htonl v) ≡ be32 v
  pub ntohl_bytes :
      (a b c d : ℕ)
      → IsByte a
      → IsByte b
      → IsByte c
      → IsByte d
      → ntohl (load32 a b c d) ≡ a * 2 ^ 24 + b * 2 ^ 16 + c * 2 ^ 8 + d
  pub htons_bytes : (v : ℕ) → v < 2 ^ 16 → store16 (htons v) ≡ be16 v
  pub ntohs_bytes : (a b : ℕ) → IsByte a → IsByte b → ntohs (load16 a b) ≡ a * 2 ^ 8 + b

unfoldable pub byteswap16 : ℕ → ℕ
byteswap16 v = v % 256 * 2 ^ 8 + v / 2 ^ 8 % 256

pub store16-byteswap16 : (v : ℕ) → store16 (byteswap16 v) ≡ be16 v
unfolding store16 byteswap16 be16
store16-byteswap16 v = ground arith

pub byteswap16-load16 : (a b : ℕ) → IsByte a → IsByte b → byteswap16 (load16 a b) ≡ a * 2 ^ 8 + b
unfolding byteswap16 load16
byteswap16-load16 a b ha hb = omega arith

-- A little-endian host.
abbrev pub little_endian : ByteOrder
little_endian = record {
  htonl = byteswap32;
  ntohl = byteswap32;
  htons = byteswap16;
  ntohs = byteswap16;
  htonl_bytes = λ v h. store32-byteswap32 v;
  ntohl_bytes = byteswap32-load32;
  htons_bytes = λ v h. store16-byteswap16 v;
  ntohs_bytes = byteswap16-load16;
}
