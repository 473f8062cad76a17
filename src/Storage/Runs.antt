-- ===== src/Storage/Runs.antt =====
-- Concrete runs of the storage modules, and the theorems at concrete inputs.
use stream_forge.Base.{
  ℕ, ◌-◌, ◌≤◌, ◌^◌, ◌≡◌, ◌↔◌, refl, List, [], ◌∷◌, ◌++◌, arith, length, take, drop,
}
use stream_forge.Base.Bytes.{load32, store32, byteswap32, load64, store64, byteswap64}
use stream_forge.Status.{StatusCode, done, error, fault}
use stream_forge.Storage.Crc32.{calculate}
use stream_forge.Storage.RecordCodec.{
  Record, read_u32, read_u64, write_u32, write_u64, covered, length_field, encode, decode,
  decode_payload, copy_range,
}
use stream_forge.Storage.RecordCodec.Layout.{IsRecord}
use stream_forge.Storage.RecordCodec.RoundTrip.{Accepted, decode-encode}
use stream_forge.Storage.RecordCodec.Sound.{encode-decode, decode-fault}
use stream_forge.Storage.RecordCodec.Torn.{decode_prefix}

abbrev sample : Record
sample = record { offset = 7; timestamp_ms = 1000; key = b'k' ∷ []; value = b'v' ∷ b'w' ∷ [] }

-- The bytes that the sample is written as.
abbrev sample_bytes : List ℕ
sample_bytes =
    0 ∷ 0 ∷ 0 ∷ 27 ∷ 173 ∷ 219 ∷ 167 ∷ 107 ∷ 0 ∷ 0 ∷ 0 ∷ 0 ∷ 0 ∷ 0 ∷ 0 ∷ 7 ∷ 0 ∷ 0 ∷ 0 ∷ 0 ∷ 0 ∷ 0
    ∷ 3 ∷ 232 ∷ 0 ∷ 0 ∷ 0 ∷ 1 ∷ 107 ∷ 118 ∷ 119 ∷ []

encode-sample : encode sample ≡ sample_bytes
unfolding encode covered length_field write_u32 write_u64 store32 byteswap32 store64 byteswap64
    calculate
encode-sample = refl

decode-sample : decode sample_bytes ≡ done sample
unfolding decode decode_payload copy_range read_u32 read_u64 load32 byteswap32 load64 byteswap64
    calculate
decode-sample = refl

-- A header with a good checksum and the key length 0xfffffff0.
abbrev hostile : List ℕ
hostile =
    0 ∷ 0 ∷ 0 ∷ 24 ∷ 65 ∷ 209 ∷ 166 ∷ 255 ∷ 0 ∷ 0 ∷ 0 ∷ 0 ∷ 0 ∷ 0 ∷ 0 ∷ 0 ∷ 0 ∷ 0 ∷ 0 ∷ 0 ∷ 0 ∷ 0
    ∷ 0 ∷ 0 ∷ 255 ∷ 255 ∷ 255 ∷ 240 ∷ []

hostile-Accepted : Accepted hostile
unfolding read_u32 load32 byteswap32 calculate
hostile-Accepted = record {
  has_header = omega arith;
  long_enough = omega arith;
  short_enough = omega arith;
  complete = omega arith;
  crc_matches = refl;
}

decode-encode_example : decode (encode sample ++ (9 ∷ [])) ≡ done sample
decode-encode_example = decode-encode sample (9 ∷ []) (omega arith)

encode-decode_example :
    IsRecord sample × (encode sample ++ drop (length (encode sample)) sample_bytes ≡ sample_bytes)
encode-decode_example = encode-decode sample_bytes sample (omega arith) (omega arith) decode-sample

decode-fault_example : (decode hostile ≡ fault) ↔ (2 ^ 32 - 24 ≤ read_u32 hostile 24)
decode-fault_example = decode-fault hostile (omega arith) hostile-Accepted

length-sample : length (encode sample) ≡ 31
unfolding encode covered length_field write_u32 write_u64 store32 byteswap32 store64 byteswap64
length-sample = refl

decode_prefix_example : decode (take 30 (encode sample)) ≡ error StatusCode.corrupt
decode_prefix_example = decode_prefix sample 30 (omega arith) (omega (arith, length-sample))
