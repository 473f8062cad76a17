-- ===== src/Wire/Runs.antt =====
-- Concrete runs of the wire protocol, and its theorems at concrete inputs.
use stream_forge.Base.{ℕ, ◌≡◌, refl, List, [], ◌∷◌, arith}
use stream_forge.Base.Bytes.{store32, byteswap32}
use stream_forge.Wire.ByteOrder.{ByteOrder, little_endian}
use stream_forge.Wire.FrameCodec.{Frame, write_u32, payload_len, encode}
use stream_forge.Wire.FrameAssembler.{FrameAssembler, extract_next_frame, new_assembler}
use stream_forge.Wire.FrameAssembler.Parse.{
  pending, IsAssembler, parse, seen, extract_next_frame-parse,
}
use stream_forge.Wire.FrameAssembler.Deliver.{deliver, deliver-encode_all}

instance abbrev host : ByteOrder
host = little_endian

abbrev ping : Frame
ping = record { length = 5; type = 1; request_id = 9; body = [] }

abbrev echo : Frame
echo = record { length = 7; type = 2; request_id = 258; body = 65 ∷ 66 ∷ [] }

encode-echo : encode echo ≡ 0 ∷ 0 ∷ 0 ∷ 7 ∷ 2 ∷ 0 ∷ 0 ∷ 1 ∷ 2 ∷ 65 ∷ 66 ∷ []
unfolding encode write_u32 payload_len store32 byteswap32
encode-echo = refl

-- Two frames and the first two bytes of a third, in chunks that respect no boundary.
abbrev chunks : List (List ℕ)
chunks =
    (0 ∷ 0 ∷ [])
    ∷ (0 ∷ 5 ∷ 1 ∷ 0 ∷ 0 ∷ 0 ∷ 9 ∷ 0 ∷ 0 ∷ 0 ∷ 7 ∷ 2 ∷ [])
    ∷ (0 ∷ 0 ∷ 1 ∷ 2 ∷ 65 ∷ 66 ∷ 0 ∷ 0 ∷ [])
    ∷ []

deliver-encode_all_example :
    ((deliver new_assembler chunks).1 ≡ ping ∷ echo ∷ [])
    × (pending (deliver new_assembler chunks).0 ≡ 0 ∷ 0 ∷ [])
unfolding encode write_u32 payload_len store32 byteswap32 parse
deliver-encode_all_example =
    deliver-encode_all (ping ∷ echo ∷ []) (0 ∷ 0 ∷ []) chunks
      (
        record { length_ok = refl; small = omega arith; request_id_lt = omega arith },
        (record { length_ok = refl; small = omega arith; request_id_lt = omega arith }, tt),
      )
      refl refl (omega arith)

-- An assembler that has handed out its first nine bytes.
abbrev used : FrameAssembler
used = record {
  buffer = 0 ∷ 0 ∷ 0 ∷ 5 ∷ 1 ∷ 0 ∷ 0 ∷ 0 ∷ 9 ∷ 0 ∷ 0 ∷ 0 ∷ 7 ∷ 2 ∷ 0 ∷ 0 ∷ 1 ∷ 2 ∷ 65 ∷ 66 ∷ 0 ∷ [];
  read_offset = 9;
}

extract_next_frame-parse_example :
    (seen (extract_next_frame used ping) ≡ parse (pending used))
    × IsAssembler (extract_next_frame used ping).0
extract_next_frame-parse_example =
    extract_next_frame-parse used ping (record { inside = omega arith; fits = omega arith })
