-- ===== src/Storage/LogSegment/Runs.antt =====
-- Concrete runs of a segment, and the theorems at concrete inputs.
use stream_forge.Base.{
  ◌+◌, ◌^◌, ◌%◌, ◌≡◌, refl, true, false, [], ◌∷◌, ◌++◌, none, arith, length, take, ltb,
  if◌then◌else◌,
}
use stream_forge.Base.Bytes.{store32, byteswap32, store64, byteswap64}
use stream_forge.Status.{StatusCode, done}
use stream_forge.Storage.RecordCodec.{Record, write_u32, write_u64, covered, length_field, encode}
use stream_forge.Storage.RecordCodec.RoundTrip.{length-encode}
use stream_forge.Storage.File.{written, failed}
use stream_forge.Storage.LogSegment.{LogSegment, init, append_with_timestamp, lookup_file_position}
use stream_forge.Storage.LogSegment.Read.{ReadsRecord, read_record_at-lookup_file_position}
use stream_forge.Storage.LogSegment.Contents.{encodes, next_from, Holds, init-Holds}
use stream_forge.Storage.LogSegment.Append.{stamped, append-Holds, append_partial_write}
use stream_forge.Storage.LogSegment.Scan.{recover_and_rebuild_index, verify_and_rebuild_full}
use stream_forge.Storage.OffsetIndex.{rewrite_file}
use stream_forge.Storage.LogSegment.Recovery.{
  last_start, recover_torn, verify_torn, append_then_recover,
}

abbrev first_record : Record
first_record = record { offset = 7; timestamp_ms = 0; key = b'k' ∷ []; value = b'v' ∷ [] }

abbrev fresh : LogSegment
fresh = init 7 4096 [] [] none

fresh-unsealed : fresh.is_sealed ≡ false
unfolding init
fresh-unsealed = refl

length_first : length (encode (stamped first_record 50)) ≡ 30
length_first = length-encode (stamped first_record 50)

append-Holds_example :
    Holds
      (append_with_timestamp fresh first_record 50 written written).0
      (stamped first_record 50 ∷ [])
    × ((append_with_timestamp fresh first_record 50 written written).1 ≡ StatusCode.ok)
append-Holds_example =
    append-Holds fresh [] first_record 50 (init-Holds 7 4096) fresh-unsealed (omega arith)
      (omega (arith, length_first)) (omega (arith, length_first))

append_partial_write_example :
    ¬ Holds (append_with_timestamp fresh first_record 50 (failed 3) written).0 []
append_partial_write_example =
    append_partial_write fresh [] [] first_record 50 3 written (init-Holds 7 4096) fresh-unsealed
      (omega (arith, length_first)) (omega arith)

abbrev sealed : LogSegment
sealed = record fresh { is_sealed = true }

-- A log of one record and five bytes of a second one.
abbrev torn : LogSegment
torn = init 7 4096 (encodes (first_record ∷ []) ++ take 5 (encode first_record)) [] none

torn_size : length torn.log_file ≡ 35
unfolding init encode covered length_field write_u32 write_u64 store32 byteswap32 store64 byteswap64
torn_size = refl

torn_file : torn.log_file ≡ encodes (first_record ∷ []) ++ take 5 (encode first_record)
unfolding init
torn_file = refl

recover_torn_example :
    (seg' : LogSegment) × (recover_and_rebuild_index torn written
      ≡ done (seg', next_from torn.base_offset (first_record ∷ [])))
    × Holds seg' (first_record ∷ [])
    × (seg'.bytes_since_last_index + last_start seg'.index ≡ length (encodes (first_record ∷ [])))
    × (seg'.index_file ≡ (rewrite_file seg'.index torn.index_file written).0)
recover_torn_example =
    recover_torn torn (first_record ∷ []) first_record 5 written torn_file
      (omega (arith, torn_size)) (omega arith, tt) (omega arith)
      (omega (arith, length-encode first_record))

verify_torn_example :
    (seg' : LogSegment) × (verify_and_rebuild_full torn written
      ≡ done (seg', length (encodes (first_record ∷ [])), 1, if ltb 0 5 then 1 else 0))
    × Holds seg' (first_record ∷ [])
verify_torn_example =
    verify_torn torn (first_record ∷ []) first_record 5 written torn_file (omega (arith, torn_size))
      (omega arith, tt) (omega arith) (omega (arith, length-encode first_record))

append_then_recover_example :
    ((seg' : LogSegment) × (recover_and_rebuild_index
          (append_with_timestamp fresh first_record 50 (failed 9) (failed 3)).0
          written
        ≡ done (seg', next_from fresh.base_offset []))
      × Holds seg' [])
    × ((seg' : LogSegment) × (recover_and_rebuild_index
            (append_with_timestamp fresh first_record 50 written (failed 3)).0
            written
          ≡ done (seg', (7 + 1) % 2 ^ 64))
        × Holds seg' (stamped first_record 50 ∷ []))
append_then_recover_example =
    append_then_recover fresh [] first_record 50 9 (failed 3) written (init-Holds 7 4096)
      fresh-unsealed (omega arith) (omega (arith, length_first)) (omega (arith, length_first))
      (omega (arith, length_first))

-- A segment that holds one record.
abbrev grown : LogSegment
grown = (append_with_timestamp fresh first_record 50 written written).0

grown-Holds : Holds grown (stamped first_record 50 ∷ [])
grown-Holds =
    (append-Holds fresh [] first_record 50 (init-Holds 7 4096) fresh-unsealed (omega arith)
      (omega (arith, length_first)) (omega (arith, length_first))).0

read_record_at-lookup_file_position_example :
    ReadsRecord grown (stamped first_record 50 ∷ []) 1000 (lookup_file_position grown 1000)
read_record_at-lookup_file_position_example =
    read_record_at-lookup_file_position grown (stamped first_record 50) [] 1000 grown-Holds
