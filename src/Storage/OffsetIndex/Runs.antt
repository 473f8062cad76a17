-- ===== src/Storage/OffsetIndex/Runs.antt =====
-- The theorems on the index at a concrete one.
use stream_forge.Base.{◌≡◌, refl, List, [], ◌∷◌, arith}
use stream_forge.Storage.File.{written}
use stream_forge.Storage.OffsetIndex.{
  IndexEntry, lookup, load_from_file, rewrite_file, append_to_file,
}
use stream_forge.Storage.OffsetIndex.FileFormat.{load_from_file-rewrite_file}

abbrev three : List IndexEntry
three =
    record { relative_offset = 0; file_position = 0 }
    ∷ record { relative_offset = 10; file_position = 4100 }
    ∷ record { relative_offset = 25; file_position = 8300 }
    ∷ []

lookup-between : lookup three 24 ≡ 4100
unfolding lookup
lookup-between = refl

abbrev fourth : IndexEntry
fourth = record { relative_offset = 40; file_position = 12500 }

load_from_file-rewrite_file_example :
    (load_from_file (rewrite_file three (1 ∷ 2 ∷ []) written).0 ≡ three)
    × (load_from_file
          (append_to_file three (rewrite_file three (1 ∷ 2 ∷ []) written).0 40 12500 written).1
        ≡ (append_to_file three (1 ∷ 2 ∷ []) 40 12500 written).0)
load_from_file-rewrite_file_example =
    load_from_file-rewrite_file three fourth (1 ∷ 2 ∷ [])
      (
        record { offset_fits = omega arith; position_fits = omega arith },
        (
          record { offset_fits = omega arith; position_fits = omega arith },
          (record { offset_fits = omega arith; position_fits = omega arith }, tt),
        ),
      )
      (record { offset_fits = omega arith; position_fits = omega arith })
