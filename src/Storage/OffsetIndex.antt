-- ===== src/Storage/OffsetIndex.antt =====
-- src/OffsetIndex.cpp, include/streamforge/OffsetIndex.hpp: the sparse index of a segment.
pub mod Lookup
pub mod FileFormat
mod Runs
use stream_forge.Base.{
  ℕ, zero, suc, ◌+◌, ◌-◌, ◌*◌, ◌/◌, List, [], ◌∷◌, ◌++◌, Bool, true, ltb, ◌==◌, if◌then◌else◌,
  length, take, drop, get_or,
}
use stream_forge.Storage.File.{WriteOutcome, write, truncate}
use stream_forge.Storage.RecordCodec.{read_u32, write_u32}

pub record IndexEntry : Type 0 where
  pub relative_offset : ℕ
  pub file_position : ℕ

unfoldable pub add_entry : List IndexEntry → ℕ → ℕ → List IndexEntry
add_entry entries relative_offset file_position =
    entries ++ (record { relative_offset = relative_offset; file_position = file_position } ∷ [])

-- std::upper_bound over entries that are sorted by their offsets: the position of the first one
-- above the target.
pub upper_bound : ℕ → List IndexEntry → ℕ
upper_bound target [] = 0
upper_bound target (e ∷ entries) =
    let rest = upper_bound target entries in if ltb target e.relative_offset then 0 else suc rest

abbrev pub no_entry : IndexEntry
no_entry = record { relative_offset = 0; file_position = 0 }

unfoldable pub lookup : List IndexEntry → ℕ → ℕ
unfolding upper_bound
lookup [] target = 0
lookup (e ∷ entries) target =
    let it = upper_bound target (e ∷ entries) in
    if it == 0 then e.file_position else (get_or (e ∷ entries) (it - 1) no_entry).file_position

entry_bytes : IndexEntry → List ℕ
entry_bytes e = write_u32 e.relative_offset ++ write_u32 e.file_position

pub all_bytes : List IndexEntry → List ℕ
unfolding entry_bytes
all_bytes [] = []
all_bytes (e ∷ entries) = entry_bytes e ++ all_bytes entries

-- The entries that the loop reads from the i-th on, n of them.
load_entries : List ℕ → ℕ → ℕ → List IndexEntry
load_entries buffer i zero = []
load_entries buffer i (suc n) =
    record {
      relative_offset = read_u32 buffer (i * 8);
      file_position = read_u32 buffer (i * 8 + 4);
    }
    ∷ load_entries buffer (i + 1) n

-- The whole file is read in one call, which succeeds.
unfoldable pub load_from_file : List ℕ → List IndexEntry
unfolding load_entries
load_from_file file = if length file == 0 then [] else load_entries file 0 (length file / 8)

-- The new entry is kept in memory whatever becomes of the write.
unfoldable pub append_to_file :
    List IndexEntry → List ℕ → ℕ → ℕ → WriteOutcome → List IndexEntry × List ℕ × Bool
append_to_file entries file relative_offset file_position outcome =
    let (file', done) = write file (write_u32 relative_offset ++ write_u32 file_position) outcome in
    (add_entry entries relative_offset file_position, file', done)

unfoldable pub rewrite_file : List IndexEntry → List ℕ → WriteOutcome → List ℕ × Bool
rewrite_file [] file outcome = (truncate file 0, true)
rewrite_file (e ∷ entries) file outcome = write (truncate file 0) (all_bytes (e ∷ entries)) outcome
