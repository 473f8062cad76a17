-- ===== src/Storage/OffsetIndex/FileFormat.antt =====
-- The index file of src/OffsetIndex.cpp: what is written is read back.
use stream_forge.Base.{
  ℕ, ◌+◌, ◌*◌, ◌/◌, ◌^◌, ◌<◌, ◌≡◌, refl, sym, ap, ◌∙◌, List, [], ◌∷◌, ◌++◌, arith, All, All-append,
  append-nil, drop-add, length, drop, ◌==◌, length-append, drop-length_append, get_or-drop,
  append_assoc, Bool-cases, inl, inr,
}
use stream_forge.Base.Bytes.{be32, word32, store32}
use stream_forge.Storage.RecordCodec.{read_u32, write_u32}
use stream_forge.Storage.RecordCodec.Layout.{write_u32-be32}
use stream_forge.Storage.File.{written, truncate}
use stream_forge.Storage.OffsetIndex.{
  IndexEntry, entry_bytes, all_bytes, load_entries, load_from_file, append_to_file, rewrite_file,
  add_entry,
}

-- Both numbers fit in 32 bits.
pub record IsEntry (e : IndexEntry) : Type 0 where
  pub offset_fits : e.relative_offset < 2 ^ 32
  pub position_fits : e.file_position < 2 ^ 32

read_u32-drop : (n i : ℕ) (buffer : List ℕ) → read_u32 (drop n buffer) i ≡ read_u32 buffer (n + i)
unfolding read_u32
read_u32-drop n i buffer =
    let e1 : n + (i + 1) ≡ n + i + 1 = omega arith in
    let e2 : n + (i + 2) ≡ n + i + 2 = omega arith in
    let e3 : n + (i + 3) ≡ n + i + 3 = omega arith in
    rw
      (
        get_or-drop n i buffer 0,
        get_or-drop n (i + 1) buffer 0,
        get_or-drop n (i + 2) buffer 0,
        get_or-drop n (i + 3) buffer 0,
        e1,
        e2,
        e3,
      )
      refl

length-entry_bytes : (e : IndexEntry) → length (entry_bytes e) ≡ 8
unfolding entry_bytes write_u32 store32
length-entry_bytes e = refl

length-all_bytes : (entries : List IndexEntry) → length (all_bytes entries) ≡ length entries * 8
unfolding all_bytes
length-all_bytes [] = refl
length-all_bytes (e ∷ entries) =
    rw (length-append (entry_bytes e) (all_bytes entries), length-all_bytes entries)
      (omega (arith, length-entry_bytes e))

all_bytes-append : (xs ys : List IndexEntry) → all_bytes (xs ++ ys) ≡ all_bytes xs ++ all_bytes ys
unfolding all_bytes
all_bytes-append [] ys = refl
all_bytes-append (e ∷ xs) ys =
    rw (all_bytes-append xs ys) (sym (append_assoc (entry_bytes e) (all_bytes xs) (all_bytes ys)))

read_offset :
    (e : IndexEntry) (rest : List ℕ)
    → IsEntry e
    → read_u32 (entry_bytes e ++ rest) 0 ≡ e.relative_offset
unfolding entry_bytes be32 read_u32
read_offset e rest h =
    rw (write_u32-be32 e.relative_offset) (word32 e.relative_offset h.offset_fits)

read_position :
    (e : IndexEntry) (rest : List ℕ)
    → IsEntry e
    → read_u32 (entry_bytes e ++ rest) 4 ≡ e.file_position
unfolding entry_bytes be32 read_u32
read_position e rest h =
    rw (write_u32-be32 e.relative_offset, write_u32-be32 e.file_position)
      (word32 e.file_position h.position_fits)

load_entries-all_bytes :
    (buffer : List ℕ) (i : ℕ) (entries : List IndexEntry)
    → All IsEntry entries
    → drop (i * 8) buffer ≡ all_bytes entries
    → load_entries buffer i (length entries) ≡ entries
unfolding load_entries all_bytes
load_entries-all_bytes buffer i [] h d = refl
load_entries-all_bytes buffer i (e ∷ entries) h d =
    let n : i * 8 + 0 ≡ i * 8 = omega arith in
    let o : read_u32 buffer (i * 8) ≡ e.relative_offset =
      ap (read_u32 buffer) (sym n)
      ∙ sym (read_u32-drop (i * 8) 0 buffer)
      ∙ ap (λ b. read_u32 b 0) d
      ∙ read_offset e (all_bytes entries) h.0 in
    let p : read_u32 buffer (i * 8 + 4) ≡ e.file_position =
      sym (read_u32-drop (i * 8) 4 buffer)
      ∙ ap (λ b. read_u32 b 4) d
      ∙ read_position e (all_bytes entries) h.0 in
    let m : (i + 1) * 8 ≡ i * 8 + 8 = omega arith in
    let r : drop ((i + 1) * 8) buffer ≡ all_bytes entries =
      ap (λ k. drop k buffer) m
      ∙ drop-add (i * 8) 8 buffer
      ∙ ap (drop 8) d
      ∙ ap (λ k. drop k (entry_bytes e ++ all_bytes entries)) (sym (length-entry_bytes e))
      ∙ drop-length_append (entry_bytes e) (all_bytes entries) in
    rw (o, p, load_entries-all_bytes buffer (i + 1) entries h.1 r) refl

-- The file that holds the bytes of these entries is loaded as these entries.
load_from_file-all_bytes :
    (entries : List IndexEntry) → All IsEntry entries → load_from_file (all_bytes entries) ≡ entries
unfolding load_from_file
load_from_file-all_bytes entries h =
    let l = length-all_bytes entries in
    let q : length (all_bytes entries) / 8 ≡ length entries = omega arith in
    elim (Bool-cases (length (all_bytes entries) == 0)) [
      | inl z ↦ rw z (none_left entries (ground arith))
      | inr z ↦ rw (z, q) (load_entries-all_bytes (all_bytes entries) 0 entries h refl)
    ]
  where
    none_left : (es : List IndexEntry) → length es ≡ 0 → [] ≡ es
    none_left [] e = refl
    none_left (x ∷ es) e = absurd (omega arith)

rewritten :
    (entries : List IndexEntry) (file : List ℕ)
    → (rewrite_file entries file written).0 ≡ all_bytes entries
unfolding rewrite_file truncate all_bytes
rewritten [] file = refl
rewritten (e ∷ entries) file = refl

one_entry :
    (x : IndexEntry) → all_bytes (x ∷ []) ≡ write_u32 x.relative_offset ++ write_u32 x.file_position
unfolding all_bytes entry_bytes
one_entry x = append-nil (entry_bytes x)

appended :
    (entries : List IndexEntry) (e : IndexEntry)
    → (append_to_file entries (all_bytes entries) e.relative_offset e.file_position written).1
      ≡ all_bytes (entries ++ (e ∷ []))
unfolding append_to_file
appended entries e =
    rw (all_bytes-append entries (e ∷ [])) (ap (◌++◌ (all_bytes entries)) (sym (one_entry e)))

kept :
    (entries : List IndexEntry) (e : IndexEntry) (file : List ℕ)
    → (append_to_file entries file e.relative_offset e.file_position written).0
      ≡ entries ++ (e ∷ [])
unfolding append_to_file add_entry
kept entries e file = refl

-- What rewrite_file has written, over whatever the file held, is loaded as the entries of the index;
-- and an entry that append_to_file has written behind it is loaded as one more.
pub load_from_file-rewrite_file :
    (entries : List IndexEntry) (e : IndexEntry) (file : List ℕ)
    → All IsEntry entries
    → IsEntry e
    → (load_from_file (rewrite_file entries file written).0 ≡ entries)
      × (load_from_file
            (append_to_file entries
              (rewrite_file entries file written).0
              e.relative_offset
              e.file_position
              written).1
          ≡ (append_to_file entries file e.relative_offset e.file_position written).0)
load_from_file-rewrite_file entries e file h k = (
  rw (rewritten entries file) (load_from_file-all_bytes entries h),
  rw (rewritten entries file, appended entries e, kept entries e file)
      (load_from_file-all_bytes (entries ++ (e ∷ []))
        (All-append IsEntry entries (e ∷ []) h (k, tt))),
)
