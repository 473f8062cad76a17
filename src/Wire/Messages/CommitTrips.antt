-- ===== src/Wire/Messages/CommitTrips.antt =====
-- The requests of consumer groups in include/streamforge/ProtocolMessages.hpp that carry offsets or
-- partitions are decoded as they were encoded.
use stream_forge.Base.{
  ℕ, ◌+◌, ◌*◌, ◌/◌, ◌%◌, ◌^◌, ◌<◌, ◌≤◌, ◌≡◌, List, [], ◌∷◌, ◌++◌, some, arith, length,
  length-append, All, append_assoc, append-nil,
}
use stream_forge.Wire.ByteOrder.{ByteOrder}
use stream_forge.Wire.FrameCodec
use stream_forge.Wire.FrameCodec.RoundTrip.{length-write_u16, length-write_u32}
use stream_forge.Wire.Body.{
  read_u16, read_u32, read_u64, read_string, write_string, write_u16, write_u32, write_u64,
}
use stream_forge.Wire.Body.Reads.{
  Reads, pure-Reads, bind-Reads, decode_with, decode_with_lem, read_u16-Reads, read_u32-Reads,
  read_u64-Reads, read_string-Reads, u64_bytes, string_bytes,
}
use stream_forge.Wire.Messages.{read_list}
use stream_forge.Wire.Messages.Lists.{
  list_bytes, length-list_bytes, read_list-Reads, write_list-bytes, require-Reads,
}
use stream_forge.Wire.Messages.Groups.{
  CommitOffsetItemWire, CommitOffsetRequest, read_commit_item, write_commit_item,
  read_commit_offset, encode_commit_offset,
}

abbrev pub Fits : List ℕ → Type 0
Fits s = length s < 2 ^ 16

pub record IsCommitItem (e : CommitOffsetItemWire) : Type 0 where
  pub topic_fits : Fits e.topic
  pub partition_fits : e.partition < 2 ^ 16
  pub offset_fits : e.offset < 2 ^ 64

-- The fields fit, and the count is that of the entries.
pub record IsCommitOffset (m : CommitOffsetRequest) : Type 0 where
  pub group_id_fits : Fits m.group_id
  pub member_id_fits : Fits m.member_id
  pub generation_fits : m.generation < 2 ^ 32
  pub count_fits : m.count < 2 ^ 16
  pub counted : m.count ≡ length m.entries
  pub entries_fit : All IsCommitItem m.entries

module _ ⦃net : ByteOrder⦄ where
  write_string-bytes : (w s : List ℕ) → Fits s → write_string w s ≡ w ++ string_bytes s
  unfolding write_string write_u16
  write_string-bytes w s h =
      let e : length s % 2 ^ 16 ≡ length s = omega arith in rw e (simp (append_assoc, append-nil))

  length-string_bytes : (s : List ℕ) → length (string_bytes s) ≡ 2 + length s
  length-string_bytes s =
      omega (arith, length-append (FrameCodec.write_u16 (length s)) s, length-write_u16 (length s))

  item_bytes : CommitOffsetItemWire → List ℕ
  item_bytes e =
      string_bytes e.topic ++ (FrameCodec.write_u16 e.partition ++ (u64_bytes e.offset ++ []))

  write_commit_item-bytes :
      (w : List ℕ) (e : CommitOffsetItemWire)
      → IsCommitItem e
      → write_commit_item w e ≡ w ++ item_bytes e
  unfolding write_commit_item item_bytes write_u16 write_u32 write_u64
  write_commit_item-bytes w e h =
      rw (write_string-bytes w e.topic h.topic_fits) (simp (append_assoc, append-nil))

  read_commit_item-Reads :
      (e : CommitOffsetItemWire) → IsCommitItem e → Reads read_commit_item (item_bytes e) e
  unfolding read_commit_item item_bytes
  read_commit_item-Reads e h =
      bind-Reads read_string _ (string_bytes e.topic) _ e.topic e
        (read_string-Reads e.topic h.topic_fits)
        (bind-Reads read_u16 _ (FrameCodec.write_u16 e.partition) _ e.partition e
          (read_u16-Reads e.partition h.partition_fits)
          (bind-Reads read_u64 _ (u64_bytes e.offset) [] e.offset e
            (read_u64-Reads e.offset h.offset_fits) (pure-Reads e)))

  length-u64_bytes : (v : ℕ) → length (u64_bytes v) ≡ 8
  length-u64_bytes v = omega (
    arith,
    length-append (FrameCodec.write_u32 (v / 2 ^ 32)) (FrameCodec.write_u32 (v % 2 ^ 32)),
    length-write_u32 (v / 2 ^ 32),
    length-write_u32 (v % 2 ^ 32),
  )

  twelve : (es : List CommitOffsetItemWire) → All (λ e. 12 ≤ length (item_bytes e)) es
  unfolding item_bytes
  twelve [] = tt
  twelve (e ∷ es) = (
    omega (
      arith,
      length-string_bytes e.topic,
      length-append (string_bytes e.topic)
          (FrameCodec.write_u16 e.partition ++ (u64_bytes e.offset ++ [])),
      length-append (FrameCodec.write_u16 e.partition) (u64_bytes e.offset ++ []),
      length-write_u16 e.partition,
      length-append (u64_bytes e.offset) [],
      length-u64_bytes e.offset,
    ),
    twelve es,
  )

  commit_bytes : CommitOffsetRequest → List ℕ
  commit_bytes m =
      string_bytes m.group_id
      ++ (string_bytes m.member_id
          ++ (FrameCodec.write_u32 m.generation
              ++ (FrameCodec.write_u16 m.count ++ (list_bytes item_bytes m.entries ++ []))))

  encode_commit_offset-bytes :
      (m : CommitOffsetRequest) → IsCommitOffset m → encode_commit_offset [] m ≡ commit_bytes m
  unfolding encode_commit_offset commit_bytes write_u32 write_u16
  encode_commit_offset-bytes m h =
      let c : length m.entries % 2 ^ 16 ≡ m.count =
        let k = h.count_fits in let l = h.counted in omega arith in
      rw
        (
          c,
          write_list-bytes item_bytes IsCommitItem write_commit_item write_commit_item-bytes _
              m.entries h.entries_fit,
          write_string-bytes [] m.group_id h.group_id_fits,
          write_string-bytes _ m.member_id h.member_id_fits,
        )
        (simp (append_assoc, append-nil))

  read_commit_offset-Reads :
      (m : CommitOffsetRequest) → IsCommitOffset m → Reads read_commit_offset (commit_bytes m) m
  unfolding read_commit_offset commit_bytes
  read_commit_offset-Reads m h =
      bind-Reads read_string _ (string_bytes m.group_id) _ m.group_id m
        (read_string-Reads m.group_id h.group_id_fits)
        (bind-Reads read_string _ (string_bytes m.member_id) _ m.member_id m
          (read_string-Reads m.member_id h.member_id_fits)
          (bind-Reads read_u32 _ (FrameCodec.write_u32 m.generation) _ m.generation m
            (read_u32-Reads m.generation h.generation_fits)
            (bind-Reads read_u16 _ (FrameCodec.write_u16 m.count) _ m.count m
              (read_u16-Reads m.count h.count_fits)
              (require-Reads (m.count * 12) _ (list_bytes item_bytes m.entries ++ []) m
                (omega (
                  arith,
                  h.counted,
                  length-append (list_bytes item_bytes m.entries) [],
                  length-list_bytes item_bytes 12 m.entries (twelve m.entries),
                ))
                (bind-Reads (read_list read_commit_item m.count) _ (list_bytes item_bytes m.entries)
                  [] m.entries m
                  (rw h.counted (
                    read_list-Reads item_bytes IsCommitItem read_commit_item read_commit_item-Reads
                      m.entries h.entries_fit))
                  (pure-Reads m))))))

  -- A request to commit offsets whose fields fit and that counts its entries is decoded as it was
  -- encoded; the check of the length before the entries are read lets it through.
  pub decode-encode_commit_offset :
      (m : CommitOffsetRequest)
      → IsCommitOffset m
      → decode_with read_commit_offset (encode_commit_offset [] m) ≡ some m
  decode-encode_commit_offset m h =
      rw (encode_commit_offset-bytes m h)
        (decode_with_lem read_commit_offset (commit_bytes m) m (read_commit_offset-Reads m h))
