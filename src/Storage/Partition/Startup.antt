-- ===== src/Storage/Partition/Startup.antt =====
-- `open_and_recover` of src/Partition.cpp: a partition from the files of its directory.
use stream_forge.Base.{ℕ, List, [], ◌∷◌, Bool, false, not, ◌||◌, Option, none, ltb, if◌then◌else◌}
use stream_forge.Status.{Result, done, error, fault}
use stream_forge.Storage.File.{WriteOutcome, written}
use stream_forge.Storage.LogSegment.{
  LogSegment, init, open_segment, has_sealed_marker, seal, write_sealed_marker,
}
use stream_forge.Storage.LogSegment.Scan.{
  recover_and_rebuild_index, verify_and_rebuild_full, verify_quick,
}
use stream_forge.Storage.Partition.{Partition, StorageConfig}

-- The three files under one base offset, and what the writes of the recovery will come to.
pub record SegmentFiles : Type 0 where
  pub base_offset : ℕ
  pub log_file : List ℕ
  pub index_file : List ℕ
  pub sealed_file : Option (List ℕ)
  pub rewrite : WriteOutcome
  pub marker : WriteOutcome

abbrev pub open_files : StorageConfig → SegmentFiles → LogSegment
open_files config f =
    open_segment
      (init f.base_offset config.index_interval_bytes f.log_file f.index_file f.sealed_file)

-- A segment that is not the last one, and whether it is damaged. The status of a verification is not
-- looked at.
unfoldable pub open_sealed : StorageConfig → SegmentFiles → Result (LogSegment × Bool)
open_sealed config f =
    let seg = open_files config f in
    if not (has_sealed_marker seg)
    then elim (recover_and_rebuild_index seg f.rewrite) [
      | done (seg', next) ↦ done ((write_sealed_marker (seal seg') f.marker).0, false)
      | error s ↦ error s
      | fault ↦ fault
    ]
    else if config.full_scan
    then elim (verify_and_rebuild_full seg f.rewrite) [
      | done (seg', bytes, records, corrupt) ↦ done (seal seg', ltb 0 corrupt)
      | error s ↦ done (seal seg, false)
      | fault ↦ fault
    ]
    else elim (verify_quick seg) [
      | done valid ↦ done (seal seg, not valid)
      | error s ↦ done (seal seg, false)
      | fault ↦ fault
    ]

-- The segments in the order of their base offsets, the next offset, and whether one is damaged.
unfoldable pub open_all :
    StorageConfig → List SegmentFiles → ℕ → Result (List LogSegment × ℕ × Bool)
open_all config [] next = done ([], next, false)
open_all config (f ∷ []) next = elim (recover_and_rebuild_index (open_files config f) f.rewrite) [
  | done (seg, next') ↦ done (seg ∷ [], next', false)
  | error s ↦ error s
  | fault ↦ fault
]
open_all config (f ∷ g ∷ files) next =
    let rest = open_all config (g ∷ files) next in
    elim (open_sealed config f) [
      | done (seg, damaged) ↦ elim rest [
        | done (segs, next', damaged') ↦ done (seg ∷ segs, next', damaged || damaged')
        | error s ↦ error s
        | fault ↦ fault
      ]
      | error s ↦ error s
      | fault ↦ fault
    ]

abbrev pub last_base : List LogSegment → ℕ
last_base [] = 0
last_base (s ∷ []) = s.base_offset
last_base (s ∷ t ∷ segments) = last_base (t ∷ segments)

-- Without any files, those of a new segment at zero.
abbrev pub or_new_segment : List SegmentFiles → List SegmentFiles
or_new_segment [] =
    record {
      base_offset = 0;
      log_file = [];
      index_file = [];
      sealed_file = none;
      rewrite = written;
      marker = written;
    }
    ∷ []
or_new_segment (f ∷ files) = f ∷ files

-- The files are given in the order of their base offsets.
unfoldable pub open_and_recover : Partition → List SegmentFiles → Result Partition
open_and_recover p files = elim (open_all p.config (or_new_segment files) p.next_offset) [
  | done (segs, next, damaged) ↦ done (record p {
    segments = segs;
    next_offset = if ltb next (last_base segs) then last_base segs else next;
    is_degraded = p.is_degraded || damaged;
  })
  | error s ↦ error s
  | fault ↦ fault
]
