-- ===== src/Storage.antt =====
-- The durable log: checksums, the record format, the sparse index and the segment files.
pub mod Crc32
pub mod RecordCodec
pub mod File
pub mod OffsetIndex
pub mod LogSegment
pub mod Partition
mod Runs
